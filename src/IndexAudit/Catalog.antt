-- ===== src/IndexAudit/Catalog.antt =====
-- What indexCollectionRefs selects, and what the normalized options are.
use mongo_overview_tool.Base.Int.{pos_part}
use mathlib.Core.List.{append-nil, append_assoc}
use mathlib.Core.Option
use mongo_overview_tool.Base.Sort.{sort_stable}
use mongo_overview_tool.AuditBatch.{IndexCollectionRef}
use mongo_overview_tool.IndexAudit.{
  ref_less, is_selected, select_index_collection_refs, sorted_refs, collect_refs, is_over,
  IndexCollectionMetadata, collection_limit_error, index_collection_refs, IndexAuditOptions,
}
use mongo_overview_tool.Errors.{err, ok, Error, collection_limit_exceeded, is, Result}
use mongo_overview_tool.Base.{
  ap, Bool-cases, length-append, ◌++◌, arith, keep, length, ◌+◌, map, ◌≡◌, concat, Bool, Option, ℕ,
  List, String, ◌∷◌, if◌then◌else◌, refl, inr, inl, false, true, some, none, [],
}

abbrev pub accepted : Result (List IndexCollectionRef) → Option (List IndexCollectionRef)
accepted (ok refs) = some refs
accepted (err e) = none

abbrev pub is_limited : Result (List IndexCollectionRef) → Bool
is_limited (ok refs) = false
is_limited (err e) = is e collection_limit_exceeded

-- All databases together, with no regard to the limit.
abbrev pub selection :
    (String → List IndexCollectionMetadata)
    → IndexAuditOptions
    → List String
    → List IndexCollectionRef
selection metadata opts databases = concat (
    map (λ d. select_index_collection_refs d (metadata d) opts.collections)
      (keep (is_selected opts) databases))

limit_error_lem :
    (limit observed : ℕ)
    → is (collection_limit_error limit observed) collection_limit_exceeded ≡ true
unfolding is collection_limit_error
limit_error_lem limit observed = refl

over_mono :
    (opts : IndexAuditOptions) (n m : ℕ) → is_over opts n ≡ true → is_over opts (n + m) ≡ true
over_mono opts n m h = ground arith

abbrev Agrees :
    Result (List IndexCollectionRef) → IndexAuditOptions → List IndexCollectionRef → Type 0
Agrees result opts whole =
    (accepted result ≡ (if is_over opts (length whole) then none else some whole))
    × (is_limited result ≡ is_over opts (length whole))

module _ (metadata : String → List IndexCollectionMetadata) (opts : IndexAuditOptions) where
  over_lem :
      (more rest : List IndexCollectionRef) (e : Error)
      → is_over opts (length more) ≡ true
      → is e collection_limit_exceeded ≡ true
      → Agrees (err e) opts (more ++ rest)
  over_lem more rest e h k =
      rw (length-append more rest) (rw (over_mono opts (length more) (length rest) h) (refl, k))

  collect_refs_lem :
      (databases : List String) (refs : List IndexCollectionRef)
      → is_over opts (length refs) ≡ false
      → Agrees
          (collect_refs (λ d. ok (metadata d)) opts databases refs)
          opts
          (refs ++ selection metadata opts databases)
  unfolding collect_refs keep
  collect_refs_lem [] refs h = rw (append-nil refs) (rw h (refl, refl))
  collect_refs_lem (d ∷ databases) refs h =
      let chosen = select_index_collection_refs d (metadata d) opts.collections in
      let rest = selection metadata opts databases in
      let more = refs ++ chosen in
      elim (Bool-cases (is_selected opts d)) [
        | inr no_database ↦ rw no_database (collect_refs_lem databases refs h)
        | inl selected ↦ rw selected (elim (Bool-cases (is_over opts (length more))) [
          | inl over ↦ rw over (
              rw (← append_assoc refs chosen rest) (
                over_lem more rest _ over
                  (limit_error_lem (pos_part opts.max_collections) (length more))))
          | inr fits ↦
              rw fits (rw (← append_assoc refs chosen rest) (collect_refs_lem databases more fits))
        ])
      ]

sorted_by :
    (over : Bool) (refs : Option (List IndexCollectionRef)) (whole : List IndexCollectionRef)
    → refs ≡ (if over then none else some whole)
    → Option.map (sort_stable ref_less) refs
      ≡ (if over then none else some (sort_stable ref_less whole))
sorted_by true refs whole h = ap (Option.map (sort_stable ref_less)) h
sorted_by false refs whole h = ap (Option.map (sort_stable ref_less)) h

sorted_lem :
    (result : Result (List IndexCollectionRef)) (opts : IndexAuditOptions)
    (whole : List IndexCollectionRef)
    → Agrees result opts whole
    → (accepted (sorted_refs result)
        ≡ (if is_over opts (length whole) then none else some (sort_stable ref_less whole)))
      × (is_limited (sorted_refs result) ≡ is_over opts (length whole))
sorted_lem (ok refs) opts whole a =
    (sorted_by (is_over opts (length whole)) (some refs) whole a.0, a.1)
sorted_lem (err e) opts whole a = (sorted_by (is_over opts (length whole)) none whole a.0, a.1)

-- The loop stops at the first database with which the limit is passed. Where every database can be
-- listed this comes to the same as listing them all: it is the error of the limit exactly if the
-- selected collections are more than the limit, and otherwise all of them in the order of their
-- names.
pub index_collection_refs_lem :
    (metadata : String → List IndexCollectionMetadata) (opts : IndexAuditOptions)
    (databases : List String)
    → let result = index_collection_refs (λ d. ok (metadata d)) opts (ok databases) in
      let whole = selection metadata opts databases in
      (accepted result
        ≡ (if is_over opts (length whole) then none else some (sort_stable ref_less whole)))
      × (is_limited result ≡ is_over opts (length whole))
unfolding index_collection_refs
index_collection_refs_lem metadata opts databases =
    sorted_lem (collect_refs (λ d. ok (metadata d)) opts databases []) opts
      (selection metadata opts databases)
      (collect_refs_lem metadata opts databases [] (ground arith))
