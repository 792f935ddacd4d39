-- ===== src/AuditBatch/Follow.antt =====
-- Following the cursors from call to call takes every collection of the catalog once.
use mongo_overview_tool.Base.{
  ℕ, zero, suc, ◌+◌, ◌≤◌, ◌<◌, String, Bool, true, false, List, [], ◌∷◌, ◌++◌, Option, none, some,
  ltb, if◌then◌else◌, str_eq, length, drop, concat, ◌≡◌, refl, sym, ap, ◌∙◌, arith, length-drop,
}
use mongo_overview_tool.Base.Int.{pos}
use mongo_overview_tool.Errors.{Result, ok, err}
use mongo_overview_tool.AuditBatch.{IndexCollectionRef, next_index_audit_batch}
use mongo_overview_tool.AuditBatch.Cut.{next_index_audit_batch_lem, drop-drop}
use mongo_overview_tool.AuditBatch.Cursor.{
  BatchCursor, Codec, Plan, plan_of, signed, encode_index_audit_batch_cursor,
  index_audit_batch_start, index_audit_batch_plan, after_start, max_index_audit_cursor_bytes,
}
use mongo_overview_tool.AuditBatch.Resume.{IsCodec, cursor_at, index_audit_batch_start-encode}

module _ {Text : Type 0} (codec : Codec Text) (scope_hash catalog_hash : String)
    (refs : List IndexCollectionRef) (limit : ℕ) where
  abbrev with_rest :
      (Text → List (List IndexCollectionRef)) → Option Text → List (List IndexCollectionRef)
  with_rest rest none = []
  with_rest rest (some next) = rest next

  abbrev batches_of :
      (Text → List (List IndexCollectionRef)) → Result (Plan codec) → List (List IndexCollectionRef)
  batches_of rest (err e) = []
  batches_of rest (ok plan) = plan.batch ∷ with_rest rest plan.next_cursor

  -- The batches of a caller that hands every cursor back, for so many calls.
  unfoldable pub follow : ℕ → Text → List (List IndexCollectionRef)
  unfolding index_audit_batch_plan
  follow zero raw = []
  follow (suc calls) raw =
      batches_of (follow calls)
        (index_audit_batch_plan codec raw scope_hash catalog_hash refs (pos limit))

  -- The call that begins at start.
  abbrev batch_from : ℕ → List IndexCollectionRef
  batch_from start = next_index_audit_batch (drop start refs) (pos limit)

  plan_from :
      (raw : Text) (start batch_index : ℕ)
      → 1 ≤ limit
      → start < length refs
      → index_audit_batch_start codec raw scope_hash catalog_hash refs
        ≡ ok (pos start, pos batch_index)
      → index_audit_batch_plan codec raw scope_hash catalog_hash refs (pos limit)
        ≡ ok (plan_of codec scope_hash catalog_hash start (pos batch_index) (batch_from start) refs)
  unfolding index_audit_batch_plan after_start
  plan_from raw start batch_index l s e =
      ap (after_start codec scope_hash catalog_hash refs (pos limit)) e
      ∙ ground (
        arith,
        next_index_audit_batch_lem (drop start refs) limit (omega (arith, length-drop start refs))
            l,
      )

drop_all : {A : Type 0} → (n : ℕ) (xs : List A) → length xs ≤ n → drop n xs ≡ []
drop_all zero [] h = refl
drop_all zero (x ∷ xs) h = ground arith
drop_all (suc n) [] h = refl
drop_all (suc n) (x ∷ xs) h = drop_all n xs (omega arith)

module _ {Text : Type 0} (codec : Codec Text) (size : BatchCursor → ℕ) (laws : IsCodec codec size)
    (scope_hash catalog_hash : String) (scope_some : str_eq scope_hash "" ≡ false)
    (catalog_some : str_eq catalog_hash "" ≡ false) (refs : List IndexCollectionRef) (limit : ℕ)
    (some_limit : 1 ≤ limit)
    (fits : (processed batch_index : ℕ)
      → processed < length refs
      → batch_index ≤ length refs
      → let c = signed codec (record {
        version = pos 1;
        scope_hash = scope_hash;
        catalog_hash = catalog_hash;
        processed = pos processed;
        batch_index = pos batch_index;
        signature = "";
      }) in
        (1 ≤ size c) × (size c ≤ max_index_audit_cursor_bytes)) where
  abbrev next_at : ℕ → ℕ → Text
  next_at processed batch_index = encode_index_audit_batch_cursor codec (
      cursor_at codec size laws scope_hash catalog_hash scope_some catalog_some refs processed
        batch_index)

  -- What follows a batch, where the rest is taken of any later beginning.
  rest_from :
      (rest : Text → List (List IndexCollectionRef)) (start k batch_index : ℕ) (more : Bool)
      → ltb (start + k) (length refs) ≡ more
      → (more ≡ true → concat (rest (next_at (start + k) batch_index)) ≡ drop (start + k) refs)
      → concat (
          with_rest codec scope_hash catalog_hash refs limit rest
            (if more then some (next_at (start + k) batch_index) else none))
        ≡ drop (start + k) refs
  rest_from rest start k batch_index true m h = h refl
  rest_from rest start k batch_index false m h = sym (drop_all (start + k) refs (ground arith))

  follow_from :
      (calls start batch_index : ℕ) (raw : Text)
      → index_audit_batch_start codec raw scope_hash catalog_hash refs
        ≡ ok (pos start, pos batch_index)
      → start < length refs
      → length refs ≤ start + calls
      → 1 ≤ batch_index
      → batch_index ≤ start + 1
      → concat (follow codec scope_hash catalog_hash refs limit calls raw) ≡ drop start refs
  unfolding follow
  follow_from zero start batch_index raw e s f b c = ground arith
  follow_from (suc calls) start batch_index raw e s f b c =
      let batch = next_index_audit_batch (drop start refs) (pos limit) in
      let k = length batch in
      let lem =
        next_index_audit_batch_lem (drop start refs) limit (omega (arith, length-drop start refs))
          some_limit in
      let rest = follow codec scope_hash catalog_hash refs limit calls in
      ap (λ p. concat (batches_of codec scope_hash catalog_hash refs limit rest p))
        (plan_from codec scope_hash catalog_hash refs limit raw start batch_index some_limit s e)
      ∙ ap (λ r. batch ++ r)
          (rest_from rest start k batch_index _ refl (λ more.
              let l : start + k < length refs = ground arith in
              let fit = fits (start + k) batch_index l (omega arith) in
              follow_from calls (start + k) (batch_index + 1) (next_at (start + k) batch_index)
                (index_audit_batch_start-encode codec size laws scope_hash catalog_hash scope_some
                  catalog_some refs (start + k) batch_index (omega (arith, lem.1)) l b fit.0 fit.1)
                l (omega (arith, lem.1)) (omega arith) (omega (arith, lem.1)))
            ∙ sym (drop-drop k start refs))
      ∙ lem.0

  -- A caller that starts without a cursor and hands every cursor back gets batches that together
  -- are the catalog, each collection once and in order; as many calls as there are collections are
  -- enough.
  pub follow_complete :
      (raw : Text)
      → codec.is_blank raw ≡ true
      → 1 ≤ length refs
      → concat (follow codec scope_hash catalog_hash refs limit (length refs) raw) ≡ refs
  unfolding index_audit_batch_start
  follow_complete raw h l =
      follow_from (length refs) 0 1 raw (rw h) l (omega arith) (omega arith) (omega arith)
