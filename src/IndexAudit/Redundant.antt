-- ===== src/IndexAudit/Redundant.antt =====
-- Which pairs of indexes evaluateIndexAuditCollection calls redundant.
use mongo_overview_tool.IndexAudit.Parts.{redundant_part}
use mongo_overview_tool.Base.Search.{any-concat-map, any_and, any-ext}
use mongo_overview_tool.Base.Sort.{any-sort_stable}
use mongo_overview_tool.IndexAudit.Unused.{named}
use mongo_overview_tool.Base.Maps.{any-heads, head_holds}
use mongo_overview_tool.Diagnostics.Sanitize.{evidence_says-IsPublic, evidence_says, has, IsPublic}
use mongo_overview_tool.IndexAudit.Evaluate.{
  first_definition, definition_less, evaluate_index_audit_collection, by_index_name,
  first_index_definitions, redundant_rows, redundant_finding, compatible_index_properties,
  redundant_row, key_prefix,
}
use mongo_overview_tool.IndexAudit.{
  redundant, includes_index_check, IndexAuditOptions, CollectionIndexAudit, IndexObservation,
}
use mongo_overview_tool.Diagnostics.{DiagnosticFinding, is_sensitive_diagnostic_key}
use mongo_overview_tool.Base.{
  map, concat, keep, ◌++◌, any-append, not, ap, sym, ◌||◌, ◌+◌, if◌then◌else◌, ◌∙◌, suc, true, ◌==◌,
  Bool-cases, ◌-◌, get_elem?, ◌≤◌, ℕ, arith, ◌&&◌, any, ◌≡◌, str_eq, List, Bool, String, ◌∷◌, refl,
  inr, inl, false, some, [],
}

-- A finding that one index is a prefix of another.
abbrev pub names_pair : String → String → DiagnosticFinding → Bool
names_pair m n f = evidence_says "indexName" m f && evidence_says "coveringIndexName" n f

names_pair-IsPublic : (m n : String) → IsPublic (names_pair m n)
unfolding is_sensitive_diagnostic_key
names_pair-IsPublic m n f =
    rw (evidence_says-IsPublic "indexName" m refl f)
      (rw (evidence_says-IsPublic "coveringIndexName" n refl f))

abbrev pub is_covered : IndexObservation → IndexObservation → Bool
is_covered a b = compatible_index_properties a b && key_prefix a.key b.key

abbrev pairs : String → String → IndexObservation → IndexObservation → Bool
pairs m n a b = str_eq a.name m && (str_eq b.name n && is_covered a b)

-- A key is no proper prefix of itself.
key_prefix_irrefl : (a : List (String × String)) → key_prefix a a ≡ false
unfolding key_prefix
key_prefix_irrefl a = ground arith

at_zero :
    (i : ℕ) (xs : List IndexObservation) (a : IndexObservation)
    → get_elem? xs (i + 0) ≡ some a
    → get_elem? xs (i - 0) ≡ some a
at_zero i xs a h =
    let same_position : i - 0 ≡ i + 0 = omega arith in ap (λ k. get_elem? xs k) same_position ∙ h

module _ (namespace m n : String) where
  finding_lem :
      (a b : IndexObservation)
      → has "index.redundant_prefix_candidate" (names_pair m n) (redundant_finding namespace a b)
        ≡ (str_eq a.name m && str_eq b.name n)
  unfolding has evidence_says redundant_finding
  finding_lem a b = refl

  row_step :
      (left_out compatible prefix : Bool) (a b : IndexObservation) (rest : List DiagnosticFinding)
      → any (has "index.redundant_prefix_candidate" (names_pair m n)) (
          (if left_out || (not compatible || not prefix)
            then []
            else redundant_finding namespace a b ∷ [])
          ++ rest)
        ≡ ((not left_out && (str_eq a.name m && (str_eq b.name n && (compatible && prefix))))
            || any (has "index.redundant_prefix_candidate" (names_pair m n)) rest)
  unfolding any
  row_step true compatible prefix a b rest = refl
  row_step false true true a b rest = ground (arith, finding_lem a b)
  row_step false false prefix a b rest = ground arith
  row_step false true false a b rest = ground arith

  own_pair : (a b : IndexObservation) → some b ≡ some a → pairs m n a b ≡ false
  own_pair a b h = ground (arith, key_prefix_irrefl a.key)

  shift :
      (i j : ℕ) (a b : IndexObservation) (bs : List IndexObservation)
      → (i == j) ≡ false
      → suc j ≤ i
      → get_elem? (b ∷ bs) (i - j) ≡ some a
      → get_elem? bs (i - suc j) ≡ some a
  shift i j a b bs e le h =
      let step : i - j ≡ suc (i - suc j) = omega arith in
      sym (ap (λ k. get_elem? (b ∷ bs) k) step) ∙ h

  -- The position that the loop over j leaves out is that of a itself.
  row_lem :
      (i : ℕ) (a : IndexObservation) (j : ℕ) (bs : List IndexObservation)
      → (j ≤ i → get_elem? bs (i - j) ≡ some a)
      → any
          (has "index.redundant_prefix_candidate" (names_pair m n))
          (redundant_row namespace i a j bs)
        ≡ any (pairs m n a) bs
  unfolding redundant_row any
  row_lem i a j [] h = refl
  row_lem i a j (b ∷ bs) h =
      row_step (i == j) (compatible_index_properties a b) (key_prefix a.key b.key) a b
        (redundant_row namespace i a (suc j) bs)
      ∙ elim (Bool-cases (i == j)) [
        | inl e ↦ rw e (
            rw (row_lem i a (suc j) bs (λ le. absurd (ground arith)))
              (rw (own_pair a b (ground (arith, h (ground arith)))) refl))
        | inr e ↦
            rw e (rw (row_lem i a (suc j) bs (λ le. shift i j a b bs e le (h (omega arith)))) refl)
      ]

  abbrev all_pairs : List IndexObservation → List IndexObservation → Bool
  all_pairs later definitions = any (λ a. any (pairs m n a) definitions) later

  rows_lem :
      (i : ℕ) (later definitions : List IndexObservation)
      → ((k : ℕ) → get_elem? definitions (i + k) ≡ get_elem? later k)
      → any
          (has "index.redundant_prefix_candidate" (names_pair m n))
          (redundant_rows namespace i later definitions)
        ≡ all_pairs later definitions
  unfolding redundant_rows any
  rows_lem i [] definitions h = refl
  rows_lem i (a ∷ later) definitions h =
      any-append (has "index.redundant_prefix_candidate" (names_pair m n))
        (redundant_row namespace i a 0 definitions) _
      ∙ rw (row_lem i a 0 definitions (λ le. at_zero i definitions a (h 0))) (
          rw
            (rows_lem (suc i) later definitions
              (λ k. ap (λ x. get_elem? definitions x) (omega arith) ∙ h (suc k)))
            refl)

any-first_definition :
    (p : IndexObservation → Bool) (group : String × List IndexObservation)
    → any p (first_definition group) ≡ head_holds p group.1
unfolding any first_definition
any-first_definition p (name, []) = refl
any-first_definition p (name, o ∷ os) = ground arith

-- A test of the definitions of one name is a test of the first observation of that name.
definitions_lem :
    (name : String) (q : IndexObservation → Bool) (indexes : List IndexObservation)
    → any (λ o. str_eq o.name name && q o) (first_index_definitions (by_index_name indexes))
      ≡ head_holds q (keep (named name) indexes)
unfolding first_index_definitions
definitions_lem name q indexes =
    let p = λ (o : IndexObservation). str_eq o.name name && q o in
    let groups = by_index_name indexes in
    any-sort_stable definition_less p (concat (map first_definition groups))
    ∙ any-concat-map p first_definition groups
    ∙ any-ext (λ g. any p (first_definition g)) (λ g. head_holds p g.1) groups
        (any-first_definition p)
    ∙ any-heads name q (λ o. o.name) indexes

pairs_lem :
    (m n : String) (indexes : List IndexObservation)
    → let definitions = first_index_definitions (by_index_name indexes) in
      any (λ a. any (pairs m n a) definitions) definitions
      ≡ head_holds
          (λ a. head_holds (λ b. is_covered a b) (keep (named n) indexes))
          (keep (named m) indexes)
pairs_lem m n indexes =
    let definitions = first_index_definitions (by_index_name indexes) in
    let covered =
      λ (a : IndexObservation). head_holds (λ b. is_covered a b) (keep (named n) indexes) in
    any-ext (λ a. any (pairs m n a) definitions) (λ a. str_eq a.name m && covered a) definitions
      (λ a.
        any_and (str_eq a.name m) (λ b. str_eq b.name n && is_covered a b) definitions
        ∙ ap (λ x. str_eq a.name m && x) (definitions_lem n (is_covered a) indexes))
    ∙ definitions_lem m covered indexes

-- With the check on redundancy, an index m is called redundant because of an index n exactly if the
-- first observation of m and the first of n have equal properties and the key of the one is a proper
-- prefix of the key of the other. Without the check nothing is called so.
pub evaluate_index_audit_collection_redundant :
    (collection : CollectionIndexAudit) (expected_nodes : ℕ) (opts : IndexAuditOptions) (now : ℕ)
    (known : List Bool) (m n : String)
    → any
        (has "index.redundant_prefix_candidate" (names_pair m n))
        (evaluate_index_audit_collection collection expected_nodes opts now known)
      ≡ (includes_index_check opts.checks redundant
          && head_holds
              (λ a. head_holds (λ b. is_covered a b) (keep (named n) collection.indexes))
              (keep (named m) collection.indexes))
evaluate_index_audit_collection_redundant collection expected_nodes opts now known m n =
    let definitions = first_index_definitions (by_index_name collection.indexes) in
    redundant_part "index.redundant_prefix_candidate" (names_pair m n) collection expected_nodes
      opts now known (names_pair-IsPublic m n) refl refl refl refl
    ∙ ap (λ x. includes_index_check opts.checks redundant && x)
        (rows_lem collection.namespace m n 0 definitions definitions
            (λ k. ap (λ x. get_elem? definitions x) (omega arith))
          ∙ pairs_lem m n collection.indexes)
