-- ===== src/Consistency/Agreed.antt =====
-- compareLegacyDefinitions finds no difference only if the shards agree.
use mongo_overview_tool.Consistency.Absent.{none_sorted}
use mongo_overview_tool.Consistency.Agreement.{
  same_key_of, nothing_handled, no_name_differences, no_differences_by_name, tables_of,
}
use mongo_overview_tool.Consistency.Confirm.{no_differences}
use mongo_overview_tool.Consistency.Tables.{
  tables_from-AllDistinct, last_visible, entry-tables_from, listed, inner,
}
use mongo_overview_tool.Consistency.Legacy.{
  set_of, differences_by_name, name_mismatches, name_differences, compare_legacy_definitions,
  Observations, or_no_shards, Definition, Names,
}
use mongo_overview_tool.Base.Maps.{or_else, or_else-none, is_there, value_at}
use mongo_overview_tool.Base.{
  map, ltb, not, eq_iff, ◌&&◌, arith, ◌==◌, str_eq, length, if◌then◌else◌, false, sym, ◌∙◌, ap,
  Bool, ◌≡◌, all, String, List, Option, ◌∷◌, refl, true, some, none, [],
}
use mongo_overview_tool.Base.Pigeons.{member, pigeons, all-keys}

-- The semantic fingerprint of a definition, if there is one.
abbrev pub semantic_of : Option Definition → Option String
semantic_of none = none
semantic_of (some d) = some d.semantic_fingerprint

semantic_by :
    (o : Option Definition) (v : String)
    → is_there o ≡ true
    → ((b : Definition) → o ≡ some b → b.semantic_fingerprint ≡ v)
    → semantic_of o ≡ some v
semantic_by none v h k = cc
semantic_by (some b) v h k = ap some (k b refl)

found_inner :
    (o : Option (List (String × Definition))) (s : String) (d : Definition)
    → value_at s (or_no_shards o) ≡ some d
    → o ≡ some (or_no_shards o)
unfolding value_at
found_inner none s d h = cc
found_inner (some m) s d h = refl

from_either :
    (o last : Option Definition) (same : Bool) (d : Definition) (p : Bool)
    → or_else o (if same then last else none) ≡ some d
    → (o ≡ some d → p ≡ true)
    → (same ≡ true → p ≡ true)
    → p ≡ true
from_either none last true d p h k l = l refl
from_either none last false d p h k l = cc
from_either (some x) last same d p h k l = k h

module _ (names semantics : Names) (name : String) where
  listed_key :
      (p : String → Bool) (shard : String) (observations : Observations) (d : Definition)
      → all (λ e. p e.0) observations ≡ true
      → listed names semantics name shard observations ≡ some d
      → p shard ≡ true
  unfolding all
  listed_key p shard [] d h k = cc
  listed_key p shard ((s, ds) ∷ rest) d h k =
      from_either (listed names semantics name shard rest) (last_visible names semantics name ds)
        (str_eq s shard) d (p shard) k (λ e. listed_key p shard rest d (ground arith) e)
        (λ e. ground (arith, eq_iff s shard))

  entry-tables_of :
      (observations : Observations) (shard : String)
      → value_at shard (inner name (tables_of names semantics observations))
        ≡ listed names semantics name shard observations
  unfolding value_at
  entry-tables_of observations shard =
      entry-tables_from names semantics observations _ name shard
      ∙ sym (or_else-none (listed names semantics name shard observations))

  module _ (aggregate_fingerprints : List String → String) (expected : List String) where
    by_name_lem :
        (observations : Observations) (shards : List (String × Definition))
        → no_differences (
            compare_legacy_definitions aggregate_fingerprints expected observations names semantics)
          ≡ true
        → value_at name (tables_of names semantics observations).by_name ≡ some shards
        → no_differences (name_differences aggregate_fingerprints expected name shards) ≡ true
    unfolding compare_legacy_definitions
    by_name_lem observations shards h k =
        let tables = tables_of names semantics observations in
        let mismatches = name_mismatches expected tables.by_semantic in
        let none_by_name = λ (handled : Names).
          no_differences
            (differences_by_name aggregate_fingerprints expected handled tables.by_name) in
        let both : (no_differences mismatches.1 && none_by_name mismatches.0) ≡ true =
          sym (none_sorted mismatches.1 _) ∙ h in
        no_differences_by_name aggregate_fingerprints expected tables.by_name name shards
          (sym (ap none_by_name (nothing_handled expected tables.by_semantic (ground arith)))
            ∙ ground arith)
          k

    -- What one shard lists under a name, every expected shard lists with the same semantics.
    agree :
        (observations : Observations) (s t : String) (d : Definition)
        → all (λ e. member expected e.0) observations ≡ true
        → no_differences (
            compare_legacy_definitions aggregate_fingerprints expected observations names semantics)
          ≡ true
        → member expected t ≡ true
        → listed names semantics name s observations ≡ some d
        → semantic_of (listed names semantics name t observations) ≡ some d.semantic_fingerprint
    unfolding value_at
    agree observations s t d known h k l =
        let tables = tables_of names semantics observations in
        let m = inner name tables in
        let at_s : value_at s m ≡ some d = entry-tables_of observations s ∙ l in
        let same : ((length m == length expected)
              && not (ltb 1 (length (set_of (λ d. d.semantic_fingerprint) (map (λ e. e.1) m) []))))
            ≡ true =
          sym (no_name_differences aggregate_fingerprints expected name m)
          ∙ by_name_lem observations m h (found_inner (value_at name tables.by_name) s d at_s) in
        let keys =
          all-keys (member expected) m
            (tables_from-AllDistinct names semantics observations _ (λ n. tt) name)
            (λ key a e.
              listed_key (member expected) key observations a known
                (sym (entry-tables_of observations key) ∙ e)) in
        let there =
          pigeons m expected t
            (tables_from-AllDistinct names semantics observations _ (λ n. tt) name) keys
            (ground arith) k in
        rw (sym (entry-tables_of observations t)) (
          semantic_by (value_at t m) d.semantic_fingerprint there
            (λ b e. same_key_of (λ d. d.semantic_fingerprint) m t s b d (ground arith) e at_s))

    both_agree :
        (observations : Observations) (s t : String) (o q : Option Definition)
        → ((d : Definition) → o ≡ some d → semantic_of q ≡ some d.semantic_fingerprint)
        → ((d : Definition) → q ≡ some d → semantic_of o ≡ some d.semantic_fingerprint)
        → semantic_of o ≡ semantic_of q
    both_agree observations s t (some d) q h k = sym (h d refl)
    both_agree observations s t none (some d) h k = k d refl
    both_agree observations s t none none h k = refl

    pub compare_legacy_definitions_agree :
        (observations : Observations) (s t : String)
        → all (λ e. member expected e.0) observations ≡ true
        → no_differences (
            compare_legacy_definitions aggregate_fingerprints expected observations names semantics)
          ≡ true
        → member expected s ≡ true
        → member expected t ≡ true
        → semantic_of (listed names semantics name s observations)
          ≡ semantic_of (listed names semantics name t observations)
    compare_legacy_definitions_agree observations s t known h k l =
        both_agree observations s t _ _ (λ d e. agree observations s t d known h l e)
          (λ d e. agree observations t s d known h k e)
