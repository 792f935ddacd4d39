-- ===== src/Consistency/Promise.antt =====
-- What a collection that evaluateLegacyIndexConsistency calls consistent is like.
use mongo_overview_tool.Consistency.Confirmed.{evaluate_legacy_index_consistency_lem}
use mongo_overview_tool.Consistency.Tables.{listed}
use mongo_overview_tool.Consistency.Agreed.{compare_legacy_definitions_agree, semantic_of}
use mongo_overview_tool.Consistency.Confirm.{no_differences, evaluate_legacy_index_consistency}
use mongo_overview_tool.Consistency.Verdict.{is_consistent}
use mongo_overview_tool.Base.Pigeons.{member}
use mongo_overview_tool.Consistency.Legacy.{
  compare_legacy_definitions, building_index_semantics, building_index_names,
  observed_expected_shards, Observations, building_from, add_building, Names, Definition,
}
use mongo_overview_tool.Base.Maps.{value_at, is_there, put}
use mongo_overview_tool.Base.{
  ◌∙◌, sym, ◌&&◌, ap, not, arith, Bool-cases, count-le-length, all, ◌≡◌, length-keep, Option, any,
  ◌==◌, ◌≤◌, length, Bool, List, keep, String, ◌∷◌, if◌then◌else◌, refl, inr, inl, false, true, [],
}

kept_fewer : (p : String → Bool) (xs : List String) → length (keep p xs) ≤ length xs
kept_fewer p xs = rw (length-keep p xs) (count-le-length p xs)

kept_all :
    (p : String → Bool) (xs : List String)
    → (length (keep p xs) == length xs) ≡ true
    → keep p xs ≡ xs
unfolding keep
kept_all p [] h = refl
kept_all p (x ∷ xs) h = elim (Bool-cases (p x)) [
  | inl e ↦ rw e (ap (λ ys. x ∷ ys) (kept_all p xs (ground arith)))
  | inr e ↦ ground (arith, kept_fewer p xs)
]

put_some : (key : String) (names : Names) → (length (put key tt names) == 0) ≡ false
unfolding put
put_some key [] = refl
put_some key ((k, v) ∷ rest) = ground arith

module _ (key : Definition → String) where
  add_building-none :
      (ds : List Definition) (names : Names)
      → (length (add_building key ds names) == 0)
        ≡ (not (any (λ d. d.building) ds) && (length names == 0))
  unfolding add_building any
  add_building-none [] names = refl
  add_building-none (d ∷ ds) names = ground (
    arith,
    add_building-none ds (if d.building then put (key d) tt names else names),
    put_some (key d) names,
  )

  building_from-none :
      (observations : Observations) (names : Names)
      → (length (building_from key observations names) == 0)
        ≡ (not (any (λ e. any (λ d. d.building) e.1) observations) && (length names == 0))
  unfolding building_from any
  building_from-none [] names = refl
  building_from-none ((s, ds) ∷ rest) names =
      ground
        (arith, building_from-none rest (add_building key ds names), add_building-none ds names)

no_names : (names : Names) → (length names == 0) ≡ true → names ≡ []
no_names [] h = refl
no_names (n ∷ names) h = ground arith

module _ (aggregate_fingerprints : List String → String) where
  -- A collection that the legacy evaluation calls consistent, where only expected shards answered:
  -- whatever two of the expected shards are compared under whatever index name, either neither of
  -- them lists an index of that name, or both do, with the same semantic fingerprint.
  pub evaluate_legacy_index_consistency_agree :
      (namespace : String) (expected : List String) (first : Observations)
      (second : Option Observations) (name s t : String)
      → all (λ e. member expected e.0) first ≡ true
      → is_consistent
          (evaluate_legacy_index_consistency aggregate_fingerprints namespace expected first
            second).state
        ≡ true
      → member expected s ≡ true
      → member expected t ≡ true
      → semantic_of (listed [] [] name s first) ≡ semantic_of (listed [] [] name t first)
  unfolding observed_expected_shards building_index_names building_index_semantics
  evaluate_legacy_index_consistency_agree namespace expected first second name s t known h k l =
      let clean =
        sym
          (evaluate_legacy_index_consistency_lem aggregate_fingerprints namespace expected first
            second).0
        ∙ h in
      let covered : observed_expected_shards expected first ≡ expected =
        kept_all (λ shard. is_there (value_at shard first)) expected (ground arith) in
      let no_building : building_index_names first ≡ [] =
        no_names (building_index_names first) (ground arith) in
      let no_semantics : building_index_semantics first ≡ [] =
        no_names (building_index_semantics first) (
          building_from-none (λ d. d.semantic_fingerprint) first []
          ∙ sym (building_from-none (λ d. d.name) first [])
          ∙ ap (λ names. length names == 0) no_building) in
      let none_of = λ (shards : List String) (names semantics : Names).
        no_differences
          (compare_legacy_definitions aggregate_fingerprints shards first names semantics) in
      let none_found : none_of expected [] [] ≡ true =
        sym (
          ap
            (λ shards. none_of shards (building_index_names first) (building_index_semantics first))
            covered
          ∙ ap (λ names. none_of expected names (building_index_semantics first)) no_building
          ∙ ap (λ semantics. none_of expected [] semantics) no_semantics)
        ∙ ground arith in
      compare_legacy_definitions_agree [] [] name aggregate_fingerprints expected first s t known
        none_found k l
