-- ===== src/Consistency/Confirm.antt =====
-- pkg/mot/index_consistency.go: evaluateLegacyIndexConsistency, which believes a difference only if a
-- second observation shows it again, and confirmLegacyDifferences, which asks for the second one.
use mongo_overview_tool.Diagnostics.{info}
use mongo_overview_tool.Base.Maps.{put}
use mongo_overview_tool.Consistency.Legacy.{
  compare_legacy_definitions, missing_expected_shards, building_index_semantics, Observations,
  set_of, observed_expected_shards, building_index_names, Names,
}
use mongo_overview_tool.Consistency.{
  missing_on_shard, name_mismatch, spec_mismatch, shard_key_support_missing, complete, incomplete,
  consistent, consistency_inconclusive, inconclusive, Evaluation, consistency_finding,
  evaluation_of, inconsistent, consistency_difference_signature, ConsistencyState,
  build_in_progress, bare_difference, Difference,
}
use mongo_overview_tool.Base.{
  map, ◌++◌, ◌||◌, ◌==◌, keep, length, any, not, Option, lex_eq, Bool, String, List, ◌∷◌,
  if◌then◌else◌, false, true, some, none, [],
}

abbrev pub same_signature : Difference → Difference → Bool
same_signature a b =
    lex_eq (consistency_difference_signature a) (consistency_difference_signature b)

-- What the comparison of the two observations comes to. `building` are the names of both.
pub record Confirmation : Type 0 where
  pub stable : List Difference
  pub changed : Bool
  pub gap : Bool
  pub building : Names

abbrev pub unconfirmed : Names → Confirmation
unconfirmed building = record { stable = []; changed = true; gap = true; building = building }

abbrev pub no_differences : List Difference → Bool
no_differences [] = true
no_differences (d ∷ ds) = false

unfoldable pub add_all : Names → Names → Names
unfolding put
add_all [] names = names
add_all ((name, value) ∷ rest) names = add_all rest (put name tt names)

abbrev pub building_difference : String → Difference
building_difference name = record (bare_difference build_in_progress) { index_name = name }

abbrev pub legacy_state : Confirmation → Bool → ConsistencyState
legacy_state c is_incomplete =
    if not (no_differences c.stable)
    then inconsistent
    else if not (length c.building == 0) || (c.changed || is_incomplete)
    then inconclusive
    else consistent

-- affectedConsistencyShards: what one difference adds.
add_affected : List String → Observations → Difference → Names → Names
unfolding set_of observed_expected_shards
add_affected expected first d names =
    let own = set_of (λ shard. shard) d.shards names in
    elim d.code [
      | missing_on_shard ↦ set_of (λ shard. shard) (observed_expected_shards expected first) own
      | name_mismatch ↦ own
      | spec_mismatch ↦ own
      | build_in_progress ↦ own
      | consistency_inconclusive ↦ own
      | shard_key_support_missing ↦ own
    ]

affected_from : List String → Observations → List Difference → Names → Names
unfolding add_affected
affected_from expected first [] names = names
affected_from expected first (d ∷ ds) names =
    affected_from expected first ds (add_affected expected first d names)

unfoldable pub affected_consistency_shards : List String → Observations → List Difference → Names
unfolding affected_from
affected_consistency_shards expected first differences = affected_from expected first differences []

module _ (aggregate_fingerprints : List String → String) where
  -- Both observations are there, and the second one of every shard that is compared.
  unfoldable pub confirm_again :
      List String → Observations → Names → Names → List Difference → Confirmation
  unfolding building_index_names building_index_semantics add_all compare_legacy_definitions any
      keep consistency_difference_signature lex_eq
  confirm_again shards second building_names building_semantics candidates =
      let names = add_all (building_index_names second) building_names in
      let semantics = add_all (building_index_semantics second) building_semantics in
      let again = compare_legacy_definitions aggregate_fingerprints shards second names semantics in
      let is_confirmed =
        λ (candidate : Difference). any (λ other. same_signature candidate other) again in
      record {
        stable = keep is_confirmed candidates;
        changed = any (λ candidate. not (is_confirmed candidate)) candidates;
        gap = false;
        building = names;
      }

  unfoldable pub confirm :
      List String → Option Observations → Names → Names → List Difference → Confirmation
  unfolding confirm_again observed_expected_shards
  confirm shards second building_names building_semantics [] = record {
    stable = [];
    changed = false;
    gap = false;
    building = building_names;
  }
  confirm shards none building_names building_semantics (c ∷ cs) = unconfirmed building_names
  confirm shards (some second) building_names building_semantics (c ∷ cs) =
      if not (length (observed_expected_shards shards second) == length shards)
      then unconfirmed building_names
      else confirm_again shards second building_names building_semantics (c ∷ cs)

  unfoldable pub evaluate_legacy_index_consistency :
      String → List String → Observations → Option Observations → Evaluation
  unfolding observed_expected_shards missing_expected_shards building_index_names
      building_index_semantics compare_legacy_definitions confirm evaluation_of consistency_finding
  evaluate_legacy_index_consistency namespace expected first second =
      let shards = observed_expected_shards expected first in
      let is_gap = not (length shards == length expected) in
      let building_names = building_index_names first in
      let building_semantics = building_index_semantics first in
      let candidates =
        compare_legacy_definitions aggregate_fingerprints shards first building_names
          building_semantics in
      let c = confirm shards second building_names building_semantics candidates in
      let is_incomplete = is_gap || c.gap in
      let inconclusive_difference = bare_difference consistency_inconclusive in
      if length expected == 0
      then record {
        state = inconclusive;
        coverage = incomplete;
        observed_shards = shards;
        differences = inconclusive_difference ∷ [];
        findings = consistency_finding namespace inconclusive_difference info ∷ [];
      }
      else evaluation_of namespace (legacy_state c is_incomplete)
          (if is_incomplete then incomplete else complete) shards
          ((if is_gap
              then record inconclusive_difference {
                shards = missing_expected_shards expected first;
              }
                ∷ []
              else [])
            ++ (map (λ e. building_difference e.0) c.building
                ++ (c.stable ++ (if c.changed then inconclusive_difference ∷ [] else []))))
