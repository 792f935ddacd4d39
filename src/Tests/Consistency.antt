-- ===== src/Tests/Consistency.antt =====
-- Runs of the index consistency evaluation on two shards.
use mongo_overview_tool.Consistency.Promise.{evaluate_legacy_index_consistency_agree}
use mongo_overview_tool.Consistency.Tables.{listed}
use mongo_overview_tool.Consistency.Agreed.{semantic_of}
use mongo_overview_tool.Consistency.Confirmed.{
  evaluate_legacy_index_consistency_lem, is_confirmed, candidates_of,
}
use mongo_overview_tool.Consistency.Confirm.{no_differences, evaluate_legacy_index_consistency}
use mongo_overview_tool.Consistency.Legacy.{
  building_index_names, observed_expected_shards, Observations, Definition,
}
use mongo_overview_tool.Base.{
  ◌==◌, length, none, ◌≡◌, refl, true, false, String, List, [], ◌∷◌, some, any, all, not, ◌&&◌,
}
use mongo_overview_tool.Consistency.{
  ConsistencyState, consistent, inconsistent, inconclusive, skipped, Evaluation,
  apply_consistency_coverage_gap, is_inconclusive_difference,
}
use mongo_overview_tool.Consistency.Official.{
  MetadataIssue, SourceType, inconsistent_index, other, evaluate_official_index_consistency, is_gap,
  intersect_expected_shards,
}
use mongo_overview_tool.Consistency.Verdict.{
  is_consistent, is_inconsistent, is_benign, proves, is_warning,
  evaluate_official_index_consistency_lem,
}
use mongo_overview_tool.Consistency.Gap.{apply_consistency_coverage_gap_lem}

abbrev issue : SourceType → MetadataIssue
issue source_type = record {
  source_type = source_type;
  namespace = "shop.orders";
  index_name = "status_1";
  missing_from_shards = "shard02" ∷ [];
  inconsistent_fields = [];
  properties_differ = false;
  shard = "";
  fingerprint = "f";
}

abbrev shards : List String
shards = "shard01" ∷ "shard02" ∷ []

abbrev issues : List MetadataIssue
issues = issue (other "MisplacedCollection") ∷ issue inconsistent_index ∷ []

abbrev evaluation : Evaluation
evaluation = evaluate_official_index_consistency "shop.orders" shards shards issues

evaluation_run : evaluation.state ≡ inconsistent
unfolding evaluate_official_index_consistency
evaluation_run = refl

evaluate_official_index_consistency_example :
    let clean =
      not (is_gap shards (intersect_expected_shards shards shards))
      && all (is_benign "shop.orders") issues in
    (is_consistent evaluation.state ≡ clean)
    × (is_inconsistent evaluation.state ≡ any (proves "shop.orders") issues)
    × (any (λ f. is_warning f.severity) evaluation.findings ≡ any (proves "shop.orders") issues)
    × (any (λ f. true) evaluation.findings ≡ not clean)
evaluate_official_index_consistency_example =
    evaluate_official_index_consistency_lem "shop.orders" shards shards issues

apply_consistency_coverage_gap_example :
    let g = apply_consistency_coverage_gap "shop.orders" evaluation ("shard03" ∷ []) in
    (is_consistent g.state ≡ false)
    × (is_inconsistent g.state ≡ is_inconsistent evaluation.state)
    × (any is_inconclusive_difference g.differences ≡ true)
apply_consistency_coverage_gap_example =
    apply_consistency_coverage_gap_lem "shop.orders" evaluation ("shard03" ∷ [])

abbrev states : List ConsistencyState
states = consistent ∷ inconsistent ∷ skipped ∷ consistent ∷ inconclusive ∷ []

-- An index on one field, as a shard lists it.
abbrev listed_index : String → String → Definition
listed_index name shard = record {
  name = name;
  key = ("status", "1") ∷ [];
  semantic_fingerprint = "s";
  full_fingerprint = "f";
  field_fingerprints = [];
  building = false;
  shard = shard;
}

-- The second shard knows the index under another name.
abbrev observed : Observations
observed =
    ("shard01", listed_index "status_1" "shard01" ∷ [])
    ∷ ("shard02", listed_index "by_status" "shard02" ∷ [])
    ∷ []

abbrev joined : List String → String
joined values = ""

abbrev legacy : Evaluation
legacy = evaluate_legacy_index_consistency joined "shop.orders" shards observed (some observed)

legacy_run : legacy.state ≡ inconsistent
unfolding evaluate_legacy_index_consistency
legacy_run = refl

unconfirmed_run :
    (evaluate_legacy_index_consistency joined "shop.orders" shards observed none).state
    ≡ inconclusive
unfolding evaluate_legacy_index_consistency
unconfirmed_run = refl

evaluate_legacy_index_consistency_example :
    let covered = length (observed_expected_shards shards observed) == length shards in
    let clean =
      not (length shards == 0)
      && (covered
          && (no_differences (candidates_of joined shards observed)
              && (length (building_index_names observed) == 0))) in
    (is_consistent legacy.state ≡ clean)
    × (is_inconsistent legacy.state
        ≡ (not (length shards == 0) && is_confirmed joined shards observed (some observed)))
    × (any (λ f. true) legacy.findings ≡ not clean)
evaluate_legacy_index_consistency_example =
    evaluate_legacy_index_consistency_lem joined "shop.orders" shards observed (some observed)

-- Both shards list the same index.
abbrev agreeing : Observations
agreeing =
    ("shard01", listed_index "status_1" "shard01" ∷ [])
    ∷ ("shard02", listed_index "status_1" "shard02" ∷ [])
    ∷ []

evaluate_legacy_index_consistency_agree_example :
    semantic_of (listed [] [] "status_1" "shard01" agreeing)
    ≡ semantic_of (listed [] [] "status_1" "shard02" agreeing)
unfolding evaluate_legacy_index_consistency any all
evaluate_legacy_index_consistency_agree_example =
    evaluate_legacy_index_consistency_agree joined "shop.orders" shards agreeing none "status_1"
      "shard01" "shard02" refl refl refl refl
