-- ===== src/Consistency/Official.antt =====
-- pkg/mot/index_consistency.go: evaluateOfficialIndexConsistency, on what the server's own metadata
-- check reports.
use mongo_overview_tool.Base.{
  ℕ, suc, String, Bool, true, false, ◌||◌, ◌&&◌, List, [], ◌∷◌, ◌++◌, if◌then◌else◌, not, str_eq,
  length, ltb, ◌==◌, keep, any,
}
use mongo_overview_tool.Consistency.{
  ConsistencyState, consistent, inconsistent, inconclusive, complete, incomplete, Difference,
  missing_on_shard, spec_mismatch, consistency_inconclusive, shard_key_support_missing,
  bare_difference, Evaluation, evaluation_of,
}

-- The types that the switch names, and any other text.
pub data SourceType : Type 0 where
  inconsistent_index missing_shard_key_index range_deletion_missing_shard_key_index : SourceType
  other : String → SourceType

abbrev source_text : SourceType → String
source_text inconsistent_index = "InconsistentIndex"
source_text missing_shard_key_index = "MissingShardKeyIndex"
source_text range_deletion_missing_shard_key_index = "RangeDeletionMissingShardKeyIndex"
source_text (other value) = value

pub record MetadataIssue : Type 0 where
  pub source_type : SourceType
  pub namespace : String
  pub index_name : String
  pub missing_from_shards : List String
  pub inconsistent_fields : List String
  pub properties_differ : Bool
  pub shard : String
  pub fingerprint : String

abbrev is_one_of : String → List String → Bool
is_one_of value [] = false
is_one_of value (t ∷ ts) = str_eq value t || is_one_of value ts

abbrev known_types : List String
known_types =
    "CollectionAuxiliaryMetadataMismatch" ∷ "CollectionOptionsMismatch" ∷ "CollectionUUIDMismatch"
    ∷ "CorruptedChunkShardKey" ∷ "CorruptedZoneShardKey" ∷ "HiddenShardedCollection"
    ∷ "MisplacedCollection" ∷ "MissingLocalCollection" ∷ "MissingRoutingTable"
    ∷ "RoutingTableMissingMaxKey" ∷ "RoutingTableMissingMinKey" ∷ "RoutingTableRangeGap"
    ∷ "RoutingTableRangeOverlap" ∷ "ShardCatalogCacheCollectionMetadataMismatch"
    ∷ "TrackedUnshardedCollectionHasInvalidKey" ∷ "TrackedUnshardedCollectionHasMultipleChunks"
    ∷ "ZonesRangeOverlap" ∷ []

unfoldable pub known_non_index_metadata_source_type : String → Bool
known_non_index_metadata_source_type value = is_one_of value known_types

unfoldable pub intersect_expected_shards : List String → List String → List String
unfolding keep any
intersect_expected_shards expected observed =
    keep (λ shard. any (λ o. str_eq o shard) observed) expected

unfoldable pub missing_observed_shards : List String → List String → List String
unfolding keep any
missing_observed_shards expected observed =
    keep (λ shard. not (any (λ o. str_eq o shard) observed)) expected

-- nonEmptyStrings, of one value
unfoldable pub non_empty_strings : String → List String
non_empty_strings value = if not (str_eq value "") then value ∷ [] else []

-- The variables of the loop over the issues.
pub record Scan : Type 0 where
  pub differences : List Difference
  pub deterministic : ℕ
  pub undecided : Bool

unfoldable pub add_deterministic : Difference → Scan → Scan
add_deterministic d scan = record scan {
  differences = scan.differences ++ (d ∷ []);
  deterministic = suc scan.deterministic;
}

unfoldable pub add_undecided : Difference → Scan → Scan
add_undecided d scan = record scan { differences = scan.differences ++ (d ∷ []); undecided = true }

abbrev is_some : List String → Bool
is_some [] = false
is_some (v ∷ vs) = true

abbrev pub misses : MetadataIssue → Bool
misses issue = is_some issue.missing_from_shards

abbrev pub differs : MetadataIssue → Bool
differs issue = issue.properties_differ || is_some issue.inconsistent_fields

-- The case "InconsistentIndex".
unfoldable pub scan_inconsistent : List String → MetadataIssue → Scan → Scan
unfolding add_deterministic add_undecided
scan_inconsistent expected issue scan =
    let missing =
      if misses issue
      then add_deterministic
          (record (bare_difference missing_on_shard) {
            index_name = issue.index_name;
            shards = issue.missing_from_shards;
            fingerprint = issue.fingerprint;
            source_type = source_text issue.source_type;
          })
          scan
      else scan in
    let mismatch =
      if differs issue
      then add_deterministic
          (record (bare_difference spec_mismatch) {
            index_name = issue.index_name;
            shards = expected;
            differing_fields = issue.inconsistent_fields;
            fingerprint = issue.fingerprint;
            source_type = source_text issue.source_type;
          })
          missing
      else missing in
    if not (misses issue || differs issue)
    then add_undecided
        (record (bare_difference consistency_inconclusive) {
          index_name = issue.index_name;
          source_type = source_text issue.source_type;
        })
        mismatch
    else mismatch

abbrev support_missing : MetadataIssue → Scan → Scan
support_missing issue scan =
    add_deterministic
      (record (bare_difference shard_key_support_missing) {
        shards = non_empty_strings issue.shard;
        source_type = source_text issue.source_type;
      })
      scan

-- The switch.
unfoldable pub scan_type : SourceType → List String → MetadataIssue → Scan → Scan
unfolding scan_inconsistent add_deterministic add_undecided non_empty_strings
    known_non_index_metadata_source_type
scan_type inconsistent_index expected issue scan = scan_inconsistent expected issue scan
scan_type missing_shard_key_index expected issue scan = support_missing issue scan
scan_type range_deletion_missing_shard_key_index expected issue scan = support_missing issue scan
scan_type (other value) expected issue scan =
    if known_non_index_metadata_source_type value
    then scan
    else add_undecided (record (bare_difference consistency_inconclusive) { source_type = value })
        scan

abbrev pub is_elsewhere : String → MetadataIssue → Bool
is_elsewhere namespace issue =
    not (str_eq issue.namespace "") && not (str_eq issue.namespace namespace)

unfoldable pub scan_issues : String → List String → List MetadataIssue → Scan → Scan
unfolding scan_type
scan_issues namespace expected [] scan = scan
scan_issues namespace expected (issue ∷ issues) scan =
    scan_issues namespace expected issues (
      if is_elsewhere namespace issue
      then scan
      else scan_type issue.source_type expected issue scan)

abbrev pub is_gap : List String → List String → Bool
is_gap expected observed_expected =
    length expected == 0 || not (length observed_expected == length expected)

abbrev pub state_of : ℕ → Bool → ConsistencyState
state_of deterministic undecided =
    if ltb 0 deterministic then inconsistent else if undecided then inconclusive else consistent

unfoldable pub evaluate_official_index_consistency :
    String → List String → List String → List MetadataIssue → Evaluation
unfolding intersect_expected_shards missing_observed_shards scan_issues evaluation_of
evaluate_official_index_consistency namespace expected observed issues =
    let observed_expected = intersect_expected_shards expected observed in
    let gap = is_gap expected observed_expected in
    let scan = scan_issues namespace expected issues (record {
      differences =
          if gap
          then record (bare_difference consistency_inconclusive) {
            shards = missing_observed_shards expected observed;
          }
            ∷ []
          else [];
      deterministic = 0;
      undecided = false;
    }) in
    evaluation_of namespace (state_of scan.deterministic (gap || scan.undecided))
      (if gap then incomplete else complete) observed_expected scan.differences
