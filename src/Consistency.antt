-- ===== src/Consistency.antt =====
-- pkg/mot/index_consistency.go: the differences between the indexes of shards, their order and their
-- findings. The evaluation of the server's own check is in Consistency/Official.antt, the choice of
-- a strategy in Consistency/Versions.antt.
pub mod Official
pub mod Verdict
pub mod Versions
pub mod Legacy
pub mod Confirm
pub mod Confirmed
pub mod Absent
pub mod Agreement
pub mod Tables
pub mod Agreed
pub mod Promise
pub mod Gap
use mongo_overview_tool.Base.{
  ℕ, suc, String, Bool, true, false, ◌||◌, List, [], ◌∷◌, ◌++◌, map, if◌then◌else◌, codes, lex_lt,
  str_lt, any,
}
use mongo_overview_tool.Base.Sort.{sort_stable}
use mongo_overview_tool.Diagnostics.{
  Severity, info, warning, ScopeType, bare_scope, Value, text, texts, DiagnosticFinding,
  sanitize_and_sort_findings,
}

pub data ConsistencyState : Type 0 where
  consistent inconsistent inconclusive skipped : ConsistencyState

-- `not_covered` is the source's "skipped".
pub data Coverage : Type 0 where
  complete incomplete not_covered : Coverage

-- The codes that a difference can have.
pub data DifferenceCode : Type 0 where
  missing_on_shard name_mismatch spec_mismatch build_in_progress : DifferenceCode
  consistency_inconclusive shard_key_support_missing : DifferenceCode

abbrev pub code_text : DifferenceCode → String
code_text missing_on_shard = "index.missing_on_shard"
code_text name_mismatch = "index.name_mismatch"
code_text spec_mismatch = "index.spec_mismatch"
code_text build_in_progress = "index.build_in_progress"
code_text consistency_inconclusive = "index.consistency_inconclusive"
code_text shard_key_support_missing = "index.shard_key_support_missing"

-- A field of `key` is a name and an order.
pub record Difference : Type 0 where
  pub code : DifferenceCode
  pub index_name : String
  pub shards : List String
  pub key : List (String × String)
  pub fingerprint : String
  pub differing_fields : List String
  pub source_type : String

abbrev pub bare_difference : DifferenceCode → Difference
bare_difference code = record {
  code = code;
  index_name = "";
  shards = [];
  key = [];
  fingerprint = "";
  differing_fields = [];
  source_type = "";
}

pub record Evaluation : Type 0 where
  pub state : ConsistencyState
  pub coverage : Coverage
  pub observed_shards : List String
  pub differences : List Difference
  pub findings : List DiagnosticFinding

-- strings.Join(values, ",")
join : List (List ℕ) → List ℕ
join [] = []
join (v ∷ []) = v
join (v ∷ w ∷ vs) = v ++ (codes "," ++ join (w ∷ vs))

unfoldable pub consistency_difference_signature : Difference → List ℕ
unfolding join
consistency_difference_signature d =
    codes (code_text d.code)
    ++ (0 ∷ codes d.index_name
        ++ (0 ∷ join (map codes d.shards)
            ++ (0 ∷ join (map (λ field. codes field.0 ++ (codes "=" ++ codes field.1)) d.key)
                ++ (0 ∷ codes d.fingerprint
                    ++ (0 ∷ join (map codes d.differing_fields) ++ (0 ∷ codes d.source_type))))))

unfoldable pub normalize_difference : Difference → Difference
unfolding sort_stable str_lt
normalize_difference d = record d {
  shards = sort_stable str_lt d.shards;
  differing_fields = sort_stable str_lt d.differing_fields;
}

unfoldable pub difference_less : Difference → Difference → Bool
unfolding consistency_difference_signature lex_lt
difference_less a b =
    lex_lt (consistency_difference_signature a) (consistency_difference_signature b)

unfoldable pub normalize_and_sort_consistency_differences : List Difference → List Difference
unfolding normalize_difference difference_less sort_stable
normalize_and_sort_consistency_differences differences =
    sort_stable difference_less (map normalize_difference differences)

summary_of : DifferenceCode → String
summary_of missing_on_shard = "索引在部分 expected shards 上缺失"
summary_of name_mismatch = "语义相同的索引在不同 shards 上名称不一致"
summary_of spec_mismatch = "同名索引的持久化定义在不同 shards 上不一致"
summary_of build_in_progress = "索引正在构建，一致性结论暂不稳定"
summary_of consistency_inconclusive = "索引一致性证据不完整或两次观察发生变化"
summary_of shard_key_support_missing = "分片集合缺少支持 shard key 的索引"

unfoldable pub consistency_finding : String → Difference → Severity → DiagnosticFinding
unfolding summary_of
consistency_finding namespace d severity = record {
  code = code_text d.code;
  severity = severity;
  scope = record (bare_scope ScopeType.namespace) { namespace = namespace };
  summary = summary_of d.code;
  evidence =
      ("indexName", text d.index_name)
      ∷ ("shards", texts d.shards)
      ∷ ("fingerprint", text d.fingerprint)
      ∷ ("differingFields", texts d.differing_fields)
      ∷ ("sourceType", text d.source_type)
      ∷ [];
  recommendation = "";
}

abbrev pub severity_of : DifferenceCode → Severity
severity_of missing_on_shard = warning
severity_of name_mismatch = warning
severity_of spec_mismatch = warning
severity_of shard_key_support_missing = warning
severity_of build_in_progress = info
severity_of consistency_inconclusive = info

unfoldable pub consistency_findings_for_differences :
    String → List Difference → List DiagnosticFinding
unfolding consistency_finding sanitize_and_sort_findings
consistency_findings_for_differences namespace differences =
    sanitize_and_sort_findings
      (map (λ d. consistency_finding namespace d (severity_of d.code)) differences)

-- The last steps of an evaluation.
unfoldable pub evaluation_of :
    String → ConsistencyState → Coverage → List String → List Difference → Evaluation
unfolding normalize_and_sort_consistency_differences consistency_findings_for_differences
evaluation_of namespace state coverage observed differences =
    let sorted = normalize_and_sort_consistency_differences differences in
    record {
      state = state;
      coverage = coverage;
      observed_shards = observed;
      differences = sorted;
      findings = consistency_findings_for_differences namespace sorted;
    }

abbrev pub is_inconclusive_difference : Difference → Bool
is_inconclusive_difference d = elim d.code [
  | missing_on_shard ↦ false
  | name_mismatch ↦ false
  | spec_mismatch ↦ false
  | build_in_progress ↦ false
  | consistency_inconclusive ↦ true
  | shard_key_support_missing ↦ false
]

abbrev pub gap_state : ConsistencyState → ConsistencyState
gap_state inconsistent = inconsistent
gap_state _ = inconclusive

unfoldable pub apply_consistency_coverage_gap : String → Evaluation → List String → Evaluation
unfolding any evaluation_of
apply_consistency_coverage_gap namespace e missing =
    let gap = record e { state = gap_state e.state; coverage = incomplete } in
    if any is_inconclusive_difference e.differences
    then gap
    else evaluation_of namespace gap.state incomplete e.observed_shards (
        e.differences
        ++ (record (bare_difference consistency_inconclusive) { shards = missing } ∷ []))

pub record ConsistencySummary : Type 0 where
  pub consistent_count : ℕ
  pub inconsistent_count : ℕ
  pub inconclusive_count : ℕ
  pub skipped_count : ℕ

abbrev pub count_in_summary : ConsistencyState → ConsistencySummary → ConsistencySummary
count_in_summary consistent s = record s { consistent_count = suc s.consistent_count }
count_in_summary inconsistent s = record s { inconsistent_count = suc s.inconsistent_count }
count_in_summary inconclusive s = record s { inconclusive_count = suc s.inconclusive_count }
count_in_summary skipped s = record s { skipped_count = suc s.skipped_count }

-- The loop over the states of the collections.
unfoldable pub summarize_from : List ConsistencyState → ConsistencySummary → ConsistencySummary
summarize_from [] s = s
summarize_from (state ∷ states) s = summarize_from states (count_in_summary state s)

unfoldable pub summarize_index_consistency : List ConsistencyState → ConsistencySummary
unfolding summarize_from
summarize_index_consistency states = summarize_from states (record {
  consistent_count = 0;
  inconsistent_count = 0;
  inconclusive_count = 0;
  skipped_count = 0;
})
