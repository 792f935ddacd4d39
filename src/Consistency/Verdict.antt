-- ===== src/Consistency/Verdict.antt =====
-- What the evaluation of the server's check concludes, and what it reports.
use mongo_overview_tool.Base.Search.{any-map}
use mongo_overview_tool.Base.Sort.{any-sort_stable, sort_stable}
use mongo_overview_tool.Base.{
  ◌∙◌, ℕ, map, String, Bool, true, false, ◌||◌, ◌&&◌, List, [], ◌∷◌, ◌++◌, if◌then◌else◌, not, ltb,
  any, all, any-append, ◌≡◌, refl, arith,
}
use mongo_overview_tool.Diagnostics.{
  finding_less, DiagnosticFinding, sanitize_finding, sanitize_and_sort_findings, Severity, warning,
}
use mongo_overview_tool.Base.Sort.{sort_stable}
use mongo_overview_tool.Consistency.{
  difference_less, bare_difference, consistency_inconclusive, consistent, inconsistent,
  normalize_difference, consistency_finding, evaluation_of,
  normalize_and_sort_consistency_differences, ConsistencyState,
  consistency_findings_for_differences, Difference, severity_of,
}
use mongo_overview_tool.Consistency.Official.{
  missing_observed_shards, intersect_expected_shards, is_gap, state_of,
  evaluate_official_index_consistency, SourceType, inconsistent_index, missing_shard_key_index,
  range_deletion_missing_shard_key_index, other, MetadataIssue,
  known_non_index_metadata_source_type, Scan, add_deterministic, add_undecided, misses, differs,
  scan_inconsistent, scan_type, is_elsewhere, scan_issues,
}

-- An issue of the namespace that proves a difference between shards.
abbrev pub proves_type : SourceType → MetadataIssue → Bool
proves_type inconsistent_index issue = misses issue || differs issue
proves_type missing_shard_key_index issue = true
proves_type range_deletion_missing_shard_key_index issue = true
proves_type (other value) issue = false

abbrev pub proves : String → MetadataIssue → Bool
proves namespace issue = not (is_elsewhere namespace issue) && proves_type issue.source_type issue

-- An issue that is of another namespace, or known to say nothing of indexes.
abbrev pub is_benign_type : SourceType → Bool
is_benign_type (other value) = known_non_index_metadata_source_type value
is_benign_type t = false

abbrev pub is_benign : String → MetadataIssue → Bool
is_benign namespace issue = is_elsewhere namespace issue || is_benign_type issue.source_type

abbrev pub is_warning : Severity → Bool
is_warning warning = true
is_warning s = false

abbrev pub warns : Difference → Bool
warns d = is_warning (severity_of d.code)

abbrev pub nothing : List Difference → Bool
nothing [] = true
nothing (d ∷ ds) = false

nothing-append : (ds es : List Difference) → nothing (ds ++ es) ≡ (nothing ds && nothing es)
nothing-append [] es = refl
nothing-append (d ∷ ds) es = refl

-- What a scan has found so far.
abbrev Found : Scan → Bool → Bool → Scan → Type 0
Found before proved benign scan =
    (ltb 0 scan.deterministic ≡ (ltb 0 before.deterministic || proved))
    × ((not (ltb 0 scan.deterministic) && not scan.undecided)
        ≡ ((not (ltb 0 before.deterministic) && not before.undecided) && benign))
    × (any warns scan.differences ≡ (any warns before.differences || proved))
    × (nothing scan.differences ≡ (nothing before.differences && benign))

deterministic_lem :
    (d : Difference) (scan : Scan)
    → warns d ≡ true
    → Found scan true false (add_deterministic d scan)
unfolding add_deterministic any
deterministic_lem d scan h =
    ground
      (arith, any-append warns scan.differences (d ∷ []), nothing-append scan.differences (d ∷ []))

undecided_lem :
    (d : Difference) (scan : Scan) → warns d ≡ false → Found scan false false (add_undecided d scan)
unfolding add_undecided any
undecided_lem d scan h =
    ground
      (arith, any-append warns scan.differences (d ∷ []), nothing-append scan.differences (d ∷ []))

none_lem : (scan : Scan) → Found scan false true scan
none_lem scan = ground arith

scan_inconsistent_lem :
    (misses_some differs_some : Bool) (missing mismatch gap : Difference) (scan : Scan)
    → warns missing ≡ true
    → warns mismatch ≡ true
    → warns gap ≡ false
    → let first = if misses_some then add_deterministic missing scan else scan in
      let second = if differs_some then add_deterministic mismatch first else first in
      Found scan
        (misses_some || differs_some)
        false
        (if not (misses_some || differs_some) then add_undecided gap second else second)
scan_inconsistent_lem true true missing mismatch gap scan a b c = ground (
  arith,
  deterministic_lem missing scan a,
  deterministic_lem mismatch (add_deterministic missing scan) b,
)
scan_inconsistent_lem true false missing mismatch gap scan a b c = deterministic_lem missing scan a
scan_inconsistent_lem false true missing mismatch gap scan a b c = deterministic_lem mismatch scan b
scan_inconsistent_lem false false missing mismatch gap scan a b c = undecided_lem gap scan c

scan_other :
    (known : Bool) (d : Difference) (scan : Scan)
    → warns d ≡ false
    → Found scan false known (if known then scan else add_undecided d scan)
scan_other true d scan h = none_lem scan
scan_other false d scan h = undecided_lem d scan h

scan_type_lem :
    (t : SourceType) (expected : List String) (issue : MetadataIssue) (scan : Scan)
    → Found scan (proves_type t issue) (is_benign_type t) (scan_type t expected issue scan)
unfolding scan_type scan_inconsistent
scan_type_lem inconsistent_index expected issue scan =
    scan_inconsistent_lem (misses issue) (differs issue) _ _ _ scan refl refl refl
scan_type_lem missing_shard_key_index expected issue scan = deterministic_lem _ scan refl
scan_type_lem range_deletion_missing_shard_key_index expected issue scan =
    deterministic_lem _ scan refl
scan_type_lem (other value) expected issue scan = scan_other _ _ scan refl

step_lem :
    (elsewhere : Bool) (expected : List String) (issue : MetadataIssue) (scan : Scan)
    → Found scan
        (not elsewhere && proves_type issue.source_type issue)
        (elsewhere || is_benign_type issue.source_type)
        (if elsewhere then scan else scan_type issue.source_type expected issue scan)
step_lem true expected issue scan = none_lem scan
step_lem false expected issue scan = scan_type_lem issue.source_type expected issue scan

or_then : (x p q y z : Bool) → y ≡ (x || p) → z ≡ (y || q) → z ≡ (x || (p || q))
or_then x p q y z h k = ground (arith, h, k)

and_then : (x p q y z : Bool) → y ≡ (x && p) → z ≡ (y && q) → z ≡ (x && (p && q))
and_then x p q y z h k = ground (arith, h, k)

Found-then :
    (a b c : Scan) (p q p' q' : Bool)
    → Found a p q b
    → Found b p' q' c
    → Found a (p || p') (q && q') c
Found-then a b c p q p' q' f g = (
  or_then _ p p' _ _ f.0 g.0,
  and_then _ q q' _ _ f.1 g.1,
  or_then _ p p' _ _ f.2 g.2,
  and_then _ q q' _ _ f.3 g.3,
)

scan_issues_lem :
    (namespace : String) (expected : List String) (issues : List MetadataIssue) (scan : Scan)
    → Found scan
        (any (proves namespace) issues)
        (all (is_benign namespace) issues)
        (scan_issues namespace expected issues scan)
unfolding scan_issues any all
scan_issues_lem namespace expected [] scan = ground arith
scan_issues_lem namespace expected (issue ∷ issues) scan =
    let after =
      if is_elsewhere namespace issue
      then scan
      else scan_type issue.source_type expected issue scan in
    Found-then scan after (scan_issues namespace expected issues after) (proves namespace issue)
      (is_benign namespace issue) (any (proves namespace) issues) (all (is_benign namespace) issues)
      (step_lem (is_elsewhere namespace issue) expected issue scan)
      (scan_issues_lem namespace expected issues after)

-- A test that normalizing and turning into findings keep is answered by the differences.
pub any-findings :
    (p : Severity → Bool) (namespace : String) (ds : List Difference)
    → any
        (λ f. p f.severity)
        (consistency_findings_for_differences namespace
          (normalize_and_sort_consistency_differences ds))
      ≡ any (λ d. p (severity_of d.code)) ds
unfolding consistency_findings_for_differences normalize_and_sort_consistency_differences
    sanitize_and_sort_findings sanitize_finding consistency_finding normalize_difference
any-findings p namespace ds =
    let q = λ (f : DiagnosticFinding). p f.severity in
    let found = λ (d : Difference). consistency_finding namespace d (severity_of d.code) in
    let sorted = sort_stable difference_less (map normalize_difference ds) in
    any-sort_stable finding_less q (map sanitize_finding (map found sorted))
    ∙ any-map q sanitize_finding (map found sorted)
    ∙ any-map (λ f. q (sanitize_finding f)) found sorted
    ∙ any-sort_stable difference_less (λ d. p (severity_of d.code)) (map normalize_difference ds)
    ∙ any-map (λ d. p (severity_of d.code)) normalize_difference ds

pub any-all : (ds : List Difference) → any (λ d. true) ds ≡ not (nothing ds)
unfolding any
any-all [] = refl
any-all (d ∷ ds) = refl

abbrev pub is_consistent : ConsistencyState → Bool
is_consistent consistent = true
is_consistent s = false

abbrev pub is_inconsistent : ConsistencyState → Bool
is_inconsistent inconsistent = true
is_inconsistent s = false

state_lem :
    (deterministic : ℕ) (undecided : Bool)
    → (is_consistent (state_of deterministic undecided)
        ≡ (not (ltb 0 deterministic) && not undecided))
      × (is_inconsistent (state_of deterministic undecided) ≡ ltb 0 deterministic)
state_lem deterministic undecided = ground arith

main_lem :
    (gap : Bool) (first : Difference) (scan : Scan) (proved benign : Bool)
    → warns first ≡ false
    → Found
        (record {
          differences = if gap then first ∷ [] else [];
          deterministic = 0;
          undecided = false;
        })
        proved
        benign
        scan
    → ((not (ltb 0 scan.deterministic) && not (gap || scan.undecided)) ≡ (not gap && benign))
      × (ltb 0 scan.deterministic ≡ proved)
      × (any warns scan.differences ≡ proved)
      × (not (nothing scan.differences) ≡ not (not gap && benign))
unfolding any
main_lem true first scan proved benign w f = ground (arith, f, w)
main_lem false first scan proved benign w f = ground (arith, f)

-- A collection is called consistent exactly if every expected shard was observed, there is one at
-- least, and no issue of the namespace is about indexes or of an unknown type; inconsistent exactly
-- if some issue proves a difference. There is a warning exactly in the second case, and no finding
-- at all exactly in the first.
pub evaluate_official_index_consistency_lem :
    (namespace : String) (expected observed : List String) (issues : List MetadataIssue)
    → let e = evaluate_official_index_consistency namespace expected observed issues in
      let clean =
        not (is_gap expected (intersect_expected_shards expected observed))
        && all (is_benign namespace) issues in
      (is_consistent e.state ≡ clean)
      × (is_inconsistent e.state ≡ any (proves namespace) issues)
      × (any (λ f. is_warning f.severity) e.findings ≡ any (proves namespace) issues)
      × (any (λ f. true) e.findings ≡ not clean)
unfolding evaluate_official_index_consistency evaluation_of
evaluate_official_index_consistency_lem namespace expected observed issues =
    let gap = is_gap expected (intersect_expected_shards expected observed) in
    let first : Difference = record (bare_difference consistency_inconclusive) {
      shards = missing_observed_shards expected observed;
    } in
    let start : Scan = record {
      differences = if gap then first ∷ [] else [];
      deterministic = 0;
      undecided = false;
    } in
    let scan = scan_issues namespace expected issues start in
    let m =
      main_lem gap first scan (any (proves namespace) issues) (all (is_benign namespace) issues)
        refl (scan_issues_lem namespace expected issues start) in
    let state = state_lem scan.deterministic (gap || scan.undecided) in
    (
      state.0 ∙ m.0,
      state.1 ∙ m.1,
      any-findings is_warning namespace scan.differences ∙ m.2,
      any-findings (λ s. true) namespace scan.differences ∙ any-all scan.differences ∙ m.3,
    )
