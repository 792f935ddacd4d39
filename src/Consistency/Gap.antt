-- ===== src/Consistency/Gap.antt =====
-- What a gap in the coverage and the summary over the collections do to the verdicts.
use mongo_overview_tool.Base.Search.{any-map}
use mongo_overview_tool.Base.{
  ◌+◌, String, Bool, true, false, List, [], ◌∷◌, ◌++◌, map, if◌then◌else◌, any, any-append, count,
  length, ◌≡◌, refl, ◌∙◌, arith,
}
use mongo_overview_tool.Base.Sort.{any-sort_stable}
use mongo_overview_tool.Consistency.{
  ConsistencyState, consistent, inconsistent, inconclusive, skipped, Difference,
  consistency_inconclusive, bare_difference, Evaluation, evaluation_of, gap_state,
  is_inconclusive_difference, apply_consistency_coverage_gap, incomplete,
  summarize_index_consistency, normalize_difference, difference_less,
  normalize_and_sort_consistency_differences, ConsistencySummary, summarize_from, count_in_summary,
}
use mongo_overview_tool.Consistency.Verdict.{is_consistent, is_inconsistent}

gap_state_lem :
    (s : ConsistencyState)
    → (is_consistent (gap_state s) ≡ false) × (is_inconsistent (gap_state s) ≡ is_inconsistent s)
gap_state_lem consistent = (refl, refl)
gap_state_lem inconsistent = (refl, refl)
gap_state_lem inconclusive = (refl, refl)
gap_state_lem skipped = (refl, refl)

with_gap :
    (ds : List Difference) (missing : List String)
    → any is_inconclusive_difference (
        normalize_and_sort_consistency_differences
          (ds ++ (record (bare_difference consistency_inconclusive) { shards = missing } ∷ [])))
      ≡ true
unfolding normalize_and_sort_consistency_differences normalize_difference any
with_gap ds missing =
    let gap : Difference = record (bare_difference consistency_inconclusive) { shards = missing } in
    any-sort_stable difference_less is_inconclusive_difference
      (map normalize_difference (ds ++ (gap ∷ [])))
    ∙ any-map is_inconclusive_difference normalize_difference (ds ++ (gap ∷ []))
    ∙ any-append is_inconclusive_difference ds (gap ∷ [])
    ∙ ground arith

gap_by :
    (namespace : String) (e : Evaluation) (missing : List String) (stated : Bool)
    → any is_inconclusive_difference e.differences ≡ stated
    → let gap = record e { state = gap_state e.state; coverage = incomplete } in
      let g =
        if stated
        then gap
        else evaluation_of namespace gap.state incomplete e.observed_shards (
            e.differences
            ++ (record (bare_difference consistency_inconclusive) { shards = missing } ∷ [])) in
      (is_consistent g.state ≡ false)
      × (is_inconsistent g.state ≡ is_inconsistent e.state)
      × (any is_inconclusive_difference g.differences ≡ true)
unfolding evaluation_of
gap_by namespace e missing true h = ((gap_state_lem e.state).0, (gap_state_lem e.state).1, h)
gap_by namespace e missing false h =
    ((gap_state_lem e.state).0, (gap_state_lem e.state).1, with_gap e.differences missing)

-- Once shards were missing an evaluation is not consistent, it is inconsistent exactly if it was
-- so before, and it says among its differences that it is inconclusive.
pub apply_consistency_coverage_gap_lem :
    (namespace : String) (e : Evaluation) (missing : List String)
    → let g = apply_consistency_coverage_gap namespace e missing in
      (is_consistent g.state ≡ false)
      × (is_inconsistent g.state ≡ is_inconsistent e.state)
      × (any is_inconclusive_difference g.differences ≡ true)
unfolding apply_consistency_coverage_gap
apply_consistency_coverage_gap_lem namespace e missing =
    gap_by namespace e missing (any is_inconclusive_difference e.differences) refl

summarize_from_lem :
    (states : List ConsistencyState) (s : ConsistencySummary)
    → ((summarize_from states s).consistent_count ≡ count is_consistent states + s.consistent_count)
      × ((summarize_from states s).inconsistent_count
          ≡ count is_inconsistent states + s.inconsistent_count)
      × ((summarize_from states s).consistent_count
            + (summarize_from states s).inconsistent_count
            + (summarize_from states s).inconclusive_count
            + (summarize_from states s).skipped_count
          ≡ length states
            + (s.consistent_count + s.inconsistent_count + s.inconclusive_count + s.skipped_count))
unfolding summarize_from count
summarize_from_lem [] s = ground arith
summarize_from_lem (consistent ∷ states) s =
    ground (arith, summarize_from_lem states (count_in_summary consistent s))
summarize_from_lem (inconsistent ∷ states) s =
    ground (arith, summarize_from_lem states (count_in_summary inconsistent s))
summarize_from_lem (inconclusive ∷ states) s =
    ground (arith, summarize_from_lem states (count_in_summary inconclusive s))
summarize_from_lem (skipped ∷ states) s =
    ground (arith, summarize_from_lem states (count_in_summary skipped s))

-- The summary counts the consistent and the inconsistent collections exactly, and every collection
-- once.
pub summarize_index_consistency_lem :
    (states : List ConsistencyState)
    → let s = summarize_index_consistency states in
      (s.consistent_count ≡ count is_consistent states)
      × (s.inconsistent_count ≡ count is_inconsistent states)
      × (s.consistent_count + s.inconsistent_count + s.inconclusive_count + s.skipped_count
          ≡ length states)
unfolding summarize_index_consistency
summarize_index_consistency_lem states = ground (
  arith,
  summarize_from_lem states (record {
    consistent_count = 0;
    inconsistent_count = 0;
    inconclusive_count = 0;
    skipped_count = 0;
  }),
)
