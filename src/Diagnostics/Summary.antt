-- ===== src/Diagnostics/Summary.antt =====
-- What `summarizeFindings` counts.
use mongo_overview_tool.Base.{
  ℕ, ◌+◌, ◌≤◌, ◌≡◌, ◌⊎◌, ◌∙◌, refl, true, Bool, List, [], ◌∷◌, arith, count, all, length, leb, ◌==◌,
  if◌then◌else◌,
}
use mongo_overview_tool.Diagnostics.{
  Severity, critical, warning, info, other, DiagnosticFinding, FindingSummary, severity_rank,
  count_severity, count_severities, most_severe_of, summarize_findings, empty_summary,
}

abbrev pub has_rank : ℕ → DiagnosticFinding → Bool
has_rank rank f = severity_rank f.severity == rank

count_severity_lem :
    (v : Severity) (s : FindingSummary)
    → ((count_severity v s).critical_count
        ≡ s.critical_count + (if severity_rank v == 0 then 1 else 0))
      × ((count_severity v s).warning_count
          ≡ s.warning_count + (if severity_rank v == 1 then 1 else 0))
      × ((count_severity v s).most_severe ≡ s.most_severe)
      × (s.info_count ≤ (count_severity v s).info_count)
      × ((count_severity v s).critical_count
            + (count_severity v s).warning_count
            + (count_severity v s).info_count
          ≤ s.critical_count + s.warning_count + s.info_count + 1)
unfolding count_severity severity_rank
count_severity_lem critical s = ground arith
count_severity_lem warning s = ground arith
count_severity_lem info s = ground arith
count_severity_lem (other value) s = ground arith

count_severities_lem :
    (fs : List DiagnosticFinding) (s : FindingSummary)
    → ((count_severities fs s).critical_count ≡ s.critical_count + count (has_rank 0) fs)
      × ((count_severities fs s).warning_count ≡ s.warning_count + count (has_rank 1) fs)
      × ((count_severities fs s).most_severe ≡ s.most_severe)
      × ((count_severities fs s).critical_count
            + (count_severities fs s).warning_count
            + (count_severities fs s).info_count
          ≤ s.critical_count + s.warning_count + s.info_count + length fs)
unfolding count_severities count
count_severities_lem [] s = (omega arith, omega arith, refl, omega arith)
count_severities_lem (f ∷ fs) s =
    let ih = count_severities_lem fs (count_severity f.severity s) in
    let step = count_severity_lem f.severity s in
    (
      omega (arith, ih.0, step.0),
      omega (arith, ih.1, step.1),
      ih.2 ∙ step.2,
      omega (arith, ih.3, step.4),
    )

all-rank :
    (rank : ℕ) (fs : List DiagnosticFinding)
    → (rank ≡ 0)
      ⊎ ((rank ≡ 1) × (count (has_rank 0) fs ≡ 0))
      ⊎ ((rank ≡ 2) × (count (has_rank 0) fs ≡ 0) × (count (has_rank 1) fs ≡ 0))
    → all (λ f. leb rank (severity_rank f.severity)) fs ≡ true
unfolding all count
all-rank rank [] h = refl
all-rank rank (f ∷ fs) h = ground (arith, all-rank rank fs)

most_severe-rank :
    (s : FindingSummary) (c w : ℕ)
    → s.critical_count ≡ c
    → s.warning_count ≡ w
    → severity_rank s.most_severe ≡ 2
    → (severity_rank (most_severe_of s) ≡ 0)
      ⊎ ((severity_rank (most_severe_of s) ≡ 1) × (c ≡ 0))
      ⊎ ((severity_rank (most_severe_of s) ≡ 2) × (c ≡ 0) × (w ≡ 0))
unfolding most_severe_of severity_rank
most_severe-rank s c w hc hw h = ground arith

-- The summary counts the critical and the warning findings exactly, counts no finding twice, and
-- names a severity such that no finding of the list is more severe.
pub summarize_findings_lem :
    (fs : List DiagnosticFinding)
    → ((summarize_findings fs).critical_count ≡ count (has_rank 0) fs)
      × ((summarize_findings fs).warning_count ≡ count (has_rank 1) fs)
      × ((summarize_findings fs).critical_count
            + (summarize_findings fs).warning_count
            + (summarize_findings fs).info_count
          ≤ length fs)
      × (all
            (λ f.
              leb (severity_rank (summarize_findings fs).most_severe) (severity_rank f.severity))
            fs
          ≡ true)
unfolding summarize_findings
summarize_findings_lem fs =
    let lem = count_severities_lem fs empty_summary in
    let s = count_severities fs empty_summary in
    (
      omega (arith, lem.0),
      omega (arith, lem.1),
      omega (arith, lem.3),
      all-rank (severity_rank (most_severe_of s)) fs (
          most_severe-rank s (count (has_rank 0) fs) (count (has_rank 1) fs) (omega (arith, lem.0))
            (omega (arith, lem.1)) (rw (lem.2) (unfold severity_rank in refl))),
    )
