-- ===== src/Slowlog/Window.antt =====
-- The window of time that the summary of a slow log gives, and what a summary says as a whole.
use mongo_overview_tool.Errors.{ok, err}
use mathlib.Core.List.{append-nil, append_assoc}
use mongo_overview_tool.Slowlog.Plans.{add_views_plans, agreeing, changes}
use mongo_overview_tool.Errors.{Result, Error, ok}
use mongo_overview_tool.Slowlog.{
  empty_summary, summary_of_view, Profiler, summary_of_collections,
  database_slowlog_summary_with_limit, note_plan, convert_slowlog_view, DatabaseSlowlogSummary,
  Plans, add_view, SlowlogView, add_views,
}
use mongo_overview_tool.Base.{
  ap, Option, ◌∙◌, none, not, ◌&&◌, ltb, if◌then◌else◌, some, sym, arith, map, ◌||◌, ◌++◌, ◌==◌,
  ◌≡◌, any, leb, Bool, all, List, String, ℕ, ◌∷◌, refl, false, true, [],
}

abbrev pub IsEarliest : ℕ → List SlowlogView → Type 0
IsEarliest time logs =
    (all (λ log. leb time log.min_ts) logs ≡ true) × (any (λ log. time == log.min_ts) logs ≡ true)

abbrev pub IsLatest : ℕ → List SlowlogView → Type 0
IsLatest time logs =
    (all (λ log. leb log.max_ts time) logs ≡ true) × (any (λ log. time == log.max_ts) logs ≡ true)

earlier_one :
    (time before here : ℕ) (a b : Bool)
    → let after = if ltb here before then here else before in
      leb time after ≡ true
      → a ≡ true
      → (time == after || b) ≡ true
      → (leb time before ≡ true)
        × ((leb time here && a) ≡ true)
        × ((time == before || (time == here || b)) ≡ true)
earlier_one time before here a b h k l = (ground arith, ground arith, ground arith)

later_one :
    (time before here : ℕ) (a b : Bool)
    → let after = if ltb before here then here else before in
      leb after time ≡ true
      → a ≡ true
      → (time == after || b) ≡ true
      → (leb before time ≡ true)
        × ((leb here time && a) ≡ true)
        × ((time == before || (time == here || b)) ≡ true)
later_one time before here a b h k l = (ground arith, ground arith, ground arith)

module _ (digest : String → String) where
  earlier :
      (plans : Plans) (logs : List SlowlogView) (s : DatabaseSlowlogSummary)
      → let time = (add_views digest false plans logs s).first_time in
        (leb time s.first_time ≡ true)
        × (all (λ log. leb time log.min_ts) logs ≡ true)
        × ((time == s.first_time || any (λ log. time == log.min_ts) logs) ≡ true)
  unfolding add_views add_view all any
  earlier plans [] s = (ground arith, refl, ground arith)
  earlier plans (log ∷ logs) s =
      let rest = earlier (note_plan plans log) logs (add_view digest false plans log s) in
      earlier_one _ s.first_time log.min_ts _ _ rest.0 rest.1 rest.2

  later :
      (plans : Plans) (logs : List SlowlogView) (s : DatabaseSlowlogSummary)
      → let time = (add_views digest false plans logs s).last_time in
        (leb s.last_time time ≡ true)
        × (all (λ log. leb log.max_ts time) logs ≡ true)
        × ((time == s.last_time || any (λ log. time == log.max_ts) logs) ≡ true)
  unfolding add_views add_view all any
  later plans [] s = (ground arith, refl, ground arith)
  later plans (log ∷ logs) s =
      let rest = later (note_plan plans log) logs (add_view digest false plans log s) in
      later_one _ s.last_time log.max_ts _ _ rest.0 rest.1 rest.2

  listed :
      (is_first : Bool) (plans : Plans) (logs : List SlowlogView) (s : DatabaseSlowlogSummary)
      → (add_views digest is_first plans logs s).items
        ≡ s.items ++ map (λ log. (convert_slowlog_view digest log).0) logs
  unfolding add_views add_view
  listed is_first plans [] s = sym (append-nil s.items)
  listed is_first plans (log ∷ logs) s =
      listed false (note_plan plans log) logs (add_view digest is_first plans log s)
      ∙ append_assoc s.items ((convert_slowlog_view digest log).0 ∷ []) _

both : (a b : Bool) → a ≡ true → b ≡ true → (a && b) ≡ true
both a b h k = ground arith

answered :
    (slot connection : Option Error) (collections : Result (List String)) (logs : List SlowlogView)
    (digest : String → String) (database : String) (summary : DatabaseSlowlogSummary)
    → let p : Profiler = record {
      slot = slot;
      connection = connection;
      collections = collections;
      view = ok logs;
      digest = digest;
    } in
      database_slowlog_summary_with_limit p database ≡ ok (some summary)
      → summary_of_view digest database logs ≡ some summary
unfolding database_slowlog_summary_with_limit summary_of_collections
answered (some e) connection collections logs digest database summary h = cc
answered none (some e) collections logs digest database summary h = cc
answered none none (err e) logs digest database summary h = cc
answered none none (ok []) logs digest database summary h = cc
answered none none (ok (name ∷ names)) logs digest database summary h = cc

abbrev pub IsSummary : (String → String) → List SlowlogView → DatabaseSlowlogSummary → Type 0
IsSummary digest logs summary =
    IsEarliest summary.first_time logs
    × IsLatest summary.last_time logs
    × (summary.items ≡ map (λ log. (convert_slowlog_view digest log).0) logs)
    × (any changes summary.findings ≡ not (agreeing logs))

add_views-IsSummary :
    (digest : String → String) (database : String) (log : SlowlogView) (logs : List SlowlogView)
    → IsSummary digest (log ∷ logs) (add_views digest true [] (log ∷ logs) (empty_summary database))
unfolding add_views add_view all any
add_views-IsSummary digest database log logs =
    let first = add_view digest true [] log (empty_summary database) in
    let e = earlier digest (note_plan [] log) logs first in
    let l = later digest (note_plan [] log) logs first in
    (
      (both _ _ e.0 e.1, e.2),
      (both _ _ l.0 l.1, l.2),
      listed digest true [] (log ∷ logs) (empty_summary database),
      add_views_plans digest database (log ∷ logs),
    )

or_empty_summary : String → Option DatabaseSlowlogSummary → DatabaseSlowlogSummary
or_empty_summary database none = empty_summary database
or_empty_summary database (some summary) = summary

summary_of_view-IsSummary :
    (digest : String → String) (database : String) (logs : List SlowlogView)
    (summary : DatabaseSlowlogSummary)
    → summary_of_view digest database logs ≡ some summary
    → IsSummary digest logs summary
unfolding summary_of_view or_empty_summary
summary_of_view-IsSummary digest database [] summary h = cc
summary_of_view-IsSummary digest database (log ∷ logs) summary h =
    rw (sym (ap (or_empty_summary database) h)) (add_views-IsSummary digest database log logs)

-- If the profiler of a database gives entries and a summary comes of them, its first time is the
-- earliest that an entry has and its last time the latest, each entry is one item, in order, and it
-- reports a change of plans exactly if two entries of the same namespace and query have different
-- plans.
pub database_slowlog_summary_lem :
    (p : Profiler) (database : String) (logs : List SlowlogView) (summary : DatabaseSlowlogSummary)
    → p.view ≡ ok logs
    → database_slowlog_summary_with_limit p database ≡ ok (some summary)
    → IsSummary p.digest logs summary
database_slowlog_summary_lem p database logs summary h k =
    summary_of_view-IsSummary p.digest database logs summary (
      answered p.slot p.connection p.collections logs p.digest database summary (
        sym (
          ap
            (λ (r : Result (List SlowlogView)).
              database_slowlog_summary_with_limit (record p { view = r }) database)
            h)
        ∙ k))
