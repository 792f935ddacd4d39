-- ===== src/Slowlog/Plans.antt =====
-- When the summary of a slow log reports that the plan of a query changed.
use mongo_overview_tool.Base.Maps.{value_at-put, put, value_at}
use mongo_overview_tool.Diagnostics.{DiagnosticFinding}
use mongo_overview_tool.Slowlog.{
  empty_summary, DatabaseSlowlogSummary, convert_slowlog_view, add_view, finding, add_views,
  plan_findings, view_findings, plan_key, note_plan, plan_changed, Plans, SlowlogView,
}
use mongo_overview_tool.Base.{
  any-append, ◌++◌, any, eq_iff, ◌∙◌, arith, Bool-cases, sym, ap, ◌||◌, ◌≡◌, str_eq, String, ◌&&◌,
  not, Bool, all, Option, List, ◌∷◌, refl, inr, inl, false, true, some, none, [],
}

abbrev pub agree : SlowlogView → SlowlogView → Bool
agree l m = not (str_eq (plan_key l) (plan_key m)) || str_eq l.plan_summary m.plan_summary

-- Entries of the same query have the same plan.
abbrev pub agreeing : List SlowlogView → Bool
agreeing [] = true
agreeing (l ∷ ls) = all (agree l) ls && agreeing ls

abbrev fits : Option String → String → Bool
fits none plan = true
fits (some previous) plan = str_eq previous plan

abbrev agrees : Plans → SlowlogView → Bool
agrees plans l = fits (value_at (plan_key l) plans) l.plan_summary

abbrev pub changes : DiagnosticFinding → Bool
changes f = str_eq f.code "query.plan_changed"

-- Whether the plan changes at some entry.
any_changed : Plans → List SlowlogView → Bool
unfolding plan_changed note_plan
any_changed plans [] = false
any_changed plans (l ∷ ls) = plan_changed plans l || any_changed (note_plan plans l) ls

same_value :
    (plans : Plans) (k j : String) → str_eq k j ≡ true → value_at j plans ≡ value_at k plans
same_value plans k j e = ap (λ x. value_at x plans) (sym ((eq_iff k j).0 e))

known_one :
    (plans : Plans) (k j p q : String)
    → value_at k plans ≡ some p
    → fits (value_at j plans) q ≡ true
    → (not (str_eq k j) || str_eq p q) ≡ true
known_one plans k j p q h f = elim (Bool-cases (str_eq k j)) [
  | inl e ↦ rw e (sym (ap (λ o. fits o q) (same_value plans k j e ∙ h)) ∙ f)
  | inr e ↦ rw e refl
]

known_lem :
    (plans : Plans) (l : SlowlogView) (ls : List SlowlogView)
    → value_at (plan_key l) plans ≡ some l.plan_summary
    → all (agrees plans) ls ≡ true
    → all (agree l) ls ≡ true
unfolding all
known_lem plans l [] h k = refl
known_lem plans l (m ∷ ms) h k = ground (
  arith,
  known_one plans (plan_key l) (plan_key m) l.plan_summary m.plan_summary h,
  known_lem plans l ms h,
)

and_true : (b : Bool) → b ≡ (b && true)
and_true true = refl
and_true false = refl

fresh_one :
    (plans : Plans) (k j p q : String)
    → value_at k plans ≡ none
    → fits (value_at j (put k p plans)) q
      ≡ (fits (value_at j plans) q && (not (str_eq k j) || str_eq p q))
fresh_one plans k j p q h = rw (value_at-put k p j plans) (elim (Bool-cases (str_eq k j)) [
  | inl e ↦ rw e (rw (same_value plans k j e ∙ h) refl)
  | inr e ↦ rw e (and_true (fits (value_at j plans) q))
])

fresh_lem :
    (plans : Plans) (l : SlowlogView) (ls : List SlowlogView)
    → value_at (plan_key l) plans ≡ none
    → all (agrees (put (plan_key l) l.plan_summary plans)) ls
      ≡ (all (agrees plans) ls && all (agree l) ls)
unfolding all
fresh_lem plans l [] h = refl
fresh_lem plans l (m ∷ ms) h =
    rw (fresh_one plans (plan_key l) (plan_key m) l.plan_summary m.plan_summary h)
      (rw (fresh_lem plans l ms h) (ground arith))

abbrev note_of : Option String → Plans → SlowlogView → Plans
note_of none plans l = put (plan_key l) l.plan_summary plans
note_of (some previous) plans l = plans

-- A step, over what the map has for the query.
abbrev step_of : Plans → SlowlogView → List SlowlogView → Option String → Bool
step_of plans l ls o =
    elim o [ none ↦ false | some previous ↦ not (str_eq previous l.plan_summary) ]
    || any_changed (elim o [ none ↦ put (plan_key l) l.plan_summary plans | some previous ↦ plans ])
        ls

step_lem :
    (plans : Plans) (l : SlowlogView) (ls : List SlowlogView) (o : Option String)
    → value_at (plan_key l) plans ≡ o
    → any_changed plans (l ∷ ls)
      ≡ (not (fits o l.plan_summary) || any_changed (note_of o plans l) ls)
unfolding any_changed plan_changed note_plan
step_lem plans l ls none e = ap (step_of plans l ls) e
step_lem plans l ls (some p) e = ap (step_of plans l ls) e

step_by :
    (plans : Plans) (l : SlowlogView) (ls : List SlowlogView) (o : Option String)
    → value_at (plan_key l) plans ≡ o
    → ((later : Plans) → any_changed later ls ≡ not (all (agrees later) ls && agreeing ls))
    → any_changed plans (l ∷ ls) ≡ not (all (agrees plans) (l ∷ ls) && agreeing (l ∷ ls))
unfolding all
step_by plans l ls none e h =
    step_lem plans l ls none e
    ∙ h (put (plan_key l) l.plan_summary plans)
    ∙ rw e (rw (fresh_lem plans l ls e) (ground arith))
step_by plans l ls (some p) e h =
    step_lem plans l ls (some p) e
    ∙ rw e (ground (arith, h plans, eq_iff p l.plan_summary, known_lem plans l ls))

any_changed_lem :
    (plans : Plans) (ls : List SlowlogView)
    → any_changed plans ls ≡ not (all (agrees plans) ls && agreeing ls)
unfolding any_changed all
any_changed_lem plans [] = refl
any_changed_lem plans (l ∷ ls) = step_by plans l ls _ refl (λ later. any_changed_lem later ls)

view_findings_lem : (log : SlowlogView) → any changes (view_findings log) ≡ false
unfolding view_findings finding any
view_findings_lem log = ground arith

plan_findings_lem :
    (plans : Plans) (log : SlowlogView)
    → any changes (plan_findings plans log) ≡ plan_changed plans log
unfolding plan_findings finding any
plan_findings_lem plans log = elim (Bool-cases (plan_changed plans log)) [
  | inl e ↦ rw e refl
  | inr e ↦ rw e refl
]

add_views_lem :
    (digest : String → String) (is_first : Bool) (plans : Plans) (logs : List SlowlogView)
    (summary : DatabaseSlowlogSummary)
    → any changes (add_views digest is_first plans logs summary).findings
      ≡ (any changes summary.findings || any_changed plans logs)
unfolding add_views add_view convert_slowlog_view any_changed
add_views_lem digest is_first plans [] summary = ground arith
add_views_lem digest is_first plans (log ∷ logs) summary =
    add_views_lem digest false (note_plan plans log) logs
      (add_view digest is_first plans log summary)
    ∙ ground (
      arith,
      any-append changes summary.findings (view_findings log ++ plan_findings plans log),
      any-append changes (view_findings log) (plan_findings plans log),
      view_findings_lem log,
      plan_findings_lem plans log,
    )

all_fresh : (ls : List SlowlogView) → all (agrees []) ls ≡ true
unfolding all value_at
all_fresh [] = refl
all_fresh (l ∷ ls) = all_fresh ls

pub add_views_plans :
    (digest : String → String) (database : String) (logs : List SlowlogView)
    → any changes (add_views digest true [] logs (empty_summary database)).findings
      ≡ not (agreeing logs)
unfolding any
add_views_plans digest database logs =
    add_views_lem digest true [] logs (empty_summary database)
    ∙ any_changed_lem [] logs
    ∙ rw (all_fresh logs) refl
