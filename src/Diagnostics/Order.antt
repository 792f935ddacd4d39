-- ===== src/Diagnostics/Order.antt =====
-- The comparisons of findings and of statuses are orders, so the two sorts have a meaning.
use mathlib.Core.List.{Perm}
use mongo_overview_tool.Base.{
  ◌≡◌, refl, Bool, true, false, ◌||◌, List, [], ◌∷◌, ℕ, arith, lex_lt, lex_eq, lex_lt_irrefl,
  lex_lt_asymm, lex_lt_cotrans, lex_lt_trichotomy, ltb, ◌==◌, if◌then◌else◌, not, codes, str_lt,
  map, ◌&&◌,
}
use mongo_overview_tool.Base.Sort.{
  IsOrder, IsSorted, sort_stable-IsSorted, sort_stable-perm, IsSorted-by,
}
use mongo_overview_tool.Diagnostics.{
  Severity, critical, warning, info, other, DiagnosticFinding, CollectorStatus, severity_rank,
  scope_sort_key, finding_less, status_less, sanitize_finding, sanitize_and_sort_findings,
  sort_collector_statuses,
}

lex_eq_self : (xs : List ℕ) → lex_eq xs xs ≡ true
unfolding lex_eq
lex_eq_self [] = refl
lex_eq_self (x ∷ xs) = ground (arith, lex_eq_self xs)

lex_eq→eq : (xs ys : List ℕ) → lex_eq xs ys ≡ true → xs ≡ ys
unfolding lex_eq
lex_eq→eq [] [] h = refl
lex_eq→eq [] (y ∷ ys) h = ground arith
lex_eq→eq (x ∷ xs) [] h = ground arith
lex_eq→eq (x ∷ xs) (y ∷ ys) h = ground (arith, lex_eq→eq xs ys)

-- "if a != b then a < b else rest": rest decides between equal keys.
abbrev then_by : List ℕ → List ℕ → Bool → Bool
then_by a b rest = if not (lex_eq a b) then lex_lt a b else rest

then_by_asymm :
    (a b : List ℕ) (r s : Bool)
    → (r ≡ true → s ≡ false)
    → then_by a b r ≡ true
    → then_by b a s ≡ false
then_by_asymm a b r s k h =
    ground
      (arith, k, lex_eq→eq a b, lex_eq→eq b a, lex_lt_asymm a b, lex_lt_irrefl a, lex_eq_self a)

then_by_cotrans :
    (a b c : List ℕ) (ac ab bc : Bool)
    → (ac ≡ true → (ab || bc) ≡ true)
    → then_by a c ac ≡ true
    → (then_by a b ab || then_by b c bc) ≡ true
then_by_cotrans a b c ac ab bc k h = ground (
  arith,
  k,
  lex_eq→eq a b,
  lex_eq→eq b c,
  lex_eq→eq a c,
  lex_lt_cotrans a b c,
  lex_eq_self a,
  lex_lt_trichotomy a b,
  lex_lt_trichotomy b c,
  lex_lt_irrefl a,
  lex_lt_asymm a b,
)

finding_rest : DiagnosticFinding → DiagnosticFinding → Bool
finding_rest x y =
    then_by (scope_sort_key x.scope) (scope_sort_key y.scope) (lex_lt (codes x.code) (codes y.code))

finding_rest_asymm : (x y : DiagnosticFinding) → finding_rest x y ≡ true → finding_rest y x ≡ false
unfolding finding_rest
finding_rest_asymm x y h =
    then_by_asymm (scope_sort_key x.scope) (scope_sort_key y.scope) _ _
      (lex_lt_asymm (codes x.code) (codes y.code)) h

finding_rest_cotrans :
    (x y z : DiagnosticFinding)
    → finding_rest x z ≡ true
    → (finding_rest x y || finding_rest y z) ≡ true
unfolding finding_rest
finding_rest_cotrans x y z h =
    then_by_cotrans (scope_sort_key x.scope) (scope_sort_key y.scope) (scope_sort_key z.scope) _ _ _
      (lex_lt_cotrans (codes x.code) (codes y.code) (codes z.code)) h

finding_less_lem :
    (x y : DiagnosticFinding)
    → finding_less x y ≡ (
        ltb (severity_rank x.severity) (severity_rank y.severity)
        || ((severity_rank x.severity == severity_rank y.severity) && finding_rest x y))
unfolding finding_rest str_lt
finding_less_lem x y = unfold finding_less in ground arith

pub finding_less-IsOrder : IsOrder finding_less
finding_less-IsOrder = record {
  asymm =
      λ x y h. ground (arith, finding_less_lem x y, finding_less_lem y x, finding_rest_asymm x y);
  cotrans = λ x y z h. ground (
    arith,
    finding_less_lem x z,
    finding_less_lem x y,
    finding_less_lem y z,
    finding_rest_cotrans x y z,
  );
}

status_less_lem :
    (x y : CollectorStatus)
    → status_less x y
      ≡ then_by
          (codes x.name)
          (codes y.name)
          (lex_lt (scope_sort_key x.scope) (scope_sort_key y.scope))
unfolding str_lt
status_less_lem x y = unfold status_less in refl

pub status_less-IsOrder : IsOrder status_less
status_less-IsOrder = record {
  asymm = λ x y h. rw (status_less_lem y x) (
      then_by_asymm (codes x.name) (codes y.name) _ _
        (lex_lt_asymm (scope_sort_key x.scope) (scope_sort_key y.scope))
        (rw (status_less_lem x y) at h));
  cotrans = λ x y z h.
      rw (status_less_lem x y, status_less_lem y z)
        (then_by_cotrans (codes x.name) (codes y.name) (codes z.name) _ _ _
          (lex_lt_cotrans (scope_sort_key x.scope) (scope_sort_key y.scope)
            (scope_sort_key z.scope))
          (rw (status_less_lem x z) at h));
}

-- Critical is more severe than warning, and warning than info and what is no severity.
abbrev pub is_more_severe : Severity → Severity → Bool
is_more_severe critical critical = false
is_more_severe critical s = true
is_more_severe warning info = true
is_more_severe warning (other value) = true
is_more_severe warning s = false
is_more_severe info s = false
is_more_severe (other value) s = false

is_more_severe_lem : (a b : Severity) → ltb (severity_rank a) (severity_rank b) ≡ is_more_severe a b
unfolding severity_rank
is_more_severe_lem critical critical = refl
is_more_severe_lem critical warning = refl
is_more_severe_lem critical info = refl
is_more_severe_lem critical (other v) = refl
is_more_severe_lem warning critical = refl
is_more_severe_lem warning warning = refl
is_more_severe_lem warning info = refl
is_more_severe_lem warning (other v) = refl
is_more_severe_lem info critical = refl
is_more_severe_lem info warning = refl
is_more_severe_lem info info = refl
is_more_severe_lem info (other v) = refl
is_more_severe_lem (other v) critical = refl
is_more_severe_lem (other v) warning = refl
is_more_severe_lem (other v) info = refl
is_more_severe_lem (other v) (other w) = refl

-- By severity, then by the key of the scope, then by the code.
abbrev pub comes_before : DiagnosticFinding → DiagnosticFinding → Bool
comes_before x y =
    is_more_severe x.severity y.severity
    || (not (is_more_severe y.severity x.severity)
        && (if not (lex_eq (scope_sort_key x.scope) (scope_sort_key y.scope))
            then lex_lt (scope_sort_key x.scope) (scope_sort_key y.scope)
            else lex_lt (codes x.code) (codes y.code)))

comes_before_lem : (x y : DiagnosticFinding) → finding_less x y ≡ comes_before x y
unfolding finding_rest
comes_before_lem x y = ground (
  arith,
  finding_less_lem x y,
  is_more_severe_lem x.severity y.severity,
  is_more_severe_lem y.severity x.severity,
)

-- The public findings are the sanitized findings, each as often as it was given, and none stands
-- behind one that is to come later: critical findings come before warnings, these before all others,
-- and those of one severity are ordered by the key of their scope and then by their code.
pub sanitize_and_sort_findings-IsSorted :
    (findings : List DiagnosticFinding)
    → IsSorted comes_before (sanitize_and_sort_findings findings)
      × Perm (sanitize_and_sort_findings findings) (map sanitize_finding findings)
unfolding sanitize_and_sort_findings
sanitize_and_sort_findings-IsSorted findings = (
  IsSorted-by finding_less comes_before (sanitize_and_sort_findings findings) comes_before_lem
      (sort_stable-IsSorted finding_less finding_less-IsOrder (map sanitize_finding findings)),
  sort_stable-perm finding_less (map sanitize_finding findings),
)

-- Sorting the statuses loses none and orders them by name and then by scope key.
pub sort_collector_statuses-IsSorted :
    (statuses : List CollectorStatus)
    → IsSorted status_less (sort_collector_statuses statuses)
      × Perm (sort_collector_statuses statuses) statuses
unfolding sort_collector_statuses
sort_collector_statuses-IsSorted statuses = (
  sort_stable-IsSorted status_less status_less-IsOrder statuses,
  sort_stable-perm status_less statuses,
)
