-- ===== src/Doctor/Reports.antt =====
-- How often a list of findings reports a code.
use mongo_overview_tool.Base.{
  refl, [], ℕ, ◌+◌, ◌≡◌, String, List, ◌++◌, str_eq, count, count-append, arith,
}
use mongo_overview_tool.Diagnostics.{DiagnosticFinding}

unfoldable pub reports : String → List DiagnosticFinding → ℕ
unfolding count
reports code findings = count (λ f. str_eq f.code code) findings

-- The list has none of the codes that the verdicts on the whole set and on the lag use.
abbrev pub SetCodes : List DiagnosticFinding → Type 0
SetCodes findings =
    (reports "replica.primary_missing" findings ≡ 0)
    × (reports "replica.majority_unavailable" findings ≡ 0)
    × (reports "replica.lag_critical" findings ≡ 0)
    × (reports "replica.lag_high" findings ≡ 0)

pub reports-append :
    (code : String) (xs ys : List DiagnosticFinding)
    → reports code (xs ++ ys) ≡ reports code xs + reports code ys
unfolding reports
reports-append code xs ys = count-append (λ f. str_eq f.code code) xs ys

pub SetCodes-append :
    (xs ys : List DiagnosticFinding) → SetCodes xs → SetCodes ys → SetCodes (xs ++ ys)
SetCodes-append xs ys hx hy = (
  omega (arith, reports-append "replica.primary_missing" xs ys),
  omega (arith, reports-append "replica.majority_unavailable" xs ys),
  omega (arith, reports-append "replica.lag_critical" xs ys),
  omega (arith, reports-append "replica.lag_high" xs ys),
)

pub reports-append-zero :
    (code : String) (xs ys : List DiagnosticFinding)
    → reports code xs ≡ 0
    → reports code ys ≡ 0
    → reports code (xs ++ ys) ≡ 0
reports-append-zero code xs ys hx hy = omega (arith, reports-append code xs ys)

pub SetCodes-nil : SetCodes []
unfolding reports
SetCodes-nil = (refl, refl, refl, refl)

pub reports-nil : (code : String) → reports code [] ≡ 0
unfolding reports
reports-nil code = refl
