-- ===== src/Consistency/Absent.antt =====
-- When a list of differences, built the way the evaluations of the index consistency do, is empty.
use mongo_overview_tool.Consistency.Confirm.{building_difference, no_differences}
use mongo_overview_tool.Consistency.{difference_less, Difference}
use mongo_overview_tool.Consistency.Legacy.{Names}
use mongo_overview_tool.Base.{
  any-append, ◌==◌, arith, length, ◌&&◌, not, map, ◌++◌, ◌≡◌, Bool, List, any, ◌∷◌, if◌then◌else◌,
  refl, false, true, [],
}
use mongo_overview_tool.Base.Sort.{sort_stable, any-sort_stable}

pub any-differences : (ds : List Difference) → any (λ d. true) ds ≡ not (no_differences ds)
unfolding any
any-differences [] = refl
any-differences (d ∷ ds) = refl

pub no_differences-append :
    (a b : List Difference) → no_differences (a ++ b) ≡ (no_differences a && no_differences b)
no_differences-append [] b = refl
no_differences-append (d ∷ ds) b = refl

pub no_differences-if :
    (b : Bool) (d : Difference) → no_differences (if b then d ∷ [] else []) ≡ not b
no_differences-if true d = refl
no_differences-if false d = refl

pub no_differences-building :
    (names : Names)
    → no_differences (map (λ e. building_difference e.0) names) ≡ (length names == 0)
no_differences-building [] = refl
no_differences-building (n ∷ names) = ground arith

pub none_sorted :
    (a b : List Difference)
    → no_differences (sort_stable difference_less (a ++ b)) ≡ (no_differences a && no_differences b)
none_sorted a b = ground (
  arith,
  any-differences (sort_stable difference_less (a ++ b)),
  any-sort_stable difference_less (λ d. true) (a ++ b),
  any-append (λ d. true) a b,
  any-differences a,
  any-differences b,
)
