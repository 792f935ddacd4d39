-- ===== src/Consistency/Versions.antt =====
-- pkg/mot/index_consistency.go: compareVersion and indexConsistencyStrategyForVersion, behind the
-- parser of the version's text.
use mongo_overview_tool.Base.{
  ℕ, String, Bool, ◌||◌, ◌&&◌, List, [], ◌∷◌, Option, none, some, ltb, leb, if◌then◌else◌, ◌≡◌,
  arith, ◌==◌,
}
use mongo_overview_tool.Base.Int.{ℤ, pos, negsuc, ltb_ℤ}

pub data Strategy : Type 0 where
  direct_list_indexes index_stats metadata_check : Strategy

-- IndexConsistencyFallback
pub record Fallback : Type 0 where
  pub from : Strategy
  pub to : Strategy
  pub reason_code : String

pub record Version : Type 0 where
  pub major : ℕ
  pub minor : ℕ
  pub patch : ℕ

-- The loop over the three pairs.
unfoldable pub compare_pairs : List (ℕ × ℕ) → ℤ
compare_pairs [] = pos 0
compare_pairs ((have, want) ∷ pairs) =
    let rest = compare_pairs pairs in
    if ltb have want then negsuc 0 else if ltb want have then pos 1 else rest

unfoldable pub compare_version : Version → Version → ℤ
unfolding compare_pairs
compare_version v w =
    compare_pairs ((v.major, w.major) ∷ (v.minor, w.minor) ∷ (v.patch, w.patch) ∷ [])

abbrev pub version : ℕ → ℕ → ℕ → Version
version major minor patch = record { major = major; minor = minor; patch = patch }

-- `none` is a version that could not be parsed, and a strategy that there is not.
unfoldable pub index_consistency_strategy_for_version : Option Version → Option Strategy
unfolding compare_version
index_consistency_strategy_for_version none = none
index_consistency_strategy_for_version (some v) =
    if ltb_ℤ (compare_version v (version 3 4 0)) (pos 0) || leb 8 v.major
    then none
    else if ltb_ℤ (compare_version v (version 4 2 4)) (pos 0)
    then some direct_list_indexes
    else if ltb v.major 7
    then some index_stats
    else some metadata_check

-- v comes before w in the order of versions.
abbrev pub precedes : Version → Version → Bool
precedes v w =
    ltb v.major w.major
    || ((v.major == w.major)
        && (ltb v.minor w.minor || ((v.minor == w.minor) && ltb v.patch w.patch)))

-- How much of the work a strategy leaves to the server; 3 where there is none.
abbrev pub rank : Option Strategy → ℕ
rank (some direct_list_indexes) = 0
rank (some index_stats) = 1
rank (some metadata_check) = 2
rank none = 3

compare_lem : (v w : Version) → ltb_ℤ (compare_version v w) (pos 0) ≡ precedes v w
unfolding compare_version
compare_lem v w = ground arith

-- A version has a strategy exactly from 3.4.0 on and below 8.0.0: listing the indexes before 4.2.4,
-- the statistics of indexes before 7.0.0, and the server's own check from there on.
pub index_consistency_strategy_for_version_lem :
    (v : Version)
    → rank (index_consistency_strategy_for_version (some v)) ≡ (
        if precedes v (version 3 4 0)
        then 3
        else if precedes v (version 4 2 4)
        then 0
        else if precedes v (version 7 0 0)
        then 1
        else if precedes v (version 8 0 0)
        then 2
        else 3)
unfolding index_consistency_strategy_for_version
index_consistency_strategy_for_version_lem v =
    ground (arith, compare_lem v (version 3 4 0), compare_lem v (version 4 2 4))
