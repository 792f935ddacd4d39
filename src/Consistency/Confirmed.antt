-- ===== src/Consistency/Confirmed.antt =====
-- What evaluateLegacyIndexConsistency concludes from two observations.
use mongo_overview_tool.Consistency.Absent.{
  no_differences-building, no_differences-if, any-differences, no_differences-append,
}
use mongo_overview_tool.Consistency.Verdict.{any-findings, is_inconsistent, is_consistent}
use mongo_overview_tool.Consistency.Legacy.{
  missing_expected_shards, building_index_semantics, building_index_names, observed_expected_shards,
  Names, compare_legacy_definitions, Observations,
}
use mongo_overview_tool.Consistency.{
  consistency_inconclusive, bare_difference, evaluation_of, Evaluation, consistent, inconclusive,
  inconsistent, Difference,
}
use mongo_overview_tool.Consistency.Confirm.{
  evaluate_legacy_index_consistency, building_difference, legacy_state, confirm, unconfirmed,
  same_signature, add_all, confirm_again, no_differences, Confirmation,
}
use mongo_overview_tool.Base.{
  ◌∙◌, Bool-cases, ℕ, ap, inr, inl, map, ◌++◌, ◌||◌, if◌then◌else◌, ◌==◌, length, ◌&&◌, arith,
  Option, not, ◌≡◌, String, Bool, any, keep, List, ◌∷◌, refl, true, [], false, some, none,
}

module _ (aggregate_fingerprints : List String → String) where
  -- The differences that the first observation shows.
  abbrev pub candidates_of : List String → Observations → List Difference
  candidates_of expected first =
      compare_legacy_definitions aggregate_fingerprints (observed_expected_shards expected first)
        first (building_index_names first) (building_index_semantics first)

  -- Those that the second one shows too, with what either shows to be under construction left out.
  abbrev shown_again : List String → Observations → Observations → List Difference
  shown_again expected first second =
      compare_legacy_definitions aggregate_fingerprints (observed_expected_shards expected first)
        second (add_all (building_index_names second) (building_index_names first))
        (add_all (building_index_semantics second) (building_index_semantics first))

  -- The second observation is there for every shard that is compared, and shows a difference again.
  abbrev pub is_confirmed : List String → Observations → Option Observations → Bool
  is_confirmed expected first none = false
  is_confirmed expected first (some second) =
      let shards = observed_expected_shards expected first in
      (length (observed_expected_shards shards second) == length shards)
      && any
          (λ candidate.
            any (λ other. same_signature candidate other) (shown_again expected first second))
          (candidates_of expected first)

keep_none :
    (p : Difference → Bool) (cs : List Difference) → no_differences (keep p cs) ≡ not (any p cs)
unfolding keep any
keep_none p [] = refl
keep_none p (c ∷ cs) = ground (arith, keep_none p cs)

none_changed :
    (p : Difference → Bool) (c : Difference) (cs : List Difference)
    → any p (c ∷ cs) ≡ false
    → any (λ x. not (p x)) (c ∷ cs) ≡ true
unfolding any
none_changed p c cs h = ground arith

not_clean :
    (confirmed none_stable none_building changed : Bool)
    → none_stable ≡ not confirmed
    → (confirmed ≡ false → changed ≡ true)
    → ((none_stable && none_building) && (not changed && true)) ≡ false
not_clean true none_stable none_building changed h k = ground arith
not_clean false none_stable none_building changed h k = rw (k refl) (ground arith)

-- The choice of the state, over its five tests.
state_by :
    (none_stable none_building changed is_gap gap clean confirmed : Bool)
    → none_stable ≡ not confirmed
    → ((none_stable && none_building) && (not changed && not gap)) ≡ clean
    → let state =
        if not none_stable
        then inconsistent
        else if not none_building || (changed || (is_gap || gap))
        then inconclusive
        else consistent in
      (is_consistent state ≡ (not is_gap && clean)) × (is_inconsistent state ≡ confirmed)
state_by false none_building changed is_gap gap clean confirmed h k = ground arith
state_by true false changed is_gap gap clean confirmed h k = ground arith
state_by true true true is_gap gap clean confirmed h k = ground arith
state_by true true false true gap clean confirmed h k = ground arith
state_by true true false false gap clean confirmed h k = ground arith

rest_by :
    (none_stable none_building changed gap clean : Bool)
    → ((none_stable && none_building) && (not changed && not gap)) ≡ clean
    → (gap ≡ true → changed ≡ true)
    → (none_building && (none_stable && not changed)) ≡ clean
rest_by none_stable none_building true gap clean h k = ground arith
rest_by none_stable none_building false true clean h k = cc (k refl)
rest_by none_stable none_building false false clean h k = ground arith

-- What the proof needs to know of a confirmation of some candidates.
record Faithful (c : Confirmation) (candidates building : Bool) (confirmed : Bool) : Type 0 where
  stable : no_differences c.stable ≡ not confirmed
  clean :
      ((no_differences c.stable && (length c.building == 0)) && (not c.changed && not c.gap))
      ≡ (candidates && building)
  told : c.gap ≡ true → c.changed ≡ true

module _ (aggregate_fingerprints : List String → String) where
  again_Faithful :
      (shards : List String) (second : Observations) (names semantics : Names) (d : Difference)
      (ds : List Difference)
      → let again =
          compare_legacy_definitions aggregate_fingerprints shards second
            (add_all (building_index_names second) names)
            (add_all (building_index_semantics second) semantics) in
        Faithful
          (confirm_again aggregate_fingerprints shards second names semantics (d ∷ ds))
          false
          (length names == 0)
          (any (λ candidate. any (λ other. same_signature candidate other) again) (d ∷ ds))
  unfolding confirm_again
  again_Faithful shards second names semantics d ds =
      let again =
        compare_legacy_definitions aggregate_fingerprints shards second
          (add_all (building_index_names second) names)
          (add_all (building_index_semantics second) semantics) in
      let p = λ (candidate : Difference). any (λ other. same_signature candidate other) again in
      record {
        stable = keep_none p (d ∷ ds);
        clean = not_clean (any p (d ∷ ds)) _ _ _ (keep_none p (d ∷ ds)) (none_changed p d ds);
        told = λ h. cc;
      }

  abbrev again_shown : List String → Option Observations → Names → Names → List Difference → Bool
  again_shown shards none names semantics cs = false
  again_shown shards (some second) names semantics cs =
      let again =
        compare_legacy_definitions aggregate_fingerprints shards second
          (add_all (building_index_names second) names)
          (add_all (building_index_semantics second) semantics) in
      (length (observed_expected_shards shards second) == length shards)
      && any (λ candidate. any (λ other. same_signature candidate other) again) cs

  unconfirmed-Faithful :
      (names : Names) (building : Bool) → Faithful (unconfirmed names) false building false
  unconfirmed-Faithful names building = record {
    stable = refl;
    clean = ground arith;
    told = λ h. refl;
  }

  covered_Faithful :
      (covered : Bool) (c : Confirmation) (names : Names) (confirmed : Bool)
      → Faithful c false (length names == 0) confirmed
      → Faithful
          (if not covered then unconfirmed names else c)
          false
          (length names == 0)
          (covered && confirmed)
  covered_Faithful true c names confirmed f = f
  covered_Faithful false c names confirmed f = unconfirmed-Faithful names (length names == 0)

  confirm-Faithful :
      (shards : List String) (second : Option Observations) (names semantics : Names)
      (cs : List Difference)
      → Faithful
          (confirm aggregate_fingerprints shards second names semantics cs)
          (no_differences cs)
          (length names == 0)
          (again_shown shards second names semantics cs)
  unfolding confirm any
  confirm-Faithful shards none names semantics [] = record {
    stable = refl;
    clean = ground arith;
    told = λ h. cc;
  }
  confirm-Faithful shards (some second) names semantics [] = record {
    stable = ground arith;
    clean = ground arith;
    told = λ h. cc;
  }
  confirm-Faithful shards none names semantics (d ∷ ds) =
      unconfirmed-Faithful names (length names == 0)
  confirm-Faithful shards (some second) names semantics (d ∷ ds) =
      covered_Faithful (length (observed_expected_shards shards second) == length shards)
        (confirm_again aggregate_fingerprints shards second names semantics (d ∷ ds)) names _
        (again_Faithful shards second names semantics d ds)

  legacy_state_lem :
      (c : Confirmation) (is_gap candidates building confirmed : Bool)
      → Faithful c candidates building confirmed
      → (is_consistent (legacy_state c (is_gap || c.gap))
          ≡ (not is_gap && (candidates && building)))
        × (is_inconsistent (legacy_state c (is_gap || c.gap)) ≡ confirmed)
  legacy_state_lem c is_gap candidates building confirmed f =
      state_by (no_differences c.stable) (length c.building == 0) c.changed is_gap c.gap
        (candidates && building) confirmed f.stable f.clean

  differences_lem :
      (c : Confirmation) (is_gap candidates building confirmed : Bool)
      (gap_difference d : Difference)
      → Faithful c candidates building confirmed
      → no_differences (
          (if is_gap then gap_difference ∷ [] else [])
          ++ (map (λ e. building_difference e.0) c.building
              ++ (c.stable ++ (if c.changed then d ∷ [] else []))))
        ≡ (not is_gap && (candidates && building))
  differences_lem c is_gap candidates building confirmed gap_difference d f =
      let buildings = map (λ e. building_difference e.0) c.building in
      let changes = if c.changed then d ∷ [] else [] in
      rw
        (no_differences-append (if is_gap then gap_difference ∷ [] else [])
          (buildings ++ (c.stable ++ changes)))
        (rw (no_differences-append buildings (c.stable ++ changes)) (
          rw (no_differences-append c.stable changes) (
            rw (no_differences-if is_gap gap_difference) (
              rw (no_differences-if c.changed d) (
                rw (no_differences-building c.building) (
                  ap (λ x. not is_gap && x)
                    (rest_by (no_differences c.stable) (length c.building == 0) c.changed c.gap
                      (candidates && building) f.clean f.told)))))))

  confirmed_lem :
      (expected : List String) (first : Observations) (second : Option Observations)
      → again_shown
          (observed_expected_shards expected first)
          second
          (building_index_names first)
          (building_index_semantics first)
          (candidates_of aggregate_fingerprints expected first)
        ≡ is_confirmed aggregate_fingerprints expected first second
  confirmed_lem expected first none = refl
  confirmed_lem expected first (some second) = refl

  double_not : (b c : Bool) → (not (not b) && c) ≡ (b && c)
  double_not true c = refl
  double_not false c = refl

  by_expected :
      (n : ℕ) (early late : Evaluation) (consistent_if inconsistent_if : Bool)
      → is_consistent early.state ≡ false
      → is_inconsistent early.state ≡ false
      → any (λ f. true) early.findings ≡ true
      → is_consistent late.state ≡ consistent_if
      → is_inconsistent late.state ≡ inconsistent_if
      → any (λ f. true) late.findings ≡ not consistent_if
      → let e = if n == 0 then early else late in
        (is_consistent e.state ≡ (not (n == 0) && consistent_if))
        × (is_inconsistent e.state ≡ (not (n == 0) && inconsistent_if))
        × (any (λ f. true) e.findings ≡ not (not (n == 0) && consistent_if))
  by_expected n early late consistent_if inconsistent_if a b c x y z = elim (Bool-cases (n == 0)) [
    | inl e ↦ rw e (a, b, c)
    | inr e ↦ rw e (x, y, z)
  ]

  -- Two observations of the indexes of the shards. The collection is called consistent exactly if a
  -- shard is expected, the first observation has all expected shards, shows no index under
  -- construction and no difference. It is called inconsistent exactly if a shard is expected and some
  -- difference of the first observation, between the shards that it has, is shown again by a second
  -- observation that has all of these shards too: one observation alone is never enough. There is no
  -- finding exactly in the consistent case.
  pub evaluate_legacy_index_consistency_lem :
      (namespace : String) (expected : List String) (first : Observations)
      (second : Option Observations)
      → let e =
          evaluate_legacy_index_consistency aggregate_fingerprints namespace expected first
            second in
        let covered = length (observed_expected_shards expected first) == length expected in
        let clean =
          not (length expected == 0)
          && (covered
              && (no_differences (candidates_of aggregate_fingerprints expected first)
                  && (length (building_index_names first) == 0))) in
        (is_consistent e.state ≡ clean)
        × (is_inconsistent e.state ≡ (
            not (length expected == 0)
            && is_confirmed aggregate_fingerprints expected first second))
        × (any (λ f. true) e.findings ≡ not clean)
  unfolding evaluate_legacy_index_consistency evaluation_of any
  evaluate_legacy_index_consistency_lem namespace expected first second =
      let shards = observed_expected_shards expected first in
      let is_gap = not (length shards == length expected) in
      let names = building_index_names first in
      let semantics = building_index_semantics first in
      let cs = candidates_of aggregate_fingerprints expected first in
      let c = confirm aggregate_fingerprints shards second names semantics cs in
      let faithful = confirm-Faithful shards second names semantics cs in
      let state = legacy_state_lem c is_gap (no_differences cs) (length names == 0) _ faithful in
      let gap_difference : Difference = record (bare_difference consistency_inconclusive) {
        shards = missing_expected_shards expected first;
      } in
      let d : Difference = bare_difference consistency_inconclusive in
      let differences =
        (if is_gap then gap_difference ∷ [] else [])
        ++ (map (λ e. building_difference e.0) c.building
            ++ (c.stable ++ (if c.changed then d ∷ [] else []))) in
      let shorten =
        double_not (length shards == length expected) (no_differences cs && (length names == 0)) in
      by_expected (length expected) _ _ _ _ refl refl refl (state.0 ∙ shorten)
        (state.1 ∙ confirmed_lem expected first second)
        (any-findings (λ s. true) namespace differences
          ∙ any-differences differences
          ∙ ap not (
              differences_lem c is_gap (no_differences cs) (length names == 0) _ gap_difference d
                faithful
              ∙ shorten))
