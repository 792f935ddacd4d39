-- ===== src/Consistency/Agreement.antt =====
-- What the absence of differences in compareLegacyDefinitions says of the definitions that the shards
-- list.
use mongo_overview_tool.Consistency.Absent.{no_differences-append}
use mongo_overview_tool.Base.Pigeons.{value_among}
use mongo_overview_tool.Consistency.Confirm.{no_differences}
use mongo_overview_tool.Consistency.{Difference}
use mongo_overview_tool.Base.Maps.{value_at-put, put, is_there, value_at}
use mongo_overview_tool.Consistency.Legacy.{
  mismatched_names, tables_from, Tables, differences_by_name, name_differences, Definition, set_of,
  Observations, name_mismatches, Names,
}
use mongo_overview_tool.Base.{
  Option, none, ◌||◌, arith, ◌==◌, ◌&&◌, eq_iff, str_eq, not, map, ◌≡◌, any, length, ltb, Bool,
  List, String, ◌∷◌, if◌then◌else◌, refl, false, true, some, [],
}

abbrev pub tables_of : Names → Names → Observations → Tables
tables_of names semantics observations =
    tables_from names semantics observations (record { by_semantic = []; by_name = [] })

-- A set of strings with at most one.
one_name :
    (names : Names) (a b : String)
    → ltb 1 (length names) ≡ false
    → is_there (value_at a names) ≡ true
    → is_there (value_at b names) ≡ true
    → str_eq a b ≡ true
unfolding value_at
one_name [] a b h k l = cc
one_name ((n, t) ∷ []) a b h k l = ground (arith, eq_iff n a, eq_iff n b, eq_iff a b)
one_name (n ∷ m ∷ names) a b h k l = ground arith

module _ {A : Type 0} (key : A → String) where
  pub there-set_of :
      (name : String) (xs : List A) (names : Names)
      → is_there (value_at name (set_of key xs names))
        ≡ (any (λ x. str_eq (key x) name) xs || is_there (value_at name names))
  unfolding set_of any
  there-set_of name [] names = refl
  there-set_of name (x ∷ xs) names =
      ground
        (arith, there-set_of name xs (put (key x) tt names), value_at-put (key x) tt name names)

  -- Two values of a map whose values all have the same key.
  pub same_key_of :
      (m : List (String × A)) (s t : String) (a b : A)
      → ltb 1 (length (set_of key (map (λ e. e.1) m) [])) ≡ false
      → value_at s m ≡ some a
      → value_at t m ≡ some b
      → key a ≡ key b
  unfolding value_at
  same_key_of m s t a b h k l = (eq_iff (key a) (key b)).0 (
      one_name (set_of key (map (λ e. e.1) m) []) (key a) (key b) h
        (ground (
          arith,
          there-set_of (key a) (map (λ e. e.1) m) [],
          value_among (λ x. str_eq (key x) (key a)) s m a k,
          eq_iff (key a) (key a),
        ))
        (ground (
          arith,
          there-set_of (key b) (map (λ e. e.1) m) [],
          value_among (λ x. str_eq (key x) (key b)) t m b l,
          eq_iff (key b) (key b),
        )))

handled_if :
    (o : Option Names) (later : Names × List Difference) (f : Names → Names)
    (g : Names → Difference)
    → (no_differences later.1 ≡ true → later.0 ≡ [])
    → let found : Names × List Difference = elim o [
      | none ↦ later
      | some names ↦ (f names, g names ∷ later.1)
    ] in
      no_differences found.1 ≡ true → found.0 ≡ []
handled_if none later f g k h = k h
handled_if (some names) later f g k h = cc

pub nothing_handled :
    (expected : List String) (semantics : List (String × List (String × List Definition)))
    → no_differences (name_mismatches expected semantics).1 ≡ true
    → (name_mismatches expected semantics).0 ≡ []
unfolding name_mismatches
nothing_handled expected [] h = refl
nothing_handled expected ((semantic, shards) ∷ rest) h =
    handled_if (mismatched_names expected shards) (name_mismatches expected rest) _ _
      (nothing_handled expected rest) h

differences_if :
    (a b : Bool) (x y : Difference)
    → no_differences (if not a then x ∷ [] else if b then y ∷ [] else []) ≡ (a && not b)
differences_if true true x y = refl
differences_if true false x y = refl
differences_if false b x y = refl

module _ (aggregate_fingerprints : List String → String) where
  pub no_name_differences :
      (expected : List String) (name : String) (shards : List (String × Definition))
      → no_differences (name_differences aggregate_fingerprints expected name shards) ≡ (
          (length shards == length expected)
          && not (ltb 1 (length (set_of (λ d. d.semantic_fingerprint) (map (λ e. e.1) shards) []))))
  unfolding name_differences
  no_name_differences expected name shards =
      differences_if (length shards == length expected)
        (ltb 1 (length (set_of (λ d. d.semantic_fingerprint) (map (λ e. e.1) shards) []))) _ _

  pub no_differences_by_name :
      (expected : List String) (m : List (String × List (String × Definition))) (name : String)
      (shards : List (String × Definition))
      → no_differences (differences_by_name aggregate_fingerprints expected [] m) ≡ true
      → value_at name m ≡ some shards
      → no_differences (name_differences aggregate_fingerprints expected name shards) ≡ true
  unfolding differences_by_name value_at
  no_differences_by_name expected [] name shards h k = cc
  no_differences_by_name expected ((n, s) ∷ rest) name shards h k = ground (
    arith,
    eq_iff n name,
    no_differences-append (name_differences aggregate_fingerprints expected n s)
        (differences_by_name aggregate_fingerprints expected [] rest),
    no_differences_by_name expected rest name shards,
  )
