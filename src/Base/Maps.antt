-- ===== src/Base/Maps.antt =====
-- Go maps from strings as association lists, in the order in which their keys were first stored.
-- Each key stands once.
use mathlib.Core.Bool.{Bool, true, false, ◌&&◌}
use mathlib.Core.List.{List, [], ◌∷◌, ◌++◌, append_assoc}
use mathlib.Core.Logic.{inl, inr}
use mathlib.Core.Option.{Option, none, some}
use mathlib.Core.Path.{◌≡◌, refl, ap, ◌∙◌}
use native.Mathlib.Omega.{arith}
use Prim.Native.String.{String}
use text.Mathlib.Text.{◌==◌ as str_eq}
use text.Mathlib.TextEquality.{eq_iff}
use mongo_overview_tool.Base.Tests.{if◌then◌else◌, not, Bool-cases}
use mongo_overview_tool.Base.Lists.{any, all, keep}

abbrev pub is_there : {A : Type 0} → Option A → Bool
is_there none = false
is_there (some a) = true

module _ {A : Type 0} where
  -- values[key]
  unfoldable pub value_at : String → List (String × A) → Option A
  value_at key [] = none
  value_at key ((k, v) ∷ rest) = if str_eq k key then some v else value_at key rest

  -- values[key] = value
  unfoldable pub put : String → A → List (String × A) → List (String × A)
  put key value [] = (key, value) ∷ []
  put key value ((k, v) ∷ rest) =
      let later = (k, v) ∷ put key value rest in if str_eq k key then (k, value) ∷ rest else later

  abbrev pub has_no : String → List (String × A) → Bool
  has_no key m = all (λ e. not (str_eq e.0 key)) m

  abbrev pub Distinct : List (String × A) → Type 0
  Distinct [] = Unit {0}
  Distinct ((k, v) ∷ rest) = (has_no k rest ≡ true) × Distinct rest

  pub value_at-put :
      (key : String) (value : A) (other : String) (m : List (String × A))
      → value_at other (put key value m)
        ≡ (if str_eq key other then some value else value_at other m)
  unfolding value_at put
  value_at-put key value other [] = refl
  value_at-put key value other ((k, v) ∷ rest) =
      ground
        (arith, eq_iff key other, eq_iff k key, eq_iff k other, value_at-put key value other rest)

  has_no-put :
      (key : String) (value : A) (other : String) (m : List (String × A))
      → has_no other (put key value m) ≡ (not (str_eq key other) && has_no other m)
  unfolding all put
  has_no-put key value other [] = refl
  has_no-put key value other ((k, v) ∷ rest) =
      ground
        (arith, eq_iff key other, eq_iff k key, eq_iff k other, has_no-put key value other rest)

  pub put-Distinct :
      (key : String) (value : A) (m : List (String × A)) → Distinct m → Distinct (put key value m)
  unfolding put all
  put-Distinct key value [] d = (refl, tt)
  put-Distinct key value ((k, v) ∷ rest) d = ground (
    arith,
    eq_iff k key,
    eq_iff key k,
    has_no-put key value k rest,
    put-Distinct key value rest d.1,
  )

  any-absent :
      (key : String) (q : String → A → Bool) (m : List (String × A))
      → has_no key m ≡ true
      → any (λ e. str_eq e.0 key && q e.0 e.1) m ≡ false
  unfolding any all
  any-absent key q [] h = refl
  any-absent key q ((k, v) ∷ rest) h = ground (arith, any-absent key q rest)

  abbrev pub holds : (A → Bool) → Option A → Bool
  holds p none = false
  holds p (some a) = p a

  -- Whether some entry under a key passes a test is answered by the one value of the key.
  pub any-Distinct :
      (key : String) (q : String → A → Bool) (m : List (String × A))
      → Distinct m
      → any (λ e. str_eq e.0 key && q e.0 e.1) m ≡ holds (q key) (value_at key m)
  unfolding any value_at
  any-Distinct key q [] d = refl
  any-Distinct key q ((k, v) ∷ rest) d =
      ground (arith, eq_iff k key, any-absent key q rest, any-Distinct key q rest d.1)

module _ {A : Type 0} where
  abbrev pub or_empty : Option (List A) → List A
  or_empty none = []
  or_empty (some xs) = xs

  -- groups[name] = append(groups[name], x)
  unfoldable pub add_to_group : String → A → List (String × List A) → List (String × List A)
  unfolding value_at put
  add_to_group name x groups = put name (or_empty (value_at name groups) ++ (x ∷ [])) groups

  unfoldable pub group_from :
      (A → String) → List A → List (String × List A) → List (String × List A)
  unfolding add_to_group
  group_from name [] groups = groups
  group_from name (x ∷ xs) groups = group_from name xs (add_to_group (name x) x groups)

  unfoldable pub group_by : (A → String) → List A → List (String × List A)
  unfolding group_from
  group_by name xs = group_from name xs []

  abbrev pub extend : Option (List A) → List A → Option (List A)
  extend before [] = before
  extend before (x ∷ xs) = some (or_empty before ++ (x ∷ xs))

  extend_more :
      (before : Option (List A)) (x : A) (xs : List A)
      → extend (some (or_empty before ++ (x ∷ []))) xs ≡ extend before (x ∷ xs)
  extend_more before x [] = refl
  extend_more before x (y ∷ ys) = rw (append_assoc (or_empty before) (x ∷ []) (y ∷ ys))

  value_at-group_from :
      (key : String) (name : A → String) (xs : List A) (groups : List (String × List A))
      → value_at key (group_from name xs groups)
        ≡ extend (value_at key groups) (keep (λ x. str_eq (name x) key) xs)
  unfolding group_from add_to_group keep
  value_at-group_from key name [] groups = refl
  value_at-group_from key name (x ∷ xs) groups =
      let added = or_empty (value_at (name x) groups) ++ (x ∷ []) in
      elim (Bool-cases (str_eq (name x) key)) [
        | inl e ↦ rw e (
            rw (value_at-group_from key name xs (put (name x) added groups)) (
              rw (value_at-put (name x) added key groups) (
                rw e (
                  rw ((eq_iff (name x) key).0 e)
                    (extend_more (value_at key groups) x (keep (λ y. str_eq (name y) key) xs))))))
        | inr e ↦ rw e (
            rw (value_at-group_from key name xs (put (name x) added groups))
              (rw (value_at-put (name x) added key groups) (rw e)))
      ]

  group_from-Distinct :
      (name : A → String) (xs : List A) (groups : List (String × List A))
      → Distinct groups
      → Distinct (group_from name xs groups)
  unfolding group_from add_to_group
  group_from-Distinct name [] groups d = d
  group_from-Distinct name (x ∷ xs) groups d =
      group_from-Distinct name xs _
        (put-Distinct (name x) (or_empty (value_at (name x) groups) ++ (x ∷ [])) groups d)

  -- A group is what has its name, in order; there is one for each name in use.
  pub value_at-group_by :
      (key : String) (name : A → String) (xs : List A)
      → value_at key (group_by name xs) ≡ extend none (keep (λ x. str_eq (name x) key) xs)
  unfolding group_by value_at
  value_at-group_by key name xs = value_at-group_from key name xs []

  pub group_by-Distinct : (name : A → String) (xs : List A) → Distinct (group_by name xs)
  unfolding group_by
  group_by-Distinct name xs = group_from-Distinct name xs [] tt

  -- Whether a group of a name passes a test.
  pub any-group_by :
      (key : String) (q : String → List A → Bool) (name : A → String) (xs : List A)
      → any (λ g. str_eq g.0 key && q g.0 g.1) (group_by name xs)
        ≡ holds (q key) (extend none (keep (λ x. str_eq (name x) key) xs))
  any-group_by key q name xs =
      any-Distinct key q (group_by name xs) (group_by-Distinct name xs)
      ∙ ap (holds (q key)) (value_at-group_by key name xs)

  abbrev is_group_of : (A → String) → String × List A → Bool
  is_group_of name group = all (λ x. str_eq (name x) group.0) group.1

  all-snoc : (p : A → Bool) (xs : List A) (x : A) → all p (xs ++ (x ∷ [])) ≡ (all p xs && p x)
  unfolding all
  all-snoc p [] x = ground arith
  all-snoc p (y ∷ ys) x = ground (arith, all-snoc p ys x)

  add_to_group-groups :
      (name : A → String) (x : A) (groups : List (String × List A))
      → all (is_group_of name) groups ≡ true
      → all (is_group_of name) (add_to_group (name x) x groups) ≡ true
  unfolding add_to_group all put value_at
  add_to_group-groups name x [] h = ground (arith, eq_iff (name x) (name x))
  add_to_group-groups name x ((k, xs) ∷ rest) h = ground (
    arith,
    eq_iff k (name x),
    eq_iff (name x) k,
    all-snoc (λ y. str_eq (name y) k) xs x,
    add_to_group-groups name x rest,
  )

  group_from-groups :
      (name : A → String) (xs : List A) (groups : List (String × List A))
      → all (is_group_of name) groups ≡ true
      → all (is_group_of name) (group_from name xs groups) ≡ true
  unfolding group_from
  group_from-groups name [] groups h = h
  group_from-groups name (x ∷ xs) groups h =
      group_from-groups name xs (add_to_group (name x) x groups)
        (add_to_group-groups name x groups h)

  -- What stands in a group has the name of the group.
  pub group_by-groups :
      (name : A → String) (xs : List A) → all (is_group_of name) (group_by name xs) ≡ true
  unfolding group_by all
  group_by-groups name xs = group_from-groups name xs [] refl

  abbrev pub head_holds : (A → Bool) → List A → Bool
  head_holds p [] = false
  head_holds p (x ∷ xs) = p x

  heads_of_groups :
      (key : String) (q : A → Bool) (name : A → String) (groups : List (String × List A))
      → all (is_group_of name) groups ≡ true
      → any (λ g. head_holds (λ x. str_eq (name x) key && q x) g.1) groups
        ≡ any (λ g. str_eq g.0 key && head_holds q g.1) groups
  unfolding any all
  heads_of_groups key q name [] h = refl
  heads_of_groups key q name ((k, []) ∷ rest) h = ground (arith, heads_of_groups key q name rest)
  heads_of_groups key q name ((k, x ∷ xs) ∷ rest) h =
      ground (arith, eq_iff (name x) k, heads_of_groups key q name rest)

  holds-extend :
      (q : A → Bool) (xs : List A) → holds (head_holds q) (extend none xs) ≡ head_holds q xs
  holds-extend q [] = refl
  holds-extend q (x ∷ xs) = refl

  -- The first entries of the groups, by name.
  pub any-heads :
      (key : String) (q : A → Bool) (name : A → String) (xs : List A)
      → any (λ g. head_holds (λ x. str_eq (name x) key && q x) g.1) (group_by name xs)
        ≡ head_holds q (keep (λ x. str_eq (name x) key) xs)
  any-heads key q name xs =
      heads_of_groups key q name (group_by name xs) (group_by-groups name xs)
      ∙ any-group_by key (λ k g. head_holds q g) name xs
      ∙ holds-extend q (keep (λ x. str_eq (name x) key) xs)

module _ {A : Type 0} where
  abbrev pub or_else : Option A → Option A → Option A
  or_else none other = other
  or_else (some a) other = some a

  pub or_else-none : (a : Option A) → a ≡ or_else a none
  or_else-none none = refl
  or_else-none (some a) = refl

  pub or_else_assoc : (a b c : Option A) → or_else (or_else a b) c ≡ or_else a (or_else b c)
  or_else_assoc none b c = refl
  or_else_assoc (some a) b c = refl

  pub or_else_lem :
      (a : Option A) (b : Bool) (x : A) (c : Option A)
      → or_else a (if b then some x else c) ≡ or_else (or_else a (if b then some x else none)) c
  or_else_lem none true x c = refl
  or_else_lem none false x c = refl
  or_else_lem (some a) b x c = refl

  -- A key that a map does not have.
  pub absent_lem :
      (key : String) (m : List (String × A)) → has_no key m ≡ true → value_at key m ≡ none
  unfolding all value_at
  absent_lem key [] h = refl
  absent_lem key ((k, v) ∷ rest) h = ground (arith, absent_lem key rest)
