-- ===== src/Base/Sort.antt =====
-- `sort.SliceStable`: the order of equal entries is kept, so the result is that of an insertion
-- sort. A comparison that the code passes is a strict weak order.
use mathlib.Core.Path.{◌≡◌, refl, ap, ◌∙◌}
use mathlib.Core.Bool.{Bool, true, false, ◌||◌, ◌&&◌}
use mathlib.Core.List.{List, [], ◌∷◌, Perm}
use mathlib.Core.List.Perm
use native.Mathlib.Omega.{arith}
use mongo_overview_tool.Base.Tests.{if◌then◌else◌, Bool-cases, not}
use mongo_overview_tool.Base.Lists.{all, any, count, length}
use Prim.Native.Nat.{suc}
use mathlib.Core.Logic.{inl, inr}

module _ {ℓ} {A : Type ℓ} where
  -- x goes before the first entry that is not below it.
  unfoldable pub insert : (A → A → Bool) → A → List A → List A
  insert less x [] = x ∷ []
  insert less x (y ∷ ys) = let rest = y ∷ insert less x ys in if less y x then rest else x ∷ y ∷ ys

  unfoldable pub sort_stable : (A → A → Bool) → List A → List A
  unfolding insert
  sort_stable less [] = []
  sort_stable less (x ∷ xs) = insert less x (sort_stable less xs)

  -- No later entry is below an earlier one.
  abbrev pub IsSorted : (A → A → Bool) → List A → Type 0
  IsSorted less [] = Unit {0}
  IsSorted less (x ∷ xs) = (all (λ y. not (less y x)) xs ≡ true) × IsSorted less xs

  pub insert-perm : (less : A → A → Bool) (x : A) (xs : List A) → Perm (insert less x xs) (x ∷ xs)
  unfolding insert
  insert-perm less x [] = Perm.refl _
  insert-perm less x (y ∷ ys) = elim (Bool-cases (less y x)) [
    | inl e ↦ rw e (Perm.trans (Perm.cons y (insert-perm less x ys)) (Perm.swap x y ys))
    | inr e ↦ rw e (Perm.refl _)
  ]

  pub sort_stable-perm : (less : A → A → Bool) (xs : List A) → Perm (sort_stable less xs) xs
  unfolding sort_stable
  sort_stable-perm less [] = Perm.refl _
  sort_stable-perm less (x ∷ xs) =
      Perm.trans (insert-perm less x (sort_stable less xs)) (Perm.cons x (sort_stable-perm less xs))

pub record IsOrder {ℓ} {A : Type ℓ} (less : A → A → Bool) : Type ℓ where
  pub asymm : (x y : A) → less x y ≡ true → less y x ≡ false
  pub cotrans : (x y z : A) → less x z ≡ true → (less x y || less y z) ≡ true

module _ {ℓ} {A : Type ℓ} (less : A → A → Bool) (o : IsOrder less) where
  all-insert :
      (p : A → Bool) (x : A) (xs : List A)
      → p x ≡ true
      → all p xs ≡ true
      → all p (insert less x xs) ≡ true
  unfolding insert all
  all-insert p x [] h k = ground arith
  all-insert p x (y ∷ ys) h k = ground (arith, all-insert p x ys h)

  all-below :
      (x y : A) (ys : List A)
      → less y x ≡ false
      → all (λ z. not (less z y)) ys ≡ true
      → all (λ z. not (less z x)) ys ≡ true
  unfolding all
  all-below x y [] h k = refl
  all-below x y (z ∷ zs) h k = ground (arith, all-below x y zs h, o.cotrans z y x)

  insert-IsSorted : (x : A) (xs : List A) → IsSorted less xs → IsSorted less (insert less x xs)
  unfolding insert all
  insert-IsSorted x [] s = (refl, tt)
  insert-IsSorted x (y ∷ ys) s = elim (Bool-cases (less y x)) [
    | inl e ↦ rw e (
      all-insert (λ z. not (less z y)) x ys (ground (arith, o.asymm y x e)) s.0,
      insert-IsSorted x ys s.1,
    )
    | inr e ↦ rw e (ground (arith, all-below x y ys e s.0), s)
  ]

  pub sort_stable-IsSorted : (xs : List A) → IsSorted less (sort_stable less xs)
  unfolding sort_stable
  sort_stable-IsSorted [] = tt
  sort_stable-IsSorted (x ∷ xs) = insert-IsSorted x _ (sort_stable-IsSorted xs)

module _ {ℓ} {A : Type ℓ} (less other : A → A → Bool) where
  none_below :
      (y : A) (xs : List A)
      → ((x y : A) → less x y ≡ other x y)
      → all (λ z. not (less z y)) xs ≡ true
      → all (λ z. not (other z y)) xs ≡ true
  unfolding all
  none_below y [] h k = refl
  none_below y (x ∷ xs) h k = ground (arith, h x y, none_below y xs h)

  -- Sorted by a comparison is sorted by any other that says the same.
  pub IsSorted-by :
      (xs : List A) → ((x y : A) → less x y ≡ other x y) → IsSorted less xs → IsSorted other xs
  IsSorted-by [] h s = tt
  IsSorted-by (x ∷ xs) h s = (none_below x xs h s.0, IsSorted-by xs h s.1)

module _ {ℓ} {A : Type ℓ} (less : A → A → Bool) where
  any-insert : (p : A → Bool) (x : A) (xs : List A) → any p (insert less x xs) ≡ (p x || any p xs)
  unfolding insert any
  any-insert p x [] = refl
  any-insert p x (y ∷ ys) = ground (arith, any-insert p x ys)

  all-inserted : (p : A → Bool) (x : A) (xs : List A) → all p (insert less x xs) ≡ (p x && all p xs)
  unfolding insert all
  all-inserted p x [] = refl
  all-inserted p x (y ∷ ys) = ground (arith, all-inserted p x ys)

  pub all-sort_stable : (p : A → Bool) (xs : List A) → all p (sort_stable less xs) ≡ all p xs
  unfolding sort_stable all
  all-sort_stable p [] = refl
  all-sort_stable p (x ∷ xs) =
      ground (arith, all-inserted p x (sort_stable less xs), all-sort_stable p xs)

  -- Sorting does not change whether an entry passes a test.
  pub any-sort_stable : (p : A → Bool) (xs : List A) → any p (sort_stable less xs) ≡ any p xs
  unfolding sort_stable any
  any-sort_stable p [] = refl
  any-sort_stable p (x ∷ xs) =
      ground (arith, any-insert p x (sort_stable less xs), any-sort_stable p xs)

  count-insert :
      (p : A → Bool) (x : A) (xs : List A) → count p (insert less x xs) ≡ count p (x ∷ xs)
  unfolding insert count
  count-insert p x [] = refl
  count-insert p x (y ∷ ys) = ground (arith, count-insert p x ys)

  -- Nor how many do.
  pub count-sort_stable : (p : A → Bool) (xs : List A) → count p (sort_stable less xs) ≡ count p xs
  unfolding sort_stable count
  count-sort_stable p [] = refl
  count-sort_stable p (x ∷ xs) =
      ground (arith, count-insert p x (sort_stable less xs), count-sort_stable p xs)

  length-insert : (x : A) (xs : List A) → length (insert less x xs) ≡ suc (length xs)
  unfolding insert
  length-insert x [] = refl
  length-insert x (y ∷ ys) = ground (arith, length-insert x ys)

  pub length-sort_stable : (xs : List A) → length (sort_stable less xs) ≡ length xs
  unfolding sort_stable
  length-sort_stable [] = refl
  length-sort_stable (x ∷ xs) =
      length-insert x (sort_stable less xs) ∙ ap suc (length-sort_stable xs)
