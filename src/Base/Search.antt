-- ===== src/Base/Search.antt =====
-- Whether some entry of a list passes a test, through the ways in which the code builds lists.
use mathlib.Core.Bool.{Bool, false, ◌&&◌}
use mathlib.Core.List.{List, [], ◌∷◌, map}
use mathlib.Core.Path.{◌≡◌, refl, ◌∙◌}
use native.Mathlib.Omega.{arith}
use mongo_overview_tool.Base.Lists.{any, concat, any-append}

module _ {A B : Type 0} where
  pub any-map : (p : B → Bool) (f : A → B) (xs : List A) → any p (map f xs) ≡ any (λ x. p (f x)) xs
  unfolding any
  any-map p f [] = refl
  any-map p f (x ∷ xs) = rw (any-map p f xs)

  pub any-concat-map :
      (p : B → Bool) (f : A → List B) (xs : List A)
      → any p (concat (map f xs)) ≡ any (λ x. any p (f x)) xs
  unfolding any
  any-concat-map p f [] = refl
  any-concat-map p f (x ∷ xs) = any-append p (f x) (concat (map f xs)) ∙ rw (any-concat-map p f xs)

module _ {A : Type 0} where
  pub any-ext : (p q : A → Bool) (xs : List A) → ((x : A) → p x ≡ q x) → any p xs ≡ any q xs
  unfolding any
  any-ext p q [] h = refl
  any-ext p q (x ∷ xs) h = rw (h x) (rw (any-ext p q xs h))

  pub any_and : (b : Bool) (p : A → Bool) (xs : List A) → any (λ x. b && p x) xs ≡ (b && any p xs)
  unfolding any
  any_and b p [] = ground arith
  any_and b p (x ∷ xs) = ground (arith, any_and b p xs)

  pub any_none : (p : A → Bool) (xs : List A) → ((x : A) → p x ≡ false) → any p xs ≡ false
  unfolding any
  any_none p [] h = refl
  any_none p (x ∷ xs) h = ground (arith, h x, any_none p xs h)
