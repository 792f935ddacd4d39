-- ===== src/Base/Order.antt =====
-- Go compares strings byte by byte, which is the order of their code points. A text is compared
-- through the list of its code points, so that a key joined from several texts compares the same way.
use Prim.Native.Nat.{ℕ}
use Prim.Native.Char.{code}
use Prim.Native.String.{String}
use mathlib.Core.Path.{◌≡◌, refl}
use mathlib.Core.Bool.{Bool, true, false, ◌||◌, ◌&&◌}
use mathlib.Core.List.{List, [], ◌∷◌}
use native.Mathlib.Omega.{arith}
use mongo_overview_tool.Base.Tests.{ltb, ◌==◌}

-- The code points of a text.
abbrev pub codes : String → List ℕ
codes String.[] = []
codes (String.◌∷◌ c s) = code c ∷ codes s

-- a < b, lexicographically.
unfoldable pub lex_lt : List ℕ → List ℕ → Bool
lex_lt [] [] = false
lex_lt [] (y ∷ ys) = true
lex_lt (x ∷ xs) [] = false
lex_lt (x ∷ xs) (y ∷ ys) = ltb x y || ((x == y) && lex_lt xs ys)

unfoldable pub str_lt : String → String → Bool
unfolding lex_lt
str_lt a b = lex_lt (codes a) (codes b)

unfoldable pub lex_eq : List ℕ → List ℕ → Bool
lex_eq [] [] = true
lex_eq [] (y ∷ ys) = false
lex_eq (x ∷ xs) [] = false
lex_eq (x ∷ xs) (y ∷ ys) = (x == y) && lex_eq xs ys

pub lex_lt_irrefl : (xs : List ℕ) → lex_lt xs xs ≡ false
unfolding lex_lt
lex_lt_irrefl [] = refl
lex_lt_irrefl (x ∷ xs) = ground (arith, lex_lt_irrefl xs)

pub lex_lt_asymm : (xs ys : List ℕ) → lex_lt xs ys ≡ true → lex_lt ys xs ≡ false
unfolding lex_lt
lex_lt_asymm [] [] h = refl
lex_lt_asymm [] (y ∷ ys) h = refl
lex_lt_asymm (x ∷ xs) [] h = ground arith
lex_lt_asymm (x ∷ xs) (y ∷ ys) h = ground (arith, lex_lt_asymm xs ys)

-- Incomparability is transitive: what is below zs is below ys, or ys is below zs.
pub lex_lt_cotrans :
    (xs ys zs : List ℕ) → lex_lt xs zs ≡ true → (lex_lt xs ys || lex_lt ys zs) ≡ true
unfolding lex_lt
lex_lt_cotrans [] [] (z ∷ zs) h = refl
lex_lt_cotrans [] (y ∷ ys) zs h = refl
lex_lt_cotrans [] [] [] h = ground arith
lex_lt_cotrans (x ∷ xs) ys [] h = ground arith
lex_lt_cotrans (x ∷ xs) [] (z ∷ zs) h = refl
lex_lt_cotrans (x ∷ xs) (y ∷ ys) (z ∷ zs) h = ground (arith, lex_lt_cotrans xs ys zs)

pub lex_lt_trans :
    (xs ys zs : List ℕ) → lex_lt xs ys ≡ true → lex_lt ys zs ≡ true → lex_lt xs zs ≡ true
lex_lt_trans xs ys zs h k = ground (arith, lex_lt_cotrans xs zs ys h, lex_lt_asymm ys zs k)

pub lex_lt_trichotomy : (xs ys : List ℕ) → lex_lt xs ys ≡ false → lex_lt ys xs ≡ false → xs ≡ ys
unfolding lex_lt
lex_lt_trichotomy [] [] h k = refl
lex_lt_trichotomy [] (y ∷ ys) h k = ground arith
lex_lt_trichotomy (x ∷ xs) [] h k = ground arith
lex_lt_trichotomy (x ∷ xs) (y ∷ ys) h k = ground (arith, lex_lt_trichotomy xs ys)
