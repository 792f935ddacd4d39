-- ===== src/Base/Chains.antt =====
-- Comparisons by one key and then by another, as `sort` gets them.
use mathlib.Core.Bool.{Bool, true, false, ◌||◌}
use mathlib.Core.Path.{◌≡◌, refl, sym}
use mathlib.Core.List.{nil≢cons, head-eq_of_cons-eq, tail-eq_of_cons-eq}
use native.Mathlib.Omega.{arith}
use Prim.Native.String.{String}
use text.Mathlib.Text.{◌==◌ as str_eq}
use text.Mathlib.TextEquality.{eq_iff, Char-path}
use mongo_overview_tool.Base.Int.{ℤ, ltb_ℤ, eq_ℤ}
use mongo_overview_tool.Base.Order.{
  codes, str_lt, lex_lt_irrefl, lex_lt_asymm, lex_lt_cotrans, lex_lt_trichotomy,
}
use mongo_overview_tool.Base.Sort.{IsOrder}
use mongo_overview_tool.Base.Tests.{if◌then◌else◌, not}

-- A key with a test for equality: it is an order, and what is not equal is below or above.
pub record IsKey {A : Type 0} (same less : A → A → Bool) : Type 0 where
  pub asymm : (x y : A) → less x y ≡ true → less y x ≡ false
  pub cotrans : (x y z : A) → less x z ≡ true → (less x y || less y z) ≡ true
  pub irrefl : (x y : A) → same x y ≡ true → (less x y || less y x) ≡ false
  pub total : (x y : A) → less x y ≡ false → less y x ≡ false → same x y ≡ true

abbrev pub chain : {A : Type 0} → (A → A → Bool) → (A → A → Bool) → (A → A → Bool) → A → A → Bool
chain same less rest x y = if not (same x y) then less x y else rest x y

module _ {A : Type 0} (same less rest : A → A → Bool) (k : IsKey same less) (o : IsOrder rest) where
  chain_asymm : (x y : A) → chain same less rest x y ≡ true → chain same less rest y x ≡ false
  chain_asymm x y h =
      ground (arith, k.asymm x y, k.irrefl x y, k.irrefl y x, k.total y x, o.asymm x y)

  chain_cotrans :
      (x y z : A)
      → chain same less rest x z ≡ true
      → (chain same less rest x y || chain same less rest y z) ≡ true
  chain_cotrans x y z h = ground (
    arith,
    k.cotrans x y z,
    k.cotrans y x z,
    k.cotrans y z x,
    k.cotrans z x y,
    k.cotrans x z y,
    k.irrefl x y,
    k.irrefl y z,
    k.irrefl x z,
    k.total x y,
    k.total y z,
    k.total x z,
    k.asymm x z,
    k.asymm x y,
    k.asymm y z,
    o.cotrans x y z,
  )

  pub chain-IsOrder : IsOrder (chain same less rest)
  chain-IsOrder = record { asymm = chain_asymm; cotrans = chain_cotrans }

same_codes : (s t : String) → codes s ≡ codes t → s ≡ t
same_codes String.[] String.[] h = refl
same_codes String.[] (String.◌∷◌ d t) h = absurd (nil≢cons h)
same_codes (String.◌∷◌ c s) String.[] h = absurd (nil≢cons (sym h))
same_codes (String.◌∷◌ c s) (String.◌∷◌ d t) h =
    rw (Char-path c d (head-eq_of_cons-eq h)) (rw (same_codes s t (tail-eq_of_cons-eq h)) refl)

module _ {A : Type 0} (key : A → String) where
  str_asymm : (x y : A) → str_lt (key x) (key y) ≡ true → str_lt (key y) (key x) ≡ false
  unfolding str_lt
  str_asymm x y h = lex_lt_asymm (codes (key x)) (codes (key y)) h

  str_cotrans :
      (x y z : A)
      → str_lt (key x) (key z) ≡ true
      → (str_lt (key x) (key y) || str_lt (key y) (key z)) ≡ true
  unfolding str_lt
  str_cotrans x y z h = lex_lt_cotrans (codes (key x)) (codes (key y)) (codes (key z)) h

  str_irrefl :
      (x y : A)
      → str_eq (key x) (key y) ≡ true
      → (str_lt (key x) (key y) || str_lt (key y) (key x)) ≡ false
  unfolding str_lt
  str_irrefl x y h = rw ((eq_iff (key x) (key y)).0 h) (rw (lex_lt_irrefl (codes (key y))) refl)

  pub str_lt-IsOrder : IsOrder (λ x y. str_lt (key x) (key y))
  str_lt-IsOrder = record { asymm = str_asymm; cotrans = str_cotrans }

  str_total :
      (x y : A)
      → str_lt (key x) (key y) ≡ false
      → str_lt (key y) (key x) ≡ false
      → str_eq (key x) (key y) ≡ true
  unfolding str_lt
  str_total x y h k =
      (eq_iff (key x) (key y)).1
        (same_codes (key x) (key y) (lex_lt_trichotomy (codes (key x)) (codes (key y)) h k))

  pub str-IsKey : IsKey (λ x y. str_eq (key x) (key y)) (λ x y. str_lt (key x) (key y))
  str-IsKey = record {
    asymm = str_asymm;
    cotrans = str_cotrans;
    irrefl = str_irrefl;
    total = str_total;
  }

module _ {A : Type 0} (key : A → ℤ) where
  -- The larger number first.
  pub falling-IsKey : IsKey (λ x y. eq_ℤ (key x) (key y)) (λ x y. ltb_ℤ (key y) (key x))
  falling-IsKey = record {
    asymm = λ x y h. ground arith;
    cotrans = λ x y z h. ground arith;
    irrefl = λ x y h. ground arith;
    total = λ x y h k. ground arith;
  }
