-- ===== src/Base/Pigeons.antt =====
-- Maps whose keys are among given strings: one that is as large as the strings has them all.
use mathlib.Core.Bool.{Bool, true, false, ◌||◌}
use mathlib.Core.List.{List, [], ◌∷◌, map}
use mathlib.Core.Option.{some}
use mathlib.Core.Path.{◌≡◌, refl}
use native.Mathlib.Omega.{arith}
use Prim.Native.Nat.{suc, ◌≤◌}
use Prim.Native.String.{String}
use text.Mathlib.Text.{◌==◌ as str_eq}
use text.Mathlib.TextEquality.{eq_iff}
use mongo_overview_tool.Base.Lists.{any, all, count, length, count-le-length}
use mongo_overview_tool.Base.Maps.{value_at, Distinct, is_there, has_no, absent_lem}

abbrev pub member : List String → String → Bool
member es key = any (λ e. str_eq e key) es

pub all-member :
    (p : String → Bool) (es : List String) (key : String)
    → all p es ≡ true
    → member es key ≡ true
    → p key ≡ true
unfolding all any
all-member p [] key h k = cc
all-member p (e ∷ es) key h k = ground (arith, eq_iff e key, all-member p es key)

all_of_count : (p : String → Bool) (es : List String) → length es ≤ count p es → all p es ≡ true
unfolding all count
all_of_count p [] h = refl
all_of_count p (e ∷ es) h = ground (arith, all_of_count p es, count-le-length p es)

count_mono :
    (p q : String → Bool) (es : List String)
    → ((x : String) → p x ≡ true → q x ≡ true)
    → count p es ≤ count q es
unfolding count
count_mono p q [] h = omega arith
count_mono p q (e ∷ es) h = ground (arith, h e, count_mono p q es h)

one_more :
    (p : String → Bool) (key : String) (es : List String)
    → member es key ≡ true
    → p key ≡ false
    → suc (count p es) ≤ count (λ x. str_eq key x || p x) es
unfolding count any
one_more p key [] h k = cc
one_more p key (e ∷ es) h k = ground (
  arith,
  eq_iff e key,
  eq_iff key e,
  one_more p key es,
  count_mono p (λ x. str_eq key x || p x) es (λ x t. ground arith),
)

module _ {A : Type 0} where
  there_or :
      (k : String) (v : A) (rest : List (String × A)) (x : String)
      → is_there (value_at x ((k, v) ∷ rest)) ≡ (str_eq k x || is_there (value_at x rest))
  unfolding value_at
  there_or k v rest x = ground arith

  count-there :
      (k : String) (v : A) (rest : List (String × A)) (es : List String)
      → count (λ x. is_there (value_at x ((k, v) ∷ rest))) es
        ≡ count (λ x. str_eq k x || is_there (value_at x rest)) es
  unfolding count
  count-there k v rest [] = refl
  count-there k v rest (e ∷ es) = rw (there_or k v rest e) (rw (count-there k v rest es) refl)

  length-le-count :
      (m : List (String × A)) (es : List String)
      → Distinct m
      → all (λ e. member es e.0) m ≡ true
      → length m ≤ count (λ x. is_there (value_at x m)) es
  unfolding all
  length-le-count [] es d h = omega arith
  length-le-count ((k, v) ∷ rest) es d h = rw (count-there k v rest es) (
      ground (
        arith,
        length-le-count rest es d.1,
        one_more (λ x. is_there (value_at x rest)) k es,
        absent_lem k rest d.0,
      ))

  -- A map with distinct keys out of some strings, and as many as these are, has all of them.
  pub pigeons :
      (m : List (String × A)) (es : List String) (key : String)
      → Distinct m
      → all (λ e. member es e.0) m ≡ true
      → length m ≡ length es
      → member es key ≡ true
      → is_there (value_at key m) ≡ true
  pigeons m es key d h l k =
      all-member (λ x. is_there (value_at x m)) es key
        (all_of_count (λ x. is_there (value_at x m)) es (omega (arith, length-le-count m es d h))) k

  at_head : (k : String) (v : A) (rest : List (String × A)) → value_at k ((k, v) ∷ rest) ≡ some v
  unfolding value_at
  at_head k v rest = ground (arith, eq_iff k k)

  at_tail :
      (k : String) (v : A) (rest : List (String × A)) (key : String) (a : A)
      → has_no k rest ≡ true
      → value_at key rest ≡ some a
      → value_at key ((k, v) ∷ rest) ≡ some a
  unfolding value_at
  at_tail k v rest key a h e = ground (arith, eq_iff k key, absent_lem k rest)

  pub all-keys :
      (p : String → Bool) (m : List (String × A))
      → Distinct m
      → ((k : String) (v : A) → value_at k m ≡ some v → p k ≡ true)
      → all (λ e. p e.0) m ≡ true
  unfolding all value_at
  all-keys p [] d h = refl
  all-keys p ((k, v) ∷ rest) d h = ground (
    arith,
    h k v (at_head k v rest),
    all-keys p rest d.1 (λ key a e. h key a (at_tail k v rest key a d.0 e)),
  )

  -- What a map holds is among its values.
  pub value_among :
      (q : A → Bool) (key : String) (m : List (String × A)) (a : A)
      → value_at key m ≡ some a
      → q a ≡ true
      → any q (map (λ e. e.1) m) ≡ true
  unfolding any value_at
  value_among q key [] a h k = cc
  value_among q key ((j, v) ∷ rest) a h k = ground (arith, value_among q key rest a)
