-- ===== src/Capacity/Changes.antt =====
-- The change that capacityDelta reports, an int64.
use mongo_overview_tool.Capacity.{capacity_delta}
use mongo_overview_tool.Base.{
  ◌∙◌, ap, Option, refl, some, none, ◌≤◌, ◌-◌, ◌+◌, ◌^◌, ◌<◌, arith, ◌%◌, ◌≡◌, ℕ,
}
use mongo_overview_tool.Base.Int.{pos, neg_part, pos_part, ◌-ℤ◌, ◌+ℤ◌, wrap_int64, ℤ}

abbrev value_of : ℤ → ℕ
value_of a = (pos_part a % 2 ^ 64 + 2 ^ 64 - neg_part a % 2 ^ 64) % 2 ^ 64

wrap_value : (a : ℤ) → value_of (wrap_int64 a) ≡ value_of a
unfolding wrap_int64
wrap_value a = ground arith

wrap_of_value : (a b : ℤ) → value_of a ≡ value_of b → wrap_int64 a ≡ wrap_int64 b
unfolding wrap_int64
wrap_of_value a b h = ground arith

value_add :
    (a b c d : ℤ)
    → value_of a ≡ value_of c
    → value_of b ≡ value_of d
    → value_of (a +ℤ b) ≡ value_of (c +ℤ d)
unfolding ◌+ℤ◌
value_add a b c d h k = ground arith

add_parts :
    (a b : ℤ)
    → pos_part (a +ℤ b) + neg_part a + neg_part b ≡ neg_part (a +ℤ b) + pos_part a + pos_part b
unfolding ◌+ℤ◌
add_parts a b = ground arith

sub_parts :
    (a b : ℤ)
    → pos_part (a -ℤ b) + neg_part a + pos_part b ≡ neg_part (a -ℤ b) + pos_part a + neg_part b
unfolding ◌-ℤ◌
sub_parts a b = ground arith

eq_of_parts : (a b : ℤ) → pos_part a + neg_part b ≡ pos_part b + neg_part a → a ≡ b
eq_of_parts a b h = ground arith

telescope : (b m a : ℤ) → (m -ℤ b) +ℤ (a -ℤ m) ≡ a -ℤ b
telescope b m a =
    eq_of_parts _ _
      (omega (arith, add_parts (m -ℤ b) (a -ℤ m), sub_parts m b, sub_parts a m, sub_parts a b))

wrap_small : (a : ℤ) → pos_part a < 2 ^ 63 → neg_part a ≤ 2 ^ 63 → wrap_int64 a ≡ a
unfolding wrap_int64
wrap_small a h k = ground arith

wrapped_sum : (x y : ℤ) → wrap_int64 (wrap_int64 x +ℤ wrap_int64 y) ≡ wrap_int64 (x +ℤ y)
wrapped_sum x y =
    wrap_of_value (wrap_int64 x +ℤ wrap_int64 y) (x +ℤ y)
      (value_add (wrap_int64 x) (wrap_int64 y) x y (wrap_value x) (wrap_value y))

sub_small_pos : (a b : ℕ) → a < 2 ^ 63 → pos_part (pos a -ℤ pos b) < 2 ^ 63
unfolding ◌-ℤ◌
sub_small_pos a b h = ground arith

sub_small_neg : (a b : ℕ) → b < 2 ^ 63 → neg_part (pos a -ℤ pos b) ≤ 2 ^ 63
unfolding ◌-ℤ◌
sub_small_neg a b h = ground arith

sub_small : (a b : ℕ) → a < 2 ^ 63 → b < 2 ^ 63 → wrap_int64 (pos a -ℤ pos b) ≡ pos a -ℤ pos b
sub_small a b h k = wrap_small (pos a -ℤ pos b) (sub_small_pos a b h) (sub_small_neg a b k)

-- The sum of two changes, as an int64.
abbrev pub add_changes : Option ℤ → Option ℤ → Option ℤ
add_changes none y = none
add_changes (some x) none = none
add_changes (some x) (some y) = some (wrap_int64 (x +ℤ y))

-- Where the value in the middle is known, the change from the first snapshot to the last is the sum
-- of the two changes on the way, also where an int64 overflows.
pub capacity_delta-add :
    (before after : Option ℤ) (middle : ℤ) (d d' d'' : ℕ)
    → add_changes
        (capacity_delta before (some middle) d).delta
        (capacity_delta (some middle) after d').delta
      ≡ (capacity_delta before after d'').delta
unfolding capacity_delta
capacity_delta-add none after m d d' d'' = refl
capacity_delta-add (some b) none m d d' d'' = refl
capacity_delta-add (some b) (some a) m d d' d'' =
    ap some (wrapped_sum (m -ℤ b) (a -ℤ m) ∙ ap wrap_int64 (telescope b m a))

-- The change between two sizes that are not negative is their difference: it does not overflow.
pub capacity_delta_exact :
    (before after duration : ℕ)
    → before < 2 ^ 63
    → after < 2 ^ 63
    → (capacity_delta (some (pos before)) (some (pos after)) duration).delta
      ≡ some (pos after -ℤ pos before)
unfolding capacity_delta
capacity_delta_exact before after duration h k = ap some (sub_small after before k h)
