-- ===== src/Geo/Float.antt =====
-- f64 as its IEEE 754 bit pattern, a number below 2^64: the comparisons of the program are functions
-- of the bits. Sums, products and the trigonometry stay parameters where they are used.
use latlng.Prelude.{
  ℕ, ◌+◌, ◌-◌, ◌%◌, ◌^◌, ◌≤◌, Bool, ◌&&◌, not, ltb, leb, ◌==◌, nat_key, if◌then◌else◌,
}

abbrev pub F64 : Type 0
F64 = ℕ

abbrev pub infinity : F64
infinity = 0x7ff0000000000000

abbrev pub nan : F64
nan = 0x7ff8000000000000

-- The magnitude: the bits without the sign.
abbrev pub magnitude : F64 → ℕ
magnitude x = x % 2 ^ 63

abbrev pub is_negative : F64 → Bool
is_negative x = leb (2 ^ 63) x

unfoldable pub is_nan : F64 → Bool
is_nan x = ltb infinity (magnitude x)

unfoldable pub is_finite : F64 → Bool
is_finite x = ltb (magnitude x) infinity

-- A number is the difference of these two, one of which is 0; both zeros are 0 - 0.
unfoldable pub pos_part : F64 → ℕ
pos_part x = if is_negative x then 0 else magnitude x

unfoldable pub neg_part : F64 → ℕ
neg_part x = if is_negative x then magnitude x else 0

-- `<=`, `<` and `==` of f64: false where an operand is NaN.
unfoldable pub fle : F64 → F64 → Bool
unfolding is_nan pos_part neg_part
fle a b =
    not (is_nan a) && not (is_nan b) && leb (pos_part a + neg_part b) (pos_part b + neg_part a)

unfoldable pub flt : F64 → F64 → Bool
unfolding is_nan pos_part neg_part
flt a b =
    not (is_nan a) && not (is_nan b) && ltb (pos_part a + neg_part b) (pos_part b + neg_part a)

unfoldable pub feq : F64 → F64 → Bool
unfolding is_nan pos_part neg_part
feq a b = not (is_nan a) && not (is_nan b) && pos_part a + neg_part b == pos_part b + neg_part a

-- `f64::min` and `f64::max`: the other operand where one is NaN. Between the two zeros std leaves
-- the sign open; the first operand is taken.
unfoldable pub fmin : F64 → F64 → F64
unfolding fle
fmin a b = if is_nan a then b else if is_nan b then a else if fle a b then a else b

unfoldable pub fmax : F64 → F64 → F64
unfolding fle
fmax a b = if is_nan a then b else if is_nan b then a else if fle b a then a else b

-- The place of a bit pattern in `total_cmp`.
unfoldable pub total_key : F64 → ℕ
total_key x = if is_negative x then 2 ^ 64 - 1 - x else x + 2 ^ 63

-- `<=` on numbers that are not NaN, as a statement.
abbrev pub ◌≤ᶠ◌ : F64 → F64 → Type 0
a ≤ᶠ b = pos_part a + neg_part b ≤ pos_part b + neg_part a

infix 50 ◌≤ᶠ◌
