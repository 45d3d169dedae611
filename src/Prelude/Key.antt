-- ===== src/Prelude/Key.antt =====
-- Keys with a total order, as std's `Ord`: numbers, texts and pairs.
use Prim.Native.Nat.{ℕ, Ordering, compare}
use Prim.Native.String.{String, compare as compare_str}
use Prim.Native.String.compare as compare_str
use mathlib.Core.Bool.{Bool, true, false}
use mathlib.Core.Logic.{◌↔◌}
use mathlib.Core.Path.{◌≡◌, refl, ap, subst}
use native.Mathlib.Omega.{arith}
use text.Mathlib.TextEquality.{path_by_compare}
use text.Mathlib.TextPositions.{compare_refl}

pub record Ord (K : Type 0) : Type 0 where
  pub cmp : K → K → Ordering
  pub cmp_refl : (a : K) → cmp a a ≡ Ordering.eq
  pub cmp-eq : (a b : K) → cmp a b ≡ Ordering.eq → a ≡ b
  pub cmp-gt : (a b : K) → cmp a b ≡ Ordering.gt → cmp b a ≡ Ordering.lt
  pub cmp_trans :
      (a b c : K) → cmp a b ≡ Ordering.lt → cmp b c ≡ Ordering.lt → cmp a c ≡ Ordering.lt

abbrev pub is_eq : Ordering → Bool
is_eq Ordering.lt = false
is_eq Ordering.eq = true
is_eq Ordering.gt = false

abbrev pub is_lt : Ordering → Bool
is_lt Ordering.lt = true
is_lt Ordering.eq = false
is_lt Ordering.gt = false

infix 50 ◌==◌
abbrev pub ◌==◌ : {K : Type 0} ⦃e : Ord K⦄ → K → K → Bool
◌==◌ ⦃e⦄ a b = is_eq (e.cmp a b)

pub ==_iff : {K : Type 0} ⦃e : Ord K⦄ (a b : K) → ((a == b) ≡ true) ↔ (a ≡ b)
==_iff ⦃e⦄ a b = (
  λ h. ground (arith, e.cmp-eq a b),
  λ p. subst (λ c. (a == c) ≡ true) p (ap is_eq (e.cmp_refl a)),
)

pub ==_refl : {K : Type 0} ⦃e : Ord K⦄ (a : K) → (a == a) ≡ true
==_refl a = (==_iff a a).1 refl

pub nat_refl : (a : ℕ) → compare a a ≡ Ordering.eq
nat_refl a = ground arith

pub nat_eq : (a b : ℕ) → compare a b ≡ Ordering.eq → a ≡ b
nat_eq a b h = ground arith

pub nat_gt : (a b : ℕ) → compare a b ≡ Ordering.gt → compare b a ≡ Ordering.lt
nat_gt a b h = ground arith

pub nat_trans :
    (a b c : ℕ) → compare a b ≡ Ordering.lt → compare b c ≡ Ordering.lt → compare a c ≡ Ordering.lt
nat_trans a b c h k = ground arith

instance abbrev pub nat_key : Ord ℕ
nat_key = record {
  cmp = compare;
  cmp_refl = nat_refl;
  cmp-eq = nat_eq;
  cmp-gt = nat_gt;
  cmp_trans = nat_trans;
}

abbrev pub both : Ordering → Ordering → Ordering
both Ordering.lt r = Ordering.lt
both Ordering.eq r = r
both Ordering.gt r = Ordering.gt

pub str_gt : (s t : String) → compare_str s t ≡ Ordering.gt → compare_str t s ≡ Ordering.lt
str_gt String.[] String.[] h = ground (arith, compare_str.nil-nil)
str_gt String.[] (String.◌∷◌ d t) h = ground (arith, compare_str.nil-cons d t)
str_gt (String.◌∷◌ c s) String.[] h = compare_str.nil-cons c s
str_gt (String.◌∷◌ c s) (String.◌∷◌ d t) h =
    ground (arith, compare_str.cons-cons c d s t, compare_str.cons-cons d c t s, str_gt s t)

pub str_trans :
    (s t u : String)
    → compare_str s t ≡ Ordering.lt
    → compare_str t u ≡ Ordering.lt
    → compare_str s u ≡ Ordering.lt
str_trans String.[] String.[] u h k = k
str_trans String.[] (String.◌∷◌ d t) String.[] h k = ground (arith, compare_str.cons-nil d t)
str_trans String.[] (String.◌∷◌ d t) (String.◌∷◌ e u) h k = compare_str.nil-cons e u
str_trans (String.◌∷◌ c s) String.[] u h k = ground (arith, compare_str.cons-nil c s)
str_trans (String.◌∷◌ c s) (String.◌∷◌ d t) String.[] h k = ground (arith, compare_str.cons-nil d t)
str_trans (String.◌∷◌ c s) (String.◌∷◌ d t) (String.◌∷◌ e u) h k = ground (
  arith,
  compare_str.cons-cons c d s t,
  compare_str.cons-cons d e t u,
  compare_str.cons-cons c e s u,
  str_trans s t u,
)

instance abbrev pub string_key : Ord String
string_key = record {
  cmp = compare_str;
  cmp_refl = compare_refl;
  cmp-eq = path_by_compare;
  cmp-gt = str_gt;
  cmp_trans = str_trans;
}

-- Pairs in lexicographic order.
module _ {A B : Type 0} ⦃a : Ord A⦄ ⦃b : Ord B⦄ where
  abbrev pub cmp_pair : A × B → A × B → Ordering
  cmp_pair (x, y) (u, v) = both (a.cmp x u) (b.cmp y v)

  pub pair_refl : (p : A × B) → cmp_pair p p ≡ Ordering.eq
  pair_refl (x, y) = ground (arith, a.cmp_refl x, b.cmp_refl y)

  pub pair_eq : (p q : A × B) → cmp_pair p q ≡ Ordering.eq → p ≡ q
  pair_eq (x, y) (u, v) h = ground (arith, a.cmp-eq x u, b.cmp-eq y v)

  pub pair_gt : (p q : A × B) → cmp_pair p q ≡ Ordering.gt → cmp_pair q p ≡ Ordering.lt
  pair_gt (x, y) (u, v) h = ground (arith, a.cmp-eq x u, a.cmp_refl u, a.cmp-gt x u, b.cmp-gt y v)

  pub pair_trans :
      (p q r : A × B)
      → cmp_pair p q ≡ Ordering.lt
      → cmp_pair q r ≡ Ordering.lt
      → cmp_pair p r ≡ Ordering.lt
  pair_trans (x, y) (u, v) (w, z) h k =
      ground (arith, a.cmp-eq x u, a.cmp-eq u w, a.cmp_refl u, a.cmp_trans x u w, b.cmp_trans y v z)

  instance abbrev pub pair_key : Ord (A × B)
  pair_key = record {
    cmp = cmp_pair;
    cmp_refl = pair_refl;
    cmp-eq = pair_eq;
    cmp-gt = pair_gt;
    cmp_trans = pair_trans;
  }
