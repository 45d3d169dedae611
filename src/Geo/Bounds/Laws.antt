-- ===== src/Geo/Bounds/Laws.antt =====
-- What the box operations mean for points.
use latlng.Prelude.{◌≡◌, refl, true, false, ◌&&◌, not, ok, arith, ◌↔◌}
use latlng.Geo.Float.{F64, is_nan, fle, flt, fmin, fmax, ◌≤ᶠ◌}
use latlng.Geo.Bounds.{
  BoundingBox, in_range, minus_90, minus_180, contains_point, contains, intersects, union, new,
  validate,
}

abbrev pub IsNumber : F64 → Type 0
IsNumber x = is_nan x ≡ false

pub fle_iff : (a b : F64) → (fle a b ≡ true) ↔ (IsNumber a × IsNumber b × (a ≤ᶠ b))
unfolding fle
fle_iff a b = (λ h. ground arith, λ h. ground arith)

pub flt-not : (a b : F64) → IsNumber a → IsNumber b → flt a b ≡ not (fle b a)
unfolding fle flt
flt-not a b h k = ground arith

pub fle_refl : (a : F64) → IsNumber a → fle a a ≡ true
fle_refl a h = (fle_iff a a).1 (h, h, omega arith)

pub fle_trans : (a b c : F64) → fle a b ≡ true → fle b c ≡ true → fle a c ≡ true
fle_trans a b c h k = ground (arith, fle_iff a b, fle_iff b c, fle_iff a c)

-- The greatest lower and the least upper bound.
pub fmin_lem :
    (a b c : F64)
    → IsNumber a
    → IsNumber b
    → (fle (fmin a b) a ≡ true)
      × (fle (fmin a b) b ≡ true)
      × (fle c a ≡ true → fle c b ≡ true → fle c (fmin a b) ≡ true)
unfolding fmin
fmin_lem a b c h k = (
  ground (arith, fle_iff a b, fle_iff b a, fle_iff a a),
  ground (arith, fle_iff a b, fle_iff b a, fle_iff b b),
  λ p q. ground arith,
)

pub fmax_lem :
    (a b c : F64)
    → IsNumber a
    → IsNumber b
    → (fle a (fmax a b) ≡ true)
      × (fle b (fmax a b) ≡ true)
      × (fle a c ≡ true → fle b c ≡ true → fle (fmax a b) c ≡ true)
unfolding fmax
fmax_lem a b c h k = (
  ground (arith, fle_iff a b, fle_iff b a, fle_iff a a),
  ground (arith, fle_iff a b, fle_iff b a, fle_iff b b),
  λ p q. ground arith,
)

-- The corners are numbers in order: the boxes that `validate` accepts, whatever their range.
abbrev pub IsBox : BoundingBox → Type 0
IsBox b = (fle b.min_lat b.max_lat ≡ true) × (fle b.min_lon b.max_lon ≡ true)

pub validate-IsBox : (b : BoundingBox) → validate b ≡ ok tt → IsBox b
unfolding validate
validate-IsBox b h = ground (
  arith,
  flt-not b.max_lat b.min_lat,
  flt-not b.max_lon b.min_lon,
  fle_iff minus_90 b.min_lat,
  fle_iff minus_90 b.max_lat,
  fle_iff minus_180 b.min_lon,
  fle_iff minus_180 b.max_lon,
)

-- Two intervals overlap where a point lies in both.
overlap :
    (a b c d : F64)
    → fle a b ≡ true
    → fle c d ≡ true
    → fle a d ≡ true
    → fle c b ≡ true
    → (in_range a b (fmax a c) ≡ true) × (in_range c d (fmax a c) ≡ true)
overlap a b c d h k l m = (
  ground (arith, fmax_lem a c b ((fle_iff a b).0 h).0 ((fle_iff c d).0 k).0),
  ground (arith, fmax_lem a c d ((fle_iff a b).0 h).0 ((fle_iff c d).0 k).0),
)

-- Two boxes, each with its least corner no greater than its greatest, intersect exactly where some point lies in both.
pub intersects_iff :
    (a b : BoundingBox)
    → IsBox a
    → IsBox b
    → (intersects a b ≡ true) ↔ (
        (lat : F64) × (lon : F64) × (contains_point a lat lon ≡ true)
        × (contains_point b lat lon ≡ true))
unfolding intersects contains_point
intersects_iff a b h k = (
  λ i. (
    fmax a.min_lat b.min_lat,
    fmax a.min_lon b.min_lon,
    ground (
      arith,
      overlap a.min_lat a.max_lat b.min_lat b.max_lat,
      overlap a.min_lon a.max_lon b.min_lon b.max_lon,
    ),
    ground (
      arith,
      overlap a.min_lat a.max_lat b.min_lat b.max_lat,
      overlap a.min_lon a.max_lon b.min_lon b.max_lon,
    ),
  ),
  λ p. ground (
    arith,
    fle_trans a.min_lat p.0 b.max_lat,
    fle_trans b.min_lat p.0 a.max_lat,
    fle_trans a.min_lon p.1 b.max_lon,
    fle_trans b.min_lon p.1 a.max_lon,
  ),
)

-- A box contains another, whose least corner is no greater than its greatest, exactly where it
-- contains the other's two corners, and then it contains every point of the other.
pub contains_iff :
    (a b : BoundingBox) (lat lon : F64)
    → IsBox b
    → ((contains a b ≡ true) ↔ (
        (contains_point a b.min_lat b.min_lon ≡ true)
        × (contains_point a b.max_lat b.max_lon ≡ true)))
      × ((contains a b && contains_point b lat lon && not (contains_point a lat lon)) ≡ false)
unfolding contains contains_point
contains_iff a b lat lon k = (
  (
    λ c. ground (
      arith,
      fle_trans b.min_lat b.max_lat a.max_lat,
      fle_trans b.min_lon b.max_lon a.max_lon,
      fle_trans a.min_lat b.min_lat b.max_lat,
      fle_trans a.min_lon b.min_lon b.max_lon,
    ),
    λ f. ground arith,
  ),
  ground (
    arith,
    fle_trans a.min_lat b.min_lat lat,
    fle_trans lat b.max_lat a.max_lat,
    fle_trans a.min_lon b.min_lon lon,
    fle_trans lon b.max_lon a.max_lon,
  ),
)

-- The span of two intervals, as `union` computes it from the unions of their ends.
span :
    (a b c d : F64)
    → fle a b ≡ true
    → fle c d ≡ true
    → let low = fmin a c in
      let high = fmax b d in
      (fle (fmin low high) a ≡ true)
      × (fle (fmin low high) c ≡ true)
      × (fle b (fmax high low) ≡ true)
      × (fle d (fmax high low) ≡ true)
span a b c d h k =
    let n = (fle_iff a b).0 h in
    let m = (fle_iff c d).0 k in
    let l = fmin_lem a c a n.0 m.0 in
    let u = fmax_lem b d b n.1 m.1 in
    let l_num = ((fle_iff (fmin a c) a).0 l.0).0 in
    let u_num = ((fle_iff b (fmax b d)).0 u.0).1 in
    let l' = fmin_lem (fmin a c) (fmax b d) a l_num u_num in
    let u' = fmax_lem (fmax b d) (fmin a c) b u_num l_num in
    (
      fle_trans _ (fmin a c) a l'.0 l.0,
      fle_trans _ (fmin a c) c l'.0 l.1,
      fle_trans b (fmax b d) _ u.0 u'.0,
      fle_trans d (fmax b d) _ u.1 u'.0,
    )

-- The union of two boxes, each with its least corner no greater than its greatest, contains both.
pub union-contains :
    (a b : BoundingBox)
    → IsBox a
    → IsBox b
    → (contains (union a b) a ≡ true) × (contains (union a b) b ≡ true)
unfolding contains union new
union-contains a b h k =
    let x = span a.min_lat a.max_lat b.min_lat b.max_lat h.0 k.0 in
    let y = span a.min_lon a.max_lon b.min_lon b.max_lon h.1 k.1 in
    (rw (x.0, y.0, x.2, y.2) refl, rw (x.1, y.1, x.3, y.3) refl)

-- Ends in order stay as they are.
pub fmin-le : (a b : F64) → fle a b ≡ true → fmin a b ≡ a
unfolding fmin
fmin-le a b h = ground (arith, fle_iff a b)

pub fmax-le : (a b : F64) → fle a b ≡ true → fmax b a ≡ b
unfolding fmax
fmax-le a b h = ground (arith, fle_iff a b)
