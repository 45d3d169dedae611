-- ===== src/Geo/Geohash/Laws.antt =====
-- Decoding a geohash narrows the world to a box, and every further character narrows it further.
use Prim.Native.Char.{Char}
use Prim.Native.String.{◌++◌}
use text.Mathlib.TextLemmas.{nil-append, cons-append}
use latlng.Prelude.{
  ℕ, zero, suc, String, none, some, Bool, true, Result, ok, err, ◌≡◌, refl, ap, sym, ◌∙◌, arith,
  Option-cases, Result-cases, map_ok, ◌>>=◌, ok≢err, ok_inj, subst, inl, inr, ◌==◌, nat_key, ◌/◌,
  ◌%◌, ◌^◌,
}
use latlng.Geo.Float.{F64, fle}
use latlng.Geo.Bounds.{BoundingBox, new, contains, minus_180, plus_180}
use latlng.Geo.Bounds.Laws.{fle_trans, fle_refl, fle_iff, fmin-le, fmax-le}
use latlng.Geo.Geohash.{
  Cell, world, narrow, narrow_bits, decode_cell, decode_geohash_bbox, alphabet_index,
}
use latlng.Geo.JsonPath.{GeoError, invalid_geohash}

-- Two numbers in order, both from -180 to 180.
abbrev pub IsRange : F64 → F64 → Type 0
IsRange a b = (fle minus_180 a ≡ true) × (fle a b ≡ true) × (fle b plus_180 ≡ true)

abbrev pub IsCell : Cell → Type 0
IsCell c = IsRange c.lat_min c.lat_max × IsRange c.lon_min c.lon_max

-- The first cell lies in the second.
abbrev pub IsInside : Cell → Cell → Type 0
IsInside d c =
    (fle c.lat_min d.lat_min ≡ true)
    × (fle d.lat_max c.lat_max ≡ true)
    × (fle c.lon_min d.lon_min ≡ true)
    × (fle d.lon_max c.lon_max ≡ true)

IsInside-refl : (c : Cell) → IsCell c → IsInside c c
IsInside-refl c h = ground (
  arith,
  fle_iff c.lat_min c.lat_max,
  fle_iff c.lon_min c.lon_max,
  fle_refl c.lat_min,
  fle_refl c.lat_max,
  fle_refl c.lon_min,
  fle_refl c.lon_max,
)

IsInside-trans : (c d e : Cell) → IsInside d c → IsInside e d → IsInside e c
IsInside-trans c d e h k = (
  fle_trans c.lat_min d.lat_min e.lat_min h.0 k.0,
  fle_trans e.lat_max d.lat_max c.lat_max k.1 h.1,
  fle_trans c.lon_min d.lon_min e.lon_min h.2 k.2,
  fle_trans e.lon_max d.lon_max c.lon_max k.3 h.3,
)

-- The midpoint of two numbers from -180 to 180 lies between them, as `(a + b) / 2.0` does, whose sum
-- cannot overflow there.
abbrev pub Between : (F64 → F64 → F64) → Type 0
Between midpoint =
    (a b : F64) → IsRange a b → (fle a (midpoint a b) ≡ true) × (fle (midpoint a b) b ≡ true)

module _ (midpoint : F64 → F64 → F64) (between : Between midpoint) where
  abbrev Narrower : Cell → Cell → Type 0
  Narrower d c = IsCell d × IsInside d c

  narrow-Narrower : (c : Cell) (bit : Bool) → IsCell c → Narrower (narrow midpoint c bit) c
  narrow-Narrower c bit h =
      let lat = between c.lat_min c.lat_max h.0 in
      let lon = between c.lon_min c.lon_max h.1 in
      let m = midpoint c.lat_min c.lat_max in
      let n = midpoint c.lon_min c.lon_max in
      ground (
        arith,
        IsInside-refl c h,
        lat,
        lon,
        fle_trans minus_180 c.lat_min m h.0.0 lat.0,
        fle_trans m c.lat_max plus_180 lat.1 h.0.2,
        fle_trans minus_180 c.lon_min n h.1.0 lon.0,
        fle_trans n c.lon_max plus_180 lon.1 h.1.2,
      )

  narrow_bits-Narrower :
      (n index : ℕ) (c : Cell) → IsCell c → Narrower (narrow_bits midpoint n index c) c
  unfolding narrow_bits
  narrow_bits-Narrower zero index c h = (h, IsInside-refl c h)
  narrow_bits-Narrower (suc n) index c h =
      let bit = index / 2 ^ n % 2 == 1 in
      let s = narrow-Narrower c bit h in
      let d = narrow midpoint c bit in
      let t = narrow_bits-Narrower n index d s.0 in
      (t.0, IsInside-trans c d (narrow_bits midpoint n index d) s.1 t.1)

  decode_cell-some :
      (b : Char) (s : String) (c : Cell) (i : ℕ)
      → alphabet_index b ≡ some i
      → decode_cell midpoint (String.◌∷◌ b s) c
        ≡ decode_cell midpoint s (narrow_bits midpoint 5 i c)
  unfolding decode_cell
  decode_cell-some b s c i p = rw (p, decode_cell) refl

  decode_cell-none :
      (b : Char) (s : String) (c : Cell)
      → alphabet_index b ≡ none
      → decode_cell midpoint (String.◌∷◌ b s) c ≡ err invalid_geohash
  unfolding decode_cell
  decode_cell-none b s c p = rw (p, decode_cell) refl

  decode_cell-Narrower :
      (s : String) (c d : Cell) → IsCell c → decode_cell midpoint s c ≡ ok d → Narrower d c
  unfolding decode_cell
  decode_cell-Narrower String.[] c d h e = ground (arith, IsInside-refl c h)
  decode_cell-Narrower (String.◌∷◌ b s) c d h e = elim (Option-cases (alphabet_index b)) [
    | inl p ↦ elim (ok≢err d invalid_geohash (sym e ∙ decode_cell-none b s c p)) [ ]
    | inr (i, p) ↦
        let c' = narrow_bits midpoint 5 i c in
        let m = narrow_bits-Narrower 5 i c h in
        let t = decode_cell-Narrower s c' d m.0 (sym (decode_cell-some b s c i p) ∙ e) in
        (t.0, IsInside-trans c c' d m.1 t.1)
  ]

  -- A longer text decodes on from the cell that its beginning decodes to.
  decode_cell-append :
      (s t : String) (c : Cell)
      → decode_cell midpoint (s ++ t) c ≡ (decode_cell midpoint s c >>= decode_cell midpoint t)
  unfolding decode_cell
  decode_cell-append String.[] t c = ap (λ u. decode_cell midpoint u c) (nil-append t)
  decode_cell-append (String.◌∷◌ b s) t c =
      ap (λ u. decode_cell midpoint u c) (cons-append b s t)
      ∙ elim (Option-cases (alphabet_index b)) [
        | inl p ↦ rw (p, decode_cell) refl
        | inr (i, p) ↦ rw (p, decode_cell) (decode_cell-append s t (narrow_bits midpoint 5 i c))
      ]

  abbrev box_of : Cell → BoundingBox
  box_of c = new c.lat_min c.lon_min c.lat_max c.lon_max

  boxes : (c d : Cell) → IsCell c → Narrower d c → contains (box_of c) (box_of d) ≡ true
  unfolding contains new
  boxes c d h n =
      rw
        (
          fmin-le c.lat_min c.lat_max h.0.1,
          fmin-le c.lon_min c.lon_max h.1.1,
          fmax-le c.lat_min c.lat_max h.0.1,
          fmax-le c.lon_min c.lon_max h.1.1,
          fmin-le d.lat_min d.lat_max n.0.0.1,
          fmin-le d.lon_min d.lon_max n.0.1.1,
          fmax-le d.lat_min d.lat_max n.0.0.1,
          fmax-le d.lon_min d.lon_max n.0.1.1,
        )
        (ground (arith, n.1.0, n.1.1, n.1.2, n.1.3))

  -- What is decoded after a cell, as boxes.
  decoded :
      (t : String) (r : Result GeoError Cell) (b : BoundingBox)
      → ((c : Cell) → r ≡ ok c → IsCell c)
      → map_ok box_of (r >>= decode_cell midpoint t) ≡ ok b
      → (a : BoundingBox) × (map_ok box_of r ≡ ok a) × (contains a b ≡ true)
  decoded t (err x) b h e = elim (ok≢err b x (sym e)) [ ]
  decoded t (ok c) b h e = elim (Result-cases (decode_cell midpoint t c)) [
    | inl (d, p) ↦ (
      box_of c,
      refl,
      subst (λ x. contains (box_of c) x ≡ true) (ok_inj (ap (map_ok box_of) (sym p) ∙ e))
          (boxes c d (h c refl) (decode_cell-Narrower t c d (h c refl) p)),
    )
    | inr (x, p) ↦ elim (ok≢err b x (sym e ∙ ap (map_ok box_of) p)) [ ]
  ]

  world-IsCell : IsCell world
  unfolding fle
  world-IsCell = ((refl, refl, refl), (refl, refl, refl))

  -- Where a geohash decodes, each text that it begins with decodes too, to a box that contains
  -- the geohash's box, when the midpoint of two numbers from -180 to 180 lies between them.
  pub decode_geohash_bbox-append :
      (s t : String) (b : BoundingBox)
      → decode_geohash_bbox midpoint (s ++ t) ≡ ok b
      → (a : BoundingBox) × (decode_geohash_bbox midpoint s ≡ ok a) × (contains a b ≡ true)
  unfolding decode_geohash_bbox
  decode_geohash_bbox-append s t b e =
      decoded t (decode_cell midpoint s world) b
        (λ c p. (decode_cell-Narrower s world c world-IsCell p).0)
        (ap (map_ok box_of) (sym (decode_cell-append s t world)) ∙ e)
