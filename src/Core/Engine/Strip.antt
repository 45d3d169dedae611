-- ===== src/Core/Engine/Strip.antt =====
-- Dropping the versions goes through each operation of the catalog.
use latlng.Prelude.{
  String, [], ◌∷◌, ◌≡◌, refl, ap, ◌∙◌, omap, arith, string_key, inl, inr, Option-cases,
}
use latlng.Prelude.Map
use latlng.Core.World.{World}
use latlng.Core.Collection
use latlng.Core.Engine.{Catalog, VersionedCollection, ensure_cell, update_cell}
use latlng.Core.Engine.Effect.{strip, on, made}

module _ (w : World) where
  pub get-strip :
      (name : String) (m : Catalog w)
      → Map.get name (strip w m) ≡ omap (λ v. v.collection) (Map.get name m)
  unfolding Map.get
  get-strip name [] = refl
  get-strip name ((j, v) ∷ m) = ground (arith, get-strip name m)

  pub strip-insert :
      (name : String) (v : VersionedCollection w) (m : Catalog w)
      → strip w (Map.insert name v m) ≡ Map.insert name v.collection (strip w m)
  unfolding Map.insert
  strip-insert name v [] = refl
  strip-insert name v ((j, u) ∷ m) = ground (arith, strip-insert name v m)

  pub strip-remove :
      (name : String) (m : Catalog w) → strip w (Map.remove name m) ≡ Map.remove name (strip w m)
  unfolding Map.remove
  strip-remove name [] = refl
  strip-remove name ((j, u) ∷ m) = ground (arith, strip-remove name m)

  pub strip-update_cell :
      (name : String) (f : VersionedCollection w → VersionedCollection w)
      (g : Collection.Collection w.crates → Collection.Collection w.crates) (m : Catalog w)
      → ((v : VersionedCollection w) → (f v).collection ≡ g v.collection)
      → strip w (update_cell w name f m) ≡ on w name g (strip w m)
  unfolding update_cell
  strip-update_cell name f g m h = elim (Option-cases (Map.get name m)) [
    | inl e ↦ rw (e, update_cell) (rw (get-strip name m, on) (rw (e, on) refl))
    | inr (v, e) ↦
        rw (e, update_cell)
          (rw (get-strip name m, on)
            (rw (e, on)
              (strip-insert name (f v) m ∙ ap (λ c. Map.insert name c (strip w m)) (h v))))
  ]

  pub strip-ensure_cell :
      (name : String) (m : Catalog w) → strip w (ensure_cell w name m) ≡ made w name (strip w m)
  unfolding ensure_cell
  strip-ensure_cell name m = elim (Option-cases (Map.get name m)) [
    | inl e ↦
        rw (e, ensure_cell) (rw (get-strip name m, made) (rw (e, made) (strip-insert name _ m)))
    | inr (v, e) ↦ rw (e, ensure_cell) (rw (get-strip name m, made) (rw (e, made) refl))
  ]
