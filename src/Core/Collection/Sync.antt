-- ===== src/Core/Collection/Sync.antt =====
-- The invariant of a collection, that its deadlines and its spatial entries are those of its objects,
-- and that every operation keeps it, but a failed `upsert`.
use latlng.Prelude.{
  ℕ, String, Option, none, some, Bool, false, ◌&&◌, ◌||◌, not, List, Result, ok, err, ◌≡◌, refl, ap,
  ◌∙◌, arith, ◌==◌, ==_iff, ==_refl, string_key, nat_key, pair_key, Option-cases, if◌then◌else◌,
  inl, inr,
}
use latlng.Prelude.Map
use latlng.Prelude.Set
use latlng.Geo.JsonPath.{GeoError}
use latlng.Geo.Bounds.{BoundingBox}
use latlng.Geo.Object.{GeoType, Object, envelope}
use latlng.Index
use latlng.Index.{Crates, SpatialIndex, IndexedEntry, entry_of, insert_envelope, add_entry}
use latlng.Core.Fields.{FieldEntry, apply_field_updates}
use latlng.Core.Collection.{
  Collection, new, remove, replace_geo, set_expiry, insert_fields, with_deadline, without_deadline,
  or_before,
}

abbrev pub is_deadline : ℕ → Option ℕ → Bool
is_deadline t none = false
is_deadline t (some u) = u == t

-- The object is there and its deadline is `t`.
abbrev pub has_deadline : ℕ → Option Object → Bool
has_deadline t none = false
has_deadline t (some o) = is_deadline t o.expires_at

pub pair-== : (t u : ℕ) (i j : String) → (◌==◌ {K = ℕ × String} (u, i) (t, j)) ≡ (u == t && i == j)
pair-== t u i j = ground arith

pub contains-with :
    (t : ℕ) (j id : String) (d : Option ℕ) (s : List (ℕ × String))
    → Set.contains (t, j) (with_deadline d id s)
      ≡ ((id == j && is_deadline t d) || Set.contains (t, j) s)
contains-with t j id none s = ground arith
contains-with t j id (some u) s =
    Set.contains-insert (u, id) (t, j) s ∙ ground (arith, pair-== t u id j)

pub contains-without :
    (t : ℕ) (j id : String) (d : Option ℕ) (s : List (ℕ × String))
    → Set.contains (t, j) (without_deadline d id s)
      ≡ (not (id == j && is_deadline t d) && Set.contains (t, j) s)
contains-without t j id none s = ground arith
contains-without t j id (some u) s =
    Set.contains-remove (u, id) (t, j) s ∙ ground (arith, pair-== t u id j)

module _ (c : Crates) where
  -- The entry of an object that has an envelope.
  abbrev pub entry_in : String → Result GeoError (Option BoundingBox) → Option IndexedEntry
  entry_in id (err e) = none
  entry_in id (ok none) = none
  entry_in id (ok (some b)) = some (entry_of c id b)

  abbrev pub entry_for : String → Option Object → Option IndexedEntry
  entry_for id none = none
  entry_for id (some o) = entry_in id (envelope c.midpoint c.bounding_rect o.geo)

  abbrev pub AreInSync :
      Map.Map String Object → List (ℕ × String) → Map.Map String IndexedEntry → Type 0
  AreInSync objects expirations entries =
      ((id : String) (o : Object) → Map.get id objects ≡ some o → o.id ≡ id)
      × ((t : ℕ) (id : String)
          → Set.contains (t, id) expirations ≡ has_deadline t (Map.get id objects))
      × ((id : String) → Map.get id entries ≡ entry_for id (Map.get id objects))

  abbrev pub InSync : Collection c → Type 0
  InSync s = AreInSync s.objects s.expirations s.spatial_index.entries_by_id

  pub get-remove_entry :
      (id j : String) (s : SpatialIndex c)
      → Map.get j (Index.remove c id s).0.entries_by_id
        ≡ (if id == j then none else Map.get j s.entries_by_id)
  unfolding Index.remove
  get-remove_entry id j s = elim (Option-cases (Map.get id s.entries_by_id)) [
    | inl e ↦ rw (e, Index.remove) (ground (arith, ==_iff id j))
    | inr (x, e) ↦ rw (e, Index.remove) (Map.get-remove id j s.entries_by_id)
  ]

  -- An insertion where the id has no entry.
  get-insert_envelope :
      (id j : String) (r : Result GeoError (Option BoundingBox)) (s : SpatialIndex c)
      → Map.get id s.entries_by_id ≡ none
      → Map.get j (or_before c s (insert_envelope c id r s)).entries_by_id
        ≡ (if id == j then entry_in id r else Map.get j s.entries_by_id)
  get-insert_envelope id j (err e) s h = ground (arith, ==_iff id j)
  get-insert_envelope id j (ok none) s h = ground (arith, ==_iff id j)
  get-insert_envelope id j (ok (some b)) s h =
      Map.get-insert id j (entry_of c id b) (Index.remove c id s).0.entries_by_id
      ∙ ground (arith, get-remove_entry id j s, ==_iff id j)

  -- A removal and then an insertion, as the operations pair them.
  pub get-replaced_entry :
      (id j : String) (geo : GeoType) (s : SpatialIndex c)
      → Map.get j
          (or_before c
            (Index.remove c id s).0
            (Index.insert c id geo (Index.remove c id s).0)).entries_by_id
        ≡ (if id == j
            then entry_in id (envelope c.midpoint c.bounding_rect geo)
            else Map.get j s.entries_by_id)
  unfolding Index.insert
  get-replaced_entry id j geo s =
      get-insert_envelope id j _ (Index.remove c id s).0
        (get-remove_entry id id s ∙ ground (arith, ==_refl id))
      ∙ ground (arith, get-remove_entry id j s, ==_iff id j)

  pub new-InSync : (name : String) → InSync (new c name)
  unfolding new Map.get Set.contains
  new-InSync name = (λ id o h. cc, λ t id. refl, λ id. refl)

  -- An object put under its id, with its deadline and its entry in place of those before.
  pub replaced-InSync :
      (k : String) (o : Object) (s : Collection c) (expirations : List (ℕ × String))
      (entries : Map.Map String IndexedEntry)
      → InSync s
      → o.id ≡ k
      → ((t : ℕ) (j : String)
          → Set.contains (t, j) expirations
            ≡ (if k == j then is_deadline t o.expires_at else Set.contains (t, j) s.expirations))
      → ((j : String)
          → Map.get j entries
            ≡ (if k == j then entry_for k (some o) else Map.get j s.spatial_index.entries_by_id))
      → AreInSync (Map.insert k o s.objects) expirations entries
  replaced-InSync k o s expirations entries h m f g = (
    λ id p q. ground (arith, Map.get-insert k id o s.objects, h.0 id p, ==_iff k id),
    λ t id. ground (arith, Map.get-insert k id o s.objects, h.1 t id, f t id, ==_iff k id),
    λ id. ground (arith, Map.get-insert k id o s.objects, h.2 id, g id, ==_iff k id),
  )

  removed-InSync :
      (k : String) (s : Collection c) (expirations : List (ℕ × String))
      → InSync s
      → ((t : ℕ) (j : String)
          → Set.contains (t, j) expirations
            ≡ (if k == j then false else Set.contains (t, j) s.expirations))
      → AreInSync
          (Map.remove k s.objects)
          expirations
          (Index.remove c k s.spatial_index).0.entries_by_id
  removed-InSync k s expirations h f = (
    λ id p q. ground (arith, Map.get-remove k id s.objects, h.0 id p, ==_iff k id),
    λ t id. ground (arith, Map.get-remove k id s.objects, h.1 t id, f t id, ==_iff k id),
    λ id. ground (
      arith,
      Map.get-remove k id s.objects,
      h.2 id,
      get-remove_entry k id s.spatial_index,
      ==_iff k id,
    ),
  )

  -- The deadlines when `new` takes the place of `old`.
  pub new_deadlines :
      (k : String) (new old : Option ℕ) (s : Collection c)
      → ((t : ℕ) → has_deadline t (Map.get k s.objects) ≡ is_deadline t old)
      → InSync s
      → (t : ℕ) (j : String)
      → Set.contains (t, j) (with_deadline new k (without_deadline old k s.expirations))
        ≡ (if k == j then is_deadline t new else Set.contains (t, j) s.expirations)
  new_deadlines k new old s m h t j =
      contains-with t j k new (without_deadline old k s.expirations)
      ∙ ground (arith, contains-without t j k old s.expirations, h.1 t j, m t, ==_iff k j)

  -- The deadlines, and the entries, that an object with the same ones leaves.
  same_deadlines :
      (k : String) (o : Object) (s : Collection c)
      → Map.get k s.objects ≡ some o
      → InSync s
      → (t : ℕ) (j : String)
      → Set.contains (t, j) s.expirations
        ≡ (if k == j then is_deadline t o.expires_at else Set.contains (t, j) s.expirations)
  same_deadlines k o s e h t j = ground (arith, h.1 t j, ==_iff k j)

  same_entries :
      (k : String) (o : Object) (s : Collection c)
      → Map.get k s.objects ≡ some o
      → InSync s
      → (j : String)
      → Map.get j s.spatial_index.entries_by_id
        ≡ (if k == j then entry_for k (some o) else Map.get j s.spatial_index.entries_by_id)
  same_entries k o s e h j = ground (arith, h.2 j, ==_iff k j)

  -- Setting or clearing a deadline keeps the invariant.
  pub set_expiry-InSync :
      (id : String) (t : Option ℕ) (s : Collection c) → InSync s → InSync (set_expiry c id t s).1
  unfolding set_expiry
  set_expiry-InSync id t s h = elim (Option-cases (Map.get id s.objects)) [
    | inl e ↦ rw (e, set_expiry) h
    | inr (o, e) ↦
        rw (e, set_expiry)
          (replaced-InSync id (record o { expires_at = t }) s _ _ h (h.0 id o e)
            (new_deadlines id t o.expires_at s (λ u. ap (has_deadline u) e) h)
            (same_entries id o s e h))
  ]

  -- Updating the fields keeps it.
  pub insert_fields-InSync :
      (id : String) (es : List FieldEntry) (s : Collection c)
      → InSync s
      → InSync (insert_fields c id es s).1
  unfolding insert_fields
  insert_fields-InSync id es s h = elim (Option-cases (Map.get id s.objects)) [
    | inl e ↦ rw (e, insert_fields) h
    | inr (o, e) ↦
        rw (e, insert_fields)
          (replaced-InSync id (record o { fields = apply_field_updates o.fields es }) s _ _ h
            (h.0 id o e) (same_deadlines id o s e h) (same_entries id o s e h))
  ]

  -- Replacing a geometry keeps it, also where the call fails.
  pub replace_geo-InSync :
      (id : String) (geo : GeoType) (s : Collection c)
      → InSync s
      → InSync (replace_geo c id geo s).1
  unfolding replace_geo
  replace_geo-InSync id geo s h = elim (Option-cases (Map.get id s.objects)) [
    | inl e ↦ rw (e, replace_geo) h
    | inr (o, e) ↦
        rw (e, replace_geo)
          (replaced-InSync id (record o { geo = geo }) s _ _ h (h.0 id o e)
            (same_deadlines id o s e h) (λ j. get-replaced_entry id j geo s.spatial_index))
  ]

  -- Removing an object takes its deadline and its entry with it.
  pub remove-InSync : (id : String) (s : Collection c) → InSync s → InSync (remove c id s).1
  unfolding remove
  remove-InSync id s h = elim (Option-cases (Map.get id s.objects)) [
    | inl e ↦
        rw (e, remove)
          (removed-InSync id s s.expirations h (λ t j. ground (arith, h.1 t j, ==_iff id j)))
    | inr (o, e) ↦
        rw (e, remove)
          (removed-InSync id s _ h (λ t j.
            contains-without t j o.id o.expires_at s.expirations
            ∙ ground (arith, h.1 t j, h.0 id o e, ==_iff id j)))
  ]
