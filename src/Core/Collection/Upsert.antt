-- ===== src/Core/Collection/Upsert.antt =====
-- What `upsert` leaves: a collection in sync where it succeeds, and where it fails one whose object
-- has lost its deadline and its spatial entry.
use latlng.Prelude.{
  ℕ, String, none, some, false, ok, err, ◌≡◌, refl, sym, ap, ◌∙◌, arith, ◌==◌, ==_refl, string_key,
  nat_key, pair_key, Option-cases, Result-cases, if◌then◌else◌, inl, inr, ok≢err,
}
use latlng.Prelude.Map
use latlng.Prelude.Set
use latlng.Geo.JsonPath.{GeoError}
use latlng.Geo.Object.{Object}
use latlng.Index
use latlng.Index.{Crates, SpatialIndex, IndexedEntry, entry_of, insert_envelope, add_entry}
use latlng.Core.Collection.{
  Collection, upsert, with_deadline, or_before, drop_spatial, drop_previous, finish_upsert,
}
use latlng.Core.Collection.Sync.{
  is_deadline, has_deadline, contains-without, entry_for, InSync, get-replaced_entry,
  get-remove_entry, replaced-InSync, new_deadlines,
}

module _ (c : Crates) where
  -- The collection after `upsert` has taken the previous object out of the indexes.
  abbrev pub dropped_for : Object → Collection c → Collection c
  dropped_for o s = drop_spatial c o.id (drop_previous c o.id (Map.get o.id s.objects) s)

  pub dropped_lem :
      (o : Object) (s : Collection c)
      → ((dropped_for o s).objects ≡ s.objects)
        × ((dropped_for o s).spatial_index ≡ (Index.remove c o.id s.spatial_index).0)
  dropped_lem o s = elim (Option-cases (Map.get o.id s.objects)) [
    | inl e ↦ rw (e, drop_previous) (refl, refl)
    | inr (p, e) ↦ rw (e, drop_previous) (refl, refl)
  ]

  dropped_deadlines :
      (o : Object) (s : Collection c)
      → InSync c s
      → (t : ℕ) (j : String)
      → Set.contains (t, j) (with_deadline o.expires_at o.id (dropped_for o s).expirations)
        ≡ (if o.id == j then is_deadline t o.expires_at else Set.contains (t, j) s.expirations)
  dropped_deadlines o s h t j = elim (Option-cases (Map.get o.id s.objects)) [
    | inl e ↦
        rw (e, drop_previous)
          (new_deadlines c o.id o.expires_at none s (λ u. ap (has_deadline u) e) h t j)
    | inr (p, e) ↦
        rw (e, drop_previous)
          (new_deadlines c o.id o.expires_at p.expires_at s (λ u. ap (has_deadline u) e) h t j)
  ]

  upserted_entry :
      (o : Object) (s : Collection c) (j : String)
      → Map.get j
          (or_before c
            (dropped_for o s).spatial_index
            (Index.insert c o.id o.geo (dropped_for o s).spatial_index)).entries_by_id
        ≡ (if o.id == j then entry_for c o.id (some o) else Map.get j s.spatial_index.entries_by_id)
  upserted_entry o s j =
      ap (λ x. Map.get j (or_before c x (Index.insert c o.id o.geo x)).entries_by_id)
        (dropped_lem o s).1
      ∙ get-replaced_entry c o.id j o.geo s.spatial_index

  no_deadline :
      (o : Object) (s : Collection c)
      → InSync c s
      → (t : ℕ) → Set.contains (t, o.id) (dropped_for o s).expirations ≡ false
  no_deadline o s h t = elim (Option-cases (Map.get o.id s.objects)) [
    | inl e ↦ rw (e, drop_previous) (h.1 t o.id ∙ ap (has_deadline t) e)
    | inr (p, e) ↦
        rw (e, drop_previous)
          (contains-without t o.id o.id p.expires_at s.expirations
            ∙ ground (arith, h.1 t o.id, ap (has_deadline t) e, ==_refl o.id))
  ]

  -- Where `upsert` succeeds, it keeps the invariant.
  pub upsert-InSync :
      (o : Object) (s : Collection c)
      → InSync c s
      → (upsert c o s).0 ≡ ok tt
      → InSync c (upsert c o s).1
  unfolding upsert
  upsert-InSync o s h k =
      elim (Result-cases (Index.insert c o.id o.geo (dropped_for o s).spatial_index)) [
        | inl (index, e) ↦
            rw (e, finish_upsert, (dropped_lem o s).0)
              (replaced-InSync c o.id o s _ _ h refl (dropped_deadlines o s h) (λ j.
                ap (λ x. Map.get j (or_before c (dropped_for o s).spatial_index x).entries_by_id)
                  (sym e)
                ∙ upserted_entry o s j))
        | inr (x, e) ↦ elim (ok≢err tt x (sym k ∙ rw (e, finish_upsert) refl)) [ ]
      ]

  -- Where `upsert` fails on a collection whose indexes are in sync, the objects are as they were, but an object of the id has lost its
  -- deadline and its spatial entry.
  pub upsert-err :
      (o : Object) (s : Collection c) (x : GeoError)
      → InSync c s
      → (upsert c o s).0 ≡ err x
      → ((upsert c o s).1.objects ≡ s.objects)
        × ((t : ℕ) → Set.contains (t, o.id) (upsert c o s).1.expirations ≡ false)
        × (Map.get o.id (upsert c o s).1.spatial_index.entries_by_id ≡ none)
  unfolding upsert
  upsert-err o s x h k =
      elim (Result-cases (Index.insert c o.id o.geo (dropped_for o s).spatial_index)) [
        | inl (index, e) ↦ elim (ok≢err tt x (sym (sym k ∙ rw (e, finish_upsert) refl))) [ ]
        | inr (y, e) ↦
            rw (e, finish_upsert)
              (
                (dropped_lem o s).0,
                no_deadline o s h,
                ap (λ i. Map.get o.id i.entries_by_id) (dropped_lem o s).1
                    ∙ get-remove_entry c o.id o.id s.spatial_index
                    ∙ ground (arith, ==_refl o.id),
              )
      ]
