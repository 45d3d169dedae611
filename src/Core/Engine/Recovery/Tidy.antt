-- ===== src/Core/Engine/Recovery/Tidy.antt =====
-- Whatever the log holds, the fields of each object that it rebuilds are in key order.
use mathlib.Core.Option.{some-injective}
use latlng.Prelude.{
  ℕ, String, Option, none, some, List, [], ◌∷◌, ◌≡◌, refl, sym, ap, ◌∙◌, arith, inl, inr, Result,
  ok, err, Option-cases, Bool-cases, ok_inj, ok≢err, subst, string_key, ◌==◌,
}
use latlng.Prelude.Map
use latlng.Prelude.Map.{Map, IsSorted}
use latlng.Geo.Json.{Value}
use latlng.Geo.JsonPath.{GeoError}
use latlng.Geo.Fields.{FieldMap, insert}
use latlng.Geo.Object.{Object, GeoType, point}
use latlng.Index.{SpatialIndex}
use latlng.Core.Fields.{FieldEntry, insert_entries, field_entries_to_map}
use latlng.Core.Fields.Laws.{apply_field_updates-IsSorted}
use latlng.Core.World.{World}
use latlng.Core.Collection
use latlng.Core.Collection.{drop_previous, drop_spatial, finish_upsert}
use latlng.Core.Engine.Restore.{with_json, json_in}
use latlng.Core.Engine.Effect.{Plain, on, made, stored, put_in, reshaped, json_edited, renamed_to}

insert_entries-IsSorted :
    (es : List FieldEntry) (m : FieldMap) → IsSorted m → IsSorted (insert_entries m es)
unfolding insert
insert_entries-IsSorted [] m h = h
insert_entries-IsSorted (e ∷ es) m h =
    insert_entries-IsSorted es _ (Map.insert-IsSorted e.name e.value m h)

pub field_entries_to_map-IsSorted : (es : List FieldEntry) → IsSorted (field_entries_to_map es)
unfolding field_entries_to_map
field_entries_to_map-IsSorted es = insert_entries-IsSorted es [] tt

-- Each value of a map has the property.
module _ {V : Type 0} (P : V → Type 0) where
  abbrev pub Each : Map String V → Type 0
  Each m = (k : String) (v : V) → Map.get k m ≡ some v → P v

  pub Each-insert : (k : String) (v : V) (m : Map String V) → Each m → P v → Each (Map.insert k v m)
  Each-insert k v m h p j u e = elim (Bool-cases (k == j)) [
    | inl t ↦ subst P (cc (Map.get-insert k j v m, ap (λ b. b) t, e)) p
    | inr f ↦ h j u (ground (arith, Map.get-insert k j v m))
  ]

  pub Each-remove : (k : String) (m : Map String V) → Each m → Each (Map.remove k m)
  Each-remove k m h j u e = elim (Bool-cases (k == j)) [
    | inl t ↦ absurd (ground (arith, Map.get-remove k j m))
    | inr f ↦ h j u (ground (arith, Map.get-remove k j m))
  ]

module _ (w : World) where
  -- The objects' fields are in key order.
  abbrev pub IsTidy : Collection.Collection w.crates → Type 0
  IsTidy c = Each (λ o. IsSorted o.fields) c.objects

  finish_upsert-Tidy :
      (o : Object) (c : Collection.Collection w.crates)
      (r : Result GeoError (SpatialIndex w.crates))
      → IsTidy c
      → IsSorted o.fields
      → IsTidy (finish_upsert w.crates o c r).1
  finish_upsert-Tidy o c (ok i) h f = Each-insert (λ x. IsSorted x.fields) o.id o c.objects h f
  finish_upsert-Tidy o c (err e) h f = h

  dropped-Tidy :
      (id : String) (p : Option Object) (c : Collection.Collection w.crates)
      → IsTidy c
      → IsTidy (drop_spatial w.crates id (drop_previous w.crates id p c))
  dropped-Tidy id none c h = h
  dropped-Tidy id (some o) c h = h

  upsert-Tidy :
      (o : Object) (c : Collection.Collection w.crates)
      → IsTidy c
      → IsSorted o.fields
      → IsTidy (Collection.upsert w.crates o c).1
  unfolding Collection.upsert
  upsert-Tidy o c h f = finish_upsert-Tidy o _ _ (dropped-Tidy o.id (Map.get o.id c.objects) c h) f

  pub remove-Tidy :
      (id : String) (c : Collection.Collection w.crates)
      → IsTidy c
      → IsTidy (Collection.remove w.crates id c).1
  unfolding Collection.remove
  remove-Tidy id c h = elim (Option-cases (Map.get id c.objects)) [
    | inl e ↦ rw (e, Collection.remove) (Each-remove (λ x. IsSorted x.fields) id c.objects h)
    | inr (o, e) ↦ rw (e, Collection.remove) (Each-remove (λ x. IsSorted x.fields) id c.objects h)
  ]

  pub set_expiry-Tidy :
      (id : String) (t : Option ℕ) (c : Collection.Collection w.crates)
      → IsTidy c
      → IsTidy (Collection.set_expiry w.crates id t c).1
  unfolding Collection.set_expiry
  set_expiry-Tidy id t c h = elim (Option-cases (Map.get id c.objects)) [
    | inl e ↦ rw (e, Collection.set_expiry) h
    | inr (o, e) ↦
        rw (e, Collection.set_expiry)
          (Each-insert (λ x. IsSorted x.fields) id _ c.objects h (h id o e))
  ]

  pub insert_fields-Tidy :
      (id : String) (es : List FieldEntry) (c : Collection.Collection w.crates)
      → IsTidy c
      → IsTidy (Collection.insert_fields w.crates id es c).1
  unfolding Collection.insert_fields
  insert_fields-Tidy id es c h = elim (Option-cases (Map.get id c.objects)) [
    | inl e ↦ rw (e, Collection.insert_fields) h
    | inr (o, e) ↦
        rw (e, Collection.insert_fields)
          (Each-insert (λ x. IsSorted x.fields) id _ c.objects h
            (apply_field_updates-IsSorted es o.fields (h id o e)))
  ]

  reindex-Tidy :
      (id : String) (c : Collection.Collection w.crates)
      → IsTidy c
      → IsTidy (Collection.reindex_spatial w.crates id c)
  unfolding Collection.reindex_spatial
  reindex-Tidy id c h = elim (Option-cases (Map.get id c.objects)) [
    | inl e ↦ rw (e, Collection.reindex_spatial) h
    | inr (o, e) ↦ rw (e, Collection.reindex_spatial) h
  ]

  json-fields :
      (edit : Value → Value) (o o' : Object) (g : GeoType)
      → json_in w edit o g ≡ some o'
      → o'.fields ≡ o.fields
  json-fields edit o o' (GeoType.geo_json v) h = ap (λ x. x.fields) (sym (some-injective _ _ h))
  json-fields edit o o' (point lat lon z) h = cc
  json-fields edit o o' (GeoType.bounds b) h = cc
  json-fields edit o o' (GeoType.hash s) h = cc
  json-fields edit o o' (GeoType.string s) h = cc

  reshaped-Tidy :
      (id : String) (p : Option Object) (c : Collection.Collection w.crates)
      → IsTidy c
      → ((o : Object) → p ≡ some o → IsSorted o.fields)
      → IsTidy (reshaped w id p c)
  reshaped-Tidy id none c h f = h
  reshaped-Tidy id (some o) c h f =
      reindex-Tidy id _ (Each-insert (λ x. IsSorted x.fields) id o c.objects h (f o refl))

  pub json_edited-Tidy :
      (id : String) (edit : Value → Value) (p : Option Object) (c : Collection.Collection w.crates)
      → IsTidy c
      → ((o : Object) → p ≡ some o → IsSorted o.fields)
      → IsTidy (json_edited w id edit p c)
  json_edited-Tidy id edit none c h f = h
  json_edited-Tidy id edit (some o) c h f =
      reshaped-Tidy id (with_json w edit o) c h
        (λ o' e. subst IsSorted (sym (json-fields edit o o' o.geo e)) (f o refl))

  -- Every collection is tidy.
  abbrev pub Tidy : Plain w → Type 0
  Tidy p = Each IsTidy p

  pub on-Tidy :
      (name : String) (f : Collection.Collection w.crates → Collection.Collection w.crates)
      (p : Plain w)
      → ((c : Collection.Collection w.crates) → IsTidy c → IsTidy (f c))
      → Tidy p
      → Tidy (on w name f p)
  on-Tidy name f p k h = elim (Option-cases (Map.get name p)) [
    | inl e ↦ rw (e, on) h
    | inr (c, e) ↦ rw (e, on) (Each-insert IsTidy name (f c) p h (k c (h name c e)))
  ]

  new-Tidy : (name : String) → IsTidy (Collection.new w.crates name)
  unfolding Collection.new Map.get
  new-Tidy name k v e = cc

  pub made-Tidy : (name : String) (p : Plain w) → Tidy p → Tidy (made w name p)
  made-Tidy name p h = elim (Option-cases (Map.get name p)) [
    | inl e ↦ rw (e, made) (Each-insert IsTidy name _ p h (new-Tidy name))
    | inr (c, e) ↦ rw (e, made) h
  ]

  stored-Tidy :
      (r : Result GeoError (Unit {0}) × Collection.Collection w.crates) (name : String)
      (p q : Plain w)
      → Tidy p
      → IsTidy r.1
      → stored w r name p ≡ ok q
      → Tidy q
  stored-Tidy (ok u, c) name p q h i e = subst Tidy (ok_inj e) (Each-insert IsTidy name c p h i)
  stored-Tidy (err x, c) name p q h i e = elim (ok≢err q _ (sym e)) [ ]

  pub put_in-Tidy :
      (name : String) (o : Object) (p q : Plain w)
      → IsSorted o.fields
      → Tidy p
      → put_in w name o p ≡ ok q
      → Tidy q
  put_in-Tidy name o p q f h e = elim (Option-cases (Map.get name p)) [
    | inl n ↦ subst Tidy (ok_inj (sym (rw (n, put_in) refl) ∙ e)) h
    | inr (c, n) ↦
        stored-Tidy (Collection.upsert w.crates o c) name p q h (upsert-Tidy o c (h name c n) f)
          (sym (rw (n, put_in) refl) ∙ e)
  ]

  pub renamed_to-Tidy :
      (name new_name : String) (p : Plain w) → Tidy p → Tidy (renamed_to w name new_name p)
  renamed_to-Tidy name new_name p h = elim (Option-cases (Map.get name p)) [
    | inl e ↦ rw (e, renamed_to) h
    | inr (c, e) ↦
        rw (e, renamed_to)
          (Each-insert IsTidy new_name _ (Map.remove name p) (Each-remove IsTidy name p h)
            (h name c e))
  ]
