-- ===== src/Core/Engine/Recovery/Edited.antt =====
-- What an edit of GeoJSON reads, checks and writes.
use latlng.Prelude.{
  String, Option, none, some, Bool, ◌≡◌, refl, sym, ap, ◌∙◌, Result, ok, err, ok_inj, ok≢err,
  map_err, Option-cases, inl, inr, ◌⊎◌, if◌then◌else◌, string_key, ==_refl, ◌>>=◌,
}
use latlng.Prelude.Map
use latlng.Geo.Json.{Value}
use latlng.Geo.JsonPath.{GeoError}
use latlng.Geo.Object.{Object, GeoType, point, validate_geo}
use latlng.Core.Action.{CoreError}
use latlng.Core.World.{World}
use latlng.Core.Collection
use latlng.Core.Collection.{drop_spatial, or_before}
use latlng.Core.Engine.{Db, VersionedCollection}
use latlng.Core.Engine.Edits.{object_or, geo_json_of, replaced, replace_in, checked_edit}
use latlng.Core.Engine.Effect.{Plain, strip, on}
use latlng.Core.Engine.Strip.{get-strip, strip-insert}

-- What a step that passed has read.
pub object_or-ok :
    (e : CoreError) (p : Option Object) (o : Object) → object_or e p ≡ ok o → p ≡ some o
object_or-ok e none o h = elim (ok≢err o e (sym h)) [ ]
object_or-ok e (some x) o h = ap some (ok_inj h)

three_checks :
    (r : Result GeoError Bool) (a b : Result GeoError (Unit {0})) (v : Value) (x : Bool × Value)
    → map_err CoreError.geo (r >>= λ done. a >>= λ _. b >>= λ _. ok (done, v)) ≡ ok x
    → x.1 ≡ v
three_checks (ok d) (ok u) (ok t) v x h = ap (λ y. y.1) (sym (ok_inj h))
three_checks (ok d) (ok u) (err e) v x h = elim (ok≢err x (CoreError.geo e) (sym h)) [ ]
three_checks (ok d) (err e) b v x h = elim (ok≢err x (CoreError.geo e) (sym h)) [ ]
three_checks (err e) a b v x h = elim (ok≢err x (CoreError.geo e) (sym h)) [ ]

module _ (w : World) where
  pub geo_json_of-ok : (g : GeoType) (v : Value) → geo_json_of w g ≡ ok v → g ≡ GeoType.geo_json v
  geo_json_of-ok (GeoType.geo_json u) v h = ap (λ x. GeoType.geo_json x) (ok_inj h)
  geo_json_of-ok (point lat lon z) v h = cc
  geo_json_of-ok (GeoType.bounds b) v h = cc
  geo_json_of-ok (GeoType.hash s) v h = cc
  geo_json_of-ok (GeoType.string s) v h = cc

  pub checked_edit-value :
      (edit : Value → Result GeoError Bool × Value) (json : Value) (x : Bool × Value)
      → checked_edit w edit json ≡ ok x
      → x.1 ≡ (edit json).1
  checked_edit-value edit json x h =
      three_checks (edit json).0 (validate_geo w.as_f64 (GeoType.geo_json (edit json).1))
        (w.to_geometry (edit json).1) (edit json).1 x h

  -- Replacing a geometry is editing it in place and indexing it anew.
  pub reindex-replace_geo :
      (id : String) (g : GeoType) (o : Object) (c : Collection.Collection w.crates)
      → Map.get id c.objects ≡ some o
      → Collection.reindex_spatial w.crates id
          (record c { objects = Map.insert id (record o { geo = g }) c.objects })
        ≡ (Collection.replace_geo w.crates id g c).1
  unfolding Collection.reindex_spatial Collection.replace_geo
  reindex-replace_geo id g o c e =
      let o' = record o { geo = g } in
      let found : Map.get id (Map.insert id o' c.objects) ≡ some o' =
        Map.get-insert id id o' c.objects ∙ rw (==_refl id) refl in
      rw (e, Collection.replace_geo) (rw (found, Collection.reindex_spatial) refl)

  -- What an edit leaves of a collection.
  abbrev pub after_edit :
      String → GeoType → Bool → Collection.Collection w.crates → Collection.Collection w.crates
  after_edit id g had_ttl c =
      let c' = (Collection.replace_geo w.crates id g c).1 in
      if had_ttl then (Collection.set_expiry w.crates id none c').1 else c'

  replaced-ok :
      (id : String) (had_ttl : Bool) (v : VersionedCollection w)
      (r : Result GeoError Bool × Collection.Collection w.crates)
      → (replaced w id had_ttl v r).0 ≡ ok tt
      → (replaced w id had_ttl v r).1.collection
        ≡ (if had_ttl then (Collection.set_expiry w.crates id none r.1).1 else r.1)
  replaced-ok id had_ttl v (ok b, c) h = refl
  replaced-ok id had_ttl v (err e, c) h = elim (ok≢err tt (CoreError.geo e) (sym h)) [ ]

  replaced-cases :
      (id : String) (had_ttl : Bool) (v : VersionedCollection w)
      (r : Result GeoError Bool × Collection.Collection w.crates)
      → ((replaced w id had_ttl v r).0 ≡ ok tt)
        ⊎ ((x : GeoError) × ((replaced w id had_ttl v r).0 ≡ err (CoreError.geo x)))
  replaced-cases id had_ttl v (ok b, c) = inl refl
  replaced-cases id had_ttl v (err e, c) = inr (e, refl)

  pub replace_in-cases :
      (name id : String) (g : GeoType) (ttl : Bool) (s : Db w)
      → ((replace_in w name id g ttl s).0 ≡ ok tt)
        ⊎ ((x : GeoError) × ((replace_in w name id g ttl s).0 ≡ err (CoreError.geo x)))
  unfolding replace_in
  replace_in-cases name id g ttl s = elim (Option-cases (Map.get name s.collections)) [
    | inl e ↦ inl (rw (e, replace_in) refl)
    | inr (v, e) ↦
        rw (e, replace_in)
          (replaced-cases id ttl v (Collection.replace_geo w.crates id g v.collection))
  ]

  pub replace_in-storage :
      (name id : String) (g : GeoType) (ttl : Bool) (s : Db w)
      → (replace_in w name id g ttl s).1.storage ≡ s.storage
  unfolding replace_in
  replace_in-storage name id g ttl s = elim (Option-cases (Map.get name s.collections)) [
    | inl e ↦ rw (e, replace_in) refl
    | inr (v, e) ↦ rw (e, replace_in) refl
  ]

  pub replace_in-on :
      (name id : String) (g : GeoType) (ttl : Bool) (s : Db w)
      → (replace_in w name id g ttl s).0 ≡ ok tt
      → on w name (after_edit id g ttl) (strip w s.collections)
        ≡ strip w (replace_in w name id g ttl s).1.collections
  unfolding replace_in
  replace_in-on name id g ttl s h = elim (Option-cases (Map.get name s.collections)) [
    | inl e ↦ rw (get-strip w name s.collections, on) (rw (e, on, replace_in) refl)
    | inr (v, e) ↦
        let r = Collection.replace_geo w.crates id g v.collection in
        rw (get-strip w name s.collections, on)
          (rw (e, on, replace_in)
            (ap (λ c. Map.insert name c (strip w s.collections))
                (sym (replaced-ok id ttl v r (sym (rw (e, replace_in) refl) ∙ h)))
              ∙ sym (strip-insert w name (replaced w id ttl v r).1 s.collections)))
  ]

  pub on-some :
      (name : String) (f : Collection.Collection w.crates → Collection.Collection w.crates)
      (p : Plain w) (c : Collection.Collection w.crates)
      → Map.get name p ≡ some c
      → on w name f p ≡ Map.insert name (f c) p
  on-some name f p c e = rw (e, on) refl

  on-none :
      (name : String) (f : Collection.Collection w.crates → Collection.Collection w.crates)
      (p : Plain w)
      → Map.get name p ≡ none
      → on w name f p ≡ p
  on-none name f p e = rw (e, on) refl

  pub on-on :
      (name : String) (f g : Collection.Collection w.crates → Collection.Collection w.crates)
      (p : Plain w)
      → on w name g (on w name f p) ≡ on w name (λ c. g (f c)) p
  on-on name f g p = elim (Option-cases (Map.get name p)) [
    | inl e ↦
        ap (on w name g) (on-none name f p e)
        ∙ on-none name g p e
        ∙ sym (on-none name (λ x. g (f x)) p e)
    | inr (c, e) ↦
        let q : Map.get name (Map.insert name (f c) p) ≡ some (f c) =
          Map.get-insert name name (f c) p ∙ rw (==_refl name) refl in
        ap (on w name g) (on-some name f p c e)
        ∙ on-some name g (Map.insert name (f c) p) (f c) q
        ∙ Map.insert-insert name (f c) (g (f c)) p
        ∙ sym (on-some name (λ x. g (f x)) p c e)
  ]
