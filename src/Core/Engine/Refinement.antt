-- ===== src/Core/Engine/Refinement.antt =====
-- The replay of a command refines the command's abstract effect.
use latlng.Prelude.{
  ℕ, String, Option, none, some, Bool, true, false, ◌≡◌, refl, ap, ◌∙◌, string_key, inl, inr,
  Option-cases, Result, ok, err, map_ok,
}
use latlng.Prelude.Map
use latlng.Geo.Json.{Value}
use latlng.Geo.JsonPath.{GeoError}
use latlng.Geo.Object.{Object}
use latlng.Core.Records.{Command}
use latlng.Core.Action.{CoreError}
use latlng.Core.World.{World}
use latlng.Core.Collection
use latlng.Core.Engine.{Catalog, VersionedCollection, bump, ensure_cell}
use latlng.Core.Engine.Objects.{upserted}
use latlng.Core.Engine.Edits.{changed}
use latlng.Core.Engine.Restore.{
  requested, restored, load_object, load_in, put_cell, load_edit, edit_object, load_rename,
  with_registry, with_json, apply_persisted_command,
}
use latlng.Core.Engine.Effect.{strip, stored, put, put_in, json_edited, renamed_to, effect}
use latlng.Core.Engine.Strip.{
  get-strip, strip-insert, strip-remove, strip-update_cell, strip-ensure_cell,
}

module _ (w : World) where
  put_cell-stored :
      (v : VersionedCollection w) (r : Result GeoError (Unit {0}) × Collection.Collection w.crates)
      (name : String) (m : Catalog w)
      → map_ok (strip w) (put_cell w (upserted w v r) name m) ≡ stored w r name (strip w m)
  put_cell-stored v (ok u, c) name m = ap ok (strip-insert w name (bump w v c) m)
  put_cell-stored v (err e, c) name m = refl

  load_in-put_in :
      (name : String) (o : Object) (m : Catalog w)
      → map_ok (strip w) (load_in w name o m) ≡ put_in w name o (strip w m)
  load_in-put_in name o m = elim (Option-cases (Map.get name m)) [
    | inl e ↦ rw (e, load_in) (rw (get-strip w name m, put_in) (rw (e, put_in) refl))
    | inr (v, e) ↦
        rw (e, load_in)
          (rw (get-strip w name m, put_in)
            (rw (e, put_in) (put_cell-stored v (Collection.upsert w.crates o v.collection) name m)))
  ]

  pub load_object-put :
      (name : String) (o : Object) (m : Catalog w)
      → map_ok (strip w) (load_object w name o m) ≡ put w name o (strip w m)
  unfolding load_object
  load_object-put name o m =
      load_in-put_in name o (ensure_cell w name m)
      ∙ ap (put_in w name o) (strip-ensure_cell w name m)

  changed-collection :
      (v : VersionedCollection w) (r : Bool × Collection.Collection w.crates)
      → (changed w v r).1.collection ≡ r.1
  changed-collection v (true, c) = refl
  changed-collection v (false, c) = refl

  edit_object-json_edited :
      (id : String) (edit : Value → Value) (o : Option Object) (v : VersionedCollection w)
      → (edit_object w id edit o v).collection ≡ json_edited w id edit o v.collection
  edit_object-json_edited id edit none v = refl
  edit_object-json_edited id edit (some o) v = elim (Option-cases (with_json w edit o)) [
    | inl e ↦ rw e refl
    | inr (o', e) ↦ rw e refl
  ]

  load_rename-renamed_to :
      (name new_name : String) (m : Catalog w)
      → strip w (load_rename w name new_name m) ≡ renamed_to w name new_name (strip w m)
  load_rename-renamed_to name new_name m = elim (Option-cases (Map.get name m)) [
    | inl e ↦ rw (e, load_rename) (rw (get-strip w name m, renamed_to) (rw (e, renamed_to) refl))
    | inr (v, e) ↦
        rw (e, load_rename)
          (rw (get-strip w name m, renamed_to)
            (rw (e, renamed_to)
              (strip-insert w new_name _ (Map.remove name m)
                ∙ ap (Map.insert new_name _) (strip-remove w name m))))
  ]

  registry-aside :
      (g : w.fences.Registry) (r : Result CoreError (Catalog w))
      → map_ok (λ t. strip w t.0) (with_registry w g r) ≡ map_ok (strip w) r
  registry-aside g (ok m) = refl
  registry-aside g (err e) = refl

  -- Replaying a command does to the collections, versions aside, what its effect says, and it fails
  -- exactly where the effect does.
  pub apply_persisted_command-effect :
      (now : ℕ) (c : Command w.fences.Def) (m : Catalog w) (g : w.fences.Registry)
      → map_ok (λ t. strip w t.0) (apply_persisted_command w now c (m, g))
        ≡ effect w now c (strip w m)
  unfolding apply_persisted_command effect load_edit
  apply_persisted_command-effect now (Command.set r) m g =
      registry-aside g _ ∙ load_object-put r.collection (requested w now r) m
  apply_persisted_command-effect now (Command.del name id) m g =
      ap ok (strip-update_cell w name _ _ m (λ v. refl))
  apply_persisted_command-effect now (Command.drop_collection name) m g =
      ap ok (strip-remove w name m)
  apply_persisted_command-effect now (Command.rename name new_name) m g =
      ap ok (load_rename-renamed_to name new_name m)
  apply_persisted_command-effect now (Command.fset name id fields xx) m g =
      ap ok (strip-update_cell w name _ _ m (λ v. changed-collection v _))
  apply_persisted_command-effect now (Command.expire name id seconds) m g =
      ap ok (strip-update_cell w name _ _ m (λ v. changed-collection v _))
  apply_persisted_command-effect now (Command.persist name id) m g =
      ap ok (strip-update_cell w name _ _ m (λ v. changed-collection v _))
  apply_persisted_command-effect now (Command.jset name id path value raw) m g =
      ap ok (strip-update_cell w name _ _ m (λ v. edit_object-json_edited id _ _ v))
  apply_persisted_command-effect now (Command.jdel name id path) m g =
      ap ok (strip-update_cell w name _ _ m (λ v. edit_object-json_edited id _ _ v))
  apply_persisted_command-effect now Command.flush_db m g = refl
  apply_persisted_command-effect now (Command.set_persisted r) m g =
      registry-aside g _ ∙ load_object-put r.collection (restored w r) m
  apply_persisted_command-effect now (Command.expire_at name id t) m g =
      ap ok (strip-update_cell w name _ _ m (λ v. changed-collection v _))
  apply_persisted_command-effect now (Command.create_collection name) m g =
      ap ok (strip-ensure_cell w name m)
  apply_persisted_command-effect now (Command.set_hook name endpoint def) m g = refl
  apply_persisted_command-effect now (Command.del_hook name) m g = refl
  apply_persisted_command-effect now (Command.pdel_hook pattern) m g = refl
  apply_persisted_command-effect now (Command.set_channel name def) m g = refl
  apply_persisted_command-effect now (Command.del_channel name) m g = refl
  apply_persisted_command-effect now (Command.pdel_channel pattern) m g = refl
