-- ===== src/Core/Engine/Effect.antt =====
-- What a command of the log means for the collections, versions and geofences aside: an abstract
-- specification of the replay.
use latlng.Prelude.{
  ℕ, String, Option, none, some, List, [], ◌∷◌, Result, ok, err, ◌>>=◌, string_key,
}
use latlng.Prelude.Map
use latlng.Prelude.Map.{Map}
use latlng.Geo.Json.{Value}
use latlng.Geo.JsonPath.{GeoError, set_json_path, delete_json_path}
use latlng.Geo.Object.{Object}
use latlng.Core.Records.{Command, LogRecord}
use latlng.Core.Action.{CoreError}
use latlng.Core.World.{World}
use latlng.Core.Collection
use latlng.Core.Engine.{Catalog, Record, deadline_of}
use latlng.Core.Engine.Edits.{jset_payload}
use latlng.Core.Engine.Restore.{requested, restored, with_json}

module _ (w : World) where
  abbrev pub Plain : Type 0
  Plain = Map String (Collection.Collection w.crates)

  -- The collections without their versions.
  abbrev pub strip : Catalog w → Plain
  strip [] = []
  strip ((name, v) ∷ m) = (name, v.collection) ∷ strip m

  abbrev pub on :
      String → (Collection.Collection w.crates → Collection.Collection w.crates) → Plain → Plain
  on name f p = elim (Map.get name p) [ none ↦ p | some c ↦ Map.insert name (f c) p ]

  abbrev pub made : String → Plain → Plain
  made name p = elim (Map.get name p) [
    | none ↦ Map.insert name (Collection.new w.crates name) p
    | some c ↦ p
  ]

  abbrev pub stored :
      Result GeoError (Unit {0}) × Collection.Collection w.crates
      → String
      → Plain
      → Result CoreError Plain
  stored (ok _, c) name p = ok (Map.insert name c p)
  stored (err e, c) name p = err (CoreError.geo e)

  abbrev pub put_in : String → Object → Plain → Result CoreError Plain
  put_in name o p = elim (Map.get name p) [
    | none ↦ ok p
    | some c ↦ stored (Collection.upsert w.crates o c) name p
  ]

  abbrev pub put : String → Object → Plain → Result CoreError Plain
  put name o p = put_in name o (made name p)

  abbrev pub reshaped :
      String → Option Object → Collection.Collection w.crates → Collection.Collection w.crates
  reshaped id none c = c
  reshaped id (some o) c =
      Collection.reindex_spatial w.crates id (record c { objects = Map.insert id o c.objects })

  abbrev pub json_edited :
      String
      → (Value → Value)
      → Option Object
      → Collection.Collection w.crates
      → Collection.Collection w.crates
  json_edited id edit none c = c
  json_edited id edit (some o) c = reshaped id (with_json w edit o) c

  abbrev pub renamed_to : String → String → Plain → Plain
  renamed_to name new_name p = elim (Map.get name p) [
    | none ↦ p
    | some c ↦ Map.insert new_name (record c { name = new_name }) (Map.remove name p)
  ]

  unfoldable pub effect : ℕ → Command w.fences.Def → Plain → Result CoreError Plain
  effect now (Command.set r) p = put r.collection (requested w now r) p
  effect now (Command.del name id) p = ok (on name (λ c. (Collection.remove w.crates id c).1) p)
  effect now (Command.drop_collection name) p = ok (Map.remove name p)
  effect now (Command.rename name new_name) p = ok (renamed_to name new_name p)
  effect now (Command.fset name id fields xx) p =
      ok (on name (λ c. (Collection.insert_fields w.crates id fields c).1) p)
  effect now (Command.expire name id seconds) p =
      ok (on name (λ c. (Collection.set_expiry w.crates id (some (deadline_of now seconds)) c).1) p)
  effect now (Command.persist name id) p =
      ok (on name (λ c. (Collection.set_expiry w.crates id none c).1) p)
  effect now (Command.jset name id path value raw) p = ok (
      on name
        (λ c.
          json_edited id (λ v. (set_json_path v path (jset_payload w value raw)).1)
            (Map.get id c.objects) c)
        p)
  effect now (Command.jdel name id path) p =
      ok (
        on name (λ c. json_edited id (λ v. (delete_json_path v path).1) (Map.get id c.objects) c) p)
  effect now Command.flush_db p = ok []
  effect now (Command.set_persisted r) p = put r.collection (restored w r) p
  effect now (Command.expire_at name id t) p =
      ok (on name (λ c. (Collection.set_expiry w.crates id (some t) c).1) p)
  effect now (Command.create_collection name) p = ok (made name p)
  effect now _ p = ok p

  unfoldable pub effects : ℕ → List (Record w) → Plain → Result CoreError Plain
  unfolding effect
  effects now [] p = ok p
  effects now (LogRecord.command c ∷ rs) p = effect now c p >>= effects now rs
  effects now (_ ∷ rs) p = effects now rs p
