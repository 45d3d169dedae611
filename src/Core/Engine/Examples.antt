-- ===== src/Core/Engine/Examples.antt =====
-- The engine at concrete commands, over the plainest crates, codec and registry that fit.
use latlng.Prelude.{
  ℕ, String, ◌≡◌, refl, true, false, ◌&&◌, Bool, List, [], ◌∷◌, Option, none, some, ok, ◌==◌,
  ==_iff, sym, ap, ◌∙◌, arith, string_key, if◌then◌else◌,
}
use latlng.Prelude.Map
use latlng.Prelude.Set
use latlng.Core.Collection
use latlng.Geo.Float.{fle, is_finite}
use latlng.Storage.Memory.{append_batch, stores_command_log}
use latlng.Geo.Bounds.{validate_lat_lon}
use latlng.Storage.{Bytes, StorageEntry, assert_strictly_increasing}
use latlng.Geo.Object.{GeoType, point}
use latlng.Core.Fields.{FieldEntry, field_map_to_entries, merged_set_fields}
use latlng.Core.Records.{Command, LogRecord, SetCondition, PersistedSetRecord}
use latlng.Core.World.{Fences, World}
use latlng.Core.Examples.{crates}
use latlng.Core.Engine.{Clock, Config, Db}
use latlng.Core.Engine.Objects
use latlng.Core.Engine.Edits
use latlng.Core.Engine.Restore.{gc_collections, build}
use latlng.Core.Engine.Effect.{strip}
use latlng.Core.Engine.ReadOnly.{Declined, step-read_only}
use latlng.Core.Engine.Recovery.{Recovers}
use latlng.Core.Engine.Recovery.Run.{Call, step, run, fresh, SparesGeometry, run-Recovers}
use latlng.Core.Engine.Recovery.Replay.{ReadsBack}
use latlng.Core.Engine.Recovery.Restart.{run-build}

-- No hooks and no channels.
abbrev fences : Fences
fences = record {
  Registry = Unit;
  Def = Unit;
  Prepared = Unit;
  empty = tt;
  requires_exclusive_roam_path = λ name g. false;
  has_relevant_side_effects = λ name g. false;
  prepare_mutation = λ event objects g. some tt;
  events = λ planned. [];
  apply_prepared_mutation = λ planned g. g;
  hook_endpoint = λ name g. none;
  set_hook = λ name endpoint def g. g;
  del_hook = λ name g. (g, false);
  pdel_hook = λ pattern g. (g, 0);
  set_channel = λ name def g. g;
  del_channel = λ name g. (g, false);
  pdel_channel = λ pattern g. (g, 0);
  clear_all = λ g. g;
  ensure_geofence_evaluable = λ def. ok tt;
  validate_geofence_def = λ def. ok tt;
}

-- A codec for what happens to one truck of one fleet.
abbrev is_truck : String → String → Bool
is_truck name id = name == "fleet" && id == "truck"

abbrev encode_position : GeoType → List FieldEntry → Option ℕ → Option Bytes
encode_position (point lat lon none) [] none = some (lat ∷ lon ∷ [])
encode_position _ _ _ = none

abbrev encode : LogRecord (Command Unit) → Option Bytes
encode (LogRecord.command (Command.set_persisted r)) =
    if is_truck r.collection r.id then encode_position r.object r.fields r.expires_at_ms else none
encode (LogRecord.command (Command.expire_at name id t)) =
    if is_truck name id then some (t ∷ []) else none
encode (LogRecord.command (Command.del name id)) = if is_truck name id then some [] else none
encode _ = none

abbrev position : ℕ → ℕ → PersistedSetRecord
position lat lon = record {
  collection = "fleet";
  id = "truck";
  object = point lat lon none;
  fields = [];
  expires_at_ms = none;
}

abbrev decode : Bytes → Option (LogRecord (Command Unit))
decode [] = some (LogRecord.command (Command.del "fleet" "truck"))
decode (t ∷ []) = some (LogRecord.command (Command.expire_at "fleet" "truck" t))
decode (lat ∷ lon ∷ []) = some (LogRecord.command (Command.set_persisted (position lat lon)))
decode _ = none

abbrev world : World
world = record {
  crates = crates;
  fences = fences;
  as_f64 = λ n. none;
  from_str = λ s. none;
  to_geometry = λ v. ok tt;
  glob_match = λ pattern s. pattern == s;
  to_vec = encode;
  json_record = decode;
  bincode_record = λ b. none;
  json_command = λ b. none;
  bincode_command = λ b. none;
  job_id = λ n. "job";
  event_id = λ n i e. "event";
}

some_inj : {A : Type 0} {a b : A} → some a ≡ some b → a ≡ b
some_inj h = cc

position-found :
    (g : GeoType) (fs : List FieldEntry) (t : Option ℕ) (b : Bytes)
    → encode_position g fs t ≡ some b
    → (lat : ℕ) × (lon : ℕ) × (g ≡ point lat lon none)
      × (fs ≡ [])
      × (t ≡ none)
      × (b ≡ lat ∷ lon ∷ [])
position-found (point lat lon none) [] none b h = (lat, lon, refl, refl, refl, sym (some_inj h))
position-found (point lat lon none) [] (some t) b h = absurd (cc)
position-found (point lat lon none) (f ∷ fs) none b h = absurd (cc)
position-found (point lat lon none) (f ∷ fs) (some t) b h = absurd (cc)
position-found (point lat lon (some z)) fs t b h = absurd (cc)
position-found (GeoType.bounds x) fs t b h = absurd (cc)
position-found (GeoType.hash x) fs t b h = absurd (cc)
position-found (GeoType.geo_json x) fs t b h = absurd (cc)
position-found (GeoType.string x) fs t b h = absurd (cc)

-- Where the answer is under a condition, the condition holds.
if_some :
    {A : Type 0} (t : Bool) (x : Option A) (a : A)
    → (if t then x else none) ≡ some a
    → (t ≡ true) × (x ≡ some a)
if_some true x a h = (refl, h)
if_some false x a h = absurd (cc)

is_truck-true : (name id : String) → is_truck name id ≡ true → (name ≡ "fleet") × (id ≡ "truck")
is_truck-true name id h =
    ((==_iff name "fleet").0 (ground arith), (==_iff id "truck").0 (ground arith))

reads_back_set :
    (r : PersistedSetRecord) (b : Bytes)
    → encode (LogRecord.command (Command.set_persisted r)) ≡ some b
    → decode b ≡ some (LogRecord.command (Command.set_persisted r))
reads_back_set r b h =
    let (t, p) = if_some (is_truck r.collection r.id) _ b h in
    let (name, id) = is_truck-true r.collection r.id t in
    let (lat, lon, g, fs, none_due, e) = position-found r.object r.fields r.expires_at_ms b p in
    ap decode e ∙ (λ i. some (
      LogRecord.command (
        Command.set_persisted (record {
          collection = sym name i;
          id = sym id i;
          object = sym g i;
          fields = sym fs i;
          expires_at_ms = sym none_due i;
        }))))

reads_back_command :
    (c : Command Unit) (b : Bytes)
    → encode (LogRecord.command c) ≡ some b
    → decode b ≡ some (LogRecord.command c)
reads_back_command (Command.set_persisted r) b h = reads_back_set r b h
reads_back_command (Command.expire_at name id t) b h =
    let (p, q) = if_some (is_truck name id) _ b h in
    let (n, i) = is_truck-true name id p in
    ap decode (sym (some_inj q))
    ∙ (λ j. some (LogRecord.command (Command.expire_at (sym n j) (sym i j) t)))
reads_back_command (Command.del name id) b h =
    let (p, q) = if_some (is_truck name id) _ b h in
    let (n, i) = is_truck-true name id p in
    ap decode (sym (some_inj q)) ∙ (λ j. some (LogRecord.command (Command.del (sym n j) (sym i j))))
reads_back_command (Command.set r) b h = absurd (cc)
reads_back_command (Command.drop_collection n) b h = absurd (cc)
reads_back_command (Command.rename n m) b h = absurd (cc)
reads_back_command (Command.fset n i fs x) b h = absurd (cc)
reads_back_command (Command.expire n i t) b h = absurd (cc)
reads_back_command (Command.persist n i) b h = absurd (cc)
reads_back_command (Command.jset n i p v x) b h = absurd (cc)
reads_back_command (Command.jdel n i p) b h = absurd (cc)
reads_back_command (Command.set_hook n e d) b h = absurd (cc)
reads_back_command (Command.del_hook n) b h = absurd (cc)
reads_back_command (Command.pdel_hook n) b h = absurd (cc)
reads_back_command (Command.set_channel n d) b h = absurd (cc)
reads_back_command (Command.del_channel n) b h = absurd (cc)
reads_back_command (Command.pdel_channel n) b h = absurd (cc)
reads_back_command (Command.flush_db) b h = absurd (cc)
reads_back_command (Command.create_collection n) b h = absurd (cc)

reads_back : (r : LogRecord (Command Unit)) (b : Bytes) → encode r ≡ some b → decode b ≡ some r
reads_back (LogRecord.command c) b h = reads_back_command c b h
reads_back (LogRecord.webhook_enqueue a) b h = absurd (cc)
reads_back (LogRecord.webhook_ack a) b h = absurd (cc)
reads_back (LogRecord.webhook_retry_scheduled a) b h = absurd (cc)
reads_back (LogRecord.webhook_dead_letter a) b h = absurd (cc)

all_read_back : (es : List StorageEntry) → ReadsBack world es
all_read_back [] = tt
all_read_back (e ∷ es) = (λ r. reads_back r e.command, all_read_back es)

abbrev clock : Clock
clock = record { millis = 100; nanos = 0 }

abbrev config : Config
config = record { is_read_only = false; webhook_retry_count = 3 }

-- A truck is stored and given a deadline; a van that is not there is deleted and gets no field.
abbrev calls : List (Clock × Call Unit)
calls =
    (
      clock,
      Call.set (record {
        collection = "fleet";
        id = "truck";
        object = point 1 2 none;
        fields = [];
        expire_seconds = none;
        condition = SetCondition.always;
      }),
    )
    ∷ (clock, Call.expire "fleet" "truck" 3)
    ∷ (clock, Call.del "fleet" "van")
    ∷ (clock, Call.fset "fleet" "van" [] false)
    ∷ []

calls-SparesGeometry : SparesGeometry world (fresh world config) calls
unfolding step Objects.set Edits.expire Objects.del Edits.fset Map.get Map.insert Map.remove
    Set.insert Set.remove Collection.new Collection.upsert fle append_batch validate_lat_lon
    is_finite stores_command_log field_map_to_entries merged_set_fields assert_strictly_increasing
    Collection.set_expiry Collection.insert_fields
calls-SparesGeometry = (tt, (tt, (tt, (tt, tt))))

run-build_example :
    (db : Db world) × (build world 3000 (run world (fresh world config) calls).storage config
      ≡ ok db)
    × (strip world db.collections
        ≡ strip world
            (gc_collections world 3000 (run world (fresh world config) calls).collections))
run-build_example = run-build world 3000 config config calls calls-SparesGeometry (all_read_back _)

run-Recovers_example : Recovers world (run world (fresh world config) calls)
run-Recovers_example = run-Recovers world config calls calls-SparesGeometry

-- A read-only database that has the fleet, and is asked to drop it.
abbrev read_only_db : Db world
read_only_db = record (run world (fresh world config) calls) {
  config = record { is_read_only = true; webhook_retry_count = 3 };
}

step-read_only_example :
    Declined world
      (Call.drop_collection "fleet")
      (step world clock (Call.drop_collection "fleet") read_only_db).0
    × ((step world clock (Call.drop_collection "fleet") read_only_db).1 ≡ read_only_db)
step-read_only_example = step-read_only world clock (Call.drop_collection "fleet") read_only_db refl
