-- ===== src/Core/Engine/Recovery/Commands.antt =====
-- The commands as clients call them keep the log able to rebuild the collections.
use latlng.Prelude.{
  ℕ, ◌+◌, String, Option, none, some, Bool, true, false, not, List, ok, map_err, is_some,
  if◌then◌else◌, string_key, ◌≡◌, refl,
}
use latlng.Prelude.Map
use latlng.Storage.Memory.{stores_command_log}
use latlng.Geo.Object.{validate_geo}
use latlng.Geo.JsonPath.{delete_json_path}
use latlng.Core.Fields.{FieldEntry}
use latlng.Core.Records.{Command, SetRequest}
use latlng.Core.Action.{CoreError, Action, pure, modify, continue, ◌>>=◌, ◌>>◌}
use latlng.Core.World.{World}
use latlng.Core.Engine.{Clock, Db, ensure_writable, object_in, reserve_sequences}
use latlng.Core.Engine.Objects.{
  set_checked, set_exclusive, try_set_local, is_fast, fast_object, upsert_in, or_else, set,
  del_checked, del_exclusive, try_del_local, del,
}
use latlng.Core.Engine.Edits.{
  fset_checked, try_fset_local, fset, edit_geojson_local, set_edit, jset_payload, jset, jdel,
}
use latlng.Core.Engine.Collections.{expire_each, expire_due}
use latlng.Core.Engine.Effect.{effect}
use latlng.Core.Engine.Recovery.{Recovers, Recovers-Same}
use latlng.Core.Engine.Recovery.Outcomes.{Good, done-Good, if-Good, read-Good, then-Good}
use latlng.Core.Engine.Recovery.Objects.{set_checked-Good}
use latlng.Core.Engine.Recovery.Deletes.{del_checked-Good, del_exclusive-Good, expire_each-Good}
use latlng.Core.Engine.Recovery.Edits.{fset_checked-Good}
use latlng.Core.Engine.Recovery.Json.{edit_geojson_local-Good}

module _ (w : World) where
  -- The second attempt, where it is needed.
  or_else-Good :
      (second : Action (Db w) Bool) (first : Option Bool) (s : Db w)
      → Recovers w s
      → ((x : Db w) → Recovers w x → Good w (second x))
      → Good w (or_else w second first s)
  or_else-Good second none s r h = h s r
  or_else-Good second (some b) s r h = done-Good w (ok b) s r

  answered-Good :
      (m : Action (Db w) Bool) (s : Db w)
      → Good w (m s)
      → Good w ((m >>= λ done. pure (some done)) s)
  answered-Good m s g =
      then-Good w (m s) (λ done. pure (some done)) g (λ b e r. done-Good w (ok (some b)) (m s).1 r)

  set_exclusive-Good :
      (k : Clock) (req : SetRequest) (s : Db w) → Recovers w s → Good w (set_exclusive w k req s)
  unfolding set_exclusive
  set_exclusive-Good k req s r =
      read-Good w (ensure_writable w s).0 (λ _. set_checked w k req) s r
        (λ u e. set_checked-Good w k req s r)

  -- A store that keeps the log takes no path around it.
  logged-slow : (req : SetRequest) (s : Db w) → Recovers w s → is_fast w req s ≡ false
  unfolding stores_command_log
  logged-slow req s r = rw r.logs refl

  try_set_local-Good :
      (k : Clock) (req : SetRequest) (s : Db w) → Recovers w s → Good w (try_set_local w k req s)
  unfolding try_set_local
  try_set_local-Good k req s r =
      let exclusive = w.fences.requires_exclusive_roam_path req.collection s.geofences in
      let handle = Map.get req.collection s.collections in
      let object = fast_object w (object_in w req.id handle) req in
      let quick =
        reserve_sequences w 1 >> (upsert_in w req.collection object >> pure (some true)) in
      let slow = set_checked w k req >>= λ done. pure (some done) in
      let choice = if is_fast w req s then quick else slow in
      let found = if not (is_some handle) then pure none else choice in
      read-Good w (ensure_writable w s).0
        (λ _ s1.
          (let handle = Map.get req.collection s1.collections in
              if w.fences.requires_exclusive_roam_path req.collection s1.geofences
              then pure none
              else if not (is_some handle)
              then pure none
              else if is_fast w req s1
              then (reserve_sequences w 1
                  >> (upsert_in w req.collection (fast_object w (object_in w req.id handle) req)
                      >> pure (some true)))
              else slow)
            s1)
        s r
        (λ u e.
          if-Good w exclusive (pure none) found s (λ t. done-Good w (ok none) s r)
            (λ t.
              if-Good w (not (is_some handle)) (pure none) choice s (λ t. done-Good w (ok none) s r)
                (λ t.
                  if-Good w (is_fast w req s) quick slow s
                    (λ fast. absurd (cc (logged-slow req s r)))
                    (λ t. answered-Good (set_checked w k req) s (set_checked-Good w k req s r)))))

  pub set-Good : (k : Clock) (req : SetRequest) (s : Db w) → Recovers w s → Good w (set w k req s)
  unfolding set
  set-Good k req s r =
      let rest = λ (s1 : Db w).
        continue (try_set_local w k req s1).0 (or_else w (set_exclusive w k req))
          (try_set_local w k req s1).1 in
      read-Good w (map_err CoreError.geo (validate_geo w.as_f64 req.object)) (λ _. rest) s r
        (λ u e.
          then-Good w (try_set_local w k req s) (or_else w (set_exclusive w k req))
            (try_set_local-Good k req s r)
            (λ first p r'.
              or_else-Good (set_exclusive w k req) first _ r' (set_exclusive-Good k req)))

  try_del_local-Good :
      (k : Clock) (name id : String) (s : Db w)
      → Recovers w s
      → Good w (try_del_local w k name id s)
  unfolding try_del_local
  try_del_local-Good k name id s r =
      let exclusive = w.fences.requires_exclusive_roam_path name s.geofences in
      let slow = del_checked w k name id >>= λ done. pure (some done) in
      read-Good w (ensure_writable w s).0
        (λ _ s1.
          (if w.fences.requires_exclusive_roam_path name s1.geofences then pure none else slow) s1)
        s r
        (λ u e.
          if-Good w exclusive (pure none) slow s (λ t. done-Good w (ok none) s r)
            (λ t. answered-Good (del_checked w k name id) s (del_checked-Good w k name id s r)))

  pub del-Good :
      (k : Clock) (name id : String) (s : Db w) → Recovers w s → Good w (del w k name id s)
  unfolding del
  del-Good k name id s r =
      then-Good w (try_del_local w k name id s) (or_else w (del_exclusive w k name id))
        (try_del_local-Good k name id s r)
        (λ first p r'.
          or_else-Good (del_exclusive w k name id) first _ r' (del_exclusive-Good w k name id))

  try_fset_local-Good :
      (k : Clock) (name id : String) (es : List FieldEntry) (xx : Bool) (s : Db w)
      → Recovers w s
      → Good w (try_fset_local w k name id es xx s)
  unfolding try_fset_local
  try_fset_local-Good k name id es xx s r =
      let exclusive = w.fences.requires_exclusive_roam_path name s.geofences in
      let slow = fset_checked w k name id es xx >>= λ done. pure (some done) in
      read-Good w (ensure_writable w s).0
        (λ _ s1.
          (if w.fences.requires_exclusive_roam_path name s1.geofences then pure none else slow) s1)
        s r
        (λ u e.
          if-Good w exclusive (pure none) slow s (λ t. done-Good w (ok none) s r)
            (λ t.
              answered-Good (fset_checked w k name id es xx) s
                (fset_checked-Good w k name id es xx s r)))

  pub fset-Good :
      (k : Clock) (name id : String) (es : List FieldEntry) (xx : Bool) (s : Db w)
      → Recovers w s
      → Good w (fset w k name id es xx s)
  unfolding fset
  fset-Good k name id es xx s r =
      let second = ensure_writable w >> fset_checked w k name id es xx in
      then-Good w (try_fset_local w k name id es xx s) (or_else w second)
        (try_fset_local-Good k name id es xx s r)
        (λ first p r'. or_else-Good second first _ r' (λ x rx.
          read-Good w (ensure_writable w x).0 (λ _. fset_checked w k name id es xx) x rx
            (λ u e. fset_checked-Good w k name id es xx x rx)))

  pub jset-Good :
      (k : Clock) (name id path value : String) (raw : Bool) (s : Db w)
      → Recovers w s
      → Good w (jset w k name id path value raw s)
  unfolding jset effect
  jset-Good k name id path value raw s r =
      let c = Command.jset name id path value raw in
      let edit = edit_geojson_local w k name id (set_edit w path (jset_payload w value raw)) c in
      then-Good w (edit s) (λ _. pure tt)
        (edit_geojson_local-Good w k name id (set_edit w path (jset_payload w value raw)) c s r
          (λ now. refl))
        (λ b e r'. done-Good w (ok tt) (edit s).1 r')

  pub jdel-Good :
      (k : Clock) (name id path : String) (s : Db w)
      → Recovers w s
      → Good w (jdel w k name id path s)
  unfolding jdel effect
  jdel-Good k name id path s r =
      edit_geojson_local-Good w k name id (λ v. delete_json_path v path) (Command.jdel name id path)
        s r (λ now. refl)

  pub expire_due-Good :
      (k : Clock) (now most : ℕ) (s : Db w) → Recovers w s → Good w (expire_due w k now most s)
  unfolding expire_due
  expire_due-Good k now most s r =
      let names = Map.keys s.collections in
      let each = expire_each w k now most names 0 in
      let rest = λ (expired : ℕ).
        modify
          (λ (x : Db w). record x { expired_objects_total = x.expired_objects_total + expired })
        >> pure expired in
      if-Good w s.config.is_read_only (pure 0) (each >>= rest) s (λ t. done-Good w (ok 0) s r)
        (λ t. then-Good w (each s) rest (expire_each-Good w k now most names 0 s r) (λ n e r'.
          done-Good w (ok n) _ (
            Recovers-Same w (each s).1 _ r'
              (record { kept = refl; recording = refl; entries = refl }))))
