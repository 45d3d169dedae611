-- ===== src/Core/Engine/Recovery/Hooks.antt =====
-- The commands on hooks and channels keep the log able to rebuild the collections.
use latlng.Prelude.{ℕ, String, [], ◌∷◌, ◌≡◌, refl, ok, string_key}
use latlng.Core.Records.{Command, LogRecord}
use latlng.Core.Action.{modify, ◌>>◌}
use latlng.Core.World.{World}
use latlng.Core.Engine.{Clock, Db, ensure_writable}
use latlng.Core.Engine.Log.{append_command}
use latlng.Core.Engine.Collections.{
  registered, finish_unregistered, unregistered, setchan, sethook, delchan, pdelchan, delhook,
  pdelhook,
}
use latlng.Core.Engine.Effect.{Plain, strip, effect}
use latlng.Core.Engine.Recovery.{Recovers}
use latlng.Core.Engine.Recovery.Outcomes.{Good, done-Good, read-Good}
use latlng.Core.Engine.Recovery.Rules.{alone-Recovers, append-Good}

module _ (w : World) where
  registered-Good :
      (k : Clock) (c : Command w.fences.Def) (f : w.fences.Registry → w.fences.Registry) (s : Db w)
      → Recovers w s
      → ((now : ℕ) (p : Plain w) → effect w now c p ≡ ok p)
      → Good w (registered w k c f s)
  registered-Good k c f s r h =
      let rest = modify (λ (x : Db w). record x { geofences = f x.geofences }) in
      read-Good w (ensure_writable w s).0 (λ _. append_command w k c >> rest) s r
        (λ u e. append-Good w k (LogRecord.command c ∷ []) rest s r (λ s' l. done-Good w (ok tt) _ (
          alone-Recovers w c s s' (record s' { geofences = f s'.geofences }) r l refl
            (λ now. h now (strip w s'.collections)))))

  unregistered-Good :
      {A : Type 0} (k : Clock) (c : Command w.fences.Def)
      (f : w.fences.Registry → w.fences.Registry × A) (s : Db w)
      → Recovers w s
      → ((now : ℕ) (p : Plain w) → effect w now c p ≡ ok p)
      → Good w (unregistered w k c f s)
  unregistered-Good k c f s r h =
      let rest = finish_unregistered w f in
      read-Good w (ensure_writable w s).0 (λ _. append_command w k c >> rest) s r
        (λ u e. append-Good w k (LogRecord.command c ∷ []) rest s r (λ s' l.
          done-Good w (ok (f s'.geofences).1) _ (
            alone-Recovers w c s s' (record s' { geofences = (f s'.geofences).0 }) r l refl
              (λ now. h now (strip w s'.collections)))))

  pub setchan-Good :
      (k : Clock) (name : String) (def : w.fences.Def) (s : Db w)
      → Recovers w s
      → Good w (setchan w k name def s)
  unfolding setchan effect
  setchan-Good k name def s r =
      let c = Command.set_channel name def in
      read-Good w (w.fences.validate_geofence_def def)
        (λ _. registered w k c (w.fences.set_channel name def)) s r
        (λ u e. registered-Good k c (w.fences.set_channel name def) s r (λ now p. refl))

  pub sethook-Good :
      (k : Clock) (name endpoint : String) (def : w.fences.Def) (s : Db w)
      → Recovers w s
      → Good w (sethook w k name endpoint def s)
  unfolding sethook effect
  sethook-Good k name endpoint def s r =
      let c = Command.set_hook name endpoint def in
      read-Good w (w.fences.validate_geofence_def def)
        (λ _. registered w k c (w.fences.set_hook name endpoint def)) s r
        (λ u e. registered-Good k c (w.fences.set_hook name endpoint def) s r (λ now p. refl))

  pub delchan-Good :
      (k : Clock) (name : String) (s : Db w) → Recovers w s → Good w (delchan w k name s)
  unfolding delchan effect
  delchan-Good k name s r =
      unregistered-Good k (Command.del_channel name) (w.fences.del_channel name) s r (λ now p. refl)

  pub pdelchan-Good :
      (k : Clock) (pattern : String) (s : Db w) → Recovers w s → Good w (pdelchan w k pattern s)
  unfolding pdelchan effect
  pdelchan-Good k pattern s r =
      unregistered-Good k (Command.pdel_channel pattern) (w.fences.pdel_channel pattern) s r
        (λ now p. refl)

  pub delhook-Good :
      (k : Clock) (name : String) (s : Db w) → Recovers w s → Good w (delhook w k name s)
  unfolding delhook effect
  delhook-Good k name s r =
      unregistered-Good k (Command.del_hook name) (w.fences.del_hook name) s r (λ now p. refl)

  pub pdelhook-Good :
      (k : Clock) (pattern : String) (s : Db w) → Recovers w s → Good w (pdelhook w k pattern s)
  unfolding pdelhook effect
  pdelhook-Good k pattern s r =
      unregistered-Good k (Command.pdel_hook pattern) (w.fences.pdel_hook pattern) s r
        (λ now p. refl)
