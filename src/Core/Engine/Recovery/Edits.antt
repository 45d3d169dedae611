-- ===== src/Core/Engine/Recovery/Edits.antt =====
-- The changes of an object's fields and deadline keep the log able to rebuild the collections.
use latlng.Prelude.{
  ℕ, String, Option, none, some, Bool, true, false, List, [], ◌∷◌, ◌≡◌, refl, sym, ap, ◌∙◌, ok, err,
  Option-cases, inl, inr, if◌then◌else◌, string_key,
}
use latlng.Prelude.Map
use latlng.Geo.Object.{Object}
use latlng.Geofence.{MutationCommand}
use latlng.Core.Fields.{FieldEntry, apply_field_updates}
use latlng.Core.Records.{Command, LogRecord, WebhookEnqueueRecord}
use latlng.Core.Action.{CoreError, pure, fail, continue, ◌>>◌}
use latlng.Core.World.{World}
use latlng.Core.Collection
use latlng.Core.Engine.{
  Clock, Db, VersionedCollection, deadline_of, found, then_apply, ensure_writable,
}
use latlng.Core.Engine.Log.{append_command}
use latlng.Core.Engine.Objects.{event_of}
use latlng.Core.Engine.Edits.{
  object_or, changed, change_in, missing, finish_fset, write_fset, fset_checked, finish_deadline,
  deadline_set, expire, persist,
}
use latlng.Core.Engine.Effect.{strip, effect, on}
use latlng.Core.Engine.Strip.{get-strip, strip-insert}
use latlng.Core.Engine.Recovery.{Recovers, Logged, Recovers-Logged}
use latlng.Core.Engine.Recovery.Writes.{command_records}
use latlng.Core.Engine.Recovery.Outcomes.{Good, done-Good, if-Good, read-Good}
use latlng.Core.Engine.Recovery.Rules.{effects-command, total-Good, plan-batch-Good, append-Good}

module _ (w : World) where
  abbrev Change : Type 0
  Change = Collection.Collection w.crates → Bool × Collection.Collection w.crates

  changed-collection :
      (v : VersionedCollection w) (r : Bool × Collection.Collection w.crates)
      → (changed w v r).1.collection ≡ r.1
  changed-collection v (true, c) = refl
  changed-collection v (false, c) = refl

  change_in-total :
      (name : String) (f : Change) (s : Db w) → (b : Bool) × ((change_in w name f s).0 ≡ ok b)
  change_in-total name f s = elim (Option-cases (Map.get name s.collections)) [
    | inl e ↦ (false, rw (e, change_in) refl)
    | inr (v, e) ↦ ((changed w v (f v.collection)).0, rw (e, change_in) refl)
  ]

  change_in-storage :
      (name : String) (f : Change) (s : Db w) → (change_in w name f s).1.storage ≡ s.storage
  change_in-storage name f s = elim (Option-cases (Map.get name s.collections)) [
    | inl e ↦ rw (e, change_in) refl
    | inr (v, e) ↦ rw (e, change_in) refl
  ]

  change_in-on :
      (name : String) (f : Change) (s : Db w)
      → on w name (λ c. (f c).1) (strip w s.collections)
        ≡ strip w (change_in w name f s).1.collections
  change_in-on name f s = elim (Option-cases (Map.get name s.collections)) [
    | inl e ↦ rw (get-strip w name s.collections, on) (rw (e, on, change_in) refl)
    | inr (v, e) ↦
        rw (get-strip w name s.collections, on)
          (rw (e, on, change_in)
            (ap (λ c. Map.insert name c (strip w s.collections))
                (sym (changed-collection v (f v.collection)))
              ∙ sym (strip-insert w name (changed w v (f v.collection)).1 s.collections)))
  ]

  -- The log rebuilds the collections after a logged change has been made.
  change_in-Recovers :
      (c : Command w.fences.Def) (name : String) (f : Change) (hooks : List WebhookEnqueueRecord)
      (s s' s'' : Db w)
      → Recovers w s
      → Logged w (command_records w c hooks) s s'
      → s''.storage ≡ (change_in w name f s').1.storage
      → s''.collections ≡ (change_in w name f s').1.collections
      → ((now : ℕ)
          → effect w now c (strip w s.collections)
            ≡ ok (on w name (λ x. (f x).1) (strip w s.collections)))
      → Recovers w s''
  change_in-Recovers c name f hooks s s' s'' r l q z h =
      Recovers-Logged w (command_records w c hooks) s s' s'' r l (q ∙ change_in-storage name f s')
        (λ now. effects-command w now c hooks (strip w s.collections) (strip w s''.collections) (
          h now
          ∙ ap (λ m. ok (on w name (λ x. (f x).1) (strip w m))) (sym l.kept)
          ∙ ap ok (change_in-on name f s' ∙ ap (strip w) (sym z))))

  missing-Good :
      (name id : String) (xx : Bool) (s : Db w) → Recovers w s → Good w (missing w name id xx s)
  missing-Good name id true s r = done-Good w (ok false) s r
  missing-Good name id false s r = done-Good w (err (CoreError.object_not_found name id)) s r

  finish_fset-Good :
      (name id : String) (es : List FieldEntry) (xx : Bool) (planned : w.fences.Prepared)
      (hooks : List WebhookEnqueueRecord) (s s' : Db w)
      → Recovers w s
      → Logged w (command_records w (Command.fset name id es xx) hooks) s s'
      → Good w (finish_fset w name id es xx planned s')
  unfolding effect
  finish_fset-Good name id es xx planned hooks s s' r l =
      let f = Collection.insert_fields w.crates id es in
      let s2 = (change_in w name f s').1 in
      total-Good w (change_in w name f s')
        (λ done. if done then then_apply w planned true else missing w name id xx)
        (change_in-total name f s')
        (λ b e.
          if-Good w b (then_apply w planned true) (missing w name id xx) s2
            (λ t.
              done-Good w (ok true)
                (record s2 { geofences = w.fences.apply_prepared_mutation planned s2.geofences })
                (change_in-Recovers (Command.fset name id es xx) name f hooks s s' _ r l refl refl
                  (λ now. refl)))
            (λ t. missing-Good name id xx s2 (
              change_in-Recovers (Command.fset name id es xx) name f hooks s s' s2 r l refl refl
                (λ now. refl))))

  write_fset-Good :
      (k : Clock) (name id : String) (es : List FieldEntry) (xx : Bool) (before : Option Object)
      (s : Db w)
      → Recovers w s
      → Good w (write_fset w k name id es xx before s)
  write_fset-Good k name id es xx none s r = missing-Good name id xx s r
  write_fset-Good k name id es xx (some o) s r =
      plan-batch-Good w k
        (event_of MutationCommand.fset k name id (some o)
          (some (record o { fields = apply_field_updates o.fields es })))
        (Command.fset name id es xx) (finish_fset w name id es xx) s r
        (λ planned hooks s' l. finish_fset-Good name id es xx planned hooks s s' r l)

  pub fset_checked-Good :
      (k : Clock) (name id : String) (es : List FieldEntry) (xx : Bool) (s : Db w)
      → Recovers w s
      → Good w (fset_checked w k name id es xx s)
  unfolding fset_checked
  fset_checked-Good k name id es xx s r =
      read-Good w (found w name (Map.get name s.collections))
        (λ handle. write_fset w k name id es xx (Map.get id handle.collection.objects)) s r
        (λ v e. write_fset-Good k name id es xx (Map.get id v.collection.objects) s r)

  finish_deadline-Good :
      (c : Command w.fences.Def) (name id : String) (t : Option ℕ) (s s' : Db w)
      → Recovers w s
      → Logged w (LogRecord.command c ∷ []) s s'
      → ((now : ℕ)
          → effect w now c (strip w s.collections)
            ≡ ok (
                on w name (λ x. (Collection.set_expiry w.crates id t x).1) (strip w s.collections)))
      → Good w (finish_deadline w name id t s')
  finish_deadline-Good c name id t s s' r l h =
      let f = Collection.set_expiry w.crates id t in
      let s2 = (change_in w name f s').1 in
      let kept = change_in-Recovers c name f [] s s' s2 r l refl refl h in
      total-Good w (change_in w name f s')
        (λ done. if done then pure tt else fail (CoreError.object_not_found name id))
        (change_in-total name f s')
        (λ b e.
          if-Good w b (pure tt) (fail (CoreError.object_not_found name id)) s2
            (λ x. done-Good w (ok tt) s2 kept)
            (λ x. done-Good w (err (CoreError.object_not_found name id)) s2 kept))

  deadline_set-Good :
      (k : Clock) (name id : String) (t : Option ℕ) (c : Command w.fences.Def) (s : Db w)
      → Recovers w s
      → ((now : ℕ)
          → effect w now c (strip w s.collections)
            ≡ ok (
                on w name (λ x. (Collection.set_expiry w.crates id t x).1) (strip w s.collections)))
      → Good w (deadline_set w k name id t c s)
  deadline_set-Good k name id t c s r h =
      let write = append_command w k c >> finish_deadline w name id t in
      let check = λ (v : VersionedCollection w).
        object_or (CoreError.object_not_found name id) (Map.get id v.collection.objects) in
      read-Good w (ensure_writable w s).0
        (λ _ s1.
          continue (found w name (Map.get name s1.collections))
            (λ v s2. continue (check v) (λ _. write) s2) s1)
        s r
        (λ u e.
          read-Good w (found w name (Map.get name s.collections))
            (λ v s2. continue (check v) (λ _. write) s2) s r
            (λ v p.
              read-Good w (check v) (λ _. write) s r
                (λ o q.
                  append-Good w k (LogRecord.command c ∷ []) (finish_deadline w name id t) s r
                    (λ s' l. finish_deadline-Good c name id t s s' r l h))))

  pub expire-Good :
      (k : Clock) (name id : String) (seconds : ℕ) (s : Db w)
      → Recovers w s
      → Good w (expire w k name id seconds s)
  unfolding expire effect
  expire-Good k name id seconds s r =
      let t = deadline_of k.millis seconds in
      deadline_set-Good k name id (some t) (Command.expire_at name id t) s r (λ now. refl)

  pub persist-Good :
      (k : Clock) (name id : String) (s : Db w) → Recovers w s → Good w (persist w k name id s)
  unfolding persist effect
  persist-Good k name id s r =
      deadline_set-Good k name id none (Command.persist name id) s r (λ now. refl)
