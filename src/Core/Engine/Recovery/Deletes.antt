-- ===== src/Core/Engine/Recovery/Deletes.antt =====
-- The deletions keep the log able to rebuild the collections.
use latlng.Prelude.{
  ℕ, ◌+◌, ◌-◌, String, Option, none, some, Bool, false, List, [], ◌∷◌, ◌≡◌, refl, sym, ap, ◌∙◌, ok,
  Option-cases, inl, inr, is_some, if◌then◌else◌, string_key, leb, retain,
}
use latlng.Prelude.Map
use latlng.Geo.Object.{Object}
use latlng.Geofence.{MutationCommand}
use latlng.Core.Records.{Command, WebhookEnqueueRecord}
use latlng.Core.Action.{pure, ◌>>=◌}
use latlng.Core.World.{World}
use latlng.Core.Collection
use latlng.Core.Engine.{Clock, Db, VersionedCollection, object_in, then_apply, ensure_writable}
use latlng.Core.Engine.Objects.{
  event_of, removed, remove_in, finish_del, write_del, del_checked, del_exclusive,
}
use latlng.Core.Engine.Collections.{del_each, pdel, ids_in, due_in, expire_each}
use latlng.Core.Engine.Effect.{strip, effect, on}
use latlng.Core.Engine.Strip.{get-strip, strip-insert}
use latlng.Core.Engine.Recovery.{Recovers, Logged, Recovers-Logged}
use latlng.Core.Engine.Recovery.Writes.{command_records}
use latlng.Core.Engine.Recovery.Outcomes.{Good, done-Good, if-Good, read-Good, then-Good}
use latlng.Core.Engine.Recovery.Rules.{effects-command, total-Good, plan-batch-Good}

module _ (w : World) where
  removed-collection :
      (v : VersionedCollection w) (r : Option Object × Collection.Collection w.crates)
      → (removed w v r).1.collection ≡ r.1
  removed-collection v (none, c) = refl
  removed-collection v (some o, c) = refl

  remove_in-total : (name id : String) (s : Db w) → (b : Bool) × ((remove_in w name id s).0 ≡ ok b)
  unfolding remove_in
  remove_in-total name id s = elim (Option-cases (Map.get name s.collections)) [
    | inl e ↦ (false, rw (e, remove_in) refl)
    | inr (v, e) ↦
        ((removed w v (Collection.remove w.crates id v.collection)).0, rw (e, remove_in) refl)
  ]

  remove_in-storage : (name id : String) (s : Db w) → (remove_in w name id s).1.storage ≡ s.storage
  unfolding remove_in
  remove_in-storage name id s = elim (Option-cases (Map.get name s.collections)) [
    | inl e ↦ rw (e, remove_in) refl
    | inr (v, e) ↦ rw (e, remove_in) refl
  ]

  remove_in-on :
      (name id : String) (s : Db w)
      → on w name (λ c. (Collection.remove w.crates id c).1) (strip w s.collections)
        ≡ strip w (remove_in w name id s).1.collections
  unfolding remove_in
  remove_in-on name id s = elim (Option-cases (Map.get name s.collections)) [
    | inl e ↦ rw (get-strip w name s.collections, on) (rw (e, on, remove_in) refl)
    | inr (v, e) ↦
        let r = Collection.remove w.crates id v.collection in
        rw (get-strip w name s.collections, on)
          (rw (e, on, remove_in)
            (ap (λ c. Map.insert name c (strip w s.collections)) (sym (removed-collection v r))
              ∙ sym (strip-insert w name (removed w v r).1 s.collections)))
  ]

  finish_del-Good :
      (name id : String) (planned : w.fences.Prepared) (hooks : List WebhookEnqueueRecord)
      (s s' : Db w)
      → Recovers w s
      → Logged w (command_records w (Command.del name id) hooks) s s'
      → Good w (finish_del w name id planned s')
  unfolding effect
  finish_del-Good name id planned hooks s s' r l =
      let s2 = (remove_in w name id s').1 in
      total-Good w (remove_in w name id s') (then_apply w planned) (remove_in-total name id s')
        (λ b e.
          done-Good w (ok b)
            (record s2 { geofences = w.fences.apply_prepared_mutation planned s2.geofences })
            (Recovers-Logged w _ s s' _ r l (remove_in-storage name id s') (λ now.
              effects-command w now (Command.del name id) hooks (strip w s.collections) _ (
                ap (λ m. ok (on w name (λ c. (Collection.remove w.crates id c).1) (strip w m)))
                  (sym l.kept)
                ∙ ap ok (remove_in-on name id s')))))

  pub del_checked-Good :
      (k : Clock) (name id : String) (s : Db w) → Recovers w s → Good w (del_checked w k name id s)
  unfolding del_checked
  del_checked-Good k name id s r =
      let before = object_in w id (Map.get name s.collections) in
      if-Good w (is_some before) (write_del w k name id before) (pure false) s
        (λ e.
          plan-batch-Good w k (event_of MutationCommand.del k name id before none)
            (Command.del name id) (finish_del w name id) s r
            (λ planned hooks s' l. finish_del-Good name id planned hooks s s' r l))
        (λ e. done-Good w (ok false) s r)

  pub del_exclusive-Good :
      (k : Clock) (name id : String) (s : Db w)
      → Recovers w s
      → Good w (del_exclusive w k name id s)
  unfolding del_exclusive
  del_exclusive-Good k name id s r =
      read-Good w (ensure_writable w s).0 (λ _. del_checked w k name id) s r
        (λ u e. del_checked-Good k name id s r)

  -- Deletions one after the other.
  del_each-Good :
      (k : Clock) (name : String) (ids : List String) (count : ℕ) (s : Db w)
      → Recovers w s
      → Good w (del_each w k name ids count s)
  unfolding del_each
  del_each-Good k name [] count s r = done-Good w (ok count) s r
  del_each-Good k name (id ∷ ids) count s r =
      then-Good w (del_exclusive w k name id s)
        (λ done. del_each w k name ids (if done then count + 1 else count))
        (del_exclusive-Good k name id s r)
        (λ done e r'. del_each-Good k name ids (if done then count + 1 else count) _ r')

  pub pdel-Good :
      (k : Clock) (name pattern : String) (s : Db w)
      → Recovers w s
      → Good w (pdel w k name pattern s)
  unfolding pdel
  pdel-Good k name pattern s r =
      read-Good w (ensure_writable w s).0
        (λ _ s1.
          del_each w k name (retain (w.glob_match pattern) (ids_in w (Map.get name s1.collections)))
            0 s1)
        s r (λ u e. del_each-Good k name _ 0 s r)

  pub expire_each-Good :
      (k : Clock) (now most : ℕ) (names : List String) (expired : ℕ) (s : Db w)
      → Recovers w s
      → Good w (expire_each w k now most names expired s)
  unfolding expire_each
  expire_each-Good k now most [] expired s r = done-Good w (ok expired) s r
  expire_each-Good k now most (name ∷ names) expired s r =
      let ids = due_in w now (most - expired) (Map.get name s.collections) in
      if-Good w (leb most expired) (pure expired)
        (del_each w k name ids expired >>= expire_each w k now most names) s
        (λ e. done-Good w (ok expired) s r)
        (λ e.
          then-Good w (del_each w k name ids expired s) (expire_each w k now most names)
            (del_each-Good k name ids expired s r)
            (λ count p r'. expire_each-Good k now most names count _ r'))
