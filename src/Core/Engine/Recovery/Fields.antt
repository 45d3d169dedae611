-- ===== src/Core/Engine/Recovery/Fields.antt =====
-- The effects of a log leave the fields of every object in key order.
use latlng.Prelude.{ℕ, List, [], ◌∷◌, ◌≡◌, ok, ok_inj, bind_ok, subst, string_key}
use latlng.Prelude.Map
use latlng.Core.Records.{Command, LogRecord}
use latlng.Core.World.{World}
use latlng.Core.Engine.{Record, Db}
use latlng.Core.Engine.Restore.{requested, restored}
use latlng.Core.Engine.Effect.{Plain, strip, effect, effects}
use latlng.Core.Engine.Recovery.{Recovers}
use latlng.Core.Engine.Recovery.Tidy.{
  Tidy, IsTidy, Each-remove, field_entries_to_map-IsSorted, remove-Tidy, set_expiry-Tidy,
  insert_fields-Tidy, json_edited-Tidy, on-Tidy, made-Tidy, put_in-Tidy, renamed_to-Tidy,
}

module _ (w : World) where
  empty-Tidy : Tidy w []
  unfolding Map.get
  empty-Tidy k v e = cc

  effect-Tidy :
      (now : ℕ) (c : Command w.fences.Def) (p q : Plain w)
      → Tidy w p
      → effect w now c p ≡ ok q
      → Tidy w q
  unfolding effect
  effect-Tidy now (Command.set r) p q h e =
      put_in-Tidy w r.collection (requested w now r) _ q (field_entries_to_map-IsSorted r.fields)
        (made-Tidy w r.collection p h) e
  effect-Tidy now (Command.set_persisted r) p q h e =
      put_in-Tidy w r.collection (restored w r) _ q (field_entries_to_map-IsSorted r.fields)
        (made-Tidy w r.collection p h) e
  effect-Tidy now (Command.del name id) p q h e =
      subst (Tidy w) (ok_inj e) (on-Tidy w name _ p (λ c. remove-Tidy w id c) h)
  effect-Tidy now (Command.drop_collection name) p q h e =
      subst (Tidy w) (ok_inj e) (Each-remove (IsTidy w) name p h)
  effect-Tidy now (Command.rename name new_name) p q h e =
      subst (Tidy w) (ok_inj e) (renamed_to-Tidy w name new_name p h)
  effect-Tidy now (Command.fset name id fields xx) p q h e =
      subst (Tidy w) (ok_inj e) (on-Tidy w name _ p (λ c. insert_fields-Tidy w id fields c) h)
  effect-Tidy now (Command.expire name id seconds) p q h e =
      subst (Tidy w) (ok_inj e) (on-Tidy w name _ p (λ c. set_expiry-Tidy w id _ c) h)
  effect-Tidy now (Command.expire_at name id t) p q h e =
      subst (Tidy w) (ok_inj e) (on-Tidy w name _ p (λ c. set_expiry-Tidy w id _ c) h)
  effect-Tidy now (Command.persist name id) p q h e =
      subst (Tidy w) (ok_inj e) (on-Tidy w name _ p (λ c. set_expiry-Tidy w id _ c) h)
  effect-Tidy now (Command.jset name id path value raw) p q h e =
      subst (Tidy w) (ok_inj e)
        (on-Tidy w name _ p (λ c t. json_edited-Tidy w id _ (Map.get id c.objects) c t (t id)) h)
  effect-Tidy now (Command.jdel name id path) p q h e =
      subst (Tidy w) (ok_inj e)
        (on-Tidy w name _ p (λ c t. json_edited-Tidy w id _ (Map.get id c.objects) c t (t id)) h)
  effect-Tidy now Command.flush_db p q h e = subst (Tidy w) (ok_inj e) (empty-Tidy)
  effect-Tidy now (Command.create_collection name) p q h e =
      subst (Tidy w) (ok_inj e) (made-Tidy w name p h)
  effect-Tidy now (Command.set_hook name endpoint def) p q h e = subst (Tidy w) (ok_inj e) h
  effect-Tidy now (Command.del_hook name) p q h e = subst (Tidy w) (ok_inj e) h
  effect-Tidy now (Command.pdel_hook pattern) p q h e = subst (Tidy w) (ok_inj e) h
  effect-Tidy now (Command.set_channel name def) p q h e = subst (Tidy w) (ok_inj e) h
  effect-Tidy now (Command.del_channel name) p q h e = subst (Tidy w) (ok_inj e) h
  effect-Tidy now (Command.pdel_channel pattern) p q h e = subst (Tidy w) (ok_inj e) h

  effects-Tidy :
      (now : ℕ) (rs : List (Record w)) (p q : Plain w)
      → Tidy w p
      → effects w now rs p ≡ ok q
      → Tidy w q
  unfolding effects
  effects-Tidy now [] p q h e = subst (Tidy w) (ok_inj e) h
  effects-Tidy now (LogRecord.command c ∷ rs) p q h e =
      let (p', a, b) = bind_ok (effect w now c p) (effects w now rs) q e in
      effects-Tidy now rs p' q (effect-Tidy now c p p' h a) b
  effects-Tidy now (LogRecord.webhook_enqueue a ∷ rs) p q h e = effects-Tidy now rs p q h e
  effects-Tidy now (LogRecord.webhook_ack a ∷ rs) p q h e = effects-Tidy now rs p q h e
  effects-Tidy now (LogRecord.webhook_retry_scheduled a ∷ rs) p q h e = effects-Tidy now rs p q h e
  effects-Tidy now (LogRecord.webhook_dead_letter a ∷ rs) p q h e = effects-Tidy now rs p q h e

  -- Where the log rebuilds the collections, the fields of their objects are in key order.
  pub Recovers-Tidy : (s : Db w) → Recovers w s → Tidy w (strip w s.collections)
  Recovers-Tidy s h = effects-Tidy 0 h.records [] _ empty-Tidy (h.rebuilds 0)
