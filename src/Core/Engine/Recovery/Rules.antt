-- ===== src/Core/Engine/Recovery/Rules.antt =====
-- The rules for what the commands share: the plan, the batch, and the append of a command alone.
use latlng.Prelude.{
  String, Option, none, some, ok_inj, ℕ, List, [], ◌∷◌, ◌≡◌, refl, sym, ap, ◌∙◌, ◌>>=◌, Result, ok,
  err, inl, inr, ◌⊎◌, ok≢err,
}
use latlng.Geo.JsonPath.{GeoError}
use latlng.Geofence.{MutationEvent}
use latlng.Core.Records.{Command, LogRecord, WebhookEnqueueRecord}
use latlng.Core.Action.{CoreError, Action, continue, ◌>>◌}
use latlng.Core.World.{World}
use latlng.Core.Engine.{
  Clock, VersionedCollection, found, Record, Db, plan_mutation, webhook_records_for_prepared,
  with_plan,
}
use latlng.Core.Engine.Log.{persist_command_batch, append_log_records}
use latlng.Core.Engine.Effect.{Plain, strip, effect, effects}
use latlng.Core.Engine.Recovery.{Recovers, Recovers-Logged, Logged}
use latlng.Core.Engine.Recovery.Writes.{
  command_records, enqueued, persist_command_batch-Wrote, append_log_records-Wrote,
}
use latlng.Core.Engine.Recovery.Outcomes.{Good, read-Good, write-Good}

module _ (w : World) where
  effects-enqueued :
      (now : ℕ) (hooks : List WebhookEnqueueRecord) (p : Plain w)
      → effects w now (enqueued w hooks) p ≡ ok p
  unfolding effects
  effects-enqueued now [] p = refl
  effects-enqueued now (h ∷ hs) p = effects-enqueued now hs p

  -- The webhook records of a batch have no effect on the collections.
  pub effects-command :
      (now : ℕ) (c : Command w.fences.Def) (hooks : List WebhookEnqueueRecord) (p q : Plain w)
      → effect w now c p ≡ ok q
      → effects w now (command_records w c hooks) p ≡ ok q
  unfolding effects
  effects-command now c hooks p q e =
      ap (λ r. r >>= effects w now (enqueued w hooks)) e ∙ effects-enqueued now hooks q

  pub found-ok :
      (name : String) (p : Option (VersionedCollection w)) (u : VersionedCollection w)
      → found w name p ≡ ok u
      → p ≡ some u
  found-ok name none u h = elim (ok≢err u (CoreError.collection_not_found name) (sym h)) [ ]
  found-ok name (some x) u h = ap some (ok_inj h)

  -- An action that can only fail by a geometry.
  pub geo-Good :
      {A : Type 0} {r : Result CoreError (Unit {0})} (e : CoreError) (s : Db w)
      → (r ≡ ok tt) ⊎ ((x : GeoError) × (r ≡ err (CoreError.geo x)))
      → r ≡ err e
      → Good w {A = A} (err e, s)
  geo-Good e s (inl p) q = elim (ok≢err tt e (sym p ∙ q)) [ ]
  geo-Good (CoreError.geo y) s (inr (x, p)) q = record { after = λ n. elim n [ ] }
  geo-Good CoreError.index s (inr (x, p)) q = absurd (cc)
  geo-Good (CoreError.storage y) s (inr (x, p)) q = absurd (cc)
  geo-Good (CoreError.collection_not_found c) s (inr (x, p)) q = absurd (cc)
  geo-Good (CoreError.object_not_found c i) s (inr (x, p)) q = absurd (cc)
  geo-Good CoreError.read_only s (inr (x, p)) q = absurd (cc)
  geo-Good CoreError.missing_storage s (inr (x, p)) q = absurd (cc)
  geo-Good CoreError.codec s (inr (x, p)) q = absurd (cc)
  geo-Good CoreError.invalid s (inr (x, p)) q = absurd (cc)
  geo-Good CoreError.message s (inr (x, p)) q = absurd (cc)

  -- An action that cannot fail.
  pub total-Good :
      {A B : Type 0} (x : Result CoreError A × Db w) (f : A → Action (Db w) B)
      → ((a : A) × (x.0 ≡ ok a))
      → ((a : A) → x.0 ≡ ok a → Good w (f a x.1))
      → Good w (continue x.0 f x.1)
  total-Good (ok a, s) f t h = h a refl
  total-Good (err e, s) f (a, p) h = elim (ok≢err a e (sym p)) [ ]

  pub batch-Good :
      {A : Type 0} (k : Clock) (c : Command w.fences.Def) (records : List WebhookEnqueueRecord)
      (rest : Action (Db w) A) (s : Db w)
      → Recovers w s
      → ((hooks : List WebhookEnqueueRecord) (s' : Db w)
          → Logged w (command_records w c hooks) s s'
          → Good w (rest s'))
      → Good w ((persist_command_batch w k c records >> rest) s)
  batch-Good k c records rest s r h =
      let (hooks, wrote) = persist_command_batch-Wrote w k s r.logs c records in
      write-Good w (command_records w c hooks) s (persist_command_batch w k c records s) (λ _. rest)
        r wrote (λ qs l. h hooks _ l)

  pub plan-batch-Good :
      {A : Type 0} (k : Clock) (event : MutationEvent) (c : Command w.fences.Def)
      (rest : w.fences.Prepared → Action (Db w) A) (s : Db w)
      → Recovers w s
      → ((planned : w.fences.Prepared) (hooks : List WebhookEnqueueRecord) (s' : Db w)
          → Logged w (command_records w c hooks) s s'
          → Good w (rest planned s'))
      → Good w (
          with_plan w k event
            (λ planned records. persist_command_batch w k c records >> rest planned)
            s)
  unfolding plan_mutation webhook_records_for_prepared
  plan-batch-Good k event c rest s r h =
      read-Good w (plan_mutation w k event s).0
        (λ planned s1.
          continue (webhook_records_for_prepared w k planned s1).0
            (λ records. persist_command_batch w k c records >> rest planned)
            (webhook_records_for_prepared w k planned s1).1)
        s r
        (λ planned p.
          read-Good w (webhook_records_for_prepared w k planned s).0
            (λ records. persist_command_batch w k c records >> rest planned) s r
            (λ records q. batch-Good k c records (rest planned) s r (h planned)))

  -- A command that is logged alone.
  pub append-Good :
      {A : Type 0} (k : Clock) (rs : List (Record w)) (rest : Action (Db w) A) (s : Db w)
      → Recovers w s
      → ((s' : Db w) → Logged w rs s s' → Good w (rest s'))
      → Good w ((append_log_records w k rs >> rest) s)
  append-Good k rs rest s r h =
      write-Good w rs s (append_log_records w k rs s) (λ _. rest) r
        (append_log_records-Wrote w k s r.logs rs) (λ qs l. h _ l)

  -- A command that is logged alone, and done.
  pub alone-Recovers :
      (c : Command w.fences.Def) (s s' s'' : Db w)
      → Recovers w s
      → Logged w (LogRecord.command c ∷ []) s s'
      → s''.storage ≡ s'.storage
      → ((now : ℕ) → effect w now c (strip w s'.collections) ≡ ok (strip w s''.collections))
      → Recovers w s''
  alone-Recovers c s s' s'' r l q h =
      Recovers-Logged w (LogRecord.command c ∷ []) s s' s'' r l q (λ now.
        effects-command now c [] (strip w s.collections) (strip w s''.collections)
          (ap (λ m. effect w now c (strip w m)) (sym l.kept) ∙ h now))
