-- ===== src/Core/Engine/Recovery.antt =====
-- The log rebuilds the collections: the invariant, and how the writing of a batch keeps it.
pub mod Writes
pub mod Outcomes
pub mod Tidy
pub mod Fields
pub mod Rules
pub mod Objects
pub mod Deletes
pub mod Edits
pub mod Edited
pub mod Json
pub mod Catalogs
pub mod Hooks
pub mod Commands
pub mod Run
pub mod Replay
pub mod Restart
use mathlib.Core.List.{append-nil}
use latlng.Prelude.{
  ◌<◌, ℕ, zero, suc, String, Option, none, some, Bool, true, false, List, [], ◌∷◌, ◌++◌, map, ◌≡◌,
  refl, sym, ap, ◌∙◌, arith, inl, inr, ◌⊎◌, Result, ok, err, map_ok, map_err, ◌>>=◌, Result-cases,
  Option-cases, ok_inj, ok≢err, if◌then◌else◌, length, subst,
}
use latlng.Storage.{StorageEntry, StorageError}
use latlng.Storage.Memory.{MemoryBackend, stores_command_log, append_batch, batch_check}
use latlng.Core.Records.{Command, LogRecord, WebhookEnqueueRecord}
use latlng.Core.Action.{CoreError, continue, Action}
use latlng.Core.World.{World}
use latlng.Core.Engine.{Clock, Db, Record, Catalog, numbers_above, reserve_sequences}
use latlng.Core.Engine.Log.{
  encode_log_record, encode_entries_for_sequences, build_command_batch_records, prepared_webhooks,
  append_encoded, persist_command_batch, append_log_records,
}
use latlng.Core.Engine.Effect.{Plain, strip, effect, effects}

module _ (w : World) where
  -- The entries hold the records as serde_json writes them, under numbers from 1.
  abbrev pub Encodes : List (Record w) → List StorageEntry → Type 0
  Encodes [] [] = Unit
  Encodes (r ∷ rs) (e ∷ es) = (w.to_vec r ≡ some e.command) × (0 < e.sequence) × Encodes rs es
  Encodes [] (e ∷ es) = ⊥
  Encodes (r ∷ rs) [] = ⊥

  -- The log is written, and the effects of its records give the collections, whatever the time.
  pub record Recovers (s : Db w) : Type 0 where
    pub logs : s.storage.record_log ≡ true
    pub records : List (Record w)
    pub encodes : Encodes records s.storage.entries
    pub rebuilds : (now : ℕ) → effects w now records [] ≡ ok (strip w s.collections)

  pub Encodes-append :
      (rs qs : List (Record w)) (es fs : List StorageEntry)
      → Encodes rs es
      → Encodes qs fs
      → Encodes (rs ++ qs) (es ++ fs)
  Encodes-append [] qs [] fs h k = k
  Encodes-append (r ∷ rs) qs (e ∷ es) fs h k = (h.0, h.1, Encodes-append rs qs es fs h.2 k)
  Encodes-append [] qs (e ∷ es) fs h k = elim h [ ]
  Encodes-append (r ∷ rs) qs [] fs h k = elim h [ ]

  effects-bind :
      (now : ℕ) (rs qs : List (Record w)) (p : Result CoreError (Plain w))
      (f : List (Record w) → Plain w → Result CoreError (Plain w))
      → ((q : Plain w) → f (rs ++ qs) q ≡ (f rs q >>= f qs))
      → (p >>= f (rs ++ qs)) ≡ ((p >>= f rs) >>= f qs)
  effects-bind now rs qs (ok q) f h = h q
  effects-bind now rs qs (err e) f h = refl

  pub effects-append :
      (now : ℕ) (rs qs : List (Record w)) (p : Plain w)
      → effects w now (rs ++ qs) p ≡ (effects w now rs p >>= effects w now qs)
  unfolding effects
  effects-append now [] qs p = refl
  effects-append now (LogRecord.command c ∷ rs) qs p =
      effects-bind now rs qs (effect w now c p) (effects w now) (effects-append now rs qs)
  effects-append now (LogRecord.webhook_enqueue a ∷ rs) qs p = effects-append now rs qs p
  effects-append now (LogRecord.webhook_ack a ∷ rs) qs p = effects-append now rs qs p
  effects-append now (LogRecord.webhook_retry_scheduled a ∷ rs) qs p = effects-append now rs qs p
  effects-append now (LogRecord.webhook_dead_letter a ∷ rs) qs p = effects-append now rs qs p

  -- A batch on its way to the log has been written: the collections are as they were.
  pub record Logged (rs : List (Record w)) (s s' : Db w) : Type 0 where
    pub kept : s'.collections ≡ s.collections
    pub recording : s'.storage.record_log ≡ s.storage.record_log
    pub written : List StorageEntry
    pub extended : s'.storage.entries ≡ s.storage.entries ++ written
    pub encoded : Encodes rs written

  -- Nothing that a recovery depends on has changed.
  pub record Same (s s' : Db w) : Type 0 where
    pub kept : s'.collections ≡ s.collections
    pub recording : s'.storage.record_log ≡ s.storage.record_log
    pub entries : s'.storage.entries ≡ s.storage.entries

  pub Recovers-Same : (s s' : Db w) → Recovers s → Same s s' → Recovers s'
  Recovers-Same s s' r h = record {
    logs = h.recording ∙ r.logs;
    records = r.records;
    encodes = subst (Encodes r.records) (sym h.entries) r.encodes;
    rebuilds = λ now. r.rebuilds now ∙ ap (λ m. ok (strip w m)) (sym h.kept);
  }

  -- A batch is written and its effects are done: the log rebuilds the collections again.
  pub Recovers-Logged :
      (rs : List (Record w)) (s s' s'' : Db w)
      → Recovers s
      → Logged rs s s'
      → s''.storage ≡ s'.storage
      → ((now : ℕ) → effects w now rs (strip w s.collections) ≡ ok (strip w s''.collections))
      → Recovers s''
  Recovers-Logged rs s s' s'' r h q done = record {
    logs = ap (λ b. b.record_log) q ∙ h.recording ∙ r.logs;
    records = r.records ++ rs;
    encodes =
        subst (Encodes (r.records ++ rs)) (sym (ap (λ b. b.entries) q ∙ h.extended))
          (Encodes-append r.records rs _ _ r.encodes h.encoded);
    rebuilds = λ now.
        effects-append now r.records rs []
        ∙ ap (λ x. x >>= effects w now rs) (r.rebuilds now)
        ∙ done now;
  }
