-- ===== src/Core/Engine/Log.antt =====
-- The writing of a batch to the log, of crates/latlng-core/src/internals.rs, src/persistence.rs and
-- src/log_codec.rs.
use latlng.Prelude.{
  ℕ, suc, ◌+◌, none, some, List, [], ◌∷◌, map, length, Result, ok, err, map_ok, map_err,
  if◌then◌else◌, string_key,
}
use latlng.Storage.{Bytes, StorageEntry}
use latlng.Storage.Memory.{stores_command_log, append_batch}
use latlng.Core.Records.{Command, LogRecord, WebhookEnqueueRecord}
use latlng.Core.Action.{CoreError, Action, pure, lift, gets, ◌>>=◌, ◌>>◌}
use latlng.Core.World.{World}
use latlng.Core.Engine.{Clock, Record, Db, reserve_sequences}

module _ (w : World) where
  -- An enqueue record under its sequence number, with the ids that depend on it.
  abbrev pub numbered : ℕ → ℕ → ℕ → WebhookEnqueueRecord → WebhookEnqueueRecord
  numbered command_sequence index sequence r =
      let job = w.job_id sequence in
      let event = record r.event { job_id = some job } in
      record r {
        job_id = job;
        event = record event { event_id = some (w.event_id command_sequence index event) };
      }

  unfoldable pub prepared_webhooks :
      ℕ → ℕ → List ℕ → List WebhookEnqueueRecord → List WebhookEnqueueRecord
  prepared_webhooks command_sequence index [] rs = []
  prepared_webhooks command_sequence index (q ∷ qs) [] = []
  prepared_webhooks command_sequence index (q ∷ qs) (r ∷ rs) =
      numbered command_sequence index q r ∷ prepared_webhooks command_sequence (index + 1) qs rs

  -- The callers give at least one sequence number.
  unfoldable pub build_command_batch_records :
      Command w.fences.Def
      → List ℕ
      → List WebhookEnqueueRecord
      → List (Record w) × List WebhookEnqueueRecord
  unfolding prepared_webhooks
  build_command_batch_records c [] rs = (LogRecord.command c ∷ [], [])
  build_command_batch_records c (q ∷ qs) rs =
      let hooks = prepared_webhooks q 0 qs rs in
      (LogRecord.command c ∷ map LogRecord.webhook_enqueue hooks, hooks)

  abbrev pub encode_log_record : Record w → Result CoreError Bytes
  encode_log_record r = elim (w.to_vec r) [ none ↦ err CoreError.codec | some b ↦ ok b ]

  abbrev pub entry_of : Clock → ℕ → Bytes → StorageEntry
  entry_of k sequence b = record { sequence = sequence; timestamp_ns = k.nanos; command = b }

  unfoldable pub encode_entries_for_sequences :
      Clock → List (Record w) → List ℕ → Result CoreError (List StorageEntry)
  encode_entries_for_sequences k [] qs = ok []
  encode_entries_for_sequences k (r ∷ rs) [] = ok []
  encode_entries_for_sequences k (r ∷ rs) (q ∷ qs) =
      let rest = encode_entries_for_sequences k rs qs in
      elim (encode_log_record r) [ err e ↦ err e | ok b ↦ map_ok (λ l. entry_of k q b ∷ l) rest ]

  -- `self.storage.append_batch(&entries)?`
  abbrev pub append_entries : List StorageEntry → Action (Db w) (Unit {0})
  append_entries entries s =
      let r = append_batch s.storage entries in
      (map_err CoreError.storage r.0, record s { storage = r.1 })

  -- The end of `persist_command_batch` and of `append_log_records`, on the records to write.
  unfoldable pub append_encoded : Clock → List (Record w) → List ℕ → Action (Db w) (List ℕ)
  unfolding encode_entries_for_sequences
  append_encoded k records sequences = do
    entries ← lift (encode_entries_for_sequences k records sequences)
    append_entries entries
    pure sequences

  unfoldable pub persist_command_batch :
      Clock → Command w.fences.Def → List WebhookEnqueueRecord → Action (Db w) (List ℕ)
  unfolding reserve_sequences build_command_batch_records append_encoded
  persist_command_batch k c rs = do
    sequences ← reserve_sequences w (suc (length rs))
    logs ← gets (λ s. stores_command_log s.storage)
    if logs
        then append_encoded k (build_command_batch_records c sequences rs).0 sequences
        else pure sequences

  unfoldable pub append_log_records : Clock → List (Record w) → Action (Db w) (List ℕ)
  unfolding reserve_sequences append_encoded
  append_log_records k [] = pure []
  append_log_records k (r ∷ rs) = do
    sequences ← reserve_sequences w (length (r ∷ rs))
    logs ← gets (λ s. stores_command_log s.storage)
    if logs then append_encoded k (r ∷ rs) sequences else pure sequences

  abbrev pub append_command : Clock → Command w.fences.Def → Action (Db w) (List ℕ)
  append_command k c = append_log_records k (LogRecord.command c ∷ [])
