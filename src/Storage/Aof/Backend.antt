-- ===== src/Storage/Aof/Backend.antt =====
-- The methods of `AofBackend` in crates/latlng-storage-aof/src/lib.rs, each served alone by the writer. The flag
-- `is_closed` of the writer stands for those of the handle and of the committed state.
use latlng.Prelude.{
  ℕ, max, Bool, true, ◌&&◌, List, [], ◌∷◌, Result, ok, err, if◌then◌else◌, last, leb, retain,
}
use latlng.Storage.{
  Bytes, StorageEntry, StorageError, closed, CompactionResult, Callback, replay_entries, checksum,
  assert_strictly_increasing,
}
use latlng.Storage.Memory.{sequence_or_zero}
use latlng.Storage.Aof.{Codec}
use latlng.Storage.Aof.Writer.{
  Writer, WriteOutcome, append_request, batch_request, commit_append_group, execute_snapshot,
  execute_compact, execute_close,
}

pub record AofOptions : Type 0 where
  pub writer_queue_limit : ℕ
  pub max_group_commit_delay_ms : ℕ
  pub max_requests_per_commit_cycle : ℕ

abbrev pub default : AofOptions
default = record {
  writer_queue_limit = 4096;
  max_group_commit_delay_ms = 1;
  max_requests_per_commit_cycle = 128;
}

unfoldable pub sanitize_options : AofOptions → AofOptions
sanitize_options o = record {
  writer_queue_limit = max o.writer_queue_limit 1;
  max_group_commit_delay_ms = o.max_group_commit_delay_ms;
  max_requests_per_commit_cycle = max o.max_requests_per_commit_cycle 1;
}

-- A closed handle sends no command.
abbrev pub submit :
    {A : Type 0} → Writer → Result StorageError A × Writer → Result StorageError A × Writer
submit s served = if s.is_closed then (err closed, s) else served

-- A check before the command is sent.
abbrev pub checked :
    {A : Type 0}
    → Result StorageError (Unit {0})
    → Writer
    → Result StorageError A × Writer
    → Result StorageError A × Writer
checked (ok _) s sent = sent
checked (err e) s sent = (err e, s)

module _ (c : Codec) where
  unfoldable pub append :
      WriteOutcome → Writer → StorageEntry → Result StorageError (Unit {0}) × Writer
  unfolding commit_append_group
  append o s e = submit s (commit_append_group c o (append_request e ∷ []) s)

  unfoldable pub append_batch :
      WriteOutcome → Writer → List StorageEntry → Result StorageError (Unit {0}) × Writer
  unfolding commit_append_group assert_strictly_increasing
  append_batch o s [] = (ok tt, s)
  append_batch o s (e ∷ es) =
      checked (assert_strictly_increasing (e ∷ es)) s
        (submit s (commit_append_group c o (batch_request (e ∷ es) ∷ []) s))

  unfoldable pub replay : {S : Type 0} → Writer → ℕ → Callback S → S → Result StorageError ℕ × S
  unfolding replay_entries
  replay s after_seq callback t = replay_entries s.entries after_seq callback t

  unfoldable pub snapshot :
      Bool → Writer → List StorageEntry → Result StorageError (Unit {0}) × Writer
  unfolding execute_snapshot assert_strictly_increasing
  snapshot disk s es =
      checked (assert_strictly_increasing es) s (submit s (execute_snapshot c disk es s))

  unfoldable pub compact : Bool → Writer → Result StorageError CompactionResult × Writer
  unfolding execute_compact
  compact disk s = submit s (execute_compact c disk s)

  unfoldable pub last_sequence : Writer → ℕ
  last_sequence s = sequence_or_zero (last s.entries)

  unfoldable pub checksum_range : {D : Type 0} → (Bytes → D) → Writer → ℕ → ℕ → D
  unfolding checksum
  checksum_range digest s from to =
      checksum digest (retain (λ e. leb from e.sequence && leb e.sequence to) s.entries)

  -- The handle is closed whatever the writer answers.
  unfoldable pub close : Bool → Writer → Result StorageError (Unit {0}) × Writer
  unfolding execute_close
  close synced s =
      if s.is_closed
      then (ok tt, s)
      else (let (result, s') = execute_close c synced s in (result, record s' { is_closed = true }))
