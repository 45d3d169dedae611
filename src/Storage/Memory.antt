-- ===== src/Storage/Memory.antt =====
-- crates/latlng-storage-memory/src/lib.rs: the in-memory backend. Each method is a function of the
-- state; one that writes returns the new state beside its result.
pub mod Laws
use latlng.Prelude.{
  ℕ, ◌+◌, ◌≡◌, Bool, true, false, ◌&&◌, List, [], ◌∷◌, ◌++◌, Option, none, some, Result, ok, err,
  ◌>>=◌, ◌>>◌, leb, if◌then◌else◌, retain, last, length, wrapping_add,
}
use latlng.Storage.{
  Bytes, StorageEntry, StorageError, sequence_regression, closed, CompactionResult, checksum,
  assert_strictly_increasing, Callback, replay_entries,
}

-- `MemoryBackend` with its `MemoryState`; the field `is_closed` is the source's `closed`.
pub record MemoryBackend : Type 0 where
  pub entries : List StorageEntry
  pub is_closed : Bool
  pub record_log : Bool

abbrev pub new : MemoryBackend
new = record { entries = []; is_closed = false; record_log = false }

abbrev pub recording : MemoryBackend
recording = record { entries = []; is_closed = false; record_log = true }

unfoldable pub stores_command_log : MemoryBackend → Bool
stores_command_log b = b.record_log

unfoldable pub ensure_open : MemoryBackend → Result StorageError (Unit {0})
ensure_open b = if b.is_closed then err closed else ok tt

-- The test of `append` and `append_batch` against the last entry.
unfoldable pub after_last : List StorageEntry → ℕ → Result StorageError (Unit {0})
after_last entries sequence = elim (last entries) [
  | none ↦ ok tt
  | some l ↦
      if leb sequence l.sequence
      then err (sequence_regression (wrapping_add l.sequence 1) sequence)
      else ok tt
]

-- A write happens if the checks before it pass.
abbrev pub commit :
    MemoryBackend
    → Result StorageError (Unit {0})
    → MemoryBackend
    → Result StorageError (Unit {0}) × MemoryBackend
commit b (ok _) b' = (ok tt, b')
commit b (err e) b' = (err e, b)

unfoldable pub append :
    MemoryBackend → StorageEntry → Result StorageError (Unit {0}) × MemoryBackend
unfolding ensure_open after_last
append b e =
    commit b (do ensure_open b; after_last b.entries e.sequence)
      (record b { entries = b.entries ++ e ∷ [] })

unfoldable pub batch_after_last :
    List StorageEntry → List StorageEntry → Result StorageError (Unit {0})
unfolding after_last
batch_after_last entries [] = ok tt
batch_after_last entries (e ∷ es) = after_last entries e.sequence

-- The checks of `append_batch`.
unfoldable pub batch_check : MemoryBackend → List StorageEntry → Result StorageError (Unit {0})
unfolding ensure_open batch_after_last
batch_check b batch = do
  ensure_open b
  assert_strictly_increasing batch
  batch_after_last b.entries batch

unfoldable pub append_batch :
    MemoryBackend → List StorageEntry → Result StorageError (Unit {0}) × MemoryBackend
unfolding batch_check
append_batch b batch = commit b (batch_check b batch) (record b { entries = b.entries ++ batch })

unfoldable pub replay :
    {S : Type 0} → MemoryBackend → ℕ → Callback S → S → Result StorageError ℕ × S
replay b after_seq callback s = replay_entries b.entries after_seq callback s

unfoldable pub snapshot :
    MemoryBackend → List StorageEntry → Result StorageError (Unit {0}) × MemoryBackend
unfolding ensure_open
snapshot b es =
    commit b (do ensure_open b; assert_strictly_increasing es) (record b { entries = es })

command_bytes : List StorageEntry → ℕ
command_bytes [] = 0
command_bytes (e ∷ es) = length e.command + command_bytes es

-- The log is left as it is.
unfoldable pub compact : MemoryBackend → CompactionResult
unfolding command_bytes
compact b = record {
  before_entries = length b.entries;
  after_entries = length b.entries;
  before_bytes = command_bytes b.entries;
  after_bytes = command_bytes b.entries;
}

abbrev pub sequence_or_zero : Option StorageEntry → ℕ
sequence_or_zero none = 0
sequence_or_zero (some l) = l.sequence

unfoldable pub last_sequence : MemoryBackend → ℕ
last_sequence b = sequence_or_zero (last b.entries)

unfoldable pub checksum_range : {D : Type 0} → (Bytes → D) → MemoryBackend → ℕ → ℕ → D
checksum_range digest b from to =
    checksum digest (retain (λ e. leb from e.sequence && leb e.sequence to) b.entries)

unfoldable pub close : MemoryBackend → MemoryBackend
close b = record b { is_closed = true }
