-- ===== src/Storage/Aof.antt =====
-- The append-only file of crates/latlng-storage-aof/src/lib.rs: its frames, and how a file is read.
-- bincode is a parameter (`Codec`); a file is the list of its bytes, and usize is u64.
pub mod Writer
pub mod Loop
pub mod Reading
pub mod Files
pub mod Loading
pub mod Commits
pub mod Durable
pub mod Increasing
pub mod Entries
pub mod Whole
pub mod Rewriting
pub mod Runs
pub mod Promises
pub mod Answers
pub mod Faults
pub mod Grouping
pub mod Backend
pub mod Agreement
pub mod Calls
pub mod Backup
pub mod RoundTrip
pub mod Samples
pub mod BackupExamples
pub mod Examples
use latlng.Prelude.{
  ℕ, zero, suc, ◌+◌, ◌*◌, Bool, true, false, Option, none, some, List, [], ◌∷◌, ◌++◌, Result, ok,
  err, ◌>>=◌, ◌>>◌, length, take, drop, leb, ltb, if◌then◌else◌, last, wrapping_add, map_ok,
}
use latlng.Storage.{
  Bytes, StorageEntry, StorageError, codec, sequence_regression, le_bytes,
  assert_strictly_increasing,
}

mutual
  pub data AofFrame : Type 0 where
    entry : StorageEntry → AofFrame
    batch : List StorageEntry → AofFrame
    group : Frames → AofFrame

  -- `Vec<AofFrame>`
  pub data Frames : Type 0 where
    nil : Frames
    cons : AofFrame → Frames → Frames

-- `serialize` and `deserialize` of bincode; `none` stands for its errors.
pub record Codec : Type 0 where
  pub serialize : AofFrame → Option Bytes
  pub deserialize : Bytes → Option AofFrame

-- `first.sequence <= last.sequence` of `validate_batch_against_last`.
abbrev pub after_last : Option StorageEntry → StorageEntry → Result StorageError (Unit {0})
after_last none e = ok tt
after_last (some l) e =
    if leb e.sequence l.sequence
    then err (sequence_regression (wrapping_add l.sequence 1) e.sequence)
    else ok tt

unfoldable pub validate_batch_against_last :
    Option StorageEntry → List StorageEntry → Result StorageError (Unit {0})
unfolding assert_strictly_increasing
validate_batch_against_last l [] = ok tt
validate_batch_against_last l (e ∷ es) = do assert_strictly_increasing (e ∷ es); after_last l e

-- `entries.extend(batch)` where the batch passes.
abbrev pub extended :
    List StorageEntry
    → List StorageEntry
    → Result StorageError (Unit {0})
    → Result StorageError (List StorageEntry)
extended es b r = map_ok (λ _. es ++ b) r

unfoldable mutual
  unfolding validate_batch_against_last

  pub apply_frame_to_entries :
      List StorageEntry → AofFrame → Result StorageError (List StorageEntry)
  apply_frame_to_entries es (entry e) =
      extended es (e ∷ []) (validate_batch_against_last (last es) (e ∷ []))
  apply_frame_to_entries es (batch []) = err (codec [])
  apply_frame_to_entries es (batch (b ∷ bs)) =
      extended es (b ∷ bs) (validate_batch_against_last (last es) (b ∷ bs))
  apply_frame_to_entries es (group nil) = err (codec [])
  apply_frame_to_entries es (group (cons f fs)) =
      apply_frame_to_entries es f >>= λ es'. apply_frames es' fs

  pub apply_frames : List StorageEntry → Frames → Result StorageError (List StorageEntry)
  apply_frames es nil = ok es
  apply_frames es (cons f fs) = apply_frame_to_entries es f >>= λ es'. apply_frames es' fs

-- `u64::from_le_bytes`
unfoldable pub from_le_bytes : Bytes → ℕ
from_le_bytes [] = 0
from_le_bytes (b ∷ bs) = b + 256 * from_le_bytes bs

-- The variables of the loop in `load_entries_with_report`.
pub record Loaded : Type 0 where
  pub entries : List StorageEntry
  pub offset : ℕ
  pub durable_prefix_bytes : ℕ
  pub truncated_tail : Bool

abbrev pub nothing_loaded : Loaded
nothing_loaded = record {
  entries = [];
  offset = 0;
  durable_prefix_bytes = 0;
  truncated_tail = false;
}

-- The file ends in a frame.
abbrev pub truncated : Loaded → Loaded
truncated s = record s { durable_prefix_bytes = s.offset; truncated_tail = true }

abbrev pub decoded : Option AofFrame → Result StorageError AofFrame
decoded none = err (codec [])
decoded (some f) = ok f

module _ (c : Codec) where
  -- A frame of `n` bytes of payload has been read.
  abbrev pub frame_loaded : ℕ → Loaded → List StorageEntry → Loaded
  frame_loaded n s es = record s {
    entries = es;
    offset = s.offset + 8 + n;
    durable_prefix_bytes = s.offset + 8 + n;
  }

  abbrev pub load_frame : Bytes → Loaded → Result StorageError Loaded
  load_frame p s = do
    f ← decoded (c.deserialize p)
    es ← apply_frame_to_entries s.entries f
    ok (frame_loaded (length p) s es)

  -- One round: the length, the payload, the frame; `next` goes on.
  abbrev pub load_round :
      (Bytes → Loaded → Result StorageError Loaded) → Bytes → Loaded → Result StorageError Loaded
  load_round next bytes s =
      let n = from_le_bytes (take 8 bytes) in
      let rest = drop 8 bytes in
      if ltb (length bytes) 8
      then ok (truncated s)
      else if ltb (length rest) n
      then ok (truncated s)
      else load_frame (take n rest) s >>= next (drop n rest)

  -- The loop over the frames. Each takes 8 bytes at least; the fuel bounds their number.
  unfoldable pub load_frames : ℕ → Bytes → Loaded → Result StorageError Loaded
  unfolding from_le_bytes apply_frame_to_entries
  load_frames zero bytes s = ok s
  load_frames (suc fuel) [] s = ok s
  load_frames (suc fuel) (b ∷ bs) s = load_round (load_frames fuel) (b ∷ bs) s

  -- The loop has at most as many rounds as the file has bytes.
  unfoldable pub load_all : Bytes → Result StorageError Loaded
  unfolding load_frames
  load_all file = load_frames (length file) file nothing_loaded

  unfoldable pub load_entries : Bytes → Result StorageError (List StorageEntry)
  unfolding load_all
  load_entries file = map_ok (λ s. s.entries) (load_all file)

  -- The bytes that `write_frame` writes.
  unfoldable pub frame_bytes : AofFrame → Result StorageError Bytes
  unfolding le_bytes
  frame_bytes f = elim (c.serialize f) [
    | none ↦ err (codec [])
    | some p ↦ ok (le_bytes 8 (length p) ++ p)
  ]

  unfoldable pub encoded_frame_len : AofFrame → ℕ
  encoded_frame_len f = elim (c.serialize f) [ none ↦ 8 | some p ↦ 8 + length p ]
