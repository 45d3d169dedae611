-- ===== src/Storage/Aof/Writer.antt =====
-- The writer thread of crates/latlng-storage-aof/src/lib.rs as functions of its state. What the file
-- system does to a write is an argument. The queue of commands is a list, in the order of arrival;
-- that an opened file is found again after a rename that succeeded is taken for granted.
use latlng.Prelude.{
  ℕ, Bool, true, false, Option, List, [], ◌∷◌, ◌++◌, Result, ok, err, ◌>>=◌, ◌>>◌, length, take,
  drop, if◌then◌else◌, last, map_ok, saturating_add,
}
use latlng.Storage.{
  Bytes, StorageEntry, StorageError, io, closed, CompactionResult, assert_strictly_increasing,
}
use latlng.Storage.Aof.{
  AofFrame, entry, batch, group, Frames, nil, cons, Codec, validate_batch_against_last, frame_bytes,
  encoded_frame_len, load_entries,
}

pub record AppendRequest : Type 0 where
  pub frame : AofFrame
  pub entries : List StorageEntry

-- What `append` and `append_batch` submit, the latter on a batch that is not empty.
abbrev pub append_request : StorageEntry → AppendRequest
append_request e = record { frame = entry e; entries = e ∷ [] }

abbrev pub batch_request : List StorageEntry → AppendRequest
batch_request es = record { frame = batch es; entries = es }

-- `WriterRuntime` and `CommittedState` with the file: its bytes, those that the `BufWriter` holds
-- back, and the length that a rollback goes back to.
pub record Writer : Type 0 where
  pub file : Bytes
  pub buffered : Bytes
  pub durable_len : ℕ
  pub entries : List StorageEntry
  pub is_closed : Bool

-- What comes of a write: all bytes reach the disk; or a part of them does, a part of the rest stays
-- in the buffer, the rollback and the reopening succeed or not, and the old `BufWriter` writes some
-- of its bytes after all when it is dropped.
pub data WriteOutcome : Type 0 where
  written : WriteOutcome
  failed : (reached kept : ℕ) (rolled_back reopened : Bool) (dropped : ℕ) → WriteOutcome

-- `rollback_file`
abbrev pub rollback_file : Bool → ℕ → Bytes → Bytes
rollback_file true n file = take n file
rollback_file false n file = file

-- The reopened runtime takes the place of the old one, which writes `dropped` bytes at its end.
abbrev pub reopen : Bool → ℕ → Writer → Writer
reopen false dropped s = s
reopen true dropped s = record s {
  durable_len = length s.file;
  file = s.file ++ take dropped s.buffered;
  buffered = [];
}

-- The file is cut at its durable length, and opened again.
abbrev pub recover : Bool → Bool → ℕ → Writer → Writer
recover rolled_back reopened dropped s =
    reopen reopened dropped (record s { file = rollback_file rolled_back s.durable_len s.file })

-- `write_and_sync_frame` of the bytes, and what `commit_append_group` does on its failure.
abbrev pub write_and_sync : WriteOutcome → Bytes → Writer → Result StorageError (Unit {0}) × Writer
write_and_sync written bytes s =
    (ok tt, record s { file = s.file ++ (s.buffered ++ bytes); buffered = [] })
write_and_sync (failed reached kept rolled_back reopened dropped) bytes s =
    let all = s.buffered ++ bytes in
    (
      err (io []),
      recover rolled_back reopened dropped
          (record s { file = s.file ++ take reached all; buffered = take kept (drop reached all) }),
    )

-- The same where the frame cannot be encoded: nothing of it is written.
abbrev pub not_encoded : WriteOutcome → Writer → Writer
not_encoded written s = recover true true (length s.buffered) s
not_encoded (failed reached kept rolled_back reopened dropped) s =
    recover rolled_back reopened dropped s

unfoldable pub validate_requests :
    Option StorageEntry → List AppendRequest → Result StorageError (Unit {0})
unfolding validate_batch_against_last
validate_requests l [] = ok tt
validate_requests l (r ∷ rs) =
    validate_batch_against_last l r.entries >> validate_requests (last r.entries) rs

abbrev pub frames_of : List AppendRequest → Frames
frames_of [] = nil
frames_of (r ∷ rs) = cons r.frame (frames_of rs)

abbrev pub frame_of : AppendRequest → List AppendRequest → AofFrame
frame_of r [] = r.frame
frame_of r (q ∷ qs) = group (cons r.frame (frames_of (q ∷ qs)))

abbrev pub entries_of_requests : List AppendRequest → List StorageEntry
entries_of_requests [] = []
entries_of_requests (r ∷ rs) = r.entries ++ entries_of_requests rs

-- The end of a commit: the length grows, and the entries count as committed.
abbrev pub committed :
    ℕ
    → ℕ
    → List AppendRequest
    → Result StorageError (Unit {0}) × Writer
    → Result StorageError (Unit {0}) × Writer
committed start n rs (err e, s) = (err e, s)
committed start n rs (ok u, s) = (
  ok tt,
  record s { durable_len = saturating_add start n; entries = s.entries ++ entries_of_requests rs },
)

module _ (c : Codec) where
  -- The frame is encoded before anything is written.
  abbrev pub write_group :
      WriteOutcome
      → AofFrame
      → List AppendRequest
      → Writer
      → Result StorageError (Unit {0}) × Writer
  write_group o f rs s = elim (frame_bytes c f) [
    | err e ↦ (err e, not_encoded o s)
    | ok bytes ↦ committed s.durable_len (encoded_frame_len c f) rs (write_and_sync o bytes s)
  ]

  unfoldable pub commit_append_group :
      WriteOutcome → List AppendRequest → Writer → Result StorageError (Unit {0}) × Writer
  unfolding validate_requests frame_bytes encoded_frame_len
  commit_append_group o [] s = (ok tt, s)
  commit_append_group o (r ∷ rs) s =
      if s.is_closed then (err closed, s) else elim (validate_requests (last s.entries) (r ∷ rs)) [
        | err e ↦ (err e, s)
        | ok _ ↦ write_group o (frame_of r rs) (r ∷ rs) s
      ]

  -- The bytes of a rewritten file: a frame for each entry.
  unfoldable pub rewritten : List StorageEntry → Result StorageError Bytes
  unfolding frame_bytes
  rewritten [] = ok []
  rewritten (e ∷ es) = do bytes ← frame_bytes c (entry e); rest ← rewritten es; ok (bytes ++ rest)

  -- The new file is in place, under a new runtime.
  abbrev pub replaced : Bytes → Writer → Writer
  replaced bytes s = record s { file = bytes; buffered = []; durable_len = length bytes }

  -- `rewrite` and `reopen_writer_runtime`: the file is replaced whole, by a rename, or left as it is.
  abbrev pub rewrite : Bool → List StorageEntry → Writer → Result StorageError (Unit {0}) × Writer
  rewrite false es s = (err (io []), s)
  rewrite true es s = elim (rewritten es) [
    | err e ↦ (err e, s)
    | ok bytes ↦ (ok tt, replaced bytes s)
  ]

  abbrev pub finish_snapshot :
      List StorageEntry
      → Result StorageError (Unit {0}) × Writer
      → Result StorageError (Unit {0}) × Writer
  finish_snapshot es (err e, s) = (err e, s)
  finish_snapshot es (ok u, s) =
      if s.is_closed then (err closed, s) else (ok tt, record s { entries = es })

  unfoldable pub execute_snapshot :
      Bool → List StorageEntry → Writer → Result StorageError (Unit {0}) × Writer
  unfolding assert_strictly_increasing rewritten
  execute_snapshot disk es s = elim (assert_strictly_increasing es) [
    | err e ↦ (err e, s)
    | ok _ ↦ finish_snapshot es (rewrite disk es s)
  ]

  abbrev pub finish_compact :
      Writer
      → Result StorageError (Unit {0}) × Writer
      → Result StorageError CompactionResult × Writer
  finish_compact before (err e, s) = (err e, s)
  finish_compact before (ok u, s) = (
    ok (record {
      before_entries = length before.entries;
      after_entries = length before.entries;
      before_bytes = length before.file;
      after_bytes = length s.file;
    }),
    s,
  )

  unfoldable pub execute_compact : Bool → Writer → Result StorageError CompactionResult × Writer
  unfolding rewritten
  execute_compact disk s = finish_compact s (rewrite disk s.entries s)

  -- The buffer is flushed, and the file synced, which may fail.
  unfoldable pub execute_close : Bool → Writer → Result StorageError (Unit {0}) × Writer
  execute_close false s = (err (io []), record s { file = s.file ++ s.buffered; buffered = [] })
  execute_close true s = (
    ok tt,
    record s {
      file = s.file ++ s.buffered;
      buffered = [];
      durable_len = length (s.file ++ s.buffered);
      is_closed = true;
    },
  )

  -- The state that `open_with_options` starts the writer with.
  unfoldable pub open_with_options : Bytes → Result StorageError Writer
  unfolding load_entries
  open_with_options file =
      map_ok
        (λ es. record {
          file = file;
          buffered = [];
          durable_len = length file;
          entries = es;
          is_closed = false;
        })
        (load_entries c file)
