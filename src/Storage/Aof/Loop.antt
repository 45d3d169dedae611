-- ===== src/Storage/Aof/Loop.antt =====
-- `run_writer_loop` of crates/latlng-storage-aof/src/lib.rs, over the commands in the order of their arrival. What the
-- file system does in each round is a list of arguments; the rounds that it has bound the loop.
use latlng.Prelude.{ℕ, zero, suc, ◌-◌, max, Bool, List, [], ◌∷◌, ◌++◌, Result, ok, err}
use latlng.Storage.{StorageEntry, StorageError, CompactionResult}
use latlng.Storage.Aof.{Codec}
use latlng.Storage.Aof.Writer.{
  AppendRequest, Writer, WriteOutcome, commit_append_group, execute_snapshot, execute_compact,
  execute_close, entries_of_requests,
}

pub data WriterCommand : Type 0 where
  append : AppendRequest → WriterCommand
  snapshot : List StorageEntry → WriterCommand
  compact : WriterCommand
  close : WriterCommand

-- The loop of `collect_append_requests`, for `room` more requests, over the commands that come before
-- the deadline: what it takes, and what it leaves.
unfoldable pub collect : ℕ → List WriterCommand → List AppendRequest × List WriterCommand
collect zero cs = ([], cs)
collect (suc room) (append r ∷ cs) = let (rs, rest) = collect room cs in (r ∷ rs, rest)
collect (suc room) cs = ([], cs)

unfoldable pub collect_append_requests :
    ℕ → AppendRequest → List WriterCommand → List AppendRequest × List WriterCommand
unfolding collect
collect_append_requests most first cs =
    let (rs, rest) = collect (max most 1 - 1) cs in (first ∷ rs, rest)

-- What becomes of a write, of a replacement of the file, and of the sync of a close, in one round.
pub record Disk : Type 0 where
  pub outcome : WriteOutcome
  pub replaces : Bool
  pub synced : Bool

-- A command with its answer; every request of a group gets the same one (`respond_append_requests`).
pub data Served : Type 0 where
  appended : List AppendRequest → Result StorageError (Unit {0}) → Served
  snapshotted : List StorageEntry → Result StorageError (Unit {0}) → Served
  compacted : Result StorageError CompactionResult → Served
  ended : Result StorageError (Unit {0}) → Served

module _ (c : Codec) (most : ℕ) where
  -- A round: the answer, the commands that are left, the writer. `close` breaks the loop.
  unfoldable pub serve :
      Disk → WriterCommand → List WriterCommand → Writer → Served × List WriterCommand × Writer
  unfolding collect_append_requests commit_append_group execute_snapshot execute_compact
      execute_close
  serve disk (append first) cs s =
      let (requests, rest) = collect_append_requests most first cs in
      let (result, s') = commit_append_group c disk.outcome requests s in
      (appended requests result, rest, s')
  serve disk (snapshot entries) cs s =
      let (result, s') = execute_snapshot c disk.replaces entries s in
      (snapshotted entries result, cs, s')
  serve disk compact cs s =
      let (result, s') = execute_compact c disk.replaces s in (compacted result, cs, s')
  serve disk close cs s = let (result, s') = execute_close c disk.synced s in (ended result, [], s')

  -- The answers, each with the writer behind it.
  unfoldable pub run_writer_loop : List Disk → List WriterCommand → Writer → List (Served × Writer)
  unfolding serve
  run_writer_loop [] cs s = []
  run_writer_loop (disk ∷ disks) [] s = []
  run_writer_loop (disk ∷ disks) (command ∷ cs) s =
      let (answer, rest, s') = serve disk command cs s in
      (answer, s') ∷ run_writer_loop disks rest s'

-- The writer at the end of a run.
abbrev pub final : Writer → List (Served × Writer) → Writer
final s [] = s
final s ((answer, s') ∷ more) = final s' more

-- What the answers promise: the entries of the appends that succeeded, from the last snapshot on.
abbrev pub promised : List StorageEntry → Served → List StorageEntry
promised es (appended requests (ok u)) = es ++ entries_of_requests requests
promised es (appended requests (err e)) = es
promised es (snapshotted entries (ok u)) = entries
promised es (snapshotted entries (err e)) = es
promised es (compacted result) = es
promised es (ended result) = es

abbrev pub acknowledged : List StorageEntry → List (Served × Writer) → List StorageEntry
acknowledged es [] = es
acknowledged es ((answer, s) ∷ more) = acknowledged (promised es answer) more
