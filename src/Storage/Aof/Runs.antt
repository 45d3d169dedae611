-- ===== src/Storage/Aof/Runs.antt =====
-- Runs of the writer of crates/latlng-storage-aof/src/lib.rs: what is acknowledged is what the file holds.
use mathlib.Core.List.{append-nil}
use latlng.Prelude.{
  ℕ, zero, suc, ◌-◌, max, ◌≤◌, ◌≡◌, refl, sym, ap, ◌∙◌, Bool, true, false, List, [], ◌∷◌, ◌++◌,
  Result, ok, length, All, u64_max, inl, inr, ◌⊎◌,
}
use latlng.Storage.{StorageEntry, StorageError}
use latlng.Storage.Aof.{Codec}
use latlng.Storage.Aof.Writer.{
  AppendRequest, Writer, commit_append_group, execute_snapshot, execute_compact, execute_close,
  entries_of_requests,
}
use latlng.Storage.Aof.Loop.{
  WriterCommand, append, snapshot, compact, close, Disk, Served, appended, snapshotted, ended,
  serve, run_writer_loop, final, promised, acknowledged, collect, collect_append_requests,
}
use latlng.Storage.Aof.Reading.{IsCodec}
use latlng.Storage.Aof.Commits.{IsRequest}
use latlng.Storage.Aof.Durable.{IsClean, Durable, Committed, commit-Committed}
use latlng.Storage.Aof.Rewriting.{Rewritten, snapshot-Rewritten, compact-Rewritten}

-- The commands that the interface of the storage submits.
abbrev pub IsCommand : WriterCommand → Type 0
IsCommand (append request) = IsRequest request
IsCommand (snapshot entries) = Unit
IsCommand compact = Unit
IsCommand close = Unit

collect-All :
    (room : ℕ) (cs : List WriterCommand)
    → All IsCommand cs
    → All IsRequest (collect room cs).0 × All IsCommand (collect room cs).1
unfolding collect
collect-All zero cs a = (tt, a)
collect-All (suc room) [] a = (tt, tt)
collect-All (suc room) (append r ∷ cs) a = let (p, q) = collect-All room cs a.1 in ((a.0, p), q)
collect-All (suc room) (snapshot es ∷ cs) a = (tt, a)
collect-All (suc room) (compact ∷ cs) a = (tt, a)
collect-All (suc room) (close ∷ cs) a = (tt, a)

-- The writer takes commands only until it is closed.
abbrev pub IsServing : List WriterCommand → Writer → Type 0
IsServing cs s = (cs ≡ []) ⊎ (s.is_closed ≡ false)

-- The file never passes the range of its length.
abbrev pub IsMeasured : Served × Writer → Type 0
IsMeasured x = length x.1.file ≤ u64_max

module _ (c : Codec) (k : IsCodec c) where
  -- A round leaves a file that holds what its answer promises.
  record Kept (s : Writer) (x : Served × List WriterCommand × Writer) : Type 0 where
    durable : Durable c x.2
    serving : IsServing x.1 x.2
    commands : All IsCommand x.1
    entries : x.2.entries ≡ promised s.entries x.0

  Committed-promised :
      (rs : List AppendRequest) (s : Writer) (x : Result StorageError (Unit {0}) × Writer)
      → Committed c s (entries_of_requests rs) x
      → x.1.entries ≡ promised s.entries (appended rs x.0)
  Committed-promised rs s x w = elim w.answer [
    | inl (p, q) ↦ q ∙ ap (λ r. promised s.entries (appended rs r)) (sym p)
    | inr (e, p, q) ↦ q ∙ ap (λ r. promised s.entries (appended rs r)) (sym p)
  ]

  Rewritten-promised :
      (es : List StorageEntry) (s : Writer) (x : Result StorageError (Unit {0}) × Writer)
      → Rewritten c s es x
      → x.1.entries ≡ promised s.entries (snapshotted es x.0)
  Rewritten-promised es s x w = elim w.answer [
    | inl (u, p, q) ↦ q ∙ ap (λ r. promised s.entries (snapshotted es r)) (sym p)
    | inr (e, p, q) ↦ q ∙ ap (λ r. promised s.entries (snapshotted es r)) (sym p)
  ]

  Rewritten-same :
      {A : Type 0} (s : Writer) (x : Result StorageError A × Writer)
      → Rewritten c s s.entries x
      → x.1.entries ≡ s.entries
  Rewritten-same s x w = elim w.answer [ inl (a, p, q) ↦ q | inr (e, p, q) ↦ q ]

  close-Kept :
      (synced : Bool) (s : Writer)
      → Durable c s
      → Kept s (ended (execute_close c synced s).0, [], (execute_close c synced s).1)
  unfolding execute_close
  close-Kept true s d =
      let same : s.file ++ s.buffered ≡ s.file =
        ap (λ l. s.file ++ l) d.settled ∙ append-nil s.file in
      record {
        durable = record {
          frames = d.frames;
          stored = d.stored ∙ ap ok (sym same);
          replays = d.replays;
          settled = refl;
          measured = refl;
        };
        serving = inl refl;
        commands = tt;
        entries = refl;
      }
  close-Kept false s d =
      let same : s.file ++ s.buffered ≡ s.file =
        ap (λ l. s.file ++ l) d.settled ∙ append-nil s.file in
      record {
        durable = record {
          frames = d.frames;
          stored = d.stored ∙ ap ok (sym same);
          replays = d.replays;
          settled = refl;
          measured = d.measured ∙ ap length (sym same);
        };
        serving = inl refl;
        commands = tt;
        entries = refl;
      }

  serve-Kept :
      (most : ℕ) (disk : Disk) (command : WriterCommand) (cs : List WriterCommand) (s : Writer)
      → IsClean disk.outcome
      → IsCommand command
      → All IsCommand cs
      → s.is_closed ≡ false
      → Durable c s
      → length (serve c most disk command cs s).2.file ≤ u64_max
      → Kept s (serve c most disk command cs s)
  unfolding serve collect_append_requests
  serve-Kept most disk (append r) cs s w a b o d m =
      let (p, q) = collect-All (max most 1 - 1) cs b in
      let rs = (collect_append_requests most r cs).0 in
      let e = commit-Committed c disk.outcome rs s (a, p) w d m in
      record {
        durable = e.durable;
        serving = inr (e.state ∙ o);
        commands = q;
        entries = Committed-promised rs s (commit_append_group c disk.outcome rs s) e;
      }
  serve-Kept most disk (snapshot es) cs s w a b o d m =
      let e = snapshot-Rewritten c disk.replaces es s o d in
      record {
        durable = e.durable;
        serving = inr (e.state ∙ o);
        commands = b;
        entries = Rewritten-promised es s (execute_snapshot c disk.replaces es s) e;
      }
  serve-Kept most disk compact cs s w a b o d m =
      let e = compact-Rewritten c k disk.replaces s d in
      record {
        durable = e.durable;
        serving = inr (e.state ∙ o);
        commands = b;
        entries = Rewritten-same s (execute_compact c disk.replaces s) e;
      }
  serve-Kept most disk close cs s w a b o d m = close-Kept disk.synced s d

  pub run-Durable :
      (most : ℕ) (disks : List Disk) (cs : List WriterCommand) (s : Writer)
      → All (λ d. IsClean d.outcome) disks
      → All IsCommand cs
      → IsServing cs s
      → Durable c s
      → All IsMeasured (run_writer_loop c most disks cs s)
      → Durable c (final s (run_writer_loop c most disks cs s))
        × ((final s (run_writer_loop c most disks cs s)).entries
            ≡ acknowledged s.entries (run_writer_loop c most disks cs s))
  unfolding run_writer_loop
  run-Durable most [] cs s w a o d m = (d, refl)
  run-Durable most (disk ∷ disks) [] s w a o d m = (d, refl)
  run-Durable most (disk ∷ disks) (x ∷ cs) s w a (inl o) d m = absurd (cc)
  run-Durable most (disk ∷ disks) (x ∷ cs) s w a (inr o) d m =
      let y = serve c most disk x cs s in
      let e = serve-Kept most disk x cs s w.0 a.0 a.1 o d m.0 in
      let (p, q) = run-Durable most disks y.1 y.2 w.1 e.commands e.serving e.durable m.1 in
      (p, q ∙ ap (λ l. acknowledged l (run_writer_loop c most disks y.1 y.2)) e.entries)
