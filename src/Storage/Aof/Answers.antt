-- ===== src/Storage/Aof/Answers.antt =====
-- Every command that the writer of crates/latlng-storage-aof/src/lib.rs takes is answered, in the order of arrival.
use latlng.Prelude.{
  ℕ, zero, suc, ◌-◌, max, ◌≤◌, ◌≡◌, refl, sym, ap, ◌∙◌, arith, List, [], ◌∷◌, ◌++◌, length, All,
}
use latlng.Storage.Aof.{Codec}
use latlng.Storage.Aof.Writer.{AppendRequest, Writer}
use latlng.Storage.Aof.Loop.{
  WriterCommand, append, snapshot, compact, close, Disk, Served, appended, snapshotted, compacted,
  ended, serve, run_writer_loop, collect, collect_append_requests,
}

abbrev pub appends : List AppendRequest → List WriterCommand
appends [] = []
appends (r ∷ rs) = append r ∷ appends rs

-- The commands that an answer is for.
abbrev pub answered : Served → List WriterCommand
answered (appended requests result) = appends requests
answered (snapshotted entries result) = snapshot entries ∷ []
answered (compacted result) = compact ∷ []
answered (ended result) = close ∷ []

abbrev pub all_answered : List (Served × Writer) → List WriterCommand
all_answered [] = []
all_answered (x ∷ xs) = answered x.0 ++ all_answered xs

-- The commands up to the first `close`, which ends the loop.
abbrev pub until_close : List WriterCommand → List WriterCommand
until_close [] = []
until_close (append r ∷ cs) = append r ∷ until_close cs
until_close (snapshot es ∷ cs) = snapshot es ∷ until_close cs
until_close (compact ∷ cs) = compact ∷ until_close cs
until_close (close ∷ cs) = close ∷ []

-- The requests of a group: at most so many.
abbrev pub IsGroup : ℕ → Served → Type 0
IsGroup most (appended requests result) = length requests ≤ max most 1
IsGroup most (snapshotted entries result) = Unit
IsGroup most (compacted result) = Unit
IsGroup most (ended result) = Unit

until_close-appends :
    (rs : List AppendRequest) (cs : List WriterCommand)
    → until_close (appends rs ++ cs) ≡ appends rs ++ until_close cs
until_close-appends [] cs = refl
until_close-appends (r ∷ rs) cs = ap (λ l. append r ∷ l) (until_close-appends rs cs)

collect_lem :
    (room : ℕ) (cs : List WriterCommand)
    → (appends (collect room cs).0 ++ (collect room cs).1 ≡ cs)
      × (length (collect room cs).1 ≤ length cs)
      × (length (collect room cs).0 ≤ room)
unfolding collect
collect_lem zero cs = (refl, omega arith, omega arith)
collect_lem (suc room) [] = (refl, omega arith, omega arith)
collect_lem (suc room) (append r ∷ cs) =
    let (p, q, t) = collect_lem room cs in (ap (λ l. append r ∷ l) p, omega arith, omega arith)
collect_lem (suc room) (snapshot es ∷ cs) = (refl, omega arith, omega arith)
collect_lem (suc room) (compact ∷ cs) = (refl, omega arith, omega arith)
collect_lem (suc room) (close ∷ cs) = (refl, omega arith, omega arith)

-- With a round for each command the loop answers every command up to the first `close`, in their order,
-- each once, and no group is larger than `max_requests_per_commit_cycle`, which counts as 1 where it is 0.
pub run_writer_loop-answered :
    (c : Codec) (most : ℕ) (disks : List Disk) (cs : List WriterCommand) (s : Writer)
    → length cs ≤ length disks
    → (all_answered (run_writer_loop c most disks cs s) ≡ until_close cs)
      × All (λ x. IsGroup most x.0) (run_writer_loop c most disks cs s)
unfolding run_writer_loop serve collect_append_requests
run_writer_loop-answered c most [] [] s h = (refl, tt)
run_writer_loop-answered c most (disk ∷ disks) [] s h = (refl, tt)
run_writer_loop-answered c most [] (x ∷ cs) s h = absurd (omega arith)
run_writer_loop-answered c most (disk ∷ disks) (append r ∷ cs) s h =
    let (p, q, t) = collect_lem (max most 1 - 1) cs in
    let rs = (collect (max most 1 - 1) cs).0 in
    let y = serve c most disk (append r) cs s in
    let (a, b) = run_writer_loop-answered c most disks y.1 y.2 (omega arith) in
    (
      ap (λ l. append r ∷ (appends rs ++ l)) a
          ∙ ap (λ l. append r ∷ l) (sym (until_close-appends rs y.1) ∙ ap until_close p),
      (omega arith, b),
    )
run_writer_loop-answered c most (disk ∷ disks) (snapshot es ∷ cs) s h =
    let y = serve c most disk (snapshot es) cs s in
    let (a, b) = run_writer_loop-answered c most disks y.1 y.2 (omega arith) in
    (ap (λ l. snapshot es ∷ l) a, (tt, b))
run_writer_loop-answered c most (disk ∷ disks) (compact ∷ cs) s h =
    let y = serve c most disk compact cs s in
    let (a, b) = run_writer_loop-answered c most disks y.1 y.2 (omega arith) in
    (ap (λ l. compact ∷ l) a, (tt, b))
run_writer_loop-answered c most (disk ∷ disks) (close ∷ cs) s h =
    let y = serve c most disk close cs s in
    let (a, b) = run_writer_loop-answered c most disks y.1 y.2 (omega arith) in
    (ap (λ l. close ∷ l) a, (tt, b))
