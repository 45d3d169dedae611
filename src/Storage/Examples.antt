-- ===== src/Storage/Examples.antt =====
-- Runs of the log helpers and of the in-memory backend, and their theorems at concrete logs.
use latlng.Prelude.{ℕ, ◌≡◌, refl, List, [], ◌∷◌, ◌++◌, ok, err, arith, ◌⊎◌}
use latlng.Storage.{
  StorageEntry, StorageError, sequence_regression, assert_strictly_increasing, replay_entries,
}
use latlng.Storage.Memory.{MemoryBackend, recording, append_batch}
use latlng.Storage.Memory.Laws.{
  append_one, append_many, close_log, run, run-IsIncreasing, CanAppend, append_batch_atomic,
}
use latlng.Storage.Order.{IsIncreasing}
use latlng.Storage.Replay.{newer, collect, replay_resumes}

abbrev entry : ℕ → StorageEntry
entry n = record { sequence = n; timestamp_ns = 5; command = 97 ∷ 98 ∷ [] }

abbrev log : List StorageEntry
log = entry 1 ∷ entry 3 ∷ entry 4 ∷ []

abbrev backend : MemoryBackend
backend = record recording { entries = log }

batch_refused : (append_batch backend (entry 4 ∷ [])).0 ≡ err (sequence_regression 5 4)
unfolding append_batch assert_strictly_increasing
batch_refused = refl

replay_resumes_example :
    (replay_entries log 1 collect [] ≡ (ok 4, entry 3 ∷ entry 4 ∷ [])) × (newer 4 log ≡ [])
replay_resumes_example = replay_resumes log 1 (omega arith)

run-IsIncreasing_example :
    IsIncreasing
      (run backend (append_one (entry 4) ∷ append_many (entry 6 ∷ []) ∷ close_log ∷ [])).entries
run-IsIncreasing_example =
    run-IsIncreasing backend (append_one (entry 4) ∷ append_many (entry 6 ∷ []) ∷ close_log ∷ [])
      (omega arith)

append_batch_atomic_example :
    (CanAppend backend (entry 6 ∷ [])
      × (append_batch backend (entry 6 ∷ [])
          ≡ (ok tt, record backend { entries = log ++ entry 6 ∷ [] })))
    ⊎ ((¬ CanAppend backend (entry 6 ∷ []))
        × ((e : StorageError) × (append_batch backend (entry 6 ∷ []) ≡ (err e, backend))))
append_batch_atomic_example = append_batch_atomic backend (entry 6 ∷ []) (omega arith)
