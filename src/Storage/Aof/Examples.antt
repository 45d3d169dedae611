-- ===== src/Storage/Aof/Examples.antt =====
-- The theorems of the append-only file at concrete runs.
use latlng.Prelude.{
  ◌≡◌, refl, arith, true, false, List, [], ◌∷◌, ◌++◌, ok, err, take, All, inl, none, some, ◌↔◌,
}
use latlng.Storage.{Bytes, io, le_bytes}
use latlng.Storage.Order.{IsIncreasing}
use latlng.Storage.Aof.{
  Codec, entry, group, cons, nil, frame_bytes, encoded_frame_len, load_entries, load_all,
  load_frames, nothing_loaded, validate_batch_against_last,
}
use latlng.Storage.Aof.Writer.{
  append_request, Writer, written, failed, commit_append_group, open_with_options,
  validate_requests, execute_snapshot, execute_compact,
}
use latlng.Storage.Aof.Loop.{
  WriterCommand, append, snapshot, compact, close, Disk, run_writer_loop, final, serve, collect,
  collect_append_requests,
}
use latlng.Storage.Aof.Samples.{at, padding, toy, toy-IsCodec}
use latlng.Storage.Aof.Runs.{IsMeasured}
use latlng.Storage.Aof.Promises.{run-load, run-crash}
use latlng.Storage.Aof.Answers.{run_writer_loop-answered, all_answered, IsGroup}
use latlng.Storage.Aof.Loading.{load_frames-enough}
use latlng.Storage.Aof.Increasing.{load_entries-IsIncreasing}
use latlng.Storage.Aof.Files.{file_of}
use latlng.Storage.Aof.Entries.{is_full, all_full, all_entries}
use latlng.Storage.Aof.Whole.{load_entries_whole}
use latlng.Storage.Aof.Durable.{Durable}
use latlng.Storage.Aof.Faults.{open-torn-append, failed-append-returns}
use latlng.Storage.Aof.Agreement as Agreement
use latlng.Storage.Aof.Agreement.{call_file, call_memory, view}
use latlng.Storage.Aof.Calls.{calls, calls-agree}
use latlng.Storage.Aof.Grouping.{commit-commit_each, commit_each}

abbrev works : Disk
works = record { outcome = written; replaces = true; synced = true }

-- A frame fails after 3 bytes, none of which stays behind.
abbrev fails : Disk
fails = record { outcome = failed 3 0 true true 0; replaces = false; synced = true }

abbrev new_writer : Writer
new_writer = record { file = []; buffered = []; durable_len = 0; entries = []; is_closed = false }

-- Two appends in a group, a compaction, an append that fails, a snapshot, an append.
abbrev commands : List WriterCommand
commands =
    append (append_request (at 1 10))
    ∷ append (append_request (at 2 20))
    ∷ compact
    ∷ append (append_request (at 3 30))
    ∷ snapshot (at 2 20 ∷ [])
    ∷ append (append_request (at 4 40))
    ∷ []

abbrev disks : List Disk
disks = works ∷ works ∷ fails ∷ works ∷ works ∷ works ∷ []

opened : open_with_options toy [] ≡ ok new_writer
unfolding open_with_options load_entries load_all load_frames
opened = refl

measured : All IsMeasured (run_writer_loop toy 4 disks commands new_writer)
unfolding run_writer_loop serve collect_append_requests collect commit_append_group execute_snapshot
    execute_compact
measured = (omega arith, (omega arith, (omega arith, (omega arith, (omega arith, tt)))))

-- The run ends with the entries of the snapshot and of the last append, and its file loads to them.
run-load_example :
    ((final new_writer (run_writer_loop toy 4 disks commands new_writer)).entries
      ≡ at 2 20 ∷ at 4 40 ∷ [])
    × (load_entries toy (final new_writer (run_writer_loop toy 4 disks commands new_writer)).file
        ≡ ok (at 2 20 ∷ at 4 40 ∷ []))
unfolding run_writer_loop serve collect_append_requests collect commit_append_group execute_snapshot
    execute_compact
run-load_example =
    run-load toy toy-IsCodec 4 disks commands new_writer opened
      (tt, (tt, ((refl, refl), (tt, (tt, (tt, tt))))))
      (
        inl (at 1 10, refl),
        (inl (at 2 20, refl), (tt, (inl (at 3 30, refl), (tt, (inl (at 4 40, refl), tt))))),
      )
      measured

run-crash_example :
    load_entries toy (
      (final new_writer (run_writer_loop toy 4 disks commands new_writer)).file
      ++ take 9 (le_bytes 8 2 ++ 5 ∷ 50 ∷ []))
    ≡ ok (at 2 20 ∷ at 4 40 ∷ [])
unfolding run_writer_loop serve collect_append_requests collect commit_append_group execute_snapshot
    execute_compact frame_bytes le_bytes
run-crash_example =
    run-crash toy toy-IsCodec 4 disks commands new_writer opened
      (tt, (tt, ((refl, refl), (tt, (tt, (tt, tt))))))
      (
        inl (at 1 10, refl),
        (inl (at 2 20, refl), (tt, (inl (at 3 30, refl), (tt, (inl (at 4 40, refl), tt))))),
      )
      measured (entry (at 5 50)) (le_bytes 8 2 ++ 5 ∷ 50 ∷ []) 9 refl (omega arith)

-- The append behind the `close` is not answered.
run_writer_loop-answered_example :
    (all_answered (
        run_writer_loop toy 1 disks
          (compact
            ∷ append (append_request (at 1 10))
            ∷ close
            ∷ append (append_request (at 2 20))
            ∷ [])
          new_writer)
      ≡ compact ∷ append (append_request (at 1 10)) ∷ close ∷ [])
    × All
        (λ x. IsGroup 1 x.0)
        (run_writer_loop toy 1 disks
          (compact
            ∷ append (append_request (at 1 10))
            ∷ close
            ∷ append (append_request (at 2 20))
            ∷ [])
          new_writer)
run_writer_loop-answered_example =
    run_writer_loop-answered toy 1 disks
      (compact ∷ append (append_request (at 1 10)) ∷ close ∷ append (append_request (at 2 20)) ∷ [])
      new_writer (omega arith)

load_frames-enough_example :
    load_frames toy 10 (le_bytes 8 2 ++ 5 ∷ 50 ∷ []) nothing_loaded
    ≡ load_frames toy 99 (le_bytes 8 2 ++ 5 ∷ 50 ∷ []) nothing_loaded
unfolding le_bytes
load_frames-enough_example =
    load_frames-enough toy 10 99 (le_bytes 8 2 ++ 5 ∷ 50 ∷ []) nothing_loaded (omega arith)
      (omega arith)

load_entries-IsIncreasing_example : IsIncreasing (at 5 50 ∷ at 7 70 ∷ [])
unfolding load_entries load_all load_frames le_bytes
load_entries-IsIncreasing_example =
    load_entries-IsIncreasing toy ((le_bytes 8 2 ++ 5 ∷ 50 ∷ []) ++ (le_bytes 8 2 ++ 7 ∷ 70 ∷ []))
      (at 5 50 ∷ at 7 70 ∷ []) refl

two_frames_file :
    file_of toy (entry (at 5 50) ∷ entry (at 7 70) ∷ [])
    ≡ ok (le_bytes 8 2 ++ 5 ∷ 50 ∷ (le_bytes 8 2 ++ 7 ∷ 70 ∷ []))
unfolding frame_bytes le_bytes
two_frames_file = refl

two_frames_full : all_full (entry (at 5 50) ∷ entry (at 7 70) ∷ []) ≡ true
unfolding is_full
two_frames_full = refl

load_entries_whole_example :
    (load_entries toy (le_bytes 8 2 ++ 5 ∷ 50 ∷ (le_bytes 8 2 ++ 7 ∷ 70 ∷ []))
      ≡ ok (at 5 50 ∷ at 7 70 ∷ []))
    ↔ ((at 5 50 ∷ at 7 70 ∷ [] ≡ all_entries (entry (at 5 50) ∷ entry (at 7 70) ∷ []))
        × IsIncreasing (all_entries (entry (at 5 50) ∷ entry (at 7 70) ∷ [])))
load_entries_whole_example =
    load_entries_whole toy toy-IsCodec (entry (at 5 50) ∷ entry (at 7 70) ∷ [])
      (le_bytes 8 2 ++ 5 ∷ 50 ∷ (le_bytes 8 2 ++ 7 ∷ 70 ∷ [])) (at 5 50 ∷ at 7 70 ∷ [])
      two_frames_file two_frames_full

-- The file after the entry 5 and the first 9 bytes of a group; an append of the entry 6 is lost.
abbrev torn_file : Bytes
torn_file = (le_bytes 8 2 ++ 5 ∷ 50 ∷ []) ++ take 9 (le_bytes 8 14 ++ 6 ∷ 60 ∷ 7 ∷ 70 ∷ padding)

abbrev torn_writer : Writer
torn_writer = record {
  file = torn_file;
  buffered = [];
  durable_len = 19;
  entries = at 5 50 ∷ [];
  is_closed = false;
}

abbrev lost_writer : Writer
lost_writer = record {
  file = torn_file ++ (le_bytes 8 2 ++ 6 ∷ 60 ∷ []);
  buffered = [];
  durable_len = 29;
  entries = at 5 50 ∷ at 6 60 ∷ [];
  is_closed = false;
}

open-torn-append_example :
    (at 5 50 ∷ at 6 60 ∷ [] ≡ at 5 50 ∷ at 6 60 ∷ [])
    × (load_entries toy lost_writer.file ≡ ok (at 5 50 ∷ []))
unfolding open_with_options load_entries load_all load_frames commit_append_group frame_bytes
    encoded_frame_len
open-torn-append_example =
    open-torn-append toy toy-IsCodec (entry (at 5 50) ∷ []) (le_bytes 8 2 ++ 5 ∷ 50 ∷ [])
      (at 5 50 ∷ []) (group (cons (entry (at 6 60)) (cons (entry (at 7 70)) nil)))
      (le_bytes 8 14 ++ 6 ∷ 60 ∷ 7 ∷ 70 ∷ padding) 9 (append_request (at 6 60)) torn_writer
      lost_writer refl refl refl (omega arith) (omega arith) refl refl

new_writer-Durable : Durable toy new_writer
new_writer-Durable = record {
  frames = [];
  stored = refl;
  replays = refl;
  settled = refl;
  measured = refl;
}

failed-append-returns_example :
    (let x =
        commit_append_group toy
          (failed 0 10 true true 10)
          (append_request (at 1 10) ∷ [])
          new_writer in
      (x.0 ≡ err (io [])) × (x.1.entries ≡ []) × (load_entries toy x.1.file ≡ ok (at 1 10 ∷ [])))
unfolding frame_bytes le_bytes validate_batch_against_last
failed-append-returns_example =
    failed-append-returns toy toy-IsCodec (append_request (at 1 10)) (le_bytes 8 2 ++ 1 ∷ 10 ∷ [])
      new_writer new_writer-Durable refl (inl (at 1 10, refl)) refl refl

commit-commit_each_example :
    (let requests = append_request (at 1 10) ∷ append_request (at 2 20) ∷ [] in
      let x = commit_append_group toy written requests new_writer in
      let y = commit_each toy requests new_writer in
      (x.0 ≡ ok tt)
      × (x.1.entries ≡ y.entries)
      × (load_entries toy x.1.file ≡ load_entries toy y.file))
unfolding frame_bytes le_bytes validate_requests validate_batch_against_last commit_append_group
commit-commit_each_example =
    commit-commit_each toy toy-IsCodec (append_request (at 1 10)) (append_request (at 2 20) ∷ [])
      (le_bytes 8 14 ++ 1 ∷ 10 ∷ 2 ∷ 20 ∷ padding) new_writer new_writer-Durable refl
      (inl (at 1 10, refl), (inl (at 2 20, refl), tt)) refl refl (omega arith)
      ((_, refl), (omega arith), ((_, refl), (omega arith), (omega arith)))

-- A codec that gives every frame the same bytes; the answers do not depend on them.
abbrev same_bytes : Codec
same_bytes = record { serialize = λ _. some (1 ∷ []); deserialize = λ _. none }

calls-agree_example :
    (let ks =
        Agreement.append (at 2 20)
        ∷ Agreement.append_batch (at 1 10 ∷ [])
        ∷ Agreement.snapshot (at 5 50 ∷ [])
        ∷ Agreement.append (at 6 60)
        ∷ [] in
      let x = calls (call_file same_bytes (λ f. (1 ∷ [], refl))) ks new_writer in
      (x.0, view x.1) ≡ calls call_memory ks (view new_writer))
calls-agree_example =
    calls-agree same_bytes (λ f. (1 ∷ [], refl))
      (Agreement.append (at 2 20)
        ∷ Agreement.append_batch (at 1 10 ∷ [])
        ∷ Agreement.snapshot (at 5 50 ∷ [])
        ∷ Agreement.append (at 6 60)
        ∷ [])
      new_writer refl
