-- ===== src/Replication/CatchUp.antt =====
-- Fetching and applying chunks: a follower whose log is a prefix of the leader's catches up.
use mathlib.Core.List.{append_assoc, append-nil}
use latlng.Prelude.{
  ℕ, zero, suc, ◌+◌, ◌≤◌, ◌≡◌, refl, sym, ◌∙◌, List, [], ◌∷◌, ◌++◌, ok, err, arith, max, false,
  take, drop, length, ap, subst, take-nil, take-append-drop, length-append, length-drop,
}
use latlng.Storage.{Bytes, StorageEntry, replay_from, replay_entries, checksum}
use latlng.Storage.Order.{Above, last_or, Above-left, Above→IsIncreasing}
use latlng.Storage.Replay.{newer, newer-append}
use latlng.Storage.Memory.{MemoryBackend, last_sequence}
use latlng.Storage.Memory.Laws.{CanAppend, accepted, last_sequence-last_or}
use latlng.Replication.{ReplicationChunk, finish_chunk, fetch_chunk, apply_chunk, fetch_entry}

replay_from-fetch :
    (m d n l : ℕ) (es acc : List StorageEntry)
    → max m 1 ≡ length acc + d
    → replay_from (fetch_entry m) n es (acc, l)
      ≡ (ok (last_or n es), (acc ++ take d es, last_or l es))
unfolding replay_from fetch_entry
replay_from-fetch m d n l [] acc h = rw (take-nil d, append-nil acc) refl
replay_from-fetch m zero n l (e ∷ es) acc h =
    ground (arith, replay_from-fetch m zero e.sequence e.sequence es acc h)
replay_from-fetch m (suc d) n l (e ∷ es) acc h = ground (
  arith,
  replay_from-fetch m d e.sequence e.sequence es (acc ++ e ∷ []),
  length-append acc (e ∷ []),
  append_assoc acc (e ∷ []) (take d es),
)

module _ {D : Type 0} (digest : Bytes → D) where
  -- What a chunk holds.
  abbrev pub chunk_of : ℕ → ℕ → List StorageEntry → ReplicationChunk D
  chunk_of n after es = record {
    entries = take (max n 1) es;
    digest = checksum digest (take (max n 1) es);
    last_sequence = last_or after es;
  }

  -- A chunk holds the first entries above the given sequence number, at least one where there is
  -- one and at most `max(max_entries, 1)`, their checksum, and the sequence number of the last entry
  -- above the given one, in or behind the chunk, or the given one where there is none.
  pub fetch_chunk_lem :
      (b : MemoryBackend) (after n : ℕ)
      → fetch_chunk digest b after n ≡ ok (chunk_of n after (newer after b.entries))
  unfolding fetch_chunk replay_entries
  fetch_chunk_lem b after n =
      ap (finish_chunk digest)
        (replay_from-fetch n (max n 1) after after (newer after b.entries) [] (omega arith))

  -- One round of a follower: fetch what is newer than its log, and append it.
  unfoldable pub sync_round : MemoryBackend → ℕ → MemoryBackend → MemoryBackend
  sync_round l n f = elim (fetch_chunk digest l (last_sequence f) n) [
    | ok chunk ↦ (apply_chunk digest f chunk).1
    | err e ↦ f
  ]

  unfoldable pub sync_rounds : ℕ → MemoryBackend → ℕ → MemoryBackend → MemoryBackend
  sync_rounds zero l n f = f
  sync_rounds (suc k) l n f = sync_rounds k l n (sync_round l n f)

  CanAppend-take :
      (f : MemoryBackend) (k : ℕ) (rest : List StorageEntry)
      → f.is_closed ≡ false
      → Above 0 (f.entries ++ rest)
      → CanAppend f (take k rest)
  CanAppend-take f k rest o a = (
    o,
    Above→IsIncreasing 0 (f.entries ++ take k rest) (
        Above-left 0 (f.entries ++ take k rest) (drop k rest)
          (rw (append_assoc f.entries (take k rest) (drop k rest), take-append-drop k rest) a)),
  )

  sync_round_lem :
      (l f : MemoryBackend) (n : ℕ) (rest : List StorageEntry)
      → f.is_closed ≡ false
      → l.entries ≡ f.entries ++ rest
      → Above 0 (f.entries ++ rest)
      → sync_round l n f ≡ record f { entries = f.entries ++ take (max n 1) rest }
  unfolding sync_round apply_chunk
  sync_round_lem l f n rest o e a =
      rw
        (
          last_sequence-last_or f,
          fetch_chunk_lem l (last_or 0 f.entries) n,
          sync_round,
          e,
          newer-append f.entries rest a,
          accepted f (take (max n 1) rest) (CanAppend-take f (max n 1) rest o a),
        )
        refl

  -- A follower on an open in-memory log that is a prefix of the leader's log, which rises strictly
  -- from 1 or more, has the leader's log after as many rounds as entries are missing, or more,
  -- whatever the chunk size.
  pub sync_rounds_catch_up :
      (k : ℕ) (l f : MemoryBackend) (n : ℕ) (rest : List StorageEntry)
      → f.is_closed ≡ false
      → l.entries ≡ f.entries ++ rest
      → Above 0 l.entries
      → length rest ≤ k
      → (sync_rounds k l n f).entries ≡ l.entries
  unfolding sync_rounds
  sync_rounds_catch_up zero l f n [] o e a h = rw (e, append-nil f.entries) refl
  sync_rounds_catch_up zero l f n (x ∷ rest) o e a h = absurd (omega arith)
  sync_rounds_catch_up (suc k) l f n rest o e a h =
      let a' : Above 0 (f.entries ++ rest) = subst (Above 0) e a in
      ap (λ g. (sync_rounds k l n g).entries) (sync_round_lem l f n rest o e a')
      ∙ sync_rounds_catch_up k l (record f { entries = f.entries ++ take (max n 1) rest }) n
          (drop (max n 1) rest) o
          (e
            ∙ sym (
                append_assoc f.entries (take (max n 1) rest) (drop (max n 1) rest)
                ∙ ap (◌++◌ f.entries) (take-append-drop (max n 1) rest)))
          a (omega (arith, length-drop (max n 1) rest))
