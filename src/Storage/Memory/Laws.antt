-- ===== src/Storage/Memory/Laws.antt =====
-- The log of the in-memory backend stays in order, and its writes are atomic.
use mathlib.Core.List.{append-nil}
use latlng.Prelude.{
  ◌≡◌, refl, false, List, [], ◌∷◌, ◌++◌, Result, ok, err, arith, ◌⊎◌, inl, inr, Result-cases, last,
}
use latlng.Storage.{StorageEntry, StorageError}
use latlng.Storage.Memory.{
  MemoryBackend, append, append_batch, batch_check, snapshot, close, after_last, batch_after_last,
  last_sequence, sequence_or_zero,
}
use latlng.Storage.Order.{IsIncreasing, Above, last_or, assert_strictly_increasing_iff}

pub data Call : Type 0 where
  append_one : StorageEntry → Call
  append_many : List StorageEntry → Call
  replace_all : List StorageEntry → Call
  close_log : Call

pub step : MemoryBackend → Call → Result StorageError (Unit {0}) × MemoryBackend
step b (append_one e) = append b e
step b (append_many es) = append_batch b es
step b (replace_all es) = snapshot b es
step b close_log = (ok tt, close b)

pub run : MemoryBackend → List Call → MemoryBackend
run b [] = b
run b (c ∷ cs) = run (step b c).1 cs

join :
    (x e : StorageEntry) (xs es : List StorageEntry)
    → Above x.sequence xs
    → Above e.sequence es
    → after_last (x ∷ xs) e.sequence ≡ ok tt
    → Above x.sequence (xs ++ e ∷ es)
unfolding after_last
join x e [] es h k t = ground arith
join x e (y ∷ ys) es h k t = (h.0, join y e ys es h.1 k t)

append_one-IsIncreasing :
    (xs : List StorageEntry) (e : StorageEntry) (es : List StorageEntry)
    → IsIncreasing xs
    → Above e.sequence es
    → after_last xs e.sequence ≡ ok tt
    → IsIncreasing (xs ++ e ∷ es)
append_one-IsIncreasing [] e es h k t = k
append_one-IsIncreasing (x ∷ xs) e es h k t = join x e xs es h k t

append_many-IsIncreasing :
    (xs es : List StorageEntry)
    → IsIncreasing xs
    → IsIncreasing es
    → batch_after_last xs es ≡ ok tt
    → IsIncreasing (xs ++ es)
unfolding batch_after_last
append_many-IsIncreasing xs [] h k t = rw (append-nil xs) h
append_many-IsIncreasing xs (e ∷ es) h k t = append_one-IsIncreasing xs e es h k t

step-IsIncreasing :
    (b : MemoryBackend) (c : Call) → IsIncreasing b.entries → IsIncreasing (step b c).1.entries
unfolding step append append_batch snapshot close
step-IsIncreasing b (append_one e) h = ground (arith, append_one-IsIncreasing b.entries e [] h tt)
step-IsIncreasing b (append_many es) h =
    ground (arith, (assert_strictly_increasing_iff es).0, append_many-IsIncreasing b.entries es h)
step-IsIncreasing b (replace_all es) h = ground (arith, (assert_strictly_increasing_iff es).0)
step-IsIncreasing b close_log h = h

-- Whatever calls are made, and whichever of them fail, a log whose sequence numbers rise strictly
-- keeps rising strictly.
pub run-IsIncreasing :
    (b : MemoryBackend) (cs : List Call) → IsIncreasing b.entries → IsIncreasing (run b cs).entries
unfolding run
run-IsIncreasing b [] h = h
run-IsIncreasing b (c ∷ cs) h = run-IsIncreasing (step b c).1 cs (step-IsIncreasing b c h)

join_back :
    (x e : StorageEntry) (xs es : List StorageEntry)
    → Above x.sequence (xs ++ e ∷ es)
    → (after_last (x ∷ xs) e.sequence ≡ ok tt) × Above e.sequence es
unfolding after_last
join_back x e [] es h = (ground arith, h.1)
join_back x e (y ∷ ys) es h = join_back y e ys es h.1

split-IsIncreasing :
    (xs es : List StorageEntry)
    → IsIncreasing (xs ++ es)
    → (batch_after_last xs es ≡ ok tt) × IsIncreasing es
unfolding batch_after_last after_last
split-IsIncreasing xs [] h = (refl, tt)
split-IsIncreasing [] (e ∷ es) h = (refl, h)
split-IsIncreasing (x ∷ xs) (e ∷ es) h = join_back x e xs es h

abbrev pub CanAppend : MemoryBackend → List StorageEntry → Type 0
CanAppend b es = (b.is_closed ≡ false) × IsIncreasing (b.entries ++ es)

pub accepted :
    (b : MemoryBackend) (es : List StorageEntry)
    → CanAppend b es
    → append_batch b es ≡ (ok tt, record b { entries = b.entries ++ es })
unfolding append_batch
accepted b es h = ground (
  arith,
  h.0,
  (assert_strictly_increasing_iff es).1 (split-IsIncreasing b.entries es h.1).1,
  (split-IsIncreasing b.entries es h.1).0,
)

checks-CanAppend :
    (b : MemoryBackend) (es : List StorageEntry)
    → IsIncreasing b.entries
    → batch_check b es ≡ ok tt
    → CanAppend b es
unfolding batch_check
checks-CanAppend b es s h =
    ground (arith, (assert_strictly_increasing_iff es).0, append_many-IsIncreasing b.entries es s)

-- On a log that rises strictly `append_batch` is atomic: it succeeds exactly when the backend is open and the log with the batch
-- at its end would rise strictly, and then that is the log; else it fails and changes nothing.
pub append_batch_atomic :
    (b : MemoryBackend) (es : List StorageEntry)
    → IsIncreasing b.entries
    → (CanAppend b es × (append_batch b es ≡ (ok tt, record b { entries = b.entries ++ es })))
      ⊎ ((¬ CanAppend b es) × ((e : StorageError) × (append_batch b es ≡ (err e, b))))
unfolding append_batch
append_batch_atomic b es s = elim (Result-cases (batch_check b es)) [
  | inl (a, h) ↦ let can = checks-CanAppend b es s (ground arith) in inl (can, accepted b es can)
  | inr (e, h) ↦ inr (λ can. cc (accepted b es can), (e, rw h refl))
]

last-last_or :
    (x : StorageEntry) (xs : List StorageEntry)
    → sequence_or_zero (last (x ∷ xs)) ≡ last_or x.sequence xs
last-last_or x [] = refl
last-last_or x (y ∷ ys) = last-last_or y ys

log-last_or : (es : List StorageEntry) → sequence_or_zero (last es) ≡ last_or 0 es
log-last_or [] = refl
log-last_or (e ∷ es) = last-last_or e es

pub last_sequence-last_or : (b : MemoryBackend) → last_sequence b ≡ last_or 0 b.entries
unfolding last_sequence
last_sequence-last_or b = log-last_or b.entries
