-- ===== src/Storage/Aof/Rewriting.antt =====
-- The file that `rewrite` of crates/latlng-storage-aof/src/lib.rs makes, and the commands that use it.
use mathlib.Core.List.{append_assoc, append-nil}
use latlng.Prelude.{
  ◌<◌, ◌≡◌, refl, sym, ap, ◌∙◌, arith, Bool, true, false, List, [], ◌∷◌, ◌++◌, Result, ok, err,
  ◌>>=◌, subst, last, Result-cases, if◌then◌else◌, inl, inr, ◌⊎◌,
}
use latlng.Storage.{
  Bytes, StorageEntry, StorageError, closed, assert_strictly_increasing, io, check_increasing,
}
use latlng.Storage.Order.{IsIncreasing, assert_strictly_increasing_iff, last_or, Above-right}
use latlng.Storage.Aof.{
  AofFrame, entry, Codec, frame_bytes, apply_frame_to_entries, validate_batch_against_last,
  after_last, extended,
}
use latlng.Storage.Aof.Writer.{
  Writer, execute_snapshot, execute_compact, rewritten, rewrite, replaced, finish_snapshot,
}
use latlng.Storage.Aof.Reading.{IsCodec}
use latlng.Storage.Aof.Files.{applied, file_of}
use latlng.Storage.Aof.Durable.{Durable, Durable-load}
use latlng.Storage.Aof.Increasing.{load_entries-IsIncreasing}

abbrev pub entries_of : List StorageEntry → List AofFrame
entries_of [] = []
entries_of (e ∷ es) = entry e ∷ entries_of es

after_last-ok :
    (x e : StorageEntry) (xs : List StorageEntry)
    → last_or x.sequence xs < e.sequence
    → after_last (last (x ∷ xs)) e ≡ ok tt
after_last-ok x e [] h = ground arith
after_last-ok x e (y ∷ ys) h = after_last-ok y e ys h

apply-entry :
    (xs : List StorageEntry) (e : StorageEntry) (es : List StorageEntry)
    → IsIncreasing (xs ++ e ∷ es)
    → apply_frame_to_entries xs (entry e) ≡ ok (xs ++ e ∷ [])
unfolding apply_frame_to_entries validate_batch_against_last assert_strictly_increasing
    check_increasing
apply-entry [] e es i = refl
apply-entry (x ∷ xs) e es i =
    ap (extended (x ∷ xs) (e ∷ [])) (after_last-ok x e xs (Above-right x.sequence xs (e ∷ es) i).0)

pub applied-entries :
    (xs es : List StorageEntry)
    → IsIncreasing (xs ++ es)
    → applied xs (entries_of es) ≡ ok (xs ++ es)
applied-entries xs [] i = ap ok (sym (append-nil xs))
applied-entries xs (e ∷ es) i =
    ap (λ r. r >>= λ l. applied l (entries_of es)) (apply-entry xs e es i)
    ∙ applied-entries (xs ++ e ∷ []) es (subst IsIncreasing (sym (append_assoc xs (e ∷ []) es)) i)
    ∙ ap ok (append_assoc xs (e ∷ []) es)

module _ (c : Codec) where
  pub rewritten-file_of : (es : List StorageEntry) → rewritten c es ≡ file_of c (entries_of es)
  unfolding rewritten
  rewritten-file_of [] = refl
  rewritten-file_of (e ∷ es) =
      ap (λ r. frame_bytes c (entry e) >>= λ b. r >>= λ d. ok (b ++ d)) (rewritten-file_of es)

  -- A file rewritten from entries that rise holds these entries.
  replaced-Durable :
      (es : List StorageEntry) (bytes : Bytes) (s : Writer)
      → IsIncreasing es
      → rewritten c es ≡ ok bytes
      → Durable c (record (replaced c bytes s) { entries = es })
  replaced-Durable es bytes s i h = record {
    frames = entries_of es;
    stored = sym (rewritten-file_of es) ∙ h;
    replays = applied-entries [] es i;
    settled = refl;
    measured = refl;
  }

  -- What a snapshot does, on each of its ends.
  pub record Rewritten {A : Type 0} (s : Writer) (new : List StorageEntry)
      (x : Result StorageError A × Writer) : Type 0 where
    pub durable : Durable c x.1
    pub state : x.1.is_closed ≡ s.is_closed
    pub answer :
        ((a : A) × (x.0 ≡ ok a) × (x.1.entries ≡ new))
        ⊎ ((e : StorageError) × (x.0 ≡ err e) × (x.1.entries ≡ s.entries))

  refused :
      {A : Type 0} (s : Writer) (new : List StorageEntry) (e : StorageError)
      → Durable c s
      → Rewritten {A = A} s new (err e, s)
  refused s new e d = record { durable = d; state = refl; answer = inr (e, refl, refl) }

  finish_snapshot-Rewritten :
      (disk : Bool) (es : List StorageEntry) (s : Writer)
      → s.is_closed ≡ false
      → IsIncreasing es
      → Durable c s
      → Rewritten s es (finish_snapshot c es (rewrite c disk es s))
  finish_snapshot-Rewritten false es s o i d = refused s es (io []) d
  finish_snapshot-Rewritten true es s o i d = elim (Result-cases (rewritten c es)) [
    | inr (e, q) ↦ rw (q, rewrite) (refused s es e d)
    | inl (bytes, q) ↦
        rw (q, rewrite)
          (subst
            (λ b. Rewritten s es (
              if b
              then (err closed, replaced c bytes s)
              else (ok tt, record (replaced c bytes s) { entries = es })))
            (sym o)
            (record {
              durable = replaced-Durable es bytes s i q;
              state = refl;
              answer = inl (tt, refl, refl);
            }))
  ]

  pub snapshot-Rewritten :
      (disk : Bool) (es : List StorageEntry) (s : Writer)
      → s.is_closed ≡ false
      → Durable c s
      → Rewritten s es (execute_snapshot c disk es s)
  unfolding execute_snapshot
  snapshot-Rewritten disk es s o d = elim (Result-cases (assert_strictly_increasing es)) [
    | inr (e, p) ↦ rw (p, execute_snapshot) (refused s es e d)
    | inl (u, p) ↦
        rw (p, execute_snapshot)
          (finish_snapshot-Rewritten disk es s o ((assert_strictly_increasing_iff es).0 p) d)
  ]

  -- A compaction keeps the entries, whether it succeeds or not.
  pub compact-Rewritten :
      (k : IsCodec c) (disk : Bool) (s : Writer)
      → Durable c s
      → Rewritten s s.entries (execute_compact c disk s)
  unfolding execute_compact
  compact-Rewritten k false s d = refused s s.entries (io []) d
  compact-Rewritten k true s d = elim (Result-cases (rewritten c s.entries)) [
    | inr (e, q) ↦ rw (q, rewrite) (refused s s.entries e d)
    | inl (bytes, q) ↦
        rw (q, rewrite)
          (record {
            durable =
                replaced-Durable s.entries bytes s
                  (load_entries-IsIncreasing c s.file s.entries (Durable-load c k s d)) q;
            state = refl;
            answer = inl (_, refl, refl);
          })
  ]
