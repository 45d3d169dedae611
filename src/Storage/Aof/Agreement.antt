-- ===== src/Storage/Aof/Agreement.antt =====
-- The file's backend of crates/latlng-storage-aof/src/lib.rs answers as the in-memory backend does.
use mathlib.Core.List.{append-nil}
use latlng.Prelude.{
  ◌≡◌, refl, sym, ap, ◌∙◌, true, false, List, [], ◌∷◌, ◌++◌, some, Result, ok, err, ◌>>=◌, ◌>>◌,
  last, length, if◌then◌else◌, Result-cases, inl, inr, Option-cases,
}
use latlng.Storage.{Bytes, StorageEntry, StorageError, closed, assert_strictly_increasing, le_bytes}
use latlng.Storage.Memory as Memory
use latlng.Storage.Memory.{MemoryBackend, commit, ensure_open}
use latlng.Storage.Aof.{
  AofFrame, entry, Codec, after_last, frame_bytes, validate_batch_against_last,
}
use latlng.Storage.Aof.Writer.{
  Writer, AppendRequest, append_request, batch_request, written, commit_append_group,
  validate_requests, execute_snapshot, rewritten, rewrite, replaced, write_group, frame_of,
}
use latlng.Storage.Aof.Durable.{commit-valid}
use latlng.Storage.Aof.Backend as Backend
use latlng.Storage.Aof.Backend.{submit, checked}

-- What the two backends have in common.
abbrev pub view : Writer → MemoryBackend
view s = record { entries = s.entries; is_closed = s.is_closed; record_log = true }

abbrev pub view_answer :
    Result StorageError (Unit {0}) × Writer → Result StorageError (Unit {0}) × MemoryBackend
view_answer (r, s) = (r, view s)

pub data Call : Type 0 where
  append : StorageEntry → Call
  append_batch : List StorageEntry → Call
  snapshot : List StorageEntry → Call

abbrev pub call_memory : Call → MemoryBackend → Result StorageError (Unit {0}) × MemoryBackend
call_memory (append e) b = Memory.append b e
call_memory (append_batch es) b = Memory.append_batch b es
call_memory (snapshot es) b = Memory.snapshot b es

after_last-agrees :
    (es : List StorageEntry) (e : StorageEntry)
    → Memory.after_last es e.sequence ≡ after_last (last es) e
unfolding Memory.after_last
after_last-agrees es e = elim (Option-cases (last es)) [
  | inl p ↦ rw (p, Memory.after_last) refl
  | inr (l, p) ↦ rw (p, Memory.after_last) refl
]

-- A batch that is not empty.
validate-agrees :
    (xs : List StorageEntry) (e : StorageEntry) (es : List StorageEntry)
    → validate_batch_against_last (last xs) (e ∷ es)
      ≡ (assert_strictly_increasing (e ∷ es) >>= λ _. Memory.batch_after_last xs (e ∷ es))
unfolding validate_batch_against_last Memory.batch_after_last
validate-agrees xs e es =
    ap (λ r. assert_strictly_increasing (e ∷ es) >>= λ _. r) (sym (after_last-agrees xs e))

-- Every frame can be encoded.
abbrev pub IsTotal : Codec → Type 0
IsTotal c = (f : AofFrame) → (p : Bytes) × (c.serialize f ≡ some p)

module _ (c : Codec) (total : IsTotal c) where
  -- The calls on the file's backend, where no write fails.
  abbrev pub call_file : Call → Writer → Result StorageError (Unit {0}) × Writer
  call_file (append e) s = Backend.append c written s e
  call_file (append_batch es) s = Backend.append_batch c written s es
  call_file (snapshot es) s = Backend.snapshot c true s es

  encodes : (f : AofFrame) → (b : Bytes) × (frame_bytes c f ≡ ok b)
  unfolding frame_bytes
  encodes f = let (p, h) = total f in (le_bytes 8 (length p) ++ p, rw (h, frame_bytes) refl)

  commit-refused :
      (q : AppendRequest) (s : Writer) (e : StorageError)
      → s.is_closed ≡ false
      → validate_batch_against_last (last s.entries) q.entries ≡ err e
      → commit_append_group c written (q ∷ []) s ≡ (err e, s)
  unfolding commit_append_group validate_requests
  commit-refused q s e o v =
      ap
        (λ b. if b then (err closed, s) else elim (validate_requests (last s.entries) (q ∷ [])) [
          | err x ↦ (err x, s)
          | ok _ ↦ write_group c written (frame_of q []) (q ∷ []) s
        ])
        o
      ∙ rw (v, validate_requests) refl

  commit-agrees :
      (q : AppendRequest) (s : Writer)
      → s.is_closed ≡ false
      → view_answer (commit_append_group c written (q ∷ []) s)
        ≡ commit
            (view s)
            (validate_batch_against_last (last s.entries) q.entries)
            (record (view s) { entries = s.entries ++ q.entries })
  unfolding validate_requests validate_batch_against_last
  commit-agrees q s o =
      elim (Result-cases (validate_batch_against_last (last s.entries) q.entries)) [
        | inl (u, v) ↦
            let (bytes, h) = encodes q.frame in
            ap view_answer (commit-valid c written q [] bytes s o (ap (λ r. r >> ok tt) v) h)
            ∙ ap (λ l. (ok tt, record (view s) { entries = s.entries ++ l })) (append-nil q.entries)
            ∙ ap (λ r. commit (view s) r (record (view s) { entries = s.entries ++ q.entries }))
                (sym v)
        | inr (e, v) ↦
            ap view_answer (commit-refused q s e o v)
            ∙ ap (λ r. commit (view s) r (record (view s) { entries = s.entries ++ q.entries }))
                (sym v)
      ]

  -- The in-memory backend asks first whether it is open.
  check-open :
      (s : Writer) (r : Result StorageError (Unit {0})) (new : MemoryBackend)
      → s.is_closed ≡ false
      → commit (view s) r new ≡ commit (view s) (ensure_open (view s) >> r) new
  unfolding ensure_open
  check-open s r new o =
      ap (λ b. commit (view s) ((if b then err closed else ok tt) >> r) new) (sym o)

  append-agrees :
      (e : StorageEntry) (s : Writer)
      → s.is_closed ≡ false
      → view_answer (Backend.append c written s e) ≡ Memory.append (view s) e
  unfolding Backend.append Memory.append
  append-agrees e s o =
      ap
        (λ b.
          view_answer (
            if b then (err closed, s) else commit_append_group c written (append_request e ∷ []) s))
        o
      ∙ commit-agrees (append_request e) s o
      ∙ ap (λ r. commit (view s) r (record (view s) { entries = s.entries ++ e ∷ [] }))
          (sym (after_last-agrees s.entries e))
      ∙ check-open s (Memory.after_last s.entries e.sequence) _ o

  append_batch-agrees :
      (es : List StorageEntry) (s : Writer)
      → s.is_closed ≡ false
      → view_answer (Backend.append_batch c written s es) ≡ Memory.append_batch (view s) es
  unfolding Backend.append_batch Memory.append_batch Memory.batch_check Memory.batch_after_last
  append_batch-agrees [] s o =
      ap (λ l. (ok tt, record (view s) { entries = l })) (sym (append-nil s.entries))
      ∙ check-open s (ok tt) (record (view s) { entries = s.entries ++ [] }) o
  append_batch-agrees (e ∷ es) s o =
      let q = batch_request (e ∷ es) in
      let new = record (view s) { entries = s.entries ++ e ∷ es } in
      let sent = commit_append_group c written (q ∷ []) s in
      ap
        (λ b.
          view_answer
            (checked (assert_strictly_increasing (e ∷ es)) s (if b then (err closed, s) else sent)))
        o
      ∙ (elim (Result-cases (assert_strictly_increasing (e ∷ es))) [
        | inl (u, p) ↦
            ap (λ r. view_answer (checked r s sent)) p
            ∙ commit-agrees q s o
            ∙ ap (λ r. commit (view s) r new) (validate-agrees s.entries e es)
        | inr (x, p) ↦
            ap (λ r. view_answer (checked r s sent)) p
            ∙ ap (λ r. commit (view s) (r >>= λ _. Memory.batch_after_last s.entries (e ∷ es)) new)
                (sym p)
      ])
      ∙ check-open s
          (assert_strictly_increasing (e ∷ es) >>= λ _. Memory.batch_after_last s.entries (e ∷ es))
          new o

  rewritten-total : (es : List StorageEntry) → (b : Bytes) × (rewritten c es ≡ ok b)
  unfolding rewritten
  rewritten-total [] = ([], refl)
  rewritten-total (e ∷ es) =
      let (b, h) = encodes (entry e) in
      let (d, k) = rewritten-total es in (b ++ d, rw (h, rewritten) (rw k refl))

  snapshot-replaces :
      (es : List StorageEntry) (b : Bytes) (s : Writer)
      → s.is_closed ≡ false
      → assert_strictly_increasing es ≡ ok tt
      → rewritten c es ≡ ok b
      → execute_snapshot c true es s ≡ (ok tt, record (replaced c b s) { entries = es })
  unfolding execute_snapshot
  snapshot-replaces es b s o p h =
      rw (p, execute_snapshot)
        (rw (h, rewrite)
          (ap
            (λ x.
              if x
              then (err closed, replaced c b s)
              else (ok tt, record (replaced c b s) { entries = es }))
            o))

  snapshot-agrees :
      (es : List StorageEntry) (s : Writer)
      → s.is_closed ≡ false
      → view_answer (Backend.snapshot c true s es) ≡ Memory.snapshot (view s) es
  unfolding Backend.snapshot Memory.snapshot execute_snapshot
  snapshot-agrees es s o =
      let new = record (view s) { entries = es } in
      let (b, h) = rewritten-total es in
      let sent = execute_snapshot c true es s in
      ap
        (λ x.
          view_answer
            (checked (assert_strictly_increasing es) s (if x then (err closed, s) else sent)))
        o
      ∙ (elim (Result-cases (assert_strictly_increasing es)) [
        | inl (u, p) ↦
            ap (λ r. view_answer (checked r s sent)) p
            ∙ ap view_answer (snapshot-replaces es b s o p h)
            ∙ ap (λ r. commit (view s) r new) (sym p)
        | inr (x, p) ↦
            ap (λ r. view_answer (checked r s sent)) p ∙ ap (λ r. commit (view s) r new) (sym p)
      ])
      ∙ check-open s (assert_strictly_increasing es) new o

  pub call-agrees :
      (k : Call) (s : Writer)
      → s.is_closed ≡ false
      → view_answer (call_file k s) ≡ call_memory k (view s)
  call-agrees (append e) s o = append-agrees e s o
  call-agrees (append_batch es) s o = append_batch-agrees es s o
  call-agrees (snapshot es) s o = snapshot-agrees es s o
