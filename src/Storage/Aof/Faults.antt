-- ===== src/Storage/Aof/Faults.antt =====
-- Two faults of crates/latlng-storage-aof/src/lib.rs: a torn frame that an open leaves in place, and a refused frame
-- that the old `BufWriter` writes after all.
use mathlib.Core.List.{append-nil, append_assoc}
use latlng.Prelude.{
  ℕ, zero, suc, ◌+◌, ◌≤◌, ◌<◌, ◌≡◌, refl, sym, ap, ◌∙◌, arith, true, false, List, [], ◌∷◌, ◌++◌,
  Result, ok, err, length, length-append, length-take, take, map_ok, ok_inj, ok≢err, last,
  Result-cases, inl, inr, if-cases, ◌>>=◌, ◌>>◌,
}
use latlng.Storage.{Bytes, StorageEntry, StorageError, io, closed}
use latlng.Storage.Aof.{
  AofFrame, Codec, frame_bytes, encoded_frame_len, load_entries, validate_batch_against_last,
}
use latlng.Storage.Aof.Writer.{
  AppendRequest, Writer, write_and_sync, written, failed, open_with_options, commit_append_group,
  validate_requests, write_group,
}
use latlng.Storage.Aof.Reading.{IsCodec, take-append}
use latlng.Storage.Aof.Files.{applied, file_of, file_of-append, applied-append}
use latlng.Storage.Aof.Loading.{
  load_all-torn, load_all-file, take-IsTorn, IsTorn, head-IsTorn, take-take,
}
use latlng.Storage.Aof.Commits.{IsRequest, apply_frame_of}
use latlng.Storage.Aof.Durable.{Durable, length-frame_bytes, commit-valid}

module _ (c : Codec) (k : IsCodec c) where
  -- The bytes of a commit that is answered with success stand at the end of the file.
  commit-written :
      (q : AppendRequest) (s s' : Writer)
      → commit_append_group c written (q ∷ []) s ≡ (ok tt, s')
      → (d : Bytes) × (frame_bytes c q.frame ≡ ok d)
        × (s'.file ≡ s.file ++ (s.buffered ++ d))
        × (s'.entries ≡ s.entries ++ q.entries)
  unfolding commit_append_group
  commit-written q s s' h =
      let Goal =
        (d : Bytes) × (frame_bytes c q.frame ≡ ok d)
        × (s'.file ≡ s.file ++ (s.buffered ++ d))
        × (s'.entries ≡ s.entries ++ q.entries) in
      let no : (e : StorageError) (x : Writer)
          → Path (Result StorageError (Unit {0}) × Writer) (err e, x) (ok tt, s')
          → Goal =
        λ e x p. elim (ok≢err tt e (sym (ap (λ y. y.0) p))) [ ] in
      if-cases (λ x. x ≡ (ok tt, s') → Goal) s.is_closed (no closed s)
        (elim (Result-cases (validate_requests (last s.entries) (q ∷ []))) [
          | inr (e, v) ↦ rw (v, commit_append_group) (no e s)
          | inl (u, v) ↦
              rw (v, commit_append_group)
                (elim (Result-cases (frame_bytes c q.frame)) [
                  | inr (e, p) ↦
                      rw (p, write_group) (λ g. elim (ok≢err tt e (sym (ap (λ y. y.0) g))) [ ])
                  | inl (d, p) ↦
                      rw (p, write_group)
                        (λ g. (
                          d,
                          refl,
                          ap (λ y. y.1.file) (sym g),
                          ap (λ y. y.1.entries) (sym g)
                              ∙ ap (λ l. s.entries ++ l) (append-nil q.entries),
                        ))
                ])
        ])
        h

  -- A writer that is opened on a file that loads.
  open-load :
      (file : Bytes) (es : List StorageEntry) (s : Writer)
      → load_entries c file ≡ ok es
      → open_with_options c file ≡ ok s
      → (s.file ≡ file) × (s.buffered ≡ []) × (s.entries ≡ es)
  unfolding open_with_options
  open-load file es s h o =
      let at : record {
        file = file;
        buffered = [];
        durable_len = length file;
        entries = es;
        is_closed = false;
      }
          ≡ s =
        ok_inj (
          ap
            (map_ok (λ l. record {
              file = file;
              buffered = [];
              durable_len = length file;
              entries = l;
              is_closed = false;
            }))
            (sym h)
          ∙ o) in
      (ap (λ w. w.file) (sym at), ap (λ w. w.buffered) (sym at), ap (λ w. w.entries) (sym at))

  load-torn :
      (fs : List AofFrame) (b tail : Bytes) (es : List StorageEntry)
      → file_of c fs ≡ ok b
      → applied [] fs ≡ ok es
      → IsTorn tail
      → load_entries c (b ++ tail) ≡ ok es
  unfolding load_entries
  load-torn fs b tail es h a t =
      let (l, p, q, r, u) = load_all-torn c k fs b es h a tail t in
      ap (map_ok (λ x. x.entries)) p ∙ ap ok q

  take_within : (m : ℕ) (xs ys : Bytes) → m ≤ length xs → take m (xs ++ ys) ≡ take m xs
  take_within zero xs ys h = refl
  take_within (suc m) [] ys h = absurd (omega arith)
  take_within (suc m) (x ∷ xs) ys h = ap (λ l. x ∷ l) (take_within m xs ys (omega arith))

  -- What follows a torn frame counts as a part of it, as long as it fills less than the frame wants.
  IsTorn-append :
      (f : AofFrame) (bytes d : Bytes) (n : ℕ)
      → frame_bytes c f ≡ ok bytes
      → 8 ≤ n
      → n + length d < length bytes
      → IsTorn (take n bytes ++ d)
  IsTorn-append f bytes d n h m l =
      head-IsTorn c f bytes (take n bytes ++ d) k h
        (take_within 8 (take n bytes) d (omega (arith, length-take n bytes))
          ∙ take-take 8 n bytes m)
        (omega (arith, length-append (take n bytes) d, length-take n bytes))
        (omega (arith, length-append (take n bytes) d, length-take n bytes))

  -- bincode reads back what it wrote. A file of whole frames, with 8 bytes or more of a frame that
  -- was cut off behind them, is opened, and one append is acknowledged. Where the torn frame still
  -- wants more bytes than the append wrote, the next load reads these as part of it and drops them:
  -- the acknowledged entries are lost, though the writer counts them as committed.
  pub open-torn-append :
      (fs : List AofFrame) (b : Bytes) (es : List StorageEntry) (f : AofFrame) (bytes : Bytes)
      (n : ℕ) (q : AppendRequest) (s s' : Writer)
      → file_of c fs ≡ ok b
      → applied [] fs ≡ ok es
      → frame_bytes c f ≡ ok bytes
      → 8 ≤ n
      → n + encoded_frame_len c q.frame < length bytes
      → open_with_options c (b ++ take n bytes) ≡ ok s
      → commit_append_group c written (q ∷ []) s ≡ (ok tt, s')
      → (s'.entries ≡ es ++ q.entries) × (load_entries c s'.file ≡ ok es)
  open-torn-append fs b es f bytes n q s s' h a p m l o w =
      let (d, r, file, entries) = commit-written q s s' w in
      let torn =
        load-torn fs b (take n bytes) es h a
          (take-IsTorn c f bytes n k p (omega arith) (omega arith)) in
      let (x, y, z) = open-load (b ++ take n bytes) es s torn o in
      let len = length-frame_bytes c q.frame d r in
      (
        entries ∙ ap (λ t. t ++ q.entries) z,
        ap (load_entries c) (
              file
              ∙ ap (λ t. t ++ (s.buffered ++ d)) x
              ∙ ap (λ t. (b ++ take n bytes) ++ (t ++ d)) y
              ∙ append_assoc b (take n bytes) d)
            ∙ load-torn fs b (take n bytes ++ d) es h a
                (IsTorn-append f bytes d n p m (omega (arith, len))),
      )

  -- The file after the last bytes of the old `BufWriter`.
  file-dropped :
      (bytes : Bytes) (s : Writer)
      → Durable c s
      → (write_and_sync (failed 0 (length bytes) true true (length bytes)) bytes s).1.file
        ≡ s.file ++ bytes
  file-dropped bytes s d =
      let n = length bytes in
      let front : take s.durable_len (s.file ++ []) ≡ s.file =
        take-append s.durable_len s.file [] (sym d.measured) in
      let back : take n (take n (s.buffered ++ bytes)) ≡ bytes =
        take-take n n (s.buffered ++ bytes) (omega arith)
        ∙ ap (λ l. take n (l ++ bytes)) d.settled
        ∙ ap (take n) (sym (append-nil bytes))
        ∙ take-append n bytes [] refl in
      ap (λ l. l ++ take n (take n (s.buffered ++ bytes))) front ∙ ap (λ l. s.file ++ l) back

  -- bincode reads back what it wrote, and the file of an open writer holds what is committed. A
  -- valid append fails before a byte of its frame reaches the file; the rollback and the reopening
  -- succeed, and the old `BufWriter` writes its bytes when it is dropped. The caller is told that
  -- the append failed, and the writer does not count it; yet the next load finds it in the file.
  pub failed-append-returns :
      (q : AppendRequest) (bytes : Bytes) (s : Writer)
      → Durable c s
      → s.is_closed ≡ false
      → IsRequest q
      → validate_batch_against_last (last s.entries) q.entries ≡ ok tt
      → frame_bytes c q.frame ≡ ok bytes
      → (let x =
            commit_append_group c (failed 0 (length bytes) true true (length bytes)) (q ∷ []) s in
          (x.0 ≡ err (io []))
          × (x.1.entries ≡ s.entries)
          × (load_entries c x.1.file ≡ ok (s.entries ++ q.entries)))
  unfolding load_entries validate_requests
  failed-append-returns q bytes s d o r v h =
      let at =
        commit-valid c (failed 0 (length bytes) true true (length bytes)) q [] bytes s o
          (ap (λ u. u >> ok tt) v) h in
      let (l, p, e, x, y) =
        load_all-file c k (d.frames ++ q.frame ∷ []) (s.file ++ bytes) (s.entries ++ q.entries)
          (file_of-append c d.frames (q.frame ∷ []) s.file bytes d.stored
            (ap (λ b. b >>= λ u. ok (u ++ [])) h ∙ ap ok (append-nil bytes)))
          (applied-append c d.frames (q.frame ∷ []) [] s.entries d.replays
            ∙ ap (λ u. u >>= λ w. ok w)
                (apply_frame_of s.entries q [] (r, tt) (ap (λ u. u >> ok tt) v))
            ∙ ap (λ w. ok (s.entries ++ w)) (append-nil q.entries)) in
      (
        ap (λ z. z.0) at,
        ap (λ z. z.1.entries) at,
        ap (λ z. load_entries c z.1.file) at
            ∙ ap (load_entries c) (file-dropped bytes s d)
            ∙ ap (map_ok (λ w. w.entries)) p
            ∙ ap ok e,
      )
