-- ===== src/Storage/Aof/Durable.antt =====
-- What the writer of crates/latlng-storage-aof/src/lib.rs counts as committed is what the file holds.
use mathlib.Core.List.{append-nil}
use latlng.Prelude.{
  ℕ, zero, suc, ◌≤◌, ◌≡◌, refl, sym, ap, ◌∙◌, arith, Bool, true, false, List, [], ◌∷◌, ◌++◌, Result,
  ok, err, ◌>>=◌, subst, last, All, ◌⊎◌, inl, inr, length, take, length-append, take-nil, map_ok,
  u64_max, Result-cases, if◌then◌else◌, if-cases,
}
use latlng.Storage.{Bytes, StorageEntry, StorageError, io, closed, le_bytes}
use latlng.Storage.Aof.{
  AofFrame, Codec, apply_frame_to_entries, frame_bytes, encoded_frame_len, load_entries,
}
use latlng.Storage.Aof.Writer.{
  AppendRequest, Writer, WriteOutcome, written, failed, commit_append_group, validate_requests,
  frame_of, entries_of_requests, write_group, write_and_sync, committed, recover, not_encoded,
}
use latlng.Storage.Aof.Reading.{IsCodec, take-append, length-le_bytes}
use latlng.Storage.Aof.Files.{applied, file_of, file_of-append, applied-append, frame_bytes-ok}
use latlng.Storage.Aof.Loading.{load_all-file}
use latlng.Storage.Aof.Commits.{IsRequest, apply_frame_of}

-- Where a write fails, its rollback succeeds, and nothing stays in the buffer.
abbrev pub IsClean : WriteOutcome → Type 0
IsClean written = Unit
IsClean (failed reached kept rolled_back reopened dropped) = (rolled_back ≡ true) × (kept ≡ 0)

module _ (c : Codec) where
  -- The file holds frames that give the committed entries, and the writer knows its length.
  pub record Durable (s : Writer) : Type 0 where
    pub frames : List AofFrame
    pub stored : file_of c frames ≡ ok s.file
    pub replays : applied [] frames ≡ ok s.entries
    pub settled : s.buffered ≡ []
    pub measured : s.durable_len ≡ length s.file

  pub Durable-load : (k : IsCodec c) (s : Writer) → Durable s → load_entries c s.file ≡ ok s.entries
  unfolding load_entries
  Durable-load k s d =
      let (l, q, e, n, t) = load_all-file c k d.frames s.file s.entries d.stored d.replays in
      ap (map_ok (λ x. x.entries)) q ∙ ap ok e

  -- A commit either adds the entries of its requests, or fails and adds nothing; the file has what
  -- is committed.
  pub record Committed (s : Writer) (new : List StorageEntry)
      (x : Result StorageError (Unit {0}) × Writer) : Type 0 where
    pub durable : Durable x.1
    pub state : x.1.is_closed ≡ s.is_closed
    pub answer :
        ((x.0 ≡ ok tt) × (x.1.entries ≡ s.entries ++ new))
        ⊎ ((e : StorageError) × (x.0 ≡ err e) × (x.1.entries ≡ s.entries))

  unchanged :
      (e : StorageError) (s : Writer) (new : List StorageEntry)
      → Durable s
      → Committed s new (err e, s)
  unchanged e s new d = record { durable = d; state = refl; answer = inr (e, refl, refl) }

  -- The file is back at its old length.
  rolled_back :
      (s : Writer) (more : Bytes) → Durable s → take s.durable_len (s.file ++ more) ≡ s.file
  rolled_back s more d = take-append s.durable_len s.file more (sym d.measured)

  -- What was written behind the committed bytes is gone after the rollback.
  recover-Committed :
      (s : Writer) (new : List StorageEntry) (e : StorageError) (more : Bytes) (reopened : Bool)
      (dropped : ℕ)
      → Durable s
      → Committed s new
          (err e, recover true reopened dropped (record s { file = s.file ++ more; buffered = [] }))
  recover-Committed s new e more false dropped d =
      let old = rolled_back s more d in
      record {
        durable = record {
          frames = d.frames;
          stored = d.stored ∙ ap ok (sym old);
          replays = d.replays;
          settled = refl;
          measured = d.measured ∙ ap length (sym old);
        };
        state = refl;
        answer = inr (e, refl, refl);
      }
  recover-Committed s new e more true dropped d =
      let cut = take s.durable_len (s.file ++ more) in
      let old : cut ++ take dropped [] ≡ s.file =
        ap (λ l. cut ++ l) (take-nil dropped) ∙ append-nil cut ∙ rolled_back s more d in
      record {
        durable = record {
          frames = d.frames;
          stored = d.stored ∙ ap ok (sym old);
          replays = d.replays;
          settled = refl;
          measured = ap length (rolled_back s more d ∙ sym old);
        };
        state = refl;
        answer = inr (e, refl, refl);
      }

  not_encoded-Committed :
      (o : WriteOutcome) (s : Writer) (new : List StorageEntry) (e : StorageError)
      → IsClean o
      → Durable s
      → Committed s new (err e, not_encoded o s)
  not_encoded-Committed o s new e w d =
      let same : s ≡ record s { file = s.file ++ []; buffered = [] } =
        ap (λ l. record s { file = l; buffered = s.buffered }) (sym (append-nil s.file))
        ∙ ap (λ l. record s { file = s.file ++ []; buffered = l }) d.settled in
      subst (λ x. Committed s new (err e, not_encoded o x)) (sym same) (at o w)
    where
      at :
          (o : WriteOutcome)
          → IsClean o
          → Committed s new (err e, not_encoded o (record s { file = s.file ++ []; buffered = [] }))
      at written w = recover-Committed s new e [] true 0 d
      at (failed reached kept true reopened dropped) w =
          recover-Committed s new e [] reopened dropped d
      at (failed reached kept false reopened dropped) w = absurd (cc)

  pub length-frame_bytes :
      (f : AofFrame) (b : Bytes) → frame_bytes c f ≡ ok b → encoded_frame_len c f ≡ length b
  unfolding encoded_frame_len
  length-frame_bytes f b h =
      let (p, q, e) = frame_bytes-ok c f b h in
      rw (q, encoded_frame_len)
        (omega (
          arith,
          ap length e,
          length-append (le_bytes 8 (length p)) p,
          length-le_bytes 8 (length p),
        ))

  file_after :
      (s : Writer) (n : ℕ) (rs : List AppendRequest) (x : Result StorageError (Unit {0}) × Writer)
      → length (committed s.durable_len n rs x).1.file ≡ length x.1.file
  file_after s n rs (ok u, s') = refl
  file_after s n rs (err e, s') = refl

  write-Committed :
      (o : WriteOutcome) (f : AofFrame) (bytes : Bytes) (rs : List AppendRequest) (s : Writer)
      → IsClean o
      → frame_bytes c f ≡ ok bytes
      → apply_frame_to_entries s.entries f ≡ ok (s.entries ++ entries_of_requests rs)
      → length (write_and_sync o bytes s).1.file ≤ u64_max
      → Durable s
      → Committed s
          (entries_of_requests rs)
          (committed s.durable_len (encoded_frame_len c f) rs (write_and_sync o bytes s))
  write-Committed written f bytes rs s w h g m d =
      let all : s.file ++ (s.buffered ++ bytes) ≡ s.file ++ bytes =
        ap (λ l. s.file ++ (l ++ bytes)) d.settled in
      record {
        durable = record {
          frames = d.frames ++ f ∷ [];
          stored =
              file_of-append c d.frames (f ∷ []) s.file bytes d.stored
                (ap (λ r. r >>= λ b. ok (b ++ [])) h ∙ ap ok (append-nil bytes))
              ∙ ap ok (sym all);
          replays =
              applied-append c d.frames (f ∷ []) [] s.entries d.replays
              ∙ ap (λ r. r >>= λ es. ok es) g;
          settled = refl;
          measured =
              let long = length-frame_bytes f bytes h in
              let one = d.measured in
              ground (arith, long, one, ap length all, length-append s.file bytes);
        };
        state = refl;
        answer = inl (refl, refl);
      }
  write-Committed (failed reached zero true reopened dropped) f bytes rs s w h g m d =
      recover-Committed s _ (io []) (take reached (s.buffered ++ bytes)) reopened dropped d
  write-Committed (failed reached zero false reopened dropped) f bytes rs s w h g m d = absurd (cc)
  write-Committed (failed reached (suc kept) rolled_back reopened dropped) f bytes rs s w h g m d =
      absurd (omega arith)

  -- What a commit writes, once its checks have passed.
  write_group-Committed :
      (o : WriteOutcome) (r : AppendRequest) (rs : List AppendRequest) (s : Writer)
      → All IsRequest (r ∷ rs)
      → IsClean o
      → validate_requests (last s.entries) (r ∷ rs) ≡ ok tt
      → Durable s
      → length (write_group c o (frame_of r rs) (r ∷ rs) s).1.file ≤ u64_max
      → Committed s (entries_of_requests (r ∷ rs)) (write_group c o (frame_of r rs) (r ∷ rs) s)
  write_group-Committed o r rs s a w v d = elim (Result-cases (frame_bytes c (frame_of r rs))) [
    | inl (bytes, p) ↦
        rw (p, write_group)
          (λ m.
            write-Committed o (frame_of r rs) bytes (r ∷ rs) s w p
              (apply_frame_of s.entries r rs a v)
              (subst (λ n. n ≤ u64_max)
                (file_after s (encoded_frame_len c (frame_of r rs)) (r ∷ rs)
                  (write_and_sync o bytes s))
                m)
              d)
    | inr (e, p) ↦ rw (p, write_group) (λ m. not_encoded-Committed o s _ e w d)
  ]

  -- A commit whose checks pass writes its frame.
  pub commit-valid :
      (o : WriteOutcome) (r : AppendRequest) (rs : List AppendRequest) (bytes : Bytes) (s : Writer)
      → s.is_closed ≡ false
      → validate_requests (last s.entries) (r ∷ rs) ≡ ok tt
      → frame_bytes c (frame_of r rs) ≡ ok bytes
      → commit_append_group c o (r ∷ rs) s
        ≡ committed s.durable_len
            (encoded_frame_len c (frame_of r rs))
            (r ∷ rs)
            (write_and_sync o bytes s)
  unfolding commit_append_group
  commit-valid o r rs bytes s p v h =
      ap
        (λ b. if b then (err closed, s) else elim (validate_requests (last s.entries) (r ∷ rs)) [
          | err e ↦ (err e, s)
          | ok _ ↦ write_group c o (frame_of r rs) (r ∷ rs) s
        ])
        p
      ∙ rw (v, validate_requests) (rw (h, write_group) refl)

  pub commit-Committed :
      (o : WriteOutcome) (rs : List AppendRequest) (s : Writer)
      → All IsRequest rs
      → IsClean o
      → Durable s
      → length (commit_append_group c o rs s).1.file ≤ u64_max
      → Committed s (entries_of_requests rs) (commit_append_group c o rs s)
  unfolding commit_append_group
  commit-Committed o [] s a w d =
      λ m. record { durable = d; state = refl; answer = inl (refl, sym (append-nil s.entries)) }
  commit-Committed o (r ∷ rs) s a w d =
      if-cases (λ x. length x.1.file ≤ u64_max → Committed s (entries_of_requests (r ∷ rs)) x)
        s.is_closed (λ m. unchanged closed s _ d)
        (elim (Result-cases (validate_requests (last s.entries) (r ∷ rs))) [
          | inl (u, v) ↦ rw (v, commit_append_group) (write_group-Committed o r rs s a w v d)
          | inr (e, v) ↦ rw (v, commit_append_group) (λ m. unchanged e s _ d)
        ])
