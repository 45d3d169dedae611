-- ===== src/Storage/Aof/Grouping.antt =====
-- A group commit of crates/latlng-storage-aof/src/lib.rs beside commits of the same requests one by one.
use mathlib.Core.List.{append-nil, append_assoc}
use latlng.Prelude.{
  ◌≤◌, ◌≡◌, sym, ap, ◌∙◌, false, List, [], ◌∷◌, ◌++◌, ok, ◌>>◌, last, length, All, u64_max, bind_ok,
}
use latlng.Storage.{Bytes}
use latlng.Storage.Aof.{Codec, frame_bytes, load_entries, validate_batch_against_last}
use latlng.Storage.Aof.Writer.{
  AppendRequest, Writer, written, commit_append_group, validate_requests, entries_of_requests,
  frame_of,
}
use latlng.Storage.Aof.Reading.{IsCodec}
use latlng.Storage.Aof.Commits.{IsRequest, last-append-request}
use latlng.Storage.Aof.Durable.{Durable, Durable-load, commit-Committed, commit-valid}

module _ (c : Codec) where
  -- The requests committed one by one, without a fault.
  abbrev pub commit_each : List AppendRequest → Writer → Writer
  commit_each [] s = s
  commit_each (r ∷ rs) s = commit_each rs (commit_append_group c written (r ∷ []) s).1

  -- The frames can be encoded, and the file that they make is in the range of its length.
  abbrev pub IsWritable : List AppendRequest → Writer → Type 0
  IsWritable [] s = length s.file ≤ u64_max
  IsWritable (r ∷ rs) s =
      ((bytes : Bytes) × (frame_bytes c r.frame ≡ ok bytes))
      × (length (commit_append_group c written (r ∷ []) s).1.file ≤ u64_max)
      × IsWritable rs (commit_append_group c written (r ∷ []) s).1

  commit_each-entries :
      (rs : List AppendRequest) (s : Writer)
      → Durable c s
      → s.is_closed ≡ false
      → All IsRequest rs
      → validate_requests (last s.entries) rs ≡ ok tt
      → IsWritable rs s
      → Durable c (commit_each rs s)
        × ((commit_each rs s).entries ≡ s.entries ++ entries_of_requests rs)
  unfolding validate_requests
  commit_each-entries [] s d o a v w = (d, sym (append-nil s.entries))
  commit_each-entries (r ∷ rs) s d o a v w =
      let (u, valid, rest) =
        bind_ok (validate_batch_against_last (last s.entries) r.entries) _ tt v in
      let (bytes, p) = w.0 in
      let s' = (commit_append_group c written (r ∷ []) s).1 in
      let one = commit-valid c written r [] bytes s o (ap (λ x. x >> ok tt) valid) p in
      let after : s'.entries ≡ s.entries ++ r.entries =
        ap (λ x. x.1.entries) one ∙ ap (λ l. s.entries ++ l) (append-nil r.entries) in
      let e = commit-Committed c written (r ∷ []) s (a.0, tt) tt d w.1 in
      let last' : last s'.entries ≡ last r.entries =
        ap last after ∙ last-append-request s.entries r a.0 in
      let (x, y) =
        commit_each-entries rs s' e.durable (e.state ∙ o) a.1
          (ap (λ l. validate_requests l rs) last' ∙ rest) w.2 in
      (
        x,
        y
            ∙ ap (λ l. l ++ entries_of_requests rs) after
            ∙ append_assoc s.entries r.entries (entries_of_requests rs),
      )

  -- bincode reads back what it wrote. A group of requests that pass the checks, in an open writer
  -- whose file holds what is committed: one commit of the group succeeds, it leaves the same
  -- committed entries as commits of the requests one by one, and the two files, which differ in
  -- their frames, load to the same entries. No write fails, every frame can be encoded, and the
  -- files stay in the range of their length.
  pub commit-commit_each :
      (k : IsCodec c) (r : AppendRequest) (rs : List AppendRequest) (bytes : Bytes) (s : Writer)
      → Durable c s
      → s.is_closed ≡ false
      → All IsRequest (r ∷ rs)
      → validate_requests (last s.entries) (r ∷ rs) ≡ ok tt
      → frame_bytes c (frame_of r rs) ≡ ok bytes
      → length (commit_append_group c written (r ∷ rs) s).1.file ≤ u64_max
      → IsWritable (r ∷ rs) s
      → (let x = commit_append_group c written (r ∷ rs) s in
          let y = commit_each (r ∷ rs) s in
          (x.0 ≡ ok tt)
          × (x.1.entries ≡ y.entries)
          × (load_entries c x.1.file ≡ load_entries c y.file))
  commit-commit_each k r rs bytes s d o a v p m w =
      let one = commit-valid c written r rs bytes s o v p in
      let e = commit-Committed c written (r ∷ rs) s a tt d m in
      let (f, q) = commit_each-entries (r ∷ rs) s d o a v w in
      let same = ap (λ x. x.1.entries) one ∙ sym q in
      (
        ap (λ x. x.0) one,
        same,
        Durable-load c k _ e.durable ∙ ap ok same ∙ sym (Durable-load c k _ f),
      )
