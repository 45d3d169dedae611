-- ===== src/Storage/Aof/Whole.antt =====
-- When `load_entries` of crates/latlng-storage-aof/src/lib.rs accepts a file of whole frames.
use mathlib.Core.List.{append_assoc, append-nil}
use latlng.Prelude.{
  ℕ, zero, suc, ◌≤◌, ◌≡◌, refl, sym, ap, ◌∙◌, arith, ◌↔◌, some, true, List, [], ◌∷◌, ◌++◌, Result,
  ok, ◌>>=◌, bind_ok, length, ok_inj, map_ok, Result-cases, inl, inr, subst,
}
use latlng.Storage.{Bytes, StorageEntry, StorageError, le_bytes}
use latlng.Storage.Order.{IsIncreasing}
use latlng.Storage.Aof.{
  AofFrame, Codec, Loaded, decoded, load_frames, load_frame, load_all, load_entries,
  apply_frame_to_entries, nothing_loaded, frame_loaded, frame_bytes,
}
use latlng.Storage.Aof.Reading.{IsCodec, load_step, from_le_bytes-le_bytes, length-le_bytes}
use latlng.Storage.Aof.Files.{applied, file_of, frame_bytes-ok, length-file_of}
use latlng.Storage.Aof.Increasing.{apply_frame-IsIncreasing}
use latlng.Storage.Aof.Entries.{
  entries_in, all_entries, all_full, apply_frame-entries, apply_frame-ok, rises_first, both_added,
  IsIncreasing-left,
}

applied-entries :
    (xs : List StorageEntry) (fs : List AofFrame) (ys : List StorageEntry)
    → IsIncreasing xs
    → applied xs fs ≡ ok ys
    → (ys ≡ xs ++ all_entries fs) × IsIncreasing ys
applied-entries xs [] ys i h =
    let e = ok_inj h in (sym e ∙ sym (append-nil xs), subst IsIncreasing e i)
applied-entries xs (f ∷ fs) ys i h =
    let (zs, p, q) = bind_ok (apply_frame_to_entries xs f) _ ys h in
    let (e, j) = applied-entries zs fs ys (apply_frame-IsIncreasing xs f zs p i) q in
    (
      e
          ∙ ap (λ l. l ++ all_entries fs) (apply_frame-entries xs f zs p)
          ∙ append_assoc xs (entries_in f) (all_entries fs),
      j,
    )

applied-ok :
    (xs : List StorageEntry) (fs : List AofFrame)
    → all_full fs ≡ true
    → IsIncreasing (xs ++ all_entries fs)
    → applied xs fs ≡ ok (xs ++ all_entries fs)
applied-ok xs [] h i = ap ok (sym (append-nil xs))
applied-ok xs (f ∷ fs) h i =
    let j = rises_first xs (entries_in f) (all_entries fs) i in
    both_added (apply_frame_to_entries xs f) (λ zs. applied zs fs) xs (entries_in f)
      (all_entries fs)
      (apply_frame-ok xs f (ground arith)
        (IsIncreasing-left (xs ++ entries_in f) (all_entries fs) j))
      (applied-ok (xs ++ entries_in f) fs (ground arith) j)

module _ (c : Codec) (k : IsCodec c) where
  abbrev read : Result StorageError Loaded → Result StorageError (List StorageEntry)
  read r = map_ok (λ s. s.entries) r

  -- What a frame does to the entries is what its payload does.
  load_frame-applied :
      (f : AofFrame) (p : Bytes) (s : Loaded)
      → c.serialize f ≡ some p
      → load_frame c p s
        ≡ (apply_frame_to_entries s.entries f >>= λ es. ok (frame_loaded c (length p) s es))
  load_frame-applied f p s h =
      ap
        (λ o. decoded o >>= λ g.
          apply_frame_to_entries s.entries g >>= λ l. ok (frame_loaded c (length p) s l))
        (k.reads_back f p h)

  load_frames-applied :
      (fs : List AofFrame) (fuel : ℕ) (b : Bytes) (s : Loaded)
      → file_of c fs ≡ ok b
      → length fs ≤ fuel
      → read (load_frames c fuel b s) ≡ applied s.entries fs
  unfolding load_frames
  load_frames-applied [] zero b s h l = refl
  load_frames-applied [] (suc fuel) b s h l =
      ap (λ d. read (load_frames c (suc fuel) d s)) (sym (ok_inj h))
  load_frames-applied (f ∷ fs) zero b s h l = absurd (omega arith)
  load_frames-applied (f ∷ fs) (suc fuel) b s h l =
      let (d, hd, h2) = bind_ok (frame_bytes c f) _ b h in
      let (bs, hbs, e) = bind_ok (file_of c fs) _ b h2 in
      let (p, hp, hd') = frame_bytes-ok c f d hd in
      ap (λ x. read (load_frames c (suc fuel) x s))
        (sym (ok_inj e) ∙ ap (λ x. x ++ bs) (sym hd') ∙ append_assoc (le_bytes 8 (length p)) p bs)
      ∙ ap read (
          load_step c fuel (le_bytes 8 (length p)) p bs s (length-le_bytes 8 (length p))
            (from_le_bytes-le_bytes (length p) (k.fits f p hp)))
      ∙ ap (λ r. read (r >>= load_frames c fuel bs)) (load_frame-applied f p s hp)
      ∙ elim (Result-cases (apply_frame_to_entries s.entries f)) [
        | inl (es, q) ↦
            rw q (load_frames-applied fs fuel bs (frame_loaded c (length p) s es) hbs (omega arith))
        | inr (x, q) ↦ rw q refl
      ]

  -- A file of whole frames, none of them nor any in a group without entries, loads exactly where the
  -- entries of all frames rise strictly in their sequence numbers, and then as those entries, in order; in
  -- every other case it is an error. The codec reads back each frame that it writes, whose length fits a
  -- u64.
  pub load_entries_whole :
      (fs : List AofFrame) (file : Bytes) (es : List StorageEntry)
      → file_of c fs ≡ ok file
      → all_full fs ≡ true
      → (load_entries c file ≡ ok es) ↔ ((es ≡ all_entries fs) × IsIncreasing (all_entries fs))
  unfolding load_entries load_all
  load_entries_whole fs file es h full =
      let same : load_entries c file ≡ applied [] fs =
        load_frames-applied fs (length file) file nothing_loaded h (length-file_of c fs file h) in
      (
        λ r.
            (let (e, i) = applied-entries [] fs es tt (sym same ∙ r) in
              (e, subst IsIncreasing e i)),
        λ r. same ∙ applied-ok [] fs full r.1 ∙ ap ok (sym r.0),
      )
