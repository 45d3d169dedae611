-- ===== src/Storage/Aof/Files.antt =====
-- Files of whole frames, and files that end in a torn frame, as crates/latlng-storage-aof/src/lib.rs reads them.
use mathlib.Core.List.{append_assoc}
use latlng.Prelude.{
  ℕ, suc, ◌+◌, ◌≤◌, ◌≡◌, refl, sym, ap, ◌∙◌, arith, some, List, [], ◌∷◌, ◌++◌, Result, ok, length,
  length-append, ◌>>=◌, bind_ok, inl, inr, Option-cases, ok≢err, ok_inj,
}
use latlng.Storage.{Bytes, StorageEntry, StorageError, codec, le_bytes}
use latlng.Storage.Aof.{
  AofFrame, decoded, Codec, Loaded, load_frames, load_frame, frame_bytes, apply_frame_to_entries,
  frame_loaded,
}
use latlng.Storage.Aof.Reading.{IsCodec, load_step, from_le_bytes-le_bytes, length-le_bytes}

-- The effect of frames, one after the other.
abbrev pub applied : List StorageEntry → List AofFrame → Result StorageError (List StorageEntry)
applied es [] = ok es
applied es (f ∷ fs) = apply_frame_to_entries es f >>= λ es'. applied es' fs

-- The loop has read frames of `n` bytes, which hold the entries `es` together with what was there.
pub record Read (s s' : Loaded) (es : List StorageEntry) (n : ℕ) : Type 0 where
  pub entries : s'.entries ≡ es
  pub offset : s'.offset ≡ s.offset + n
  pub tail : s'.truncated_tail ≡ s.truncated_tail
  pub prefix : s.durable_prefix_bytes ≡ s.offset → s'.durable_prefix_bytes ≡ s'.offset

module _ (c : Codec) where
  -- The bytes of frames.
  abbrev pub file_of : List AofFrame → Result StorageError Bytes
  file_of [] = ok []
  file_of (f ∷ fs) = frame_bytes c f >>= λ b. file_of fs >>= λ bs. ok (b ++ bs)

  pub file_of-append :
      (fs gs : List AofFrame) (b d : Bytes)
      → file_of fs ≡ ok b
      → file_of gs ≡ ok d
      → file_of (fs ++ gs) ≡ ok (b ++ d)
  file_of-append [] gs b d h k = rw (← ok_inj h) k
  file_of-append (f ∷ fs) gs b d h k =
      let (p, hp, h2) = bind_ok (frame_bytes c f) _ b h in
      let (q, hq, h3) = bind_ok (file_of fs) _ b h2 in
      rw hp (
        rw (file_of-append fs gs q d hq k)
          (ap ok (sym (append_assoc p q d)) ∙ ap (λ l. ok (l ++ d)) (ok_inj h3)))

  pub applied-append :
      (fs gs : List AofFrame) (es es' : List StorageEntry)
      → applied es fs ≡ ok es'
      → applied es (fs ++ gs) ≡ applied es' gs
  applied-append [] gs es es' h = ap (λ l. applied l gs) (ok_inj h)
  applied-append (f ∷ fs) gs es es' h =
      let (e1, h1, h2) = bind_ok (apply_frame_to_entries es f) _ es' h in
      rw h1 (applied-append fs gs e1 es' h2)

  pub frame_bytes-ok :
      (f : AofFrame) (b : Bytes)
      → frame_bytes c f ≡ ok b
      → (p : Bytes) × (c.serialize f ≡ some p) × (le_bytes 8 (length p) ++ p ≡ b)
  unfolding frame_bytes
  frame_bytes-ok f b h = elim (Option-cases (c.serialize f)) [
    | inl e ↦ elim (ok≢err b (codec []) (sym h ∙ rw (e, frame_bytes) refl)) [ ]
    | inr (p, e) ↦ (p, e, ok_inj (sym (rw (e, frame_bytes) refl) ∙ h))
  ]

  -- A file has at least as many bytes as frames.
  pub length-file_of : (fs : List AofFrame) (b : Bytes) → file_of fs ≡ ok b → length fs ≤ length b
  length-file_of [] b h = omega arith
  length-file_of (f ∷ fs) b h =
      let (d, hd, h2) = bind_ok (frame_bytes c f) _ b h in
      let (bs, hbs, e) = bind_ok (file_of fs) _ b h2 in
      let (p, hp, hd') = frame_bytes-ok f d hd in
      omega (
        arith,
        length-file_of fs bs hbs,
        ap length (ok_inj e),
        length-append d bs,
        ap length hd',
        length-append (le_bytes 8 (length p)) p,
        length-le_bytes 8 (length p),
      )

  module _ (k : IsCodec c) where
    load_frame-ok :
        (f : AofFrame) (p : Bytes) (s : Loaded) (es : List StorageEntry)
        → c.serialize f ≡ some p
        → apply_frame_to_entries s.entries f ≡ ok es
        → load_frame c p s ≡ ok (frame_loaded c (length p) s es)
    load_frame-ok f p s es h a =
        ap
          (λ o. decoded o >>= λ g.
            apply_frame_to_entries s.entries g >>= λ l. ok (frame_loaded c (length p) s l))
          (k.reads_back f p h)
        ∙ ap (λ r. r >>= λ l. ok (frame_loaded c (length p) s l)) a

    -- A frame at the head of the bytes is read, and the loop goes on behind it.
    load_frames-frame :
        (fuel : ℕ) (f : AofFrame) (p rest : Bytes) (s : Loaded) (es : List StorageEntry)
        → c.serialize f ≡ some p
        → apply_frame_to_entries s.entries f ≡ ok es
        → load_frames c (suc fuel) ((le_bytes 8 (length p) ++ p) ++ rest) s
          ≡ load_frames c fuel rest (frame_loaded c (length p) s es)
    load_frames-frame fuel f p rest s es h a =
        ap (λ l. load_frames c (suc fuel) l s) (append_assoc (le_bytes 8 (length p)) p rest)
        ∙ load_step c fuel (le_bytes 8 (length p)) p rest s (length-le_bytes 8 (length p))
            (from_le_bytes-le_bytes (length p) (k.fits f p h))
        ∙ ap (λ r. r >>= load_frames c fuel rest) (load_frame-ok f p s es h a)

    -- The loop reads whole frames, and goes on with what follows.
    pub load_frames-file :
        (fs : List AofFrame) (fuel : ℕ) (b rest : Bytes) (s : Loaded) (es : List StorageEntry)
        → file_of fs ≡ ok b
        → applied s.entries fs ≡ ok es
        → (s' : Loaded) × Read s s' es (length b)
          × (load_frames c (length fs + fuel) (b ++ rest) s ≡ load_frames c fuel rest s')
    load_frames-file [] fuel b rest s es h a = (
      s,
      record {
        entries = ok_inj a;
        offset = omega (arith, ap length (ok_inj h));
        tail = refl;
        prefix = λ q. q;
      },
      ap (λ l. load_frames c (0 + fuel) (l ++ rest) s) (sym (ok_inj h))
          ∙ ap (λ n. load_frames c n rest s) (omega arith),
    )
    load_frames-file (f ∷ fs) fuel b rest s es h a =
        let (d, hd, h2) = bind_ok (frame_bytes c f) _ b h in
        let (bs, hbs, e) = bind_ok (file_of fs) _ b h2 in
        let (p, hp, hd') = frame_bytes-ok f d hd in
        let (e1, ha, a2) = bind_ok (apply_frame_to_entries s.entries f) _ es a in
        let s1 = frame_loaded c (length p) s e1 in
        let (s', r, q) = load_frames-file fs fuel bs rest s1 es hbs a2 in
        (
          s',
          record {
            entries = r.entries;
            offset = omega (
              arith,
              r.offset,
              ap length (ok_inj e),
              length-append d bs,
              ap length hd',
              length-append (le_bytes 8 (length p)) p,
              length-le_bytes 8 (length p),
            );
            tail = r.tail;
            prefix = λ w. r.prefix refl;
          },
          ap (λ n. load_frames c n (b ++ rest) s) (omega arith)
              ∙ ap (λ l. load_frames c (suc (length fs + fuel)) l s)
                  (ap (λ l. l ++ rest) (sym (ok_inj e))
                    ∙ append_assoc d bs rest
                    ∙ ap (λ l. l ++ (bs ++ rest)) (sym hd'))
              ∙ load_frames-frame (length fs + fuel) f p (bs ++ rest) s e1 hp ha
              ∙ q,
        )
