-- ===== src/Storage/Aof/Loading.antt =====
-- What `load_entries_with_report` of crates/latlng-storage-aof/src/lib.rs finds in a file, whole or torn.
use mathlib.Core.List.{append-nil}
use mathlib.Core.Path.{fun_ext}
use latlng.Prelude.{
  ℕ, zero, suc, ◌+◌, ◌-◌, ◌≤◌, ◌<◌, ◌≡◌, refl, sym, ap, ◌∙◌, arith, true, false, List, [], ◌∷◌,
  ◌++◌, ok, length, take, drop, length-append, length-take, length-drop, ◌>>=◌, ltb, inl, inr, ◌⊎◌,
  if◌then◌else◌, dec_lt,
}
use latlng.Storage.{Bytes, StorageEntry, le_bytes}
use latlng.Storage.Aof.{
  AofFrame, Codec, Loaded, truncated, nothing_loaded, load_frames, load_frame, load_all,
  frame_bytes, from_le_bytes,
}
use latlng.Storage.Aof.Reading.{
  IsCodec, load_torn, from_le_bytes-le_bytes, length-le_bytes, take-append,
}
use latlng.Storage.Aof.Files.{
  applied, Read, file_of, frame_bytes-ok, load_frames-file, length-file_of,
}

-- What is left of a frame whose writing was cut off.
abbrev pub IsTorn : Bytes → Type 0
IsTorn tail =
    (0 < length tail) × ((length tail < 8) ⊎ (length (drop 8 tail) < from_le_bytes (take 8 tail)))

pub take-take {ℓ} : {A : Type ℓ} (m n : ℕ) (xs : List A) → m ≤ n → take m (take n xs) ≡ take m xs
take-take zero n xs h = refl
take-take (suc m) zero xs h = absurd (omega arith)
take-take (suc m) (suc n) [] h = refl
take-take (suc m) (suc n) (x ∷ xs) h = ap (λ l. x ∷ l) (take-take m n xs (omega arith))

module _ (c : Codec) where
  load_frames-nil : (n : ℕ) (s : Loaded) → load_frames c n [] s ≡ ok s
  unfolding load_frames
  load_frames-nil zero s = refl
  load_frames-nil (suc n) s = refl

  -- The rounds that are left do not matter once they are as many as the bytes: the loop of
  -- `load_entries_with_report` ends by itself.
  pub load_frames-enough :
      (f g : ℕ) (bytes : Bytes) (s : Loaded)
      → length bytes ≤ f
      → length bytes ≤ g
      → load_frames c f bytes s ≡ load_frames c g bytes s
  unfolding load_frames
  load_frames-enough zero zero [] s h k = refl
  load_frames-enough zero (suc g) [] s h k = refl
  load_frames-enough (suc f) zero [] s h k = refl
  load_frames-enough (suc f) (suc g) [] s h k = refl
  load_frames-enough zero g (b ∷ bs) s h k = absurd (omega arith)
  load_frames-enough (suc f) zero (b ∷ bs) s h k = absurd (omega arith)
  load_frames-enough (suc f) (suc g) (b ∷ bs) s h k =
      let bytes = b ∷ bs in
      let n = from_le_bytes (take 8 bytes) in
      let rest = drop 8 bytes in
      let shorter : length (drop n rest) ≤ length bs =
        omega (arith, length-drop n rest, length-drop 8 bytes) in
      let same =
        fun_ext (λ s'. load_frames-enough f g (drop n rest) s' (omega arith) (omega arith)) in
      ap
        (λ next.
          if ltb (length bytes) 8
          then ok (truncated s)
          else if ltb (length rest) n
          then ok (truncated s)
          else load_frame c (take n rest) s >>= next)
        same

  module _ (k : IsCodec c) (fs : List AofFrame) (b : Bytes) (es : List StorageEntry)
      (stored : file_of c fs ≡ ok b) (holds : applied [] fs ≡ ok es) where
    load_all-split :
        (tail : Bytes)
        → (s : Loaded) × Read nothing_loaded s es (length b)
          × (load_all c (b ++ tail) ≡ load_frames c (length b + length tail - length fs) tail s)
    unfolding load_all
    load_all-split tail =
        let rest = length b + length tail - length fs in
        let (s, r, q) = load_frames-file c k fs rest b tail nothing_loaded es stored holds in
        (
          s,
          r,
          ap (λ n. load_frames c n (b ++ tail) nothing_loaded)
                (omega (arith, length-append b tail, length-file_of c fs b stored))
              ∙ q,
        )

    -- A file of whole frames gives all their entries.
    pub load_all-file :
        (s : Loaded) × (load_all c b ≡ ok s)
        × (s.entries ≡ es)
        × (s.durable_prefix_bytes ≡ length b)
        × (s.truncated_tail ≡ false)
    load_all-file =
        let (s, r, q) = load_all-split [] in
        (
          s,
          ap (load_all c) (sym (append-nil b)) ∙ q ∙ load_frames-nil (length b + 0 - length fs) s,
          r.entries,
          omega (arith, r.prefix refl, r.offset),
          r.tail,
        )

    -- A torn frame at the end is left out whole, and reported.
    pub load_all-torn :
        (tail : Bytes)
        → IsTorn tail
        → (s : Loaded) × (load_all c (b ++ tail) ≡ ok s)
          × (s.entries ≡ es)
          × (s.durable_prefix_bytes ≡ length b)
          × (s.truncated_tail ≡ true)
    load_all-torn tail (t, h) =
        let (s, r, q) = load_all-split tail in
        let m = length b + length tail - length fs in
        (
          truncated s,
          q
              ∙ ap (λ n. load_frames c n tail s) (omega (arith, length-file_of c fs b stored))
              ∙ load_torn c (m - 1) tail s t h,
          r.entries,
          omega (arith, r.offset),
          refl,
        )

  -- What starts like a frame and is shorter is torn.
  pub head-IsTorn :
      (f : AofFrame) (b tail : Bytes)
      → IsCodec c
      → frame_bytes c f ≡ ok b
      → take 8 tail ≡ take 8 b
      → 8 ≤ length tail
      → length tail < length b
      → IsTorn tail
  head-IsTorn f b tail k h t m l =
      let (payload, s, e) = frame_bytes-ok c f b h in
      let head = le_bytes 8 (length payload) in
      let long : length b ≡ 8 + length payload =
        omega
          (arith, ap length e, length-append head payload, length-le_bytes 8 (length payload)) in
      let read : take 8 tail ≡ head =
        t ∙ ap (take 8) (sym e) ∙ take-append 8 head payload (length-le_bytes 8 (length payload)) in
      (
        omega arith,
        inr (
            omega (
              arith,
              length-drop 8 tail,
              ap from_le_bytes read,
              from_le_bytes-le_bytes (length payload) (k.fits f payload s),
            )),
      )

  -- A part of a frame is torn.
  pub take-IsTorn :
      (f : AofFrame) (b : Bytes) (n : ℕ)
      → IsCodec c
      → frame_bytes c f ≡ ok b
      → 0 < n
      → n < length b
      → IsTorn (take n b)
  take-IsTorn f b n k h p q = elim (dec_lt n 8) [
    | yes short ↦ (omega (arith, length-take n b), inl (omega (arith, length-take n b)))
    | no full ↦
        head-IsTorn f b (take n b) k h (take-take 8 n b (omega arith))
          (omega (arith, length-take n b)) (omega (arith, length-take n b))
  ]
