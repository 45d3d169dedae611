-- ===== src/Storage/Aof/Reading.antt =====
-- How `load_entries_with_report` of crates/latlng-storage-aof/src/lib.rs reads a file of whole frames, and one that ends
-- in a torn frame.
use latlng.Prelude.{
  ℕ, zero, suc, ◌/◌, ◌^◌, ◌<◌, ◌≡◌, refl, ap, ◌∙◌, arith, some, List, [], ◌∷◌, ◌++◌, ok, length,
  take, drop, length-append, ◌>>=◌, ◌⊎◌,
}
use latlng.Storage.{Bytes, le_bytes}
use latlng.Storage.Aof.{
  AofFrame, Codec, Loaded, truncated, load_frames, load_frame, from_le_bytes, load_round,
}

-- What bincode promises: a frame reads back. A `Vec` has fewer than 2 ^ 64 bytes.
pub record IsCodec (c : Codec) : Type 0 where
  pub reads_back : (f : AofFrame) (p : Bytes) → c.serialize f ≡ some p → c.deserialize p ≡ some f
  pub fits : (f : AofFrame) (p : Bytes) → c.serialize f ≡ some p → length p < 2 ^ 64

pub length-le_bytes : (n v : ℕ) → length (le_bytes n v) ≡ n
unfolding le_bytes
length-le_bytes zero v = refl
length-le_bytes (suc n) v = ap suc (length-le_bytes n (v / 256))

pub from_le_bytes-le_bytes : (v : ℕ) → v < 2 ^ 64 → from_le_bytes (le_bytes 8 v) ≡ v
unfolding from_le_bytes le_bytes
from_le_bytes-le_bytes v h = omega arith

pub take-append {ℓ} : {A : Type ℓ} (n : ℕ) (xs ys : List A) → length xs ≡ n → take n (xs ++ ys) ≡ xs
take-append zero [] ys h = refl
take-append zero (x ∷ xs) ys h = absurd (omega arith)
take-append (suc n) [] ys h = absurd (omega arith)
take-append (suc n) (x ∷ xs) ys h = ap (λ l. x ∷ l) (take-append n xs ys (omega arith))

pub drop-append {ℓ} : {A : Type ℓ} (n : ℕ) (xs ys : List A) → length xs ≡ n → drop n (xs ++ ys) ≡ ys
drop-append zero [] ys h = refl
drop-append zero (x ∷ xs) ys h = absurd (omega arith)
drop-append (suc n) [] ys h = absurd (omega arith)
drop-append (suc n) (x ∷ xs) ys h = drop-append n xs ys (omega arith)

module _ (c : Codec) where
  load_frames-round :
      (fuel : ℕ) (bytes : Bytes) (s : Loaded)
      → 0 < length bytes
      → load_frames c (suc fuel) bytes s ≡ load_round c (load_frames c fuel) bytes s
  unfolding load_frames
  load_frames-round fuel [] s h = absurd (omega arith)
  load_frames-round fuel (b ∷ bs) s h = refl

  -- A round on 8 bytes of length, a payload of that length, and what follows.
  pub load_step :
      (fuel : ℕ) (head payload rest : Bytes) (s : Loaded)
      → length head ≡ 8
      → from_le_bytes head ≡ length payload
      → load_frames c (suc fuel) (head ++ (payload ++ rest)) s
        ≡ (load_frame c payload s >>= load_frames c fuel rest)
  load_step fuel head payload rest s h k =
      load_frames-round fuel (head ++ (payload ++ rest)) s
        (omega (arith, length-append head (payload ++ rest)))
      ∙ rw
          (
            take-append 8 head (payload ++ rest) h,
            drop-append 8 head (payload ++ rest) h,
            k,
            take-append (length payload) payload rest refl,
            drop-append (length payload) payload rest refl,
            length-append head (payload ++ rest),
            h,
            length-append payload rest,
          )
          (ground arith)

  -- A round that finds too few bytes for the length, or for the payload.
  pub load_torn :
      (fuel : ℕ) (bytes : Bytes) (s : Loaded)
      → 0 < length bytes
      → (length bytes < 8) ⊎ (length (drop 8 bytes) < from_le_bytes (take 8 bytes))
      → load_frames c (suc fuel) bytes s ≡ ok (truncated s)
  load_torn fuel bytes s h t = load_frames-round fuel bytes s h ∙ ground arith
