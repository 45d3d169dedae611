-- ===== src/Storage/Aof/Increasing.antt =====
-- Whatever bytes `load_entries` of crates/latlng-storage-aof/src/lib.rs accepts, the entries' sequence numbers rise.
use mathlib.Core.List.{append-nil}
use latlng.Prelude.{
  ℕ, zero, suc, ◌<◌, ◌≡◌, refl, sym, ap, ◌∙◌, arith, some, List, [], ◌∷◌, ◌++◌, Result, ok, subst,
  bind_ok, last, length, take, drop, ltb, ok_inj, ok≢err, if-cases, map_ok, Result-cases, inl, inr,
}
use latlng.Storage.{Bytes, StorageEntry, StorageError, assert_strictly_increasing, codec}
use latlng.Storage.Order.{IsIncreasing, last_or, Above-append, assert_strictly_increasing_iff}
use latlng.Storage.Aof.{
  AofFrame, entry, batch, group, Frames, nil, cons, Codec, Loaded, decoded, after_last, extended,
  load_frames, load_frame, load_all, load_entries, apply_frame_to_entries, apply_frames,
  validate_batch_against_last, nothing_loaded, from_le_bytes, truncated,
}

pub last-some :
    (x : StorageEntry) (xs : List StorageEntry)
    → (l : StorageEntry) × (last (x ∷ xs) ≡ some l) × (l.sequence ≡ last_or x.sequence xs)
last-some x [] = (x, refl, refl)
last-some x (y ∷ ys) = last-some y ys

after_last-lt : (l e : StorageEntry) → after_last (some l) e ≡ ok tt → l.sequence < e.sequence
after_last-lt l e h = ground arith

-- A batch that passes goes on rising where the log ends.
validate-append :
    (xs b : List StorageEntry)
    → validate_batch_against_last (last xs) b ≡ ok tt
    → IsIncreasing xs
    → IsIncreasing (xs ++ b)
unfolding validate_batch_against_last
validate-append xs [] h i = subst IsIncreasing (sym (append-nil xs)) i
validate-append [] (e ∷ es) h i =
    let (u, p, q) = bind_ok (assert_strictly_increasing (e ∷ es)) _ tt h in
    (assert_strictly_increasing_iff (e ∷ es)).0 p
validate-append (x ∷ xs) (e ∷ es) h i =
    let (u, p, q) = bind_ok (assert_strictly_increasing (e ∷ es)) _ tt h in
    let (l, r, n) = last-some x xs in
    let lt = after_last-lt l e (ap (λ o. after_last o e) (sym r) ∙ q) in
    Above-append x.sequence xs (e ∷ es) i
      (omega (arith, n, lt), (assert_strictly_increasing_iff (e ∷ es)).0 p)

extended-IsIncreasing :
    (xs b ys : List StorageEntry)
    → extended xs b (validate_batch_against_last (last xs) b) ≡ ok ys
    → IsIncreasing xs
    → IsIncreasing ys
extended-IsIncreasing xs b ys h i = elim (Result-cases (validate_batch_against_last (last xs) b)) [
  | inl (u, p) ↦
      subst IsIncreasing (ok_inj (ap (extended xs b) (sym p) ∙ h)) (validate-append xs b p i)
  | inr (e, p) ↦ elim (ok≢err ys e (sym h ∙ ap (extended xs b) p)) [ ]
]

mutual
  unfolding apply_frame_to_entries apply_frames

  pub apply_frame-IsIncreasing :
      (xs : List StorageEntry) (f : AofFrame) (ys : List StorageEntry)
      → apply_frame_to_entries xs f ≡ ok ys
      → IsIncreasing xs
      → IsIncreasing ys
  apply_frame-IsIncreasing xs (entry e) ys h i = extended-IsIncreasing xs (e ∷ []) ys h i
  apply_frame-IsIncreasing xs (batch []) ys h i = elim (ok≢err ys (codec []) (sym h)) [ ]
  apply_frame-IsIncreasing xs (batch (b ∷ bs)) ys h i = extended-IsIncreasing xs (b ∷ bs) ys h i
  apply_frame-IsIncreasing xs (group nil) ys h i = elim (ok≢err ys (codec []) (sym h)) [ ]
  apply_frame-IsIncreasing xs (group (cons f fs)) ys h i =
      let (zs, p, q) = bind_ok (apply_frame_to_entries xs f) _ ys h in
      apply_frames-IsIncreasing zs fs ys q (apply_frame-IsIncreasing xs f zs p i)

  pub apply_frames-IsIncreasing :
      (xs : List StorageEntry) (fs : Frames) (ys : List StorageEntry)
      → apply_frames xs fs ≡ ok ys
      → IsIncreasing xs
      → IsIncreasing ys
  apply_frames-IsIncreasing xs nil ys h i = subst IsIncreasing (ok_inj h) i
  apply_frames-IsIncreasing xs (cons f fs) ys h i =
      let (zs, p, q) = bind_ok (apply_frame_to_entries xs f) _ ys h in
      apply_frames-IsIncreasing zs fs ys q (apply_frame-IsIncreasing xs f zs p i)

module _ (c : Codec) where
  load_frame-IsIncreasing :
      (p : Bytes) (s s' : Loaded)
      → load_frame c p s ≡ ok s'
      → IsIncreasing s.entries
      → IsIncreasing s'.entries
  load_frame-IsIncreasing p s s' h i =
      let (f, a, b) = bind_ok (decoded (c.deserialize p)) _ s' h in
      let (es, d, e) = bind_ok (apply_frame_to_entries s.entries f) _ s' b in
      subst (λ l. IsIncreasing l.entries) (ok_inj e) (apply_frame-IsIncreasing s.entries f es d i)

  load_frames-IsIncreasing :
      (fuel : ℕ) (bytes : Bytes) (s s' : Loaded)
      → load_frames c fuel bytes s ≡ ok s'
      → IsIncreasing s.entries
      → IsIncreasing s'.entries
  unfolding load_frames
  load_frames-IsIncreasing zero bytes s s' h i = subst (λ l. IsIncreasing l.entries) (ok_inj h) i
  load_frames-IsIncreasing (suc fuel) [] s s' h i = subst (λ l. IsIncreasing l.entries) (ok_inj h) i
  load_frames-IsIncreasing (suc fuel) (b ∷ bs) s s' h i =
      let bytes = b ∷ bs in
      let n = from_le_bytes (take 8 bytes) in
      let rest = drop 8 bytes in
      let Rises = λ (x : Result StorageError Loaded). x ≡ ok s' → IsIncreasing s'.entries in
      let cut : Rises (ok (truncated s)) = λ e. subst (λ l. IsIncreasing l.entries) (ok_inj e) i in
      if-cases Rises (ltb (length bytes) 8) cut
        (if-cases Rises (ltb (length rest) n) cut (λ e.
          let (s1, p, q) = bind_ok (load_frame c (take n rest) s) _ s' e in
          load_frames-IsIncreasing fuel (drop n rest) s1 s' q
            (load_frame-IsIncreasing (take n rest) s s1 p i)))
        h

  -- The entries that `load_entries` reads from a file, whatever the file's bytes, are in the strictly
  -- rising order of their sequence numbers.
  pub load_entries-IsIncreasing :
      (file : Bytes) (es : List StorageEntry) → load_entries c file ≡ ok es → IsIncreasing es
  unfolding load_entries load_all
  load_entries-IsIncreasing file es h = elim (Result-cases (load_all c file)) [
    | inl (s, p) ↦
        subst IsIncreasing (ok_inj (ap (map_ok (λ x. x.entries)) (sym p) ∙ h))
          (load_frames-IsIncreasing (length file) file nothing_loaded s p tt)
    | inr (e, p) ↦ elim (ok≢err es e (sym h ∙ ap (map_ok (λ x. x.entries)) p)) [ ]
  ]
