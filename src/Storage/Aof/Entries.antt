-- ===== src/Storage/Aof/Entries.antt =====
-- The entries that the frames of crates/latlng-storage-aof/src/lib.rs hold, and when they are added to a log.
use mathlib.Core.List.{append_assoc, append-nil}
use latlng.Prelude.{
  ◌<◌, ◌≡◌, refl, sym, ap, ◌∙◌, arith, some, Bool, true, false, ◌&&◌, List, [], ◌∷◌, ◌++◌, Result,
  ok, err, ◌>>=◌, bind_ok, last, ok_inj, ok≢err, subst,
}
use latlng.Storage.{StorageEntry, StorageError, codec}
use latlng.Storage.Order.{IsIncreasing, Above-left, Above-right, assert_strictly_increasing_iff}
use latlng.Storage.Aof.{
  AofFrame, entry, batch, group, Frames, nil, cons, after_last, extended, apply_frame_to_entries,
  apply_frames, validate_batch_against_last,
}
use latlng.Storage.Aof.Increasing.{last-some}

unfoldable mutual
  -- The entries of a frame, and of the frames of a group.
  pub entries_in : AofFrame → List StorageEntry
  entries_in (entry e) = e ∷ []
  entries_in (batch es) = es
  entries_in (group fs) = entries_of fs

  pub entries_of : Frames → List StorageEntry
  entries_of nil = []
  entries_of (cons f fs) = entries_in f ++ entries_of fs

unfoldable mutual
  -- No batch and no group in it is empty.
  pub is_full : AofFrame → Bool
  is_full (entry e) = true
  is_full (batch []) = false
  is_full (batch (b ∷ bs)) = true
  is_full (group nil) = false
  is_full (group (cons f fs)) = is_full f && are_full fs

  pub are_full : Frames → Bool
  are_full nil = true
  are_full (cons f fs) = is_full f && are_full fs

abbrev pub all_entries : List AofFrame → List StorageEntry
all_entries [] = []
all_entries (f ∷ fs) = entries_in f ++ all_entries fs

abbrev pub all_full : List AofFrame → Bool
all_full [] = true
all_full (f ∷ fs) = is_full f && all_full fs

pub IsIncreasing-left : (xs ys : List StorageEntry) → IsIncreasing (xs ++ ys) → IsIncreasing xs
IsIncreasing-left [] ys h = tt
IsIncreasing-left (x ∷ xs) ys h = Above-left x.sequence xs ys h

after_last-ok : (l e : StorageEntry) → l.sequence < e.sequence → after_last (some l) e ≡ ok tt
after_last-ok l e h = ground arith

validate-ok :
    (xs b : List StorageEntry)
    → IsIncreasing (xs ++ b)
    → validate_batch_against_last (last xs) b ≡ ok tt
unfolding validate_batch_against_last
validate-ok xs [] h = refl
validate-ok [] (e ∷ es) h = rw ((assert_strictly_increasing_iff (e ∷ es)).1 h) refl
validate-ok (x ∷ xs) (e ∷ es) h =
    let rises = Above-right x.sequence xs (e ∷ es) h in
    let (l, r, n) = last-some x xs in
    rw ((assert_strictly_increasing_iff (e ∷ es)).1 rises.1, r)
      (after_last-ok l e (omega (arith, n, rises.0)))

extended-ok :
    (xs b : List StorageEntry)
    → IsIncreasing (xs ++ b)
    → extended xs b (validate_batch_against_last (last xs) b) ≡ ok (xs ++ b)
extended-ok xs b h = ap (extended xs b) (validate-ok xs b h)

extended-entries :
    (xs b ys : List StorageEntry) (r : Result StorageError (Unit {0}))
    → extended xs b r ≡ ok ys
    → ys ≡ xs ++ b
extended-entries xs b ys (ok u) h = sym (ok_inj h)
extended-entries xs b ys (err e) h = elim (ok≢err ys e (sym h)) [ ]

mutual
  unfolding apply_frame_to_entries apply_frames entries_in entries_of

  pub apply_frame-entries :
      (xs : List StorageEntry) (f : AofFrame) (ys : List StorageEntry)
      → apply_frame_to_entries xs f ≡ ok ys
      → ys ≡ xs ++ entries_in f
  apply_frame-entries xs (entry e) ys h = extended-entries xs (e ∷ []) ys _ h
  apply_frame-entries xs (batch []) ys h = elim (ok≢err ys (codec []) (sym h)) [ ]
  apply_frame-entries xs (batch (b ∷ bs)) ys h = extended-entries xs (b ∷ bs) ys _ h
  apply_frame-entries xs (group nil) ys h = elim (ok≢err ys (codec []) (sym h)) [ ]
  apply_frame-entries xs (group (cons f fs)) ys h =
      let (zs, p, q) = bind_ok (apply_frame_to_entries xs f) _ ys h in
      apply_frames-entries zs fs ys q
      ∙ ap (λ l. l ++ entries_of fs) (apply_frame-entries xs f zs p)
      ∙ append_assoc xs (entries_in f) (entries_of fs)

  apply_frames-entries :
      (xs : List StorageEntry) (fs : Frames) (ys : List StorageEntry)
      → apply_frames xs fs ≡ ok ys
      → ys ≡ xs ++ entries_of fs
  apply_frames-entries xs nil ys h = sym (ok_inj h) ∙ sym (append-nil xs)
  apply_frames-entries xs (cons f fs) ys h =
      let (zs, p, q) = bind_ok (apply_frame_to_entries xs f) _ ys h in
      apply_frames-entries zs fs ys q
      ∙ ap (λ l. l ++ entries_of fs) (apply_frame-entries xs f zs p)
      ∙ append_assoc xs (entries_in f) (entries_of fs)

pub rises_first :
    (xs ys zs : List StorageEntry)
    → IsIncreasing (xs ++ (ys ++ zs))
    → IsIncreasing ((xs ++ ys) ++ zs)
rises_first xs ys zs i = subst IsIncreasing (sym (append_assoc xs ys zs)) i

-- Two steps, each of which adds its entries.
pub both_added :
    (r : Result StorageError (List StorageEntry))
    (f : List StorageEntry → Result StorageError (List StorageEntry)) (xs ys zs : List StorageEntry)
    → r ≡ ok (xs ++ ys)
    → f (xs ++ ys) ≡ ok ((xs ++ ys) ++ zs)
    → (r >>= f) ≡ ok (xs ++ (ys ++ zs))
both_added r f xs ys zs h k = ap (λ x. x >>= f) h ∙ k ∙ ap ok (append_assoc xs ys zs)

mutual
  unfolding apply_frame_to_entries apply_frames entries_in entries_of is_full are_full

  pub apply_frame-ok :
      (xs : List StorageEntry) (f : AofFrame)
      → is_full f ≡ true
      → IsIncreasing (xs ++ entries_in f)
      → apply_frame_to_entries xs f ≡ ok (xs ++ entries_in f)
  apply_frame-ok xs (entry e) h i = extended-ok xs (e ∷ []) i
  apply_frame-ok xs (batch []) h i = cc
  apply_frame-ok xs (batch (b ∷ bs)) h i = extended-ok xs (b ∷ bs) i
  apply_frame-ok xs (group nil) h i = cc
  apply_frame-ok xs (group (cons f fs)) h i =
      let j = rises_first xs (entries_in f) (entries_of fs) i in
      both_added (apply_frame_to_entries xs f) (λ zs. apply_frames zs fs) xs (entries_in f)
        (entries_of fs)
        (apply_frame-ok xs f (ground arith)
          (IsIncreasing-left (xs ++ entries_in f) (entries_of fs) j))
        (apply_frames-ok (xs ++ entries_in f) fs (ground arith) j)

  apply_frames-ok :
      (xs : List StorageEntry) (fs : Frames)
      → are_full fs ≡ true
      → IsIncreasing (xs ++ entries_of fs)
      → apply_frames xs fs ≡ ok (xs ++ entries_of fs)
  apply_frames-ok xs nil h i = ap ok (sym (append-nil xs))
  apply_frames-ok xs (cons f fs) h i =
      let j = rises_first xs (entries_in f) (entries_of fs) i in
      both_added (apply_frame_to_entries xs f) (λ zs. apply_frames zs fs) xs (entries_in f)
        (entries_of fs)
        (apply_frame-ok xs f (ground arith)
          (IsIncreasing-left (xs ++ entries_in f) (entries_of fs) j))
        (apply_frames-ok (xs ++ entries_in f) fs (ground arith) j)
