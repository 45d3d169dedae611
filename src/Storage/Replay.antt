-- ===== src/Storage/Replay.antt =====
-- `replay_entries`: which entries a callback sees, and where a replay resumes.
use mathlib.Core.List.{append_assoc, append-nil}
use latlng.Prelude.{
  ℕ, ◌<◌, ◌≤◌, ◌≡◌, refl, sym, subst, List, [], ◌∷◌, ◌++◌, ok, arith, ltb, retain, retain-append,
  dec_lt,
}
use latlng.Storage.{StorageEntry, Callback, replay_from, replay_entries}
use latlng.Storage.Order.{Above, last_or, Above-left, Above-right, le-last_or}

-- The entries above a sequence number.
abbrev pub newer : ℕ → List StorageEntry → List StorageEntry
newer n = retain (λ e. ltb n e.sequence)

pub newer-none :
    (m n : ℕ) (es : List StorageEntry) → Above n es → last_or n es ≤ m → newer m es ≡ []
newer-none m n [] a h = refl
newer-none m n (e ∷ es) a h =
    ground (arith, newer-none m e.sequence es a.1 h, le-last_or e.sequence es a.1)

Above_mono : (m n : ℕ) (es : List StorageEntry) → m ≤ n → Above n es → Above m es
Above_mono m n [] h a = tt
Above_mono m n (e ∷ es) h a = (omega arith, a.1)

pub newer-all : (m : ℕ) (es : List StorageEntry) → Above m es → newer m es ≡ es
newer-all m [] a = refl
newer-all m (e ∷ es) a =
    ground (arith, newer-all m es (Above_mono m e.sequence es (omega arith) a.1))

-- What stands behind a prefix of a log is what is newer than the prefix.
pub newer-append :
    (xs ys : List StorageEntry) → Above 0 (xs ++ ys) → newer (last_or 0 xs) (xs ++ ys) ≡ ys
newer-append xs ys a =
    rw
      (
        retain-append,
        newer-none (last_or 0 xs) 0 xs (Above-left 0 xs ys a) (omega arith),
        newer-all (last_or 0 xs) ys (Above-right 0 xs ys a),
      )
      refl

-- A callback that keeps every entry.
abbrev pub collect : Callback (List StorageEntry)
collect e s = (ok tt, s ++ e ∷ [])

replay_from-collect :
    (n : ℕ) (es s : List StorageEntry) → replay_from collect n es s ≡ (ok (last_or n es), s ++ es)
unfolding replay_from
replay_from-collect n [] s = rw (append-nil s) refl
replay_from-collect n (e ∷ es) s =
    rw (replay_from-collect e.sequence es (s ++ e ∷ []), append_assoc s (e ∷ []) es) refl

newer-head :
    (n : ℕ) (e : StorageEntry) (es : List StorageEntry)
    → n < e.sequence
    → Above e.sequence es
    → newer n (e ∷ es) ≡ e ∷ es
newer-head n e es h a = ground (arith, newer-all n es (Above_mono n e.sequence es (omega arith) a))

newer-Above : (k n : ℕ) (es : List StorageEntry) → Above k es → Above n (newer n es)
newer-Above k n [] a = tt
newer-Above k n (e ∷ es) a = elim (dec_lt n e.sequence) [
  | yes h ↦ rw (newer-head n e es h a.1) (h, a.1)
  | no h ↦ ground (arith, newer-Above e.sequence n es a.1)
]

newer-last :
    (k n : ℕ) (es : List StorageEntry) → Above k es → newer (last_or n (newer n es)) es ≡ []
newer-last k n [] a = refl
newer-last k n (e ∷ es) a = elim (dec_lt n e.sequence) [
  | yes h ↦
      subst (λ l. newer (last_or n l) (e ∷ es) ≡ []) (sym (newer-head n e es h a.1))
        (newer-none (last_or e.sequence es) k (e ∷ es) a (omega arith))
  | no h ↦ ground (
    arith,
    newer-last e.sequence n es a.1,
    le-last_or n (newer n es) (newer-Above e.sequence n es a.1),
  )
]

-- A replay hands over exactly the entries above the given sequence number, in log order, and
-- returns the sequence number of the last of them, or the given one where there are none. Replaying
-- from there hands over nothing. The log rises strictly from 1 or more.
pub replay_resumes :
    (es : List StorageEntry) (n : ℕ)
    → Above 0 es
    → (replay_entries es n collect [] ≡ (ok (last_or n (newer n es)), newer n es))
      × (newer (last_or n (newer n es)) es ≡ [])
unfolding replay_entries
replay_resumes es n a = (replay_from-collect n (newer n es) [], newer-last 0 n es a)
