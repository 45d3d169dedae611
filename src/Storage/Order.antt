-- ===== src/Storage/Order.antt =====
-- `assert_strictly_increasing` decides that the sequence numbers of a batch rise strictly.
use latlng.Prelude.{ℕ, ◌<◌, ◌≤◌, ◌≡◌, refl, ◌↔◌, List, [], ◌∷◌, ◌++◌, some, ok, arith}
use latlng.Storage.{StorageEntry, assert_strictly_increasing, check_increasing}

-- Every sequence number is above `n`, and they rise strictly.
abbrev pub Above : ℕ → List StorageEntry → Type 0
Above n [] = Unit
Above n (e ∷ es) = (n < e.sequence) × Above e.sequence es

abbrev pub IsIncreasing : List StorageEntry → Type 0
IsIncreasing [] = Unit
IsIncreasing (e ∷ es) = Above e.sequence es

check→Above : (n : ℕ) (es : List StorageEntry) → check_increasing (some n) es ≡ ok tt → Above n es
unfolding check_increasing
check→Above n [] h = tt
check→Above n (e ∷ es) h = ground (arith, check→Above e.sequence es)

Above→check : (n : ℕ) (es : List StorageEntry) → Above n es → check_increasing (some n) es ≡ ok tt
unfolding check_increasing
Above→check n [] h = refl
Above→check n (e ∷ es) h = ground (arith, Above→check e.sequence es h.1)

assert→IsIncreasing :
    (es : List StorageEntry) → assert_strictly_increasing es ≡ ok tt → IsIncreasing es
unfolding assert_strictly_increasing
assert→IsIncreasing [] h = tt
assert→IsIncreasing (e ∷ es) h = check→Above e.sequence es h

IsIncreasing→assert :
    (es : List StorageEntry) → IsIncreasing es → assert_strictly_increasing es ≡ ok tt
unfolding assert_strictly_increasing
IsIncreasing→assert [] h = refl
IsIncreasing→assert (e ∷ es) h = Above→check e.sequence es h

-- A batch passes exactly when its sequence numbers rise strictly.
pub assert_strictly_increasing_iff :
    (es : List StorageEntry) → (assert_strictly_increasing es ≡ ok tt) ↔ IsIncreasing es
assert_strictly_increasing_iff es = (assert→IsIncreasing es, IsIncreasing→assert es)

pub Above→IsIncreasing : (n : ℕ) (es : List StorageEntry) → Above n es → IsIncreasing es
Above→IsIncreasing n [] h = tt
Above→IsIncreasing n (e ∷ es) h = h.1

-- The last sequence number of a log, or `n` where the log is empty.
abbrev pub last_or : ℕ → List StorageEntry → ℕ
last_or n [] = n
last_or n (e ∷ es) = last_or e.sequence es

pub Above-append :
    (n : ℕ) (xs ys : List StorageEntry) → Above n xs → Above (last_or n xs) ys → Above n (xs ++ ys)
Above-append n [] ys h k = k
Above-append n (x ∷ xs) ys h k = (h.0, Above-append x.sequence xs ys h.1 k)

pub Above-left : (n : ℕ) (xs ys : List StorageEntry) → Above n (xs ++ ys) → Above n xs
Above-left n [] ys h = tt
Above-left n (x ∷ xs) ys h = (h.0, Above-left x.sequence xs ys h.1)

pub Above-right : (n : ℕ) (xs ys : List StorageEntry) → Above n (xs ++ ys) → Above (last_or n xs) ys
Above-right n [] ys h = h
Above-right n (x ∷ xs) ys h = Above-right x.sequence xs ys h.1

pub le-last_or : (n : ℕ) (es : List StorageEntry) → Above n es → n ≤ last_or n es
le-last_or n [] h = omega arith
le-last_or n (e ∷ es) h = omega (arith, le-last_or e.sequence es h.1)
