-- ===== src/Storage.antt =====
-- crates/latlng-storage/src/lib.rs: log entries, their checksum, and the helpers that the backends
-- share. MD5 is a parameter, the function `digest` from the bytes consumed to the digest.
pub mod Order
pub mod Replay
pub mod Memory
pub mod Aof
pub mod Examples
use latlng.Prelude.{
  ℕ, zero, suc, ◌+◌, ◌/◌, ◌%◌, ◌≡◌, List, [], ◌∷◌, ◌++◌, Option, none, some, Result, ok, err, leb,
  ltb, if◌then◌else◌, retain, wrapping_add,
}

-- Bytes::from(..): the bytes of an encoded log record.
abbrev pub Bytes : Type 0
Bytes = List ℕ

pub data StorageError : Type 0 where
  io : Bytes → StorageError
  codec : Bytes → StorageError
  sequence_regression : ℕ → ℕ → StorageError
  closed : StorageError
  unsupported : Bytes → StorageError
  message : Bytes → StorageError

pub record CompactionResult : Type 0 where
  pub before_entries : ℕ
  pub after_entries : ℕ
  pub before_bytes : ℕ
  pub after_bytes : ℕ

pub record StorageEntry : Type 0 where
  pub sequence : ℕ
  pub timestamp_ns : ℕ
  pub command : Bytes

-- `to_le_bytes` of a u64, of which the loop gives the first `n` bytes.
unfoldable pub le_bytes : ℕ → ℕ → Bytes
le_bytes zero v = []
le_bytes (suc n) v = (v % 256) ∷ le_bytes n (v / 256)

-- The bytes that `checksum` consumes.
unfoldable pub consumed : List StorageEntry → Bytes
unfolding le_bytes
consumed [] = []
consumed (e ∷ es) =
    le_bytes 8 e.sequence ++ (le_bytes 8 e.timestamp_ns ++ (e.command ++ consumed es))

unfoldable pub checksum : {D : Type 0} → (Bytes → D) → List StorageEntry → D
unfolding consumed
checksum digest es = digest (consumed es)

-- The loop of `assert_strictly_increasing`, with its variable `last`.
unfoldable pub check_increasing : Option ℕ → List StorageEntry → Result StorageError (Unit {0})
check_increasing previous [] = ok tt
check_increasing previous (e ∷ es) =
    let rest = check_increasing (some e.sequence) es in
    elim previous [
      | none ↦ rest
      | some p ↦
          if leb e.sequence p then err (sequence_regression (wrapping_add p 1) e.sequence) else rest
    ]

unfoldable pub assert_strictly_increasing : List StorageEntry → Result StorageError (Unit {0})
unfolding check_increasing
assert_strictly_increasing es = check_increasing none es

-- A callback that may fail, and that may write to its state before it does.
abbrev pub Callback {ℓ} : Type ℓ → Type ℓ
Callback S = StorageEntry → S → Result StorageError (Unit {0}) × S

-- The loop of `replay_entries`, with its variable `last`.
unfoldable pub replay_from :
    {S : Type 0} → Callback S → ℕ → List StorageEntry → S → Result StorageError ℕ × S
replay_from callback last [] s = (ok last, s)
replay_from callback last (e ∷ es) s =
    let (r, s') = callback e s in
    elim r [ ok _ ↦ replay_from callback e.sequence es s' | err x ↦ (err x, s') ]

unfoldable pub replay_entries :
    {S : Type 0} → List StorageEntry → ℕ → Callback S → S → Result StorageError ℕ × S
unfolding replay_from
replay_entries entries after_seq callback s =
    replay_from callback after_seq (retain (λ e. ltb after_seq e.sequence) entries) s
