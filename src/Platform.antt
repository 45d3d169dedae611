-- ===== src/Platform.antt =====
-- crates/latlng-platform/src/lib.rs: the bounded mailbox behind every channel, native and wasm. Its
-- lock makes each send and each receive one step, so an interleaving is a sequence of steps.
pub mod History
pub mod Delivery
pub mod Examples
use latlng.Prelude.{
  ℕ, ◌+◌, ◌-◌, List, [], ◌∷◌, ◌++◌, Option, none, some, max, ltb, if◌then◌else◌, length, get_elem?,
  saturating_add,
}

pub record MailboxState (T : Type 0) : Type 0 where
  pub capacity : ℕ
  pub start_sequence : ℕ
  pub next_sequence : ℕ
  pub items : List (ℕ × T)

module _ {T : Type 0} where
  unfoldable pub new : ℕ → MailboxState T
  new capacity = record {
    capacity = max capacity 1;
    start_sequence = 0;
    next_sequence = 0;
    items = [];
  }

  -- The loop `while items.len() > capacity` of `push`: the items left, and `start_sequence`.
  unfoldable pub trim : ℕ → List (ℕ × T) → ℕ → List (ℕ × T) × ℕ
  trim capacity [] start = ([], start)
  trim capacity (x ∷ xs) start =
      let rest = trim capacity xs (saturating_add start 1) in
      if ltb capacity (length (x ∷ xs)) then rest else (x ∷ xs, start)

  -- `send`, on every platform: it never fails.
  unfoldable pub push : MailboxState T → T → MailboxState T
  unfolding trim
  push s value =
      let (kept, start) =
        trim s.capacity (s.items ++ (s.next_sequence, value) ∷ []) s.start_sequence in
      record s {
        next_sequence = saturating_add s.next_sequence 1;
        items = kept;
        start_sequence = start;
      }

  -- The end of `receive_from_state`, from `let index` on.
  unfoldable pub receive_at : ℕ → List (ℕ × T) → ℕ → Option T × ℕ
  receive_at start items next = elim (get_elem? items (next - start)) [
    | none ↦ (none, next)
    | some (_, value) ↦ (some value, saturating_add next 1)
  ]

  -- The receiver's `next_sequence` is passed and returned. It is moved up to `start_sequence` also
  -- where nothing is received.
  unfoldable pub receive_from_state : ℕ → List (ℕ × T) → ℕ → Option T × ℕ
  unfolding receive_at
  receive_from_state start items next_sequence =
      receive_at start items (if ltb next_sequence start then start else next_sequence)

  unfoldable pub try_recv : MailboxState T → ℕ → Option T × ℕ
  unfolding receive_from_state
  try_recv s next_sequence = receive_from_state s.start_sequence s.items next_sequence
