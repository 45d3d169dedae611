-- ===== src/Platform/Examples.antt =====
-- A mailbox of two places, and the theorems about it.
use latlng.Prelude.{ℕ, ◌≡◌, refl, List, [], ◌∷◌, arith}
use latlng.Platform.{MailboxState, new, push, try_recv}
use latlng.Platform.History.{new-Holds}
use latlng.Platform.Delivery.{
  Event, send, receive, receives, InOrder, fifo, receives-InOrder, receives-fifo,
}

abbrev events : List (Event ℕ)
events = send 7 ∷ send 8 ∷ send 9 ∷ receive ∷ send 10 ∷ receive ∷ receive ∷ []

abbrev sent : List ℕ
sent = 7 ∷ []

abbrev one_sent : MailboxState ℕ
one_sent = push (new 2) 7

-- The third send drops the first value, and the receiver skips it.
overflow_skips : receives (new 2) 0 events ≡ 8 ∷ 9 ∷ 10 ∷ []
unfolding receives push try_recv new
overflow_skips = refl

receives-InOrder_example : InOrder (7 ∷ 8 ∷ 9 ∷ 10 ∷ []) 0 (receives (new 2) 0 events)
receives-InOrder_example =
    receives-InOrder events (new 2) [] 0 (new-Holds 2) (omega arith) (omega arith)

-- The first receive finds nothing.
receives-fifo_example : receives (new 8) 0 (receive ∷ events) ≡ fifo [] (receive ∷ events)
unfolding new
receives-fifo_example =
    receives-fifo (receive ∷ events) (new 8) [] 0 (new-Holds 8) (omega arith) (omega arith)
      (omega arith)
