-- ===== src/Platform/Delivery.antt =====
-- What one receiver sees of a mailbox while values are sent and received in any order.
use mathlib.Core.List.{append_assoc}
use latlng.Prelude.{
  ℕ, zero, suc, ◌+◌, ◌-◌, ◌≤◌, ◌<◌, ◌≡◌, refl, sym, ◌∙◌, ap, subst, List, [], ◌∷◌, ◌++◌, Option,
  none, some, arith, length, length-append, get_elem?, drop, max, ltb, u64_max, if◌then◌else◌,
}
use latlng.Platform.{MailboxState, push, receive_at, receive_from_state, try_recv}
use latlng.Platform.History.{Holds, push-Holds, number}

module _ {T : Type 0} where
  abbrev numbered : ℕ → Option T → Option (ℕ × T)
  numbered n none = none
  numbered n (some x) = some (n, x)

  get_elem?-number :
      (n i : ℕ) (xs : List T) → get_elem? (number n xs) i ≡ numbered (n + i) (get_elem? xs i)
  get_elem?-number n i [] = refl
  get_elem?-number n zero (x ∷ xs) = ap (λ k. some (k, x)) (omega arith)
  get_elem?-number n (suc i) (x ∷ xs) =
      let z : suc n + i ≡ n + suc i = omega arith in
      get_elem?-number (suc n) i xs ∙ ap (λ k. numbered k (get_elem? xs i)) z

  get_elem?-drop : (k i : ℕ) (xs : List T) → get_elem? (drop k xs) i ≡ get_elem? xs (k + i)
  get_elem?-drop zero i xs = ap (get_elem? xs) (omega arith)
  get_elem?-drop (suc k) i [] = refl
  get_elem?-drop (suc k) i (x ∷ xs) =
      let z : suc (k + i) ≡ suc k + i = omega arith in
      get_elem?-drop k i xs ∙ ap (get_elem? (x ∷ xs)) z

  -- The number of the next value that a receiver at `r` can get.
  abbrev pub position : MailboxState T → List T → ℕ → ℕ
  position s h r = max r (length h - s.capacity)

  abbrev outcome : Option T → ℕ → Option T × ℕ
  outcome none n = (none, n)
  outcome (some v) n = (some v, n + 1)

  abbrev pub received : List T → ℕ → Option T × ℕ
  received h n = outcome (get_elem? h n) n

  get_elem?-lt : (h : List T) (n : ℕ) (v : T) → get_elem? h n ≡ some v → n < length h
  get_elem?-lt [] n v e = cc
  get_elem?-lt (x ∷ h) zero v e = omega arith
  get_elem?-lt (x ∷ h) (suc n) v e = omega (arith, get_elem?-lt h n v e)

  item_at :
      (s : MailboxState T) (h : List T) (n : ℕ)
      → Holds s h
      → length h - s.capacity ≤ n
      → get_elem? s.items (n - s.start_sequence) ≡ numbered n (get_elem? h n)
  item_at s h n q l =
      let st = length h - s.capacity in
      let z : st + (n - st) ≡ n = omega arith in
      rw (q.held, q.started)
        (get_elem?-number st (n - st) (drop st h)
          ∙ ap (numbered (st + (n - st))) (get_elem?-drop st (n - st) h)
          ∙ ap (λ k. numbered k (get_elem? h k)) z)

  receive_lem :
      (start n : ℕ) (items : List (ℕ × T)) (o : Option T)
      → n < u64_max
      → get_elem? items (n - start) ≡ numbered n o
      → receive_at start items n ≡ outcome o n
  unfolding receive_at
  receive_lem start n items none b g = rw (g, receive_at) refl
  receive_lem start n items (some v) b g = rw (g, receive_at) (ground arith)

  -- Where a mailbox holds a history whose length fits a u64, a receiver gets its value at its own position, or at the oldest one still held
  -- if that is later, and moves behind it; at the end of the history it gets nothing.
  pub try_recv-history :
      (s : MailboxState T) (h : List T) (r : ℕ)
      → Holds s h
      → r ≤ length h
      → length h < u64_max
      → try_recv s r ≡ received h (position s h r)
  unfolding try_recv receive_from_state
  try_recv-history s h r q l b =
      let n = position s h r in
      let z : (if ltb r s.start_sequence then s.start_sequence else r) ≡ n =
        ground (arith, q.started) in
      ap (receive_at s.start_sequence s.items) z
      ∙ receive_lem s.start_sequence n s.items (get_elem? h n) (omega arith)
          (item_at s h n q (omega arith))

pub data Event (T : Type 0) : Type 0 where
  send : T → Event T
  receive : Event T

module _ {T : Type 0} where
  -- The values that events send, and those that one receiver gets.
  abbrev pub sends : List (Event T) → List T
  sends [] = []
  sends (send v ∷ evs) = v ∷ sends evs
  sends (receive ∷ evs) = sends evs

  abbrev pub with_value : Option T → List T → List T
  with_value none vs = vs
  with_value (some v) vs = v ∷ vs

  unfoldable pub receives : MailboxState T → ℕ → List (Event T) → List T
  receives s r [] = []
  receives s r (send v ∷ evs) = receives (push s v) r evs
  receives s r (receive ∷ evs) = let (o, r') = try_recv s r in with_value o (receives s r' evs)

  -- The values stand in the history, in this order, at rising positions from `n` on.
  abbrev pub InOrder : List T → ℕ → List T → Type 0
  InOrder h n [] = Unit
  InOrder h n (v ∷ vs) = (i : ℕ) × (n ≤ i) × (get_elem? h i ≡ some v) × InOrder h (suc i) vs

  get_elem?-append :
      (xs ys : List T) (i : ℕ) (v : T) → get_elem? xs i ≡ some v → get_elem? (xs ++ ys) i ≡ some v
  get_elem?-append [] ys i v e = cc
  get_elem?-append (x ∷ xs) ys zero v e = e
  get_elem?-append (x ∷ xs) ys (suc i) v e = get_elem?-append xs ys i v e

  InOrder-later : (h : List T) (m n : ℕ) (vs : List T) → m ≤ n → InOrder h n vs → InOrder h m vs
  InOrder-later h m n [] l o = tt
  InOrder-later h m n (v ∷ vs) l o = (o.0, omega arith, o.2, o.3)

  -- One receive at position `n` of a history.
  InOrder-outcome :
      (g h : List T) (r n : ℕ) (o : Option T) (f : ℕ → List T)
      → r ≤ n
      → get_elem? h n ≡ o
      → InOrder (h ++ g) n (f n)
      → (n < length h → InOrder (h ++ g) (n + 1) (f (n + 1)))
      → InOrder (h ++ g) r (with_value (outcome o n).0 (f (outcome o n).1))
  InOrder-outcome g h r n none f l e k k' = InOrder-later (h ++ g) r n (f n) l k
  InOrder-outcome g h r n (some v) f l e k k' = (
    n,
    l,
    get_elem?-append h g n v e,
    InOrder-later (h ++ g) (suc n) (n + 1) (f (n + 1)) (omega arith) (k' (get_elem?-lt h n v e)),
  )

  -- What a receiver gets from a mailbox that holds a history, however sends and receives
  -- interleave, are values sent, each at most once and in the order of sending: an overflow only
  -- leaves a gap. The count of sends fits a u64.
  pub receives-InOrder :
      (evs : List (Event T)) (s : MailboxState T) (h : List T) (r : ℕ)
      → Holds s h
      → r ≤ length h
      → length (h ++ sends evs) < u64_max
      → InOrder (h ++ sends evs) r (receives s r evs)
  unfolding receives
  receives-InOrder [] s h r q l b = tt
  receives-InOrder (send v ∷ evs) s h r q l b =
      let e = append_assoc h (v ∷ []) (sends evs) in
      subst (λ g. InOrder g r (receives (push s v) r evs)) e
        (receives-InOrder evs (push s v) (h ++ v ∷ []) r
          (push-Holds s h v q (omega (arith, length-append h (v ∷ sends evs))))
          (omega (arith, length-append h (v ∷ []))) (rw e b))
  receives-InOrder (receive ∷ evs) s h r q l b =
      let n = position s h r in
      subst (λ p. InOrder (h ++ sends evs) r (with_value p.0 (receives s p.1 evs)))
        (sym (try_recv-history s h r q l (omega (arith, length-append h (sends evs)))))
        (InOrder-outcome (sends evs) h r n (get_elem? h n) (λ k. receives s k evs) (omega arith)
          refl (receives-InOrder evs s h n q (omega arith) b)
          (λ m. receives-InOrder evs s h (n + 1) q (omega arith) b))

  -- What a queue without a bound hands over that holds some values: the oldest first, and nothing where
  -- it is empty.
  unfoldable pub fifo : List T → List (Event T) → List T
  fifo q [] = []
  fifo q (send v ∷ evs) = fifo (q ++ v ∷ []) evs
  fifo [] (receive ∷ evs) = fifo [] evs
  fifo (v ∷ q) (receive ∷ evs) = v ∷ fifo q evs

  drop-get_elem? :
      (h : List T) (n : ℕ) (v : T) → get_elem? h n ≡ some v → drop n h ≡ v ∷ drop (n + 1) h
  drop-get_elem? [] n v e = cc
  drop-get_elem? (x ∷ h) zero v e = ground arith
  drop-get_elem? (x ∷ h) (suc n) v e =
      let z : suc (n + 1) ≡ suc n + 1 = omega arith in
      drop-get_elem? h n v e ∙ ap (λ k. v ∷ drop k (x ∷ h)) z

  drop_end : (h : List T) (n : ℕ) → get_elem? h n ≡ none → drop n h ≡ []
  drop_end [] zero e = refl
  drop_end [] (suc n) e = refl
  drop_end (x ∷ h) zero e = cc
  drop_end (x ∷ h) (suc n) e = drop_end h n e

  drop-append :
      (h : List T) (n : ℕ) (v : T) → n ≤ length h → drop n h ++ v ∷ [] ≡ drop n (h ++ v ∷ [])
  drop-append h zero v l = refl
  drop-append [] (suc n) v l = absurd (omega arith)
  drop-append (x ∷ h) (suc n) v l = drop-append h n v (omega arith)

  -- One receive, of what stands at the position `n` of the history.
  fifo-outcome :
      (h : List T) (n : ℕ) (o : Option T) (evs : List (Event T)) (f : ℕ → List T)
      → get_elem? h n ≡ o
      → f n ≡ fifo (drop n h) evs
      → (n < length h → f (n + 1) ≡ fifo (drop (n + 1) h) evs)
      → with_value (outcome o n).0 (f (outcome o n).1) ≡ fifo (drop n h) (receive ∷ evs)
  unfolding fifo
  fifo-outcome h n none evs f e k k' =
      k
      ∙ ap (λ q. fifo q evs) (drop_end h n e)
      ∙ ap (λ q. fifo q (receive ∷ evs)) (sym (drop_end h n e))
  fifo-outcome h n (some v) evs f e k k' =
      ap (◌∷◌ v) (k' (get_elem?-lt h n v e))
      ∙ ap (λ q. fifo q (receive ∷ evs)) (sym (drop-get_elem? h n v e))

  -- As long as no more values are sent than the mailbox has room for, nothing is lost: however sends and
  -- receives interleave, a receiver of a mailbox that holds a history gets exactly what a queue without a
  -- bound hands over that holds the history from the receiver's position on: the oldest value not yet
  -- received at each receive, and nothing only where there is none. The count of sends fits a u64.
  pub receives-fifo :
      (evs : List (Event T)) (s : MailboxState T) (h : List T) (r : ℕ)
      → Holds s h
      → r ≤ length h
      → length (h ++ sends evs) < u64_max
      → length (h ++ sends evs) ≤ s.capacity
      → receives s r evs ≡ fifo (drop r h) evs
  unfolding receives push fifo
  receives-fifo [] s h r q l b c = refl
  receives-fifo (send v ∷ evs) s h r q l b c =
      let e = append_assoc h (v ∷ []) (sends evs) in
      receives-fifo evs (push s v) (h ++ v ∷ []) r
        (push-Holds s h v q (omega (arith, length-append h (v ∷ sends evs))))
        (omega (arith, length-append h (v ∷ []))) (rw e b) (rw e c)
      ∙ ap (λ w. fifo w evs) (sym (drop-append h r v l))
  receives-fifo (receive ∷ evs) s h r q l b c =
      let z : position s h r ≡ r = omega (arith, length-append h (sends evs)) in
      let t : try_recv s r ≡ received h r =
        try_recv-history s h r q l (omega (arith, length-append h (sends evs)))
        ∙ ap (received h) z in
      ap (λ p. with_value p.0 (receives s p.1 evs)) t
      ∙ fifo-outcome h r (get_elem? h r) evs (λ k. receives s k evs) refl
          (receives-fifo evs s h r q l b c) (λ m. receives-fifo evs s h (r + 1) q (omega arith) b c)
