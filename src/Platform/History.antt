-- ===== src/Platform/History.antt =====
-- The mailbox against the list of all values ever sent: it holds the last `capacity` of them.
use latlng.Prelude.{
  ℕ, zero, suc, ◌+◌, ◌-◌, ◌≤◌, ◌<◌, ◌≡◌, refl, sym, ◌∙◌, ap, List, [], ◌∷◌, ◌++◌, arith, length,
  length-append, length-drop, drop, max, u64_max, dec_lt,
}
use latlng.Platform.{MailboxState, new, push, trim}

module _ {T : Type 0} where
  -- The values of a history from number `n` on, each with its number.
  abbrev pub number : ℕ → List T → List (ℕ × T)
  number n [] = []
  number n (x ∷ xs) = (n, x) ∷ number (suc n) xs

  pub length-number : (n : ℕ) (xs : List T) → length (number n xs) ≡ length xs
  length-number n [] = refl
  length-number n (x ∷ xs) = ap suc (length-number (suc n) xs)

  drop-nil : (n : ℕ) → drop {A = T} n [] ≡ []
  drop-nil zero = refl
  drop-nil (suc n) = refl

  number-append :
      (n m : ℕ) (xs : List T) (x : T)
      → n + length xs ≡ m
      → number n xs ++ (m, x) ∷ [] ≡ number n (xs ++ x ∷ [])
  number-append n m [] x e = ap (λ k. (k, x) ∷ []) (omega arith)
  number-append n m (y ∷ xs) x e = ap (◌∷◌ (n, y)) (number-append (suc n) m xs x (omega arith))

  -- The numbered part of the history that a mailbox of this capacity keeps.
  abbrev pub kept : ℕ → List T → List (ℕ × T)
  kept capacity h = number (length h - capacity) (drop (length h - capacity) h)

  pub record Holds (s : MailboxState T) (h : List T) : Type 0 where
    pub room : 1 ≤ s.capacity
    pub counted : s.next_sequence ≡ length h
    pub started : s.start_sequence ≡ length h - s.capacity
    pub held : s.items ≡ kept s.capacity h

  pub new-Holds : (c : ℕ) → Holds (new c) []
  unfolding new
  new-Holds c = record {
    room = omega arith;
    counted = refl;
    started = omega arith;
    held = ap (λ l. number (0 - max c 1) l) (sym (drop-nil (0 - max c 1)));
  }

  trim-keep : (c n : ℕ) (xs : List T) → length xs ≤ c → trim c (number n xs) n ≡ (number n xs, n)
  unfolding trim
  trim-keep c n [] h = refl
  trim-keep c n (x ∷ xs) h = ground (arith, length-number (suc n) xs)

  trim-number :
      (c d n : ℕ) (xs : List T)
      → length xs ≡ c + d
      → n + length xs < u64_max
      → trim c (number n xs) n ≡ (number (n + d) (drop d xs), n + d)
  unfolding trim
  trim-number c zero n xs e h =
      let z : n ≡ n + 0 = omega arith in rw (← z) (trim-keep c n xs (omega arith))
  trim-number c (suc d) n [] e h = absurd (omega arith)
  trim-number c (suc d) n (x ∷ xs) e h =
      let z : suc n + d ≡ n + suc d = omega arith in
      ground (
        arith,
        length-number (suc n) xs,
        rw z at (trim-number c d (suc n) xs (omega arith) (omega arith)),
      )

  drop-drop : (m n : ℕ) (xs : List T) → drop m (drop n xs) ≡ drop (n + m) xs
  drop-drop m zero xs = ap (λ k. drop k xs) (omega arith)
  drop-drop m (suc n) [] = ap (λ l. l) (drop-nil m ∙ sym (drop-nil (suc n + m)))
  drop-drop m (suc n) (x ∷ xs) =
      let z : suc (n + m) ≡ suc n + m = omega arith in
      drop-drop m n xs ∙ ap (λ k. drop k (x ∷ xs)) z

  drop-append :
      (n : ℕ) (xs : List T) (x : T) → n ≤ length xs → drop n (xs ++ x ∷ []) ≡ drop n xs ++ x ∷ []
  drop-append zero xs x h = refl
  drop-append (suc n) [] x h = absurd (omega arith)
  drop-append (suc n) (y ∷ xs) x h = drop-append n xs x (omega arith)

  -- The items before the trim, and after it.
  pushed :
      (s : MailboxState T) (h : List T) (v : T)
      → Holds s h
      → s.items ++ (s.next_sequence, v) ∷ []
        ≡ number s.start_sequence (drop s.start_sequence (h ++ v ∷ []))
  pushed s h v q =
      rw (q.held, q.counted, q.started, drop-append (length h - s.capacity) h v (omega arith))
        (number-append (length h - s.capacity) (length h) (drop (length h - s.capacity) h) v
          (omega (arith, length-drop (length h - s.capacity) h)))

  -- What the mailbox holds of a history from number `k` on.
  abbrev from_number : List T → ℕ → List (ℕ × T) × ℕ
  from_number h k = (number k (drop k h), k)

  trimmed :
      (s : MailboxState T) (h : List T) (v : T)
      → Holds s h
      → length h + 1 < u64_max
      → trim s.capacity (s.items ++ (s.next_sequence, v) ∷ []) s.start_sequence
        ≡ from_number (h ++ v ∷ []) (length h + 1 - s.capacity)
  trimmed s h v q b =
      let st = s.start_sequence in
      let w = drop st (h ++ v ∷ []) in
      let l : length w ≡ length h + 1 - st =
        omega (arith, length-drop st (h ++ v ∷ []), length-append h (v ∷ [])) in
      rw (pushed s h v q) (elim (dec_lt (length h) s.capacity) [
        | yes small ↦
            let z : st ≡ length h + 1 - s.capacity = omega (arith, q.started) in
            trim-keep s.capacity st w (omega (arith, q.started)) ∙ ap (from_number (h ++ v ∷ [])) z
        | no full ↦
            let z : st + 1 ≡ length h + 1 - s.capacity = omega (arith, q.started) in
            trim-number s.capacity 1 st w (omega (arith, q.started)) (omega (arith, q.started))
            ∙ ap (λ r. (number (st + 1) r, st + 1)) (drop-drop 1 st (h ++ v ∷ []))
            ∙ ap (from_number (h ++ v ∷ [])) z
      ])

  -- A mailbox that holds a history holds the longer history after a send, whether or not the send
  -- drops an old value, as long as the count of sends fits a u64.
  pub push-Holds :
      (s : MailboxState T) (h : List T) (v : T)
      → Holds s h
      → length h + 1 < u64_max
      → Holds (push s v) (h ++ v ∷ [])
  unfolding push
  push-Holds s h v q b =
      let l : length h + 1 ≡ length (h ++ v ∷ []) = omega (arith, length-append h (v ∷ [])) in
      let t = trimmed s h v q b ∙ ap (λ k. from_number (h ++ v ∷ []) (k - s.capacity)) l in
      record {
        room = q.room;
        counted = ground (arith, q.counted);
        started = ap (λ p. p.1) t;
        held = ap (λ p. p.0) t;
      }
