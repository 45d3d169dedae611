-- ===== src/Webhooks/Stats.antt =====
-- What the release of expired leases, `stats` and `next_due_at_ms` of crates/latlng-webhook-queue do.
use mathlib.Core.Bool.{true≢false}
use latlng.Prelude.{
  ℕ, ◌+◌, ◌≤◌, String, Option, none, some, true, false, ◌&&◌, [], ◌∷◌, length, any, All, ◌≡◌, sym,
  ◌∙◌, arith, ltb, ltb→lt, string_key, nat_key, ◌==◌, ==_refl, Bool-cases, inl, inr, All-map,
}
use latlng.Webhooks.{Queue, Row, is_pending, stats, oldest_pending, next_due_at_ms, least}

-- `stats` counts every row once: pending, leased and dead rows make up the table.
pub stats-total :
    (now : ℕ) (q : Queue)
    → (stats now q).pending + (stats now q).leased + (stats now q).dead_letter ≡ length q
unfolding stats
stats-total now [] = omega arith
stats-total now ((k, r) ∷ q) = ground (arith, stats-total now q)

-- The least time of the pending rows, where there is one.
abbrev pub IsLeast : Queue → Option ℕ → Type 0
IsLeast q none = All (λ e. is_pending e.1 ≡ false) q
IsLeast q (some t) =
    All (λ e. is_pending e.1 ≡ true → t ≤ e.1.next_attempt_at_ms) q
    × (any (λ e. is_pending e.1 && e.1.next_attempt_at_ms == t) q ≡ true)

least-cons :
    (k : String) (r : Row) (q : Queue) (o : Option ℕ)
    → is_pending r ≡ true
    → IsLeast q o
    → IsLeast ((k, r) ∷ q) (least r.next_attempt_at_ms o)
least-cons k r q none p h = (
  (λ x. omega arith, All-map _ _ q (λ e n y. elim (true≢false (sym y ∙ n)) [ ]) h),
  ground (arith, ==_refl r.next_attempt_at_ms),
)
least-cons k r q (some t) p h = elim (Bool-cases (ltb r.next_attempt_at_ms t)) [
  | inl l ↦ rw l (
    (λ x. omega arith, All-map _ _ q (λ e n y. omega (arith, n y, ltb→lt _ t l)) h.0),
    ground (arith, ==_refl r.next_attempt_at_ms),
  )
  | inr l ↦ rw l ((λ x. ground arith, h.0), ground arith)
]

not_pending :
    (k : String) (r : Row) (q : Queue) (o : Option ℕ)
    → is_pending r ≡ false
    → IsLeast q o
    → IsLeast ((k, r) ∷ q) o
not_pending k r q none p h = (p, h)
not_pending k r q (some t) p h = ((λ y. elim (true≢false (sym y ∙ p)) [ ], h.0), ground arith)

oldest_pending_lem : (q : Queue) → IsLeast q (oldest_pending q)
unfolding oldest_pending
oldest_pending_lem [] = tt
oldest_pending_lem ((k, r) ∷ q) = elim (Bool-cases (is_pending r)) [
  | inl e ↦ rw e (least-cons k r q (oldest_pending q) e (oldest_pending_lem q))
  | inr e ↦ rw e (not_pending k r q (oldest_pending q) e (oldest_pending_lem q))
]

-- `next_due_at_ms` is the least time of the pending rows, and none where no row is pending.
pub next_due_at_ms-IsLeast : (q : Queue) → IsLeast q (next_due_at_ms q)
unfolding next_due_at_ms
next_due_at_ms-IsLeast q = oldest_pending_lem q
