-- ===== src/Webhooks/Expired.antt =====
-- What the release of expired leases of crates/latlng-webhook-queue does to each row.
use mathlib.Core.Bool.{true≢false}
use latlng.Prelude.{
  ℕ, suc, omap, ◌≤◌, String, Bool, Option, none, some, true, false, ◌&&◌, [], ◌∷◌, ◌≡◌, refl, sym,
  ap, ◌∙◌, arith, leb, string_key, Bool-cases, if◌then◌else◌, inl, inr, ◌↔◌, ◌⊎◌,
}
use latlng.Prelude.Map
use latlng.Webhooks.{
  Queue, Row, JobState, pending, leased, dead_letter, release_expired, has_expired, release,
}

-- The row is leased, and its lease has a deadline that is not after `now`.
abbrev pub HasRunOut : ℕ → Row → Type 0
HasRunOut now r = (r.state ≡ leased) × (t : ℕ) × (r.lease_expires_at_ms ≡ some t) × (t ≤ now)

-- As many rows have run out as the number says.
abbrev pub RunOutCount : ℕ → Queue → ℕ → Type 0
RunOutCount now [] n = n ≡ 0
RunOutCount now ((k, r) ∷ q) n =
    (HasRunOut now r × (m : ℕ) × (n ≡ suc m) × RunOutCount now q m)
    ⊎ (¬ HasRunOut now r × RunOutCount now q n)

abbrev state_test : ℕ → JobState → Option ℕ → Bool
state_test now s d = elim d [
  | none ↦ false
  | some t ↦ (elim s [ pending ↦ false | leased ↦ true | dead_letter ↦ false ]) && leb t now
]

same_deadline : (t x : ℕ) → Path (Option ℕ) (some t) (some x) → t ≡ x
same_deadline t x h = cc

state_test_iff :
    (now : ℕ) (s : JobState) (d : Option ℕ)
    → (state_test now s d ≡ true) ↔ ((s ≡ leased) × (t : ℕ) × (d ≡ some t) × (t ≤ now))
state_test_iff now s none = (λ h. cc, λ h. cc)
state_test_iff now pending (some t) = (λ h. cc, λ h. cc)
state_test_iff now dead_letter (some t) = (λ h. cc, λ h. cc)
state_test_iff now leased (some t) =
    (λ h. (refl, t, refl, ground arith), λ h. ground (arith, same_deadline t h.1 h.2))

has_expired_iff : (now : ℕ) (r : Row) → (has_expired now r ≡ true) ↔ HasRunOut now r
has_expired_iff now r = state_test_iff now r.state r.lease_expires_at_ms

not_run_out : (now : ℕ) (r : Row) → has_expired now r ≡ false → ¬ HasRunOut now r
not_run_out now r e h = true≢false (sym ((has_expired_iff now r).1 h) ∙ e)

not_expired : (now : ℕ) (r : Row) → ¬ HasRunOut now r → has_expired now r ≡ false
not_expired now r n = elim (Bool-cases (has_expired now r)) [
  | inl e ↦ elim (n ((has_expired_iff now r).0 e)) [ ]
  | inr e ↦ e
]

release_expired_row :
    (now : ℕ) (k : String) (q : Queue)
    → Map.get k (release_expired now q).0
      ≡ omap (λ r. if has_expired now r then release now r else r) (Map.get k q)
unfolding release_expired Map.get
release_expired_row now k [] = refl
release_expired_row now k ((j, r) ∷ q) =
    let rest = release_expired_row now k q in
    elim (Bool-cases (has_expired now r)) [ inl e ↦ ground arith | inr e ↦ ground arith ]

release_expired_count : (now : ℕ) (q : Queue) → RunOutCount now q (release_expired now q).1
unfolding release_expired
release_expired_count now [] = refl
release_expired_count now ((k, r) ∷ q) = elim (Bool-cases (has_expired now r)) [
  | inl e ↦ rw e (
      inl
        ((has_expired_iff now r).0 e, (release_expired now q).1, refl, release_expired_count now q))
  | inr e ↦ rw e (inr (not_run_out now r e, release_expired_count now q))
]

-- A row that its lease's end leaves to be released, and one that it does not.
released :
    (now : ℕ) (k : String) (r : Row) (q : Queue) (b : Bool)
    → Map.get k q ≡ some r
    → has_expired now r ≡ b
    → Map.get k (release_expired now q).0 ≡ some (if b then release now r else r)
released now k r q b h e =
    release_expired_row now k q
    ∙ ap (omap (λ x. if has_expired now x then release now x else x)) h
    ∙ ap (λ c. some (if c then release now r else r)) e

-- Where a table has a row: if the row is leased and its lease's deadline is not after now, a release makes
-- it pending, without an owner and a deadline, and written now, with the other columns as they are; if not,
-- it stays as it is. The number of rows of the former kind in the table is answered.
pub release_expired-HasRunOut :
    (now : ℕ) (k : String) (r : Row) (q : Queue)
    → Map.get k q ≡ some r
    → (HasRunOut now r
        → Map.get k (release_expired now q).0
          ≡ some (record r {
            state = pending;
            lease_owner = none;
            lease_expires_at_ms = none;
            updated_at_ms = now;
          }))
      × (¬ HasRunOut now r → Map.get k (release_expired now q).0 ≡ some r)
      × RunOutCount now q (release_expired now q).1
release_expired-HasRunOut now k r q h = (
  λ e. released now k r q true h ((has_expired_iff now r).1 e),
  λ n. released now k r q false h (not_expired now r n),
  release_expired_count now q,
)
