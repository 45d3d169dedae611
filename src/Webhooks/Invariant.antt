-- ===== src/Webhooks/Invariant.antt =====
-- The invariant of the table, kept by every operation: a row has an owner and a deadline of a lease
-- exactly where its state is leased.
use latlng.Prelude.{
  ℕ, max, String, Option, some, List, [], ◌∷◌, take, saturating_add, All, Result, ok, err, ◌>>=◌,
  ◌≡◌, refl, arith, is_some, string_key, Ordering, Bool-cases, ◌==◌, nat_key, Option-cases,
  Result-cases, inl, inr,
}
use latlng.Prelude.Map
use latlng.Storage.{Bytes}
use latlng.Geofence.{GeofenceEvent}
use latlng.Core.Records.{LogRecord}
use latlng.Webhooks.{
  Queue, Row, QueueJob, QueueError, is_leased, release_expired, release_expired_leases, bind,
  lease_rows, lease_due, reset, update_row, lease, due, decode_jobs, commit_leases, has_expired,
}
use latlng.Webhooks.Log.{apply_log_record, apply_ack, apply_enqueue, apply_retry, apply_dead_letter}

-- The owner and the deadline are there where the row is leased, and only there.
abbrev pub IsRow : Row → Type 0
IsRow r = (is_some r.lease_owner ≡ is_leased r) × (is_some r.lease_expires_at_ms ≡ is_leased r)

abbrev pub IsQueue : Queue → Type 0
IsQueue q = All (λ e. IsRow e.1) q × Map.IsSorted q

rows-insert :
    (k : String) (r : Row) (q : Queue)
    → IsRow r
    → All (λ e. IsRow e.1) q
    → All (λ e. IsRow e.1) (Map.insert k r q)
unfolding Map.insert
rows-insert k r [] h a = (h, tt)
rows-insert k r ((j, s) ∷ q) h a = ground (arith, rows-insert k r q h a.1)

rows-remove :
    (k : String) (q : Queue) → All (λ e. IsRow e.1) q → All (λ e. IsRow e.1) (Map.remove k q)
unfolding Map.remove
rows-remove k [] a = tt
rows-remove k ((j, s) ∷ q) a = ground (arith, rows-remove k q a.1)

rows-get :
    (k : String) (r : Row) (q : Queue) → All (λ e. IsRow e.1) q → Map.get k q ≡ some r → IsRow r
unfolding Map.get
rows-get k r [] a h = cc
rows-get k r ((j, s) ∷ q) a h = ground (arith, rows-get k r q a.1)

insert-IsQueue :
    (k : String) (r : Row) (q : Queue) → IsRow r → IsQueue q → IsQueue (Map.insert k r q)
insert-IsQueue k r q h a = (rows-insert k r q h a.0, Map.insert-IsSorted k r q a.1)

update_row-IsQueue :
    (k : String) (f : Row → Row) (q : Queue)
    → ((r : Row) → IsRow r → IsRow (f r))
    → IsQueue q
    → IsQueue (update_row k f q)
update_row-IsQueue k f q h a = elim (Option-cases (Map.get k q)) [
  | inl e ↦ rw (e, update_row) a
  | inr (r, e) ↦ rw (e, update_row) (insert-IsQueue k (f r) q (h r (rows-get k r q a.0 e)) a)
]

lease_rows-IsQueue :
    (now : ℕ) (worker : String) (t : ℕ) (js : List QueueJob) (q : Queue)
    → IsQueue q
    → IsQueue (lease_rows now worker t js q)
unfolding lease_rows
lease_rows-IsQueue now worker t [] q a = a
lease_rows-IsQueue now worker t (j ∷ js) q a =
    lease_rows-IsQueue now worker t js _
      (update_row-IsQueue j.job_id (lease now worker t) q (λ r h. (refl, refl)) a)

above-release :
    (k : String) (now : ℕ) (q : Queue)
    → All (λ p. string_key.cmp k p.0 ≡ Ordering.lt) q
    → All (λ p. string_key.cmp k p.0 ≡ Ordering.lt) (release_expired now q).0
unfolding release_expired
above-release k now [] a = tt
above-release k now ((j, r) ∷ q) a = ground (arith, above-release k now q a.1)

release_expired-IsQueue : (now : ℕ) (q : Queue) → IsQueue q → IsQueue (release_expired now q).0
unfolding release_expired
release_expired-IsQueue now [] a = a
release_expired-IsQueue now ((k, r) ∷ q) a =
    let rest = release_expired-IsQueue now q (a.0.1, a.1.1) in
    let above = above-release k now q a.1.0 in
    elim (Bool-cases (has_expired now r)) [
      | inl e ↦ rw e (((refl, refl), rest.0), (above, rest.1))
      | inr e ↦ rw e ((a.0.0, rest.0), (above, rest.1))
    ]

-- The calls that change the table, with what they take.
pub data Call (C : Type 0) : Type 0 where
  reset_all : Call C
  apply : ℕ → ℕ → LogRecord C → Call C
  release_leases : ℕ → Call C
  take_due : ℕ → ℕ → String → ℕ → Call C

-- The table left by a result.
abbrev pub left : {A : Type 0} → (A → Queue) → Queue → Result QueueError A → Queue
left f q (ok a) = f a
left f q (err e) = q

module _ {C : Type 0} (to_vec : GeofenceEvent → Option Bytes)
    (from_slice : Bytes → Option GeofenceEvent) where
  unfoldable pub step : Queue → Call C → Queue
  unfolding reset apply_log_record release_expired_leases lease_due
  step q reset_all = reset q
  step q (apply now sequence a) = left (λ p. p) q (apply_log_record to_vec now sequence a q)
  step q (release_leases now) = left (λ p. p.0) q (release_expired_leases now q)
  step q (take_due limit lease_ms worker now) =
      left (λ p. p.0) q (lease_due from_slice limit lease_ms worker now q)

  unfoldable pub run : Queue → List (Call C) → Queue
  unfolding step
  run q [] = q
  run q (c ∷ cs) = run (step q c) cs

bound :
    {A : Type 0} (n : ℕ) (f : A → Queue) (q : Queue) (k : ℕ → Result QueueError A)
    → IsQueue q
    → ((m : ℕ) → IsQueue (left f q (k m)))
    → IsQueue (left f q (bind n >>= k))
bound n f q k a h = elim (Result-cases (bind n)) [
  | inl (m, e) ↦ rw (left, e) (h m)
  | inr (x, e) ↦ rw (left, e) a
]

committed :
    (now : ℕ) (worker : String) (t : ℕ) (js : List QueueJob) (q : Queue)
    → IsQueue q
    → IsQueue (left (λ p. p.0) q (commit_leases now worker t js q))
committed now worker t [] q h = h
committed now worker t (j ∷ js) q h =
    bound t _ q _ h (λ m. lease_rows-IsQueue now worker m (j ∷ js) q h)

module _ (to_vec : GeofenceEvent → Option Bytes) (from_slice : Bytes → Option GeofenceEvent) where
  apply-IsQueue :
      {C : Type 0} (now sequence : ℕ) (a : LogRecord C) (q : Queue)
      → IsQueue q
      → IsQueue (left (λ p. p) q (apply_log_record to_vec now sequence a q))
  unfolding apply_log_record apply_enqueue apply_ack apply_retry apply_dead_letter
  apply-IsQueue now sequence (LogRecord.command c) q h = h
  apply-IsQueue now sequence (LogRecord.webhook_ack a) q h =
      (rows-remove a.job_id q h.0, Map.remove-IsSorted a.job_id q h.1)
  apply-IsQueue now sequence (LogRecord.webhook_enqueue a) q h =
      elim (Option-cases (to_vec a.event)) [
        | inl e ↦ rw (left, e) h
        | inr (b, e) ↦
            rw (left, e)
              (bound a.next_attempt_at_ms _ q _ h (λ next.
                bound sequence _ q _ h
                  (λ seq. bound now _ q _ h (λ n. insert-IsQueue a.job_id _ q (refl, refl) h))))
      ]
  apply-IsQueue now sequence (LogRecord.webhook_retry_scheduled a) q h =
      bound a.next_attempt_at_ms _ q _ h
        (λ next. bound now _ q _ h (λ n. update_row-IsQueue a.job_id _ q (λ r k. (refl, refl)) h))
  apply-IsQueue now sequence (LogRecord.webhook_dead_letter a) q h =
      bound now _ q _ h (λ n. update_row-IsQueue a.job_id _ q (λ r k. (refl, refl)) h)

  lease_due-IsQueue :
      (limit lease_ms : ℕ) (worker : String) (now : ℕ) (q : Queue)
      → IsQueue q
      → IsQueue (left (λ p. p.0) q (lease_due from_slice limit lease_ms worker now q))
  unfolding lease_due
  lease_due-IsQueue limit lease_ms worker now q h = elim (Bool-cases (limit == 0)) [
    | inl e ↦ rw (left, e) h
    | inr e ↦
        rw (left, e)
          (bound now _ q _ h (λ n.
            elim (Result-cases (decode_jobs from_slice (take limit (due n q)))) [
              | inl (js, d) ↦
                  rw (left, d) (committed n worker (saturating_add n (max lease_ms 1)) js q h)
              | inr (x, d) ↦ rw (left, d) h
            ]))
  ]

  -- Whatever calls are made, and whichever of them fail, the table stays in key order, and a row has
  -- an owner and a deadline of a lease exactly where its state is leased, if that held before.
  pub run-IsQueue :
      {C : Type 0} (cs : List (Call C)) (q : Queue)
      → IsQueue q
      → IsQueue (run to_vec from_slice q cs)
  unfolding run step reset release_expired_leases
  run-IsQueue [] q h = h
  run-IsQueue (reset_all ∷ cs) q h = run-IsQueue cs [] (tt, tt)
  run-IsQueue (apply now sequence a ∷ cs) q h = run-IsQueue cs _ (apply-IsQueue now sequence a q h)
  run-IsQueue (release_leases now ∷ cs) q h =
      run-IsQueue cs _ (bound now _ q _ h (λ n. release_expired-IsQueue n q h))
  run-IsQueue (take_due limit lease_ms worker now ∷ cs) q h =
      run-IsQueue cs _ (lease_due-IsQueue limit lease_ms worker now q h)
