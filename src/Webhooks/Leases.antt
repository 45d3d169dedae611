-- ===== src/Webhooks/Leases.antt =====
-- What `lease_due` of crates/latlng-webhook-queue/src/lib.rs hands out, and what a lease excludes.
pub mod Rows
use mathlib.Core.Bool.{true≢false}
use mathlib.Core.Option.{some-injective}
use latlng.Prelude.{
  ℕ, zero, suc, ◌+◌, ◌≤◌, max, String, Option, none, some, Bool, true, false, ◌&&◌, ◌||◌, List, [],
  ◌∷◌, take, retain, length, length-take, any, saturating_add, All, ok, ◌≡◌, refl, sym, ap, subst,
  ◌∙◌, arith, Ordering, ltb, leb→le, ltb→lt, string_key, nat_key, ◌==◌, ==_iff, ==_refl, Bool-cases,
  if◌then◌else◌, Option-cases, inl, inr, ok_inj, ok≢err, bind_ok, omap, All-map,
}
use latlng.Prelude.Map
use latlng.Storage.{Bytes}
use latlng.Geofence.{GeofenceEvent}
use latlng.Webhooks.{
  Queue, Row, QueueJob, QueueError, pending, leased, is_pending, release, release_expired, bind,
  lease_rows, lease_due, update_row, lease, due, decode_jobs, commit_leases, has_expired, insert_by,
  order_by, is_due, count_by_state, stats, oldest_pending, next_due_at_ms, least, decode_job,
  job_of, lease_some,
}
use latlng.Webhooks.Leases.Rows.{
  All-insert_by, All-order_by, All-take, All-retain, found_later, entries-found, get-update_row,
  again, is_job, get-lease_rows, decoded, decode_job-id, Found, job_in, jobs_in, decode_jobs-All,
  bind_lem, deadline, commit-parts, WasDue, due-found, update_row-IsSorted, unleased,
}

-- A row that is leased to the worker until the deadline, written now.
abbrev pub leased_to : ℕ → String → ℕ → Row → Row
leased_to now worker expires r = record r {
  state = leased;
  lease_owner = some worker;
  lease_expires_at_ms = some expires;
  updated_at_ms = now;
}

-- What a call of `lease_due` that hands out jobs has found and done.
module _ (from_slice : Bytes → Option GeofenceEvent) where
  lease_some-parts :
      (limit lease_ms : ℕ) (worker : String) (now : ℕ) (q q' : Queue) (js : List QueueJob)
      → lease_some from_slice limit lease_ms worker now q ≡ ok (q', js)
      → (decode_jobs from_slice (take limit (due now q)) ≡ ok js)
        × (q' ≡ lease_rows now worker (deadline now lease_ms) js q)
  lease_some-parts limit lease_ms worker now q q' js h =
      let (n, b, c) = bind_ok _ _ (q', js) h in
      let (js0, d, f) = bind_ok _ _ (q', js) c in
      let n≡now = bind_lem now n b in
      let p = commit-parts n worker _ js0 q (q', js) f in
      let e = ap (λ x. x.1) p in
      let g = sym (ap (λ x. x.0) p) ∙ ap (λ l. lease_rows n worker (deadline n lease_ms) l q) e in
      (
        ap (λ x. decode_jobs from_slice (take limit (due x q))) (sym n≡now) ∙ d ∙ ap ok e,
        g ∙ ap (λ x. lease_rows x worker (deadline x lease_ms) js q) n≡now,
      )

  lease_due-zero :
      (lease_ms : ℕ) (worker : String) (now : ℕ) (q : Queue) (limit : ℕ)
      → (limit == 0) ≡ true
      → lease_due from_slice limit lease_ms worker now q ≡ ok (q, [])
  unfolding lease_due
  lease_due-zero lease_ms worker now q limit e = rw e refl

  lease_due-some :
      (lease_ms : ℕ) (worker : String) (now : ℕ) (q : Queue) (limit : ℕ)
      → (limit == 0) ≡ false
      → lease_due from_slice limit lease_ms worker now q
        ≡ lease_some from_slice limit lease_ms worker now q
  unfolding lease_due
  lease_due-some lease_ms worker now q limit e = rw e refl

  -- The jobs were pending and due, they are leased now, and nothing else has changed.
  abbrev pub HandedOut : ℕ → ℕ → String → ℕ → Queue → Queue → List QueueJob → Type 0
  HandedOut limit lease_ms worker now q q' js =
      All
        (λ j.
          (r : Row) × (Map.get j.job_id q ≡ some r)
          × (is_pending r ≡ true)
          × (r.next_attempt_at_ms ≤ now)
          × (Map.get j.job_id q' ≡ some (leased_to now worker (deadline now lease_ms) r)))
        js
      × (length js ≤ limit)
      × ((k : String)
          → Map.get k q' ≡ (
              if any (is_job k) js
              then omap (leased_to now worker (deadline now lease_ms)) (Map.get k q)
              else Map.get k q))

  handed_out :
      (limit lease_ms : ℕ) (worker : String) (now : ℕ) (q : Queue) (js l : List QueueJob)
      → All (λ j. (r : Row) × WasDue now q j.job_id r) l
      → All (λ j. any (is_job j.job_id) js ≡ true) l
      → All
          (λ j.
            (r : Row) × (Map.get j.job_id q ≡ some r)
            × (is_pending r ≡ true)
            × (r.next_attempt_at_ms ≤ now)
            × (Map.get j.job_id (lease_rows now worker (deadline now lease_ms) js q)
                ≡ some (leased_to now worker (deadline now lease_ms) r)))
          l
  handed_out limit lease_ms worker now q js [] a m = tt
  handed_out limit lease_ms worker now q js (j ∷ l) a m =
      let (r, (g, p, d)) = a.0 in
      let t = deadline now lease_ms in
      (
        (r, g, p, d, get-lease_rows now worker t j.job_id js q ∙ rw (m.0, g) refl),
        handed_out limit lease_ms worker now q js l a.1 m.1,
      )

  -- On a table in key order a successful `lease_due` hands out rows that were pending and due, no more than the limit,
  -- leases them to the worker until the deadline, and changes no other row.
  pub lease_due-HandedOut :
      (limit lease_ms : ℕ) (worker : String) (now : ℕ) (q q' : Queue) (js : List QueueJob)
      → Map.IsSorted q
      → lease_due from_slice limit lease_ms worker now q ≡ ok (q', js)
      → HandedOut limit lease_ms worker now q q' js
  lease_due-HandedOut limit lease_ms worker now q q' js s h = elim (Bool-cases (limit == 0)) [
    | inl e ↦
        let p = ok_inj (sym (lease_due-zero lease_ms worker now q limit e) ∙ h) in
        let none_out : HandedOut limit lease_ms worker now q q [] = (tt, omega arith, λ k. refl) in
        subst (λ x. HandedOut limit lease_ms worker now q x.0 x.1) p none_out
    | inr e ↦
        let (d, g) =
          lease_some-parts limit lease_ms worker now q q' js
            (sym (lease_due-some lease_ms worker now q limit e) ∙ h) in
        let (found, counted) =
          decode_jobs-All from_slice (WasDue now q) (take limit (due now q)) js
            (due-found now q limit s) d in
        let rows = lease_rows now worker (deadline now lease_ms) js q in
        let out : HandedOut limit lease_ms worker now q rows js = (
          handed_out limit lease_ms worker now q js js found (jobs_in js),
          omega (arith, counted, length-take limit (due now q)),
          λ k. get-lease_rows now worker (deadline now lease_ms) k js q,
        ) in
        subst (λ x. HandedOut limit lease_ms worker now q x js) (sym g) out
  ]

  lease_rows-IsSorted :
      (now : ℕ) (worker : String) (t : ℕ) (js : List QueueJob) (q : Queue)
      → Map.IsSorted q
      → Map.IsSorted (lease_rows now worker t js q)
  unfolding lease_rows
  lease_rows-IsSorted now worker t [] q s = s
  lease_rows-IsSorted now worker t (j ∷ js) q s =
      lease_rows-IsSorted now worker t js _ (update_row-IsSorted j.job_id (lease now worker t) q s)

  lease_due-rows :
      (limit lease_ms : ℕ) (worker : String) (now : ℕ) (q q' : Queue) (js : List QueueJob)
      → lease_due from_slice limit lease_ms worker now q ≡ ok (q', js)
      → q' ≡ lease_rows now worker (deadline now lease_ms) js q
  unfolding lease_rows
  lease_due-rows limit lease_ms worker now q q' js h = elim (Bool-cases (limit == 0)) [
    | inl e ↦
        let p = ok_inj (sym (lease_due-zero lease_ms worker now q limit e) ∙ h) in
        sym (ap (λ x. x.0) p)
        ∙ ap (λ l. lease_rows now worker (deadline now lease_ms) l q) (ap (λ x. x.1) p)
    | inr e ↦
        (lease_some-parts limit lease_ms worker now q q' js
          (sym (lease_due-some lease_ms worker now q limit e) ∙ h)).1
  ]

  -- Of two calls of `lease_due` in a row on a table in key order, the second hands out no job of the
  -- first, whatever their times.
  pub lease_due-exclusive :
      (limit1 limit2 ms1 ms2 : ℕ) (worker1 worker2 : String) (now1 now2 : ℕ) (q q1 q2 : Queue)
      (js1 js2 : List QueueJob)
      → Map.IsSorted q
      → lease_due from_slice limit1 ms1 worker1 now1 q ≡ ok (q1, js1)
      → lease_due from_slice limit2 ms2 worker2 now2 q1 ≡ ok (q2, js2)
      → All (λ j. any (is_job j.job_id) js1 ≡ false) js2
  lease_due-exclusive limit1 limit2 ms1 ms2 worker1 worker2 now1 now2 q q1 q2 js1 js2 s h k =
      let g = lease_due-rows limit1 ms1 worker1 now1 q q1 js1 h in
      let s' = lease_rows-IsSorted now1 worker1 (deadline now1 ms1) js1 q s in
      let out =
        lease_due-HandedOut limit2 ms2 worker2 now2 q1 q2 js2 (subst Map.IsSorted (sym g) s') k in
      All-map _ _ js2
        (λ j r.
          unleased (any (is_job j.job_id) js1) now1 worker1 (deadline now1 ms1) (Map.get j.job_id q)
            r.0 r.2
            (sym (get-lease_rows now1 worker1 (deadline now1 ms1) j.job_id js1 q)
              ∙ ap (Map.get j.job_id) (sym g)
              ∙ r.1))
        out.0
