-- ===== src/Webhooks/Leases/Rows.antt =====
-- What the selection, the decoding and the update of `lease_due` do to the rows of the table.
use mathlib.Core.Bool.{true≢false}
use mathlib.Core.Option.{some-injective}
use latlng.Prelude.{
  ℕ, zero, suc, ◌≤◌, max, String, Option, none, some, Bool, true, false, ◌||◌, List, [], ◌∷◌, take,
  retain, length, any, saturating_add, All, ok, ◌≡◌, refl, sym, ap, subst, ◌∙◌, arith, Ordering,
  leb→le, string_key, nat_key, ◌==◌, ==_iff, ==_refl, if◌then◌else◌, Option-cases, inl, inr, ok_inj,
  ok≢err, bind_ok, omap, All-map,
}
use latlng.Prelude.Map
use latlng.Storage.{Bytes}
use latlng.Geofence.{GeofenceEvent}
use latlng.Webhooks.{
  Queue, Row, QueueJob, QueueError, is_pending, bind, lease_rows, update_row, lease, due,
  decode_jobs, commit_leases, insert_by, order_by, is_due, decode_job, job_of,
}

module _ {A : Type 0} (P : A → Type 0) where
  pub All-insert_by :
      (before : A → A → Bool) (x : A) (xs : List A) → P x → All P xs → All P (insert_by before x xs)
  unfolding insert_by
  All-insert_by before x [] h a = (h, tt)
  All-insert_by before x (y ∷ ys) h a = ground (arith, All-insert_by before x ys h a.1)

  pub All-order_by : (before : A → A → Bool) (xs : List A) → All P xs → All P (order_by before xs)
  unfolding order_by
  All-order_by before [] a = tt
  All-order_by before (x ∷ xs) a =
      All-insert_by before x (order_by before xs) a.0 (All-order_by before xs a.1)

  pub All-take : (n : ℕ) (xs : List A) → All P xs → All P (take n xs)
  All-take zero xs a = tt
  All-take (suc n) [] a = tt
  All-take (suc n) (x ∷ xs) a = (a.0, All-take n xs a.1)

  pub All-retain :
      (p : A → Bool) (xs : List A) → All P xs → All (λ x. (p x ≡ true) × P x) (retain p xs)
  All-retain p [] a = tt
  All-retain p (x ∷ xs) a = ground (arith, All-retain p xs a.1)

-- Each entry of a table in key order is what its key finds.
pub found_later :
    (j : String) (s : Row) (q l : Queue)
    → All (λ p. string_key.cmp j p.0 ≡ Ordering.lt) l
    → All (λ e. Map.get e.0 q ≡ some e.1) l
    → All (λ e. Map.get e.0 ((j, s) ∷ q) ≡ some e.1) l
unfolding Map.get
found_later j s q [] b a = tt
found_later j s q ((k, r) ∷ l) b a = (ground (arith, a.0), found_later j s q l b.1 a.1)

pub entries-found : (q : Queue) → Map.IsSorted q → All (λ e. Map.get e.0 q ≡ some e.1) q
unfolding Map.get
entries-found [] h = tt
entries-found ((k, r) ∷ q) h =
    (ground (arith, ==_refl k), found_later k r q q h.0 (entries-found q h.1))

pub get-update_row :
    (k j : String) (f : Row → Row) (q : Queue)
    → Map.get j (update_row k f q) ≡ (if k == j then omap f (Map.get j q) else Map.get j q)
get-update_row k j f q = elim (Option-cases (Map.get k q)) [
  | inl e ↦ rw (e, update_row) (ground (arith, ==_iff k j))
  | inr (r, e) ↦ rw (e, update_row) (Map.get-insert k j (f r) q ∙ ground (arith, ==_iff k j))
]

pub again :
    (a b : Bool) (now : ℕ) (worker : String) (t : ℕ) (o : Option Row)
    → (if b
        then omap (lease now worker t) (if a then omap (lease now worker t) o else o)
        else if a
        then omap (lease now worker t) o
        else o)
      ≡ (if a || b then omap (lease now worker t) o else o)
again true true now worker t none = refl
again true true now worker t (some r) = refl
again true false now worker t o = refl
again false true now worker t o = refl
again false false now worker t o = refl

abbrev pub is_job : String → QueueJob → Bool
is_job k j = j.job_id == k

pub get-lease_rows :
    (now : ℕ) (worker : String) (t : ℕ) (k : String) (js : List QueueJob) (q : Queue)
    → Map.get k (lease_rows now worker t js q)
      ≡ (if any (is_job k) js then omap (lease now worker t) (Map.get k q) else Map.get k q)
unfolding lease_rows
get-lease_rows now worker t k [] q = refl
get-lease_rows now worker t k (j ∷ js) q =
    get-lease_rows now worker t k js _
    ∙ rw (get-update_row j.job_id k (lease now worker t) q)
        (again (j.job_id == k) (any (is_job k) js) now worker t (Map.get k q))

pub decoded :
    (from_slice : Bytes → Option GeofenceEvent) (k : String) (r : Row) (v : GeofenceEvent)
    → from_slice r.payload ≡ some v
    → decode_job from_slice (k, r) ≡ ok (job_of k r v)
decoded from_slice k r v e = rw (e, decode_job) refl

-- A decoded row keeps its key.
pub decode_job-id :
    (from_slice : Bytes → Option GeofenceEvent) (k : String) (r : Row) (j : QueueJob)
    → decode_job from_slice (k, r) ≡ ok j
    → j.job_id ≡ k
decode_job-id from_slice k r j d = elim (Option-cases (from_slice r.payload)) [
  | inl e ↦ elim (ok≢err j QueueError.sql (sym d ∙ rw (e, decode_job) refl)) [ ]
  | inr (v, e) ↦ ap (λ x. x.job_id) (sym (ok_inj (sym (decoded from_slice k r v e) ∙ d)))
]

-- The jobs are those of the rows, one for each.
abbrev pub Found : (String → Row → Type 0) → List QueueJob → List (String × Row) → Type 0
Found P js es = All (λ j. (r : Row) × P j.job_id r) js × (length js ≡ length es)

pub job_in :
    (j : QueueJob) (js l : List QueueJob)
    → All (λ i. any (is_job i.job_id) l ≡ true) js
    → All (λ i. any (is_job i.job_id) (j ∷ l) ≡ true) js
job_in j [] l a = tt
job_in j (i ∷ js) l a = (ground (arith, a.0), job_in j js l a.1)

pub jobs_in : (js : List QueueJob) → All (λ j. any (is_job j.job_id) js ≡ true) js
jobs_in [] = tt
jobs_in (j ∷ js) = (ground (arith, ==_refl j.job_id), job_in j js js (jobs_in js))

pub decode_jobs-All :
    (from_slice : Bytes → Option GeofenceEvent) (P : String → Row → Type 0)
    (es : List (String × Row)) (js : List QueueJob)
    → All (λ e. P e.0 e.1) es
    → decode_jobs from_slice es ≡ ok js
    → Found P js es
unfolding decode_jobs
decode_jobs-All from_slice P [] js a d = subst (λ l. Found P l []) (ok_inj d) (tt, refl)
decode_jobs-All from_slice P ((k, r) ∷ es) js a d =
    let (j, x, d') = bind_ok _ _ js d in
    let (js', y, z) = bind_ok _ _ js d' in
    let rest = decode_jobs-All from_slice P es js' a.1 y in
    let p : P j.job_id r = subst (λ i. P i r) (sym (decode_job-id from_slice k r j x)) a.0 in
    let found : Found P (j ∷ js') ((k, r) ∷ es) = (((r, p), rest.0), ap suc rest.1) in
    subst (λ l. Found P l ((k, r) ∷ es)) (ok_inj z) found

pub bind_lem : (n m : ℕ) → bind n ≡ ok m → m ≡ n
unfolding bind
bind_lem n m h = ground arith

-- The deadline of a lease taken now.
abbrev pub deadline : ℕ → ℕ → ℕ
deadline now lease_ms = saturating_add now (max lease_ms 1)

pub commit-parts :
    (now : ℕ) (worker : String) (t : ℕ) (js : List QueueJob) (q : Queue) (p : Queue × List QueueJob)
    → commit_leases now worker t js q ≡ ok p
    → (lease_rows now worker t js q, js) ≡ p
unfolding lease_rows
commit-parts now worker t [] q p h = ok_inj h
commit-parts now worker t (j ∷ js) q p h =
    let (m, b, c) = bind_ok _ _ p h in
    ap (λ x. (lease_rows now worker x (j ∷ js) q, j ∷ js)) (sym (bind_lem t m b)) ∙ ok_inj c

-- The row is there, pending and due.
abbrev pub WasDue : ℕ → Queue → String → Row → Type 0
WasDue now q k r = (Map.get k q ≡ some r) × (is_pending r ≡ true) × (r.next_attempt_at_ms ≤ now)

pub due-found :
    (now : ℕ) (q : Queue) (limit : ℕ)
    → Map.IsSorted q
    → All
        (λ e. (Map.get e.0 q ≡ some e.1) × (is_pending e.1 ≡ true) × (e.1.next_attempt_at_ms ≤ now))
        (take limit (due now q))
unfolding due
due-found now q limit s = All-take _ limit _ (
    All-order_by _ _ _ (
      All-map _ _ _ (λ e h. ground (arith, h.0, h.1, leb→le e.1.next_attempt_at_ms now))
        (All-retain _ (is_due now) q (entries-found q s))))

pub update_row-IsSorted :
    (k : String) (f : Row → Row) (q : Queue) → Map.IsSorted q → Map.IsSorted (update_row k f q)
update_row-IsSorted k f q s = elim (Option-cases (Map.get k q)) [
  | inl e ↦ rw (e, update_row) s
  | inr (r, e) ↦ rw (e, update_row) (Map.insert-IsSorted k (f r) q s)
]

-- A pending row was not leased just now.
pub unleased :
    (b : Bool) (now : ℕ) (worker : String) (t : ℕ) (o : Option Row) (r : Row)
    → is_pending r ≡ true
    → (if b then omap (lease now worker t) o else o) ≡ some r
    → b ≡ false
unleased false now worker t o r p h = refl
unleased true now worker t none r p h = cc
unleased true now worker t (some s) r p h =
    elim (true≢false (sym p ∙ ap is_pending (sym (some-injective _ _ h)))) [ ]
