-- ===== src/Webhooks.antt =====
-- The queue of webhook deliveries, crates/latlng-webhook-queue/src/lib.rs: its table `jobs` as a
-- map by `job_id`, its statements as functions of the table. serde_json's encoding of an event is
-- a parameter, and so is the time that `now_ms` reads. The connection, the file and the texts of the errors are
-- left out.
pub mod Expired
pub mod Log
pub mod Invariant
pub mod Leases
pub mod Stats
pub mod Examples
use latlng.Prelude.{
  ℕ, zero, suc, max, String, Option, none, some, Bool, true, false, ◌&&◌, not, List, [], ◌∷◌, ◌++◌,
  map, Result, ok, err, ◌>>=◌, ◌>>◌, map_ok, get_or, leb, ltb, saturating_add, ◌-◌, take, retain,
  length, string_key, nat_key, if◌then◌else◌, ◌==◌,
}
use latlng.Prelude.Map
use latlng.Prelude.Map.{Map}
use latlng.Storage.{Bytes}
use latlng.Geofence.{GeofenceEvent}
use latlng.Core.Records.{
  WebhookEnqueueRecord, WebhookAckRecord, WebhookRetryScheduledRecord, WebhookDeadLetterRecord,
  LogRecord, LogRecord.command, LogRecord.webhook_enqueue, LogRecord.webhook_ack,
  LogRecord.webhook_retry_scheduled, LogRecord.webhook_dead_letter,
}

pub data QueueError : Type 0 where
  sql codec : QueueError

pub data JobState : Type 0 where
  pending leased dead_letter : JobState

-- A row of the table, less its key.
pub record Row : Type 0 where
  pub event_id : String
  pub hook_name : String
  pub endpoint : String
  pub payload : Bytes
  pub state : JobState
  pub attempts_used : ℕ
  pub max_attempts : ℕ
  pub next_attempt_at_ms : ℕ
  pub lease_owner : Option String
  pub lease_expires_at_ms : Option ℕ
  pub last_error : Option String
  pub created_from_sequence : ℕ
  pub updated_at_ms : ℕ

abbrev pub Queue : Type 0
Queue = Map String Row

pub record QueueJob : Type 0 where
  pub job_id : String
  pub event_id : String
  pub hook_name : String
  pub endpoint : String
  pub event : GeofenceEvent
  pub attempts_used : ℕ
  pub max_attempts : ℕ
  pub next_attempt_at_ms : ℕ
  pub last_error : Option String
  pub created_from_sequence : ℕ

pub record QueueStats : Type 0 where
  pub pending : ℕ
  pub leased : ℕ
  pub dead_letter : ℕ
  pub oldest_pending_age_ms : Option ℕ

abbrev pub is_pending : Row → Bool
is_pending r = elim r.state [ pending ↦ true | leased ↦ false | dead_letter ↦ false ]

abbrev pub is_leased : Row → Bool
is_leased r = elim r.state [ pending ↦ false | leased ↦ true | dead_letter ↦ false ]

abbrev pub is_dead : Row → Bool
is_dead r = elim r.state [ pending ↦ false | leased ↦ false | dead_letter ↦ true ]

-- A u64 bound as a parameter: rusqlite refuses one above the largest i64.
unfoldable pub bind : ℕ → Result QueueError ℕ
bind n = if leb n 9223372036854775807 then ok n else err sql

-- `UPDATE jobs SET .. WHERE job_id = ?`.
abbrev pub update_row : String → (Row → Row) → Queue → Queue
update_row k f q = elim (Map.get k q) [ none ↦ q | some r ↦ Map.insert k (f r) q ]

unfoldable pub reset : Queue → Queue
reset q = []

-- `UPDATE jobs SET state = 'pending' .. WHERE state = 'leased' AND lease_expires_at_ms <= now`.
abbrev pub has_expired : ℕ → Row → Bool
has_expired now r = elim r.lease_expires_at_ms [ none ↦ false | some t ↦ is_leased r && leb t now ]

abbrev pub release : ℕ → Row → Row
release now r = record r {
  state = pending;
  lease_owner = none;
  lease_expires_at_ms = none;
  updated_at_ms = now;
}

unfoldable pub release_expired : ℕ → Queue → Queue × ℕ
release_expired now [] = ([], 0)
release_expired now ((k, r) ∷ q) =
    let rest = release_expired now q in
    if has_expired now r
    then ((k, release now r) ∷ rest.0, suc rest.1)
    else ((k, r) ∷ rest.0, rest.1)

unfoldable pub release_expired_leases : ℕ → Queue → Result QueueError (Queue × ℕ)
unfolding release_expired bind
release_expired_leases now q = bind now >>= λ n. ok (release_expired n q)

-- `ORDER BY next_attempt_at_ms ASC, created_from_sequence ASC`; equal rows in the order of their keys.
abbrev pub comes_before : String × Row → String × Row → Bool
comes_before (j, r) (k, s) =
    if ltb r.next_attempt_at_ms s.next_attempt_at_ms
    then true
    else r.next_attempt_at_ms == s.next_attempt_at_ms
      && leb r.created_from_sequence s.created_from_sequence

module _ {A : Type 0} (before : A → A → Bool) where
  unfoldable pub insert_by : A → List A → List A
  insert_by x [] = x ∷ []
  insert_by x (y ∷ ys) = let rest = insert_by x ys in if before x y then x ∷ y ∷ ys else y ∷ rest

  -- `ORDER BY`
  unfoldable pub order_by : List A → List A
  unfolding insert_by
  order_by [] = []
  order_by (x ∷ xs) = insert_by x (order_by xs)

abbrev pub is_due : ℕ → String × Row → Bool
is_due now (k, r) = is_pending r && leb r.next_attempt_at_ms now

unfoldable pub due : ℕ → Queue → List (String × Row)
unfolding order_by
due now q = order_by comes_before (retain (is_due now) q)

abbrev pub lease : ℕ → String → ℕ → Row → Row
lease now worker expires r = record r {
  state = leased;
  lease_owner = some worker;
  lease_expires_at_ms = some expires;
  updated_at_ms = now;
}

unfoldable pub lease_rows : ℕ → String → ℕ → List QueueJob → Queue → Queue
lease_rows now worker expires [] q = q
lease_rows now worker expires (j ∷ js) q =
    lease_rows now worker expires js (update_row j.job_id (lease now worker expires) q)

-- What `SELECT MIN(next_attempt_at_ms) FROM jobs WHERE state = 'pending'` reads.
abbrev pub least : ℕ → Option ℕ → Option ℕ
least a none = some a
least a (some b) = if ltb a b then some a else some b

unfoldable pub oldest_pending : Queue → Option ℕ
oldest_pending [] = none
oldest_pending ((k, r) ∷ q) =
    let rest = oldest_pending q in if is_pending r then least r.next_attempt_at_ms rest else rest

unfoldable pub next_due_at_ms : Queue → Option ℕ
unfolding oldest_pending
next_due_at_ms q = oldest_pending q

abbrev pub count_by_state : (Row → Bool) → Queue → ℕ
count_by_state p q = length (retain (λ e. p e.1) q)

unfoldable pub stats : ℕ → Queue → QueueStats
unfolding oldest_pending
stats now q = record {
  pending = count_by_state is_pending q;
  leased = count_by_state is_leased q;
  dead_letter = count_by_state is_dead q;
  oldest_pending_age_ms = elim (oldest_pending q) [ none ↦ none | some t ↦ some (now - t) ];
}

-- The leases of the selected jobs, and the commit.
abbrev pub commit_leases :
    ℕ → String → ℕ → List QueueJob → Queue → Result QueueError (Queue × List QueueJob)
commit_leases now worker expires [] q = ok (q, [])
commit_leases now worker expires (j ∷ js) q =
    bind expires >>= λ t. ok (lease_rows now worker t (j ∷ js) q, j ∷ js)

abbrev pub job_of : String → Row → GeofenceEvent → QueueJob
job_of k r e = record {
  job_id = k;
  event_id = r.event_id;
  hook_name = r.hook_name;
  endpoint = r.endpoint;
  event = e;
  attempts_used = r.attempts_used;
  max_attempts = r.max_attempts;
  next_attempt_at_ms = r.next_attempt_at_ms;
  last_error = r.last_error;
  created_from_sequence = r.created_from_sequence;
}

module _ (from_slice : Bytes → Option GeofenceEvent) where
  abbrev pub decode_job : String × Row → Result QueueError QueueJob
  decode_job (k, r) = elim (from_slice r.payload) [ none ↦ err sql | some e ↦ ok (job_of k r e) ]

  unfoldable pub decode_jobs : List (String × Row) → Result QueueError (List QueueJob)
  decode_jobs [] = ok []
  decode_jobs (e ∷ es) = decode_job e >>= λ j. decode_jobs es >>= λ js. ok (j ∷ js)

  -- An error drops the transaction, and with it what it wrote.
  abbrev pub lease_some : ℕ → ℕ → String → ℕ → Queue → Result QueueError (Queue × List QueueJob)
  lease_some limit lease_ms worker now q = bind now >>= λ n.
      decode_jobs (take limit (due n q)) >>= λ js.
      commit_leases n worker (saturating_add n (max lease_ms 1)) js q

  unfoldable pub lease_due : ℕ → ℕ → String → ℕ → Queue → Result QueueError (Queue × List QueueJob)
  unfolding bind due decode_jobs lease_rows
  lease_due limit lease_ms worker now q =
      if limit == 0 then ok (q, []) else lease_some limit lease_ms worker now q
