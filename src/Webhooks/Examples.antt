-- ===== src/Webhooks/Examples.antt =====
-- A queue of two jobs, and the theorems about the queue there.
use latlng.Prelude.{
  ℕ, ◌≡◌, refl, false, List, [], ◌∷◌, Option, none, some, ok, All, any, string_key, nat_key,
}
use latlng.Prelude.Map
use latlng.Storage.{Bytes}
use latlng.Geo.Object.{point}
use latlng.Geofence.{GeofenceEvent, set, enter}
use latlng.Core.Records.{WebhookEnqueueRecord, LogRecord.webhook_enqueue}
use latlng.Webhooks.{Queue, Row, QueueJob, pending, release_expired, lease, job_of, lease_due}
use latlng.Webhooks.Invariant.{IsQueue, Call, apply, take_due, release_leases, run, run-IsQueue}
use latlng.Webhooks.Leases.{HandedOut, lease_due-HandedOut, lease_due-exclusive}
use latlng.Webhooks.Leases.Rows.{is_job}
use latlng.Webhooks.Expired.{HasRunOut, RunOutCount, release_expired-HasRunOut}

abbrev event : GeofenceEvent
event = record {
  command = set;
  detect = enter;
  collection = "fleet";
  id = "truck";
  object = point 0 0 none;
  fields = [];
  timestamp_ns = 1;
  event_id = none;
  job_id = none;
  hook = some "depot";
  group = none;
  nearby = none;
  generation = 0;
}

-- One payload stands for the event.
abbrev to_vec : GeofenceEvent → Option Bytes
to_vec e = some (1 ∷ [])

abbrev from_slice : Bytes → Option GeofenceEvent
from_slice b = some event

abbrev waiting : ℕ → Row
waiting at = record {
  event_id = "e";
  hook_name = "depot";
  endpoint = "https://example.com";
  payload = 1 ∷ [];
  state = pending;
  attempts_used = 0;
  max_attempts = 9;
  next_attempt_at_ms = at;
  lease_owner = none;
  lease_expires_at_ms = none;
  last_error = none;
  created_from_sequence = 2;
  updated_at_ms = 5;
}

abbrev queue : Queue
queue = ("a", waiting 10) ∷ ("b", waiting 90) ∷ []

abbrev leased_queue : Queue
leased_queue = ("a", lease 20 "w" 1020 (waiting 10)) ∷ ("b", waiting 90) ∷ []

abbrev jobs : List QueueJob
jobs = job_of "a" (waiting 10) event ∷ []

first_lease : lease_due from_slice 5 1000 "w" 20 queue ≡ ok (leased_queue, jobs)
unfolding lease_due Map.insert Map.get
first_lease = refl

-- When the other job is due, the first one is still leased.
abbrev both_leased : Queue
both_leased = ("a", lease 20 "w" 1020 (waiting 10)) ∷ ("b", lease 95 "v" 1095 (waiting 90)) ∷ []

abbrev later_jobs : List QueueJob
later_jobs = job_of "b" (waiting 90) event ∷ []

second_lease : lease_due from_slice 5 1000 "v" 95 leased_queue ≡ ok (both_leased, later_jobs)
unfolding lease_due Map.insert Map.get
second_lease = refl

lease_due-HandedOut_example : HandedOut from_slice 5 1000 "w" 20 queue leased_queue jobs
lease_due-HandedOut_example =
    lease_due-HandedOut from_slice 5 1000 "w" 20 queue leased_queue jobs ((refl, tt), (tt, tt))
      first_lease

lease_due-exclusive_example : All (λ j. any (is_job j.job_id) jobs ≡ false) later_jobs
lease_due-exclusive_example =
    lease_due-exclusive from_slice 5 5 1000 1000 "w" "v" 20 95 queue leased_queue both_leased jobs
      later_jobs ((refl, tt), (tt, tt)) first_lease second_lease

leased_row : Map.get "a" leased_queue ≡ some (lease 20 "w" 1020 (waiting 10))
unfolding Map.get
leased_row = refl

release_expired-HasRunOut_example :
    (HasRunOut 1020 (lease 20 "w" 1020 (waiting 10))
      → Map.get "a" (release_expired 1020 leased_queue).0
        ≡ some (record (waiting 10) { updated_at_ms = 1020 }))
    × (¬ HasRunOut 1020 (lease 20 "w" 1020 (waiting 10))
        → Map.get "a" (release_expired 1020 leased_queue).0 ≡ some (lease 20 "w" 1020 (waiting 10)))
    × RunOutCount 1020 leased_queue (release_expired 1020 leased_queue).1
release_expired-HasRunOut_example =
    release_expired-HasRunOut 1020 "a" (lease 20 "w" 1020 (waiting 10)) leased_queue leased_row

abbrev enqueue : WebhookEnqueueRecord
enqueue = record {
  job_id = "c";
  event = event;
  endpoint = "https://example.com";
  attempts_used = 0;
  max_attempts = 9;
  next_attempt_at_ms = 10;
}

abbrev calls : List (Call ℕ)
calls = apply 20 3 (webhook_enqueue enqueue) ∷ take_due 2 1000 "w" 20 ∷ release_leases 1020 ∷ []

run-IsQueue_example : IsQueue (run to_vec from_slice leased_queue calls)
run-IsQueue_example =
    run-IsQueue to_vec from_slice calls leased_queue
      (((refl, refl), ((refl, refl), tt)), ((refl, tt), (tt, tt)))
