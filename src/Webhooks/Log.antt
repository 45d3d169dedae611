-- ===== src/Webhooks/Log.antt =====
-- The records of the log in the queue of crates/latlng-webhook-queue/src/lib.rs: what each does to the table,
-- and the records that write a table down.
use latlng.Prelude.{
  ℕ, String, Option, none, some, List, [], ◌∷◌, ◌++◌, Result, ok, err, ◌>>=◌, get_or, leb,
  string_key, nat_key, if◌then◌else◌,
}
use latlng.Prelude.Map
use latlng.Prelude.Map.{Map}
use latlng.Storage.{Bytes}
use latlng.Geofence.{GeofenceEvent}
use latlng.Core.Records.{
  WebhookEnqueueRecord, WebhookAckRecord, WebhookRetryScheduledRecord, WebhookDeadLetterRecord,
  LogRecord, LogRecord.command, LogRecord.webhook_enqueue, LogRecord.webhook_ack,
  LogRecord.webhook_retry_scheduled, LogRecord.webhook_dead_letter,
}
use latlng.Webhooks.{
  QueueError, codec, pending, dead_letter, Row, Queue, is_dead, bind, update_row, order_by,
}

unfoldable pub apply_ack : WebhookAckRecord → Queue → Result QueueError Queue
apply_ack a q = ok (Map.remove a.job_id q)

unfoldable pub apply_retry : ℕ → WebhookRetryScheduledRecord → Queue → Result QueueError Queue
unfolding bind
apply_retry now a q = bind a.next_attempt_at_ms >>= λ next. bind now >>= λ n. ok (
    update_row a.job_id
      (λ r. record r {
        state = pending;
        attempts_used = a.attempts_used;
        next_attempt_at_ms = next;
        lease_owner = none;
        lease_expires_at_ms = none;
        last_error = some a.last_error;
        updated_at_ms = n;
      })
      q)

unfoldable pub apply_dead_letter : ℕ → WebhookDeadLetterRecord → Queue → Result QueueError Queue
unfolding bind
apply_dead_letter now a q = bind now >>= λ n. ok (
    update_row a.job_id
      (λ r. record r {
        state = dead_letter;
        attempts_used = a.attempts_used;
        lease_owner = none;
        lease_expires_at_ms = none;
        last_error = some a.last_error;
        updated_at_ms = n;
      })
      q)

abbrev pub records_of : {C : Type 0} → GeofenceEvent → String → Row → List (LogRecord C)
records_of event k r =
    webhook_enqueue (record {
      job_id = k;
      event = event;
      endpoint = r.endpoint;
      attempts_used = r.attempts_used;
      max_attempts = r.max_attempts;
      next_attempt_at_ms = r.next_attempt_at_ms;
    })
    ∷ (if is_dead r
        then webhook_dead_letter (record {
          job_id = k;
          attempts_used = r.attempts_used;
          last_error = get_or r.last_error "dead-lettered";
        })
          ∷ []
        else [])

module _ (from_slice : Bytes → Option GeofenceEvent) where
  abbrev pub row_records : {C : Type 0} → String × Row → Result QueueError (List (LogRecord C))
  row_records (k, r) = elim (from_slice r.payload) [
    | none ↦ err codec
    | some event ↦ ok (records_of event k r)
  ]

  unfoldable pub all_records :
      {C : Type 0} → List (String × Row) → Result QueueError (List (LogRecord C))
  all_records [] = ok []
  all_records (e ∷ es) = row_records e >>= λ rs. all_records es >>= λ rest. ok (rs ++ rest)

  unfoldable pub snapshot_log_records :
      {C : Type 0} → Queue → Result QueueError (List (LogRecord C))
  unfolding all_records order_by
  snapshot_log_records q =
      all_records (order_by (λ e f. leb e.1.created_from_sequence f.1.created_from_sequence) q)

module _ (to_vec : GeofenceEvent → Option Bytes) where
  unfoldable pub apply_enqueue : ℕ → ℕ → WebhookEnqueueRecord → Queue → Result QueueError Queue
  unfolding bind
  apply_enqueue now sequence a q = elim (to_vec a.event) [
    | none ↦ err codec
    | some payload ↦ bind a.next_attempt_at_ms >>= λ next. bind sequence >>= λ seq.
        bind now >>= λ n. ok (
          Map.insert a.job_id
            (record {
              event_id = get_or a.event.event_id a.job_id;
              hook_name = get_or a.event.hook a.job_id;
              endpoint = a.endpoint;
              payload = payload;
              state = pending;
              attempts_used = a.attempts_used;
              max_attempts = a.max_attempts;
              next_attempt_at_ms = next;
              lease_owner = none;
              lease_expires_at_ms = none;
              last_error = none;
              created_from_sequence = seq;
              updated_at_ms = n;
            })
            q)
  ]

  unfoldable pub apply_log_record :
      {C : Type 0} → ℕ → ℕ → LogRecord C → Queue → Result QueueError Queue
  unfolding apply_enqueue apply_ack apply_retry apply_dead_letter
  apply_log_record now sequence (command c) q = ok q
  apply_log_record now sequence (webhook_enqueue a) q = apply_enqueue now sequence a q
  apply_log_record now sequence (webhook_ack a) q = apply_ack a q
  apply_log_record now sequence (webhook_retry_scheduled a) q = apply_retry now a q
  apply_log_record now sequence (webhook_dead_letter a) q = apply_dead_letter now a q
