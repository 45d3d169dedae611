-- ===== src/Core/Engine/Recovery/Writes.antt =====
-- A batch is written whole or not at all.
use mathlib.Core.List.{append-nil}
use latlng.Prelude.{
  ℕ, zero, suc, ◌+◌, ◌≤◌, ◌<◌, All, some, true, List, [], ◌∷◌, map, ◌≡◌, refl, sym, ap, ◌∙◌, arith,
  inl, inr, ◌⊎◌, Result, ok, err, Result-cases, Option-cases, ok_inj, ok≢err, if◌then◌else◌, length,
  subst,
}
use latlng.Storage.{Bytes, StorageEntry}
use latlng.Storage.Memory.{stores_command_log, append_batch, batch_check}
use latlng.Core.Records.{Command, LogRecord, WebhookEnqueueRecord}
use latlng.Core.Action.{CoreError, pure}
use latlng.Core.World.{World}
use latlng.Core.Engine.{Clock, Db, Record, numbers_above, reserve_sequences}
use latlng.Core.Engine.Log.{
  entry_of, encode_entries_for_sequences, build_command_batch_records, prepared_webhooks,
  append_encoded, persist_command_batch, append_log_records,
}
use latlng.Core.Engine.Recovery.{Encodes, Logged, Same}

length-numbers_above : (n c : ℕ) → length (numbers_above n c) ≡ c
unfolding numbers_above
length-numbers_above n zero = refl
length-numbers_above n (suc c) = ap suc (length-numbers_above (n + 1) c)

numbers_above-positive : (n c : ℕ) → All (λ q. 0 < q) (numbers_above n c)
unfolding numbers_above
numbers_above-positive n zero = tt
numbers_above-positive n (suc c) = (omega arith, numbers_above-positive (n + 1) c)

module _ (w : World) where
  length-prepared_webhooks :
      (c i : ℕ) (qs : List ℕ) (rs : List WebhookEnqueueRecord)
      → length (prepared_webhooks w c i qs rs) ≤ length qs
  unfolding prepared_webhooks
  length-prepared_webhooks c i [] rs = omega arith
  length-prepared_webhooks c i (q ∷ qs) [] = omega arith
  length-prepared_webhooks c i (q ∷ qs) (r ∷ rs) =
      omega (arith, length-prepared_webhooks c (i + 1) qs rs)

  -- A list of encoded entries begins with the encoded record.
  encode-cons :
      (k : Clock) (r : Record w) (rs : List (Record w)) (q : ℕ) (qs : List ℕ)
      (es : List StorageEntry)
      → encode_entries_for_sequences w k (r ∷ rs) (q ∷ qs) ≡ ok es
      → (b : Bytes) × (l : List StorageEntry) × (w.to_vec r ≡ some b)
        × (encode_entries_for_sequences w k rs qs ≡ ok l)
        × (entry_of w k q b ∷ l ≡ es)
  unfolding encode_entries_for_sequences
  encode-cons k r rs q qs es e = elim (Option-cases (w.to_vec r)) [
    | inl n ↦
        elim (ok≢err es CoreError.codec (sym e ∙ rw (n, encode_entries_for_sequences) refl)) [ ]
    | inr (b, n) ↦ elim (Result-cases (encode_entries_for_sequences w k rs qs)) [
      | inl (l, m) ↦
          (b, l, n, m, ok_inj (sym (rw (n, encode_entries_for_sequences) (rw m refl)) ∙ e))
      | inr (x, m) ↦
          elim (ok≢err es x (sym e ∙ rw (n, encode_entries_for_sequences) (rw m refl))) [ ]
    ]
  ]

  encode-Encodes :
      (k : Clock) (rs : List (Record w)) (qs : List ℕ) (es : List StorageEntry)
      → length rs ≤ length qs
      → All (λ q. 0 < q) qs
      → encode_entries_for_sequences w k rs qs ≡ ok es
      → Encodes w rs es
  unfolding encode_entries_for_sequences
  encode-Encodes k [] qs [] h a e = tt
  encode-Encodes k [] qs (x ∷ es) h a e = cc
  encode-Encodes k (r ∷ rs) [] es h a e = absurd (omega arith)
  encode-Encodes k (r ∷ rs) (q ∷ qs) es h a e =
      let (b, l, n, m, x) = encode-cons k r rs q qs es e in
      subst (Encodes w (r ∷ rs)) x (n, a.0, encode-Encodes k rs qs l (omega arith) a.1 m)

  -- The records are written, or nothing has changed.
  abbrev pub Wrote : {A : Type 0} → List (Record w) → Db w → Result CoreError A × Db w → Type 0
  Wrote {A} rs s x =
      ((a : A) × (x.0 ≡ ok a) × Logged w rs s x.1)
      ⊎ ((e : CoreError) × (x.0 ≡ err e) × Same w s x.1)

  append_encoded-Wrote :
      (k : Clock) (rs : List (Record w)) (qs : List ℕ) (s : Db w)
      → length rs ≤ length qs
      → All (λ q. 0 < q) qs
      → Wrote rs s (append_encoded w k rs qs s)
  unfolding append_encoded append_batch
  append_encoded-Wrote k rs qs s h a =
      elim (Result-cases (encode_entries_for_sequences w k rs qs)) [
        | inr (e, p) ↦
            rw p (inr (e, refl, record { kept = refl; recording = refl; entries = refl }))
        | inl (es, p) ↦ rw p (elim (Result-cases (batch_check s.storage es)) [
          | inr (e, b) ↦ rw b (
              inr (
                CoreError.storage e,
                refl,
                record { kept = refl; recording = refl; entries = refl },
              ))
          | inl (u, b) ↦ rw b (
              inl (
                qs,
                refl,
                record {
                  kept = refl;
                  recording = refl;
                  written = es;
                  extended = refl;
                  encoded = encode-Encodes k rs qs es h a p;
                },
              ))
        ])
      ]

  -- The state after the reservation of `count` numbers.
  abbrev reserved : Db w → ℕ → Db w
  reserved s count = record s { next_sequence = s.next_sequence + count }

  Wrote-reserved :
      (rs : List (Record w)) (s : Db w) (count : ℕ) (x : Result CoreError (List ℕ) × Db w)
      → Wrote rs (reserved s count) x
      → Wrote rs s x
  Wrote-reserved rs s count x (inl (a, p, l)) = inl (
    a,
    p,
    record {
      kept = l.kept;
      recording = l.recording;
      written = l.written;
      extended = l.extended;
      encoded = l.encoded;
    },
  )
  Wrote-reserved rs s count x (inr (e, p, l)) =
      inr (e, p, record { kept = l.kept; recording = l.recording; entries = l.entries })

  abbrev pub enqueued : List WebhookEnqueueRecord → List (Record w)
  enqueued hooks = map LogRecord.webhook_enqueue hooks

  length-enqueued : (hooks : List WebhookEnqueueRecord) → length (enqueued hooks) ≡ length hooks
  length-enqueued [] = refl
  length-enqueued (h ∷ hs) = ap suc (length-enqueued hs)

  abbrev pub command_records : Command w.fences.Def → List WebhookEnqueueRecord → List (Record w)
  command_records c hooks = LogRecord.command c ∷ enqueued hooks

  -- The records of a batch are the command and the numbered hooks, no more than there are numbers.
  batch_records :
      (c : Command w.fences.Def) (n m : ℕ) (rs : List WebhookEnqueueRecord)
      → (hooks : List WebhookEnqueueRecord) × ((build_command_batch_records w c
            (numbers_above n (suc m))
            rs).0
          ≡ command_records c hooks)
        × (length (command_records c hooks) ≤ suc m)
  unfolding build_command_batch_records numbers_above
  batch_records c n m rs =
      let qs = numbers_above (n + 1) m in
      let hooks = prepared_webhooks w (n + 1) 0 qs rs in
      (
        hooks,
        refl,
        omega (
          arith,
          length-enqueued hooks,
          length-prepared_webhooks (n + 1) 0 qs rs,
          length-numbers_above (n + 1) m,
        ),
      )

  module _ (k : Clock) (s : Db w) (logs : s.storage.record_log ≡ true) where
    pub persist_command_batch-Wrote :
        (c : Command w.fences.Def) (rs : List WebhookEnqueueRecord)
        → (hooks : List WebhookEnqueueRecord) × Wrote
            (command_records c hooks)
            s
            (persist_command_batch w k c rs s)
    unfolding persist_command_batch stores_command_log reserve_sequences
    persist_command_batch-Wrote c rs =
        let n = s.next_sequence in
        let count = suc (length rs) in
        let qs = numbers_above n count in
        let (hooks, p, l) = batch_records c n (length rs) rs in
        let moved =
          append_encoded-Wrote k (command_records c hooks) qs (reserved s count)
            (omega (arith, l, length-numbers_above n count)) (numbers_above-positive n count) in
        (
          hooks,
          subst (Wrote (command_records c hooks) s)
              (sym (
                ap
                  (λ b.
                    (if b
                        then append_encoded w k (build_command_batch_records w c qs rs).0 qs
                        else pure qs)
                      (reserved s count))
                  logs
                ∙ ap (λ r. append_encoded w k r qs (reserved s count)) p))
              (Wrote-reserved (command_records c hooks) s count _ moved),
        )

    pub append_log_records-Wrote : (rs : List (Record w)) → Wrote rs s (append_log_records w k rs s)
    unfolding append_log_records stores_command_log reserve_sequences
    append_log_records-Wrote [] = inl (
      [],
      refl,
      record {
        kept = refl;
        recording = refl;
        written = [];
        extended = sym (append-nil s.storage.entries);
        encoded = tt;
      },
    )
    append_log_records-Wrote (r ∷ rs) =
        let qs = numbers_above s.next_sequence (length (r ∷ rs)) in
        subst (Wrote (r ∷ rs) s)
          (sym (
            ap
              (λ b.
                (if b then append_encoded w k (r ∷ rs) qs else pure qs)
                  (reserved s (length (r ∷ rs))))
              logs))
          (Wrote-reserved (r ∷ rs) s (length (r ∷ rs)) _ (
            append_encoded-Wrote k (r ∷ rs) qs (reserved s (length (r ∷ rs)))
              (omega (arith, length-numbers_above s.next_sequence (length (r ∷ rs))))
              (numbers_above-positive s.next_sequence (length (r ∷ rs)))))
