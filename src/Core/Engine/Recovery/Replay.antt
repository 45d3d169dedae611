-- ===== src/Core/Engine/Recovery/Replay.antt =====
-- The replay of a written log, by `build` of crates/latlng-core/src/lib.rs.
use latlng.Prelude.{
  ℕ, some, List, [], ◌∷◌, ◌≡◌, refl, sym, ap, ◌∙◌, Result, ok, err, map_ok, ◌>>=◌, ok_inj, ok≢err,
  All, retain, ltb, arith,
}
use latlng.Storage.{Bytes, StorageEntry, StorageError, replay_from}
use latlng.Core.Records.{LogRecord}
use latlng.Core.Action.{CoreError}
use latlng.Core.World.{World}
use latlng.Core.Engine.{Record}
use latlng.Core.Engine.Restore.{
  noted, Target, decode_log_record, apply_record, apply_persisted_command, apply_persisted_entry,
  load_entry,
}
use latlng.Core.Engine.Effect.{Plain, strip, effect, effects}
use latlng.Core.Engine.Refinement.{apply_persisted_command-effect}
use latlng.Core.Engine.Recovery.{Encodes}

module _ (w : World) where
  -- What serde_json wrote into these entries, it reads back.
  abbrev pub ReadsBack : List StorageEntry → Type 0
  ReadsBack es =
      All (λ e. (r : Record w) → w.to_vec r ≡ some e.command → w.json_record e.command ≡ some r) es

  pub retain-Encodes :
      (rs : List (Record w)) (es : List StorageEntry)
      → Encodes w rs es
      → retain (λ e. ltb 0 e.sequence) es ≡ es
  retain-Encodes [] [] h = refl
  retain-Encodes (r ∷ rs) (e ∷ es) h =
      let positive = h.1 in ground (arith, positive, retain-Encodes rs es h.2)
  retain-Encodes [] (e ∷ es) h = elim h [ ]
  retain-Encodes (r ∷ rs) [] h = elim h [ ]

  bind-ok :
      {A B : Type 0} (x : Result CoreError A) (f : A → Result CoreError B) (b : B)
      → (x >>= f) ≡ ok b
      → (a : A) × (x ≡ ok a) × (f a ≡ ok b)
  bind-ok (ok a) f b h = (a, refl, h)
  bind-ok (err e) f b h = elim (ok≢err b e (sym h)) [ ]

  map_ok-ok :
      {A B : Type 0} (x : Result CoreError A) (f : A → B) (b : B)
      → map_ok f x ≡ ok b
      → (a : A) × (x ≡ ok a) × (f a ≡ b)
  map_ok-ok (ok a) f b h = (a, refl, ok_inj h)
  map_ok-ok (err e) f b h = elim (ok≢err b e (sym h)) [ ]

  -- A record is applied, and what is left of the log is what the others do.
  apply_record-effects :
      (now : ℕ) (r : Record w) (rs : List (Record w)) (t : Target w) (p : Plain w)
      → effects w now (r ∷ rs) (strip w t.0) ≡ ok p
      → (t' : Target w) × (apply_record w now r t ≡ ok t')
        × (effects w now rs (strip w t'.0) ≡ ok p)
  unfolding effects apply_record
  apply_record-effects now (LogRecord.command c) rs (m, g) p h =
      let (q, e, rest) = bind-ok (effect w now c (strip w m)) (effects w now rs) p h in
      let (t', f, same) =
        map_ok-ok (apply_persisted_command w now c (m, g)) (λ t. strip w t.0) q
          (apply_persisted_command-effect w now c m g ∙ e) in
      (t', f, ap (effects w now rs) same ∙ rest)
  apply_record-effects now (LogRecord.webhook_enqueue a) rs t p h = (t, refl, h)
  apply_record-effects now (LogRecord.webhook_ack a) rs t p h = (t, refl, h)
  apply_record-effects now (LogRecord.webhook_retry_scheduled a) rs t p h = (t, refl, h)
  apply_record-effects now (LogRecord.webhook_dead_letter a) rs t p h = (t, refl, h)

  decode_log_record-ok :
      (b : Bytes) (r : Record w) → w.json_record b ≡ some r → decode_log_record w b ≡ ok r
  unfolding decode_log_record
  decode_log_record-ok b r h = rw (h, decode_log_record) refl

  load_entry-ok :
      (now : ℕ) (r : Record w) (e : StorageEntry) (last : ℕ) (t t' : Target w)
      → w.json_record e.command ≡ some r
      → apply_record w now r t ≡ ok t'
      → load_entry w now e (last, t) ≡ (ok tt, (e.sequence, t'))
  unfolding load_entry apply_persisted_entry
  load_entry-ok now r e last t t' h a =
      ap (λ x. noted w e.sequence t (x >>= λ q. apply_record w now q t))
        (decode_log_record-ok e.command r h)
      ∙ ap (noted w e.sequence t) a

  -- The loop of a replay after an entry.
  replay_rest :
      StorageEntry
      → List StorageEntry
      → ℕ
      → Result StorageError (Unit {0}) × (ℕ × Target w)
      → Result StorageError ℕ × (ℕ × Target w)
  replay_rest e es now (r, s) = elim r [
    | ok _ ↦ replay_from (load_entry w now) e.sequence es s
    | err x ↦ (err x, s)
  ]

  -- A log of entries that hold records, whose effects give collections, replays to these
  -- collections.
  pub replay_from-effects :
      (now : ℕ) (rs : List (Record w)) (es : List StorageEntry) (last : ℕ) (s : ℕ × Target w)
      (p : Plain w)
      → Encodes w rs es
      → ReadsBack es
      → effects w now rs (strip w s.1.0) ≡ ok p
      → (last' : ℕ) × (s' : ℕ × Target w) × (replay_from (load_entry w now) last es s
          ≡ (ok last', s'))
        × (strip w s'.1.0 ≡ p)
  unfolding replay_from replay_rest effects
  replay_from-effects now [] [] last s p h b e = (last, s, refl, ok_inj e)
  replay_from-effects now (r ∷ rs) (e ∷ es) last s p h b f =
      let (t', a, rest) = apply_record-effects now r rs s.1 p f in
      let (last', s', q, same) =
        replay_from-effects now rs es e.sequence (e.sequence, t') p h.2 b.1 rest in
      (
        last',
        s',
        ap (replay_rest e es now) (load_entry-ok now r e s.0 s.1 t' (b.0 r h.0) a) ∙ q,
        same,
      )
  replay_from-effects now [] (e ∷ es) last s p h b f = elim h [ ]
  replay_from-effects now (r ∷ rs) [] last s p h b f = elim h [ ]
