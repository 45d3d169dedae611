-- ===== src/Storage/Aof/BackupExamples.antt =====
-- A backup and its restoration at a concrete file, with a small stand-in for serde_json.
use latlng.Prelude.{
  ℕ, Bool, true, false, ◌&&◌, ◌≡◌, refl, sym, ap, ◌∙◌, Option, none, some, List, [], ◌∷◌, ◌++◌, ok,
  ◌==◌, ==_iff, string_key, if◌then◌else◌, Bool-cases, inl, inr,
}
use latlng.Storage.{Bytes, StorageEntry, le_bytes}
use latlng.Storage.Aof.{Loaded, load_all, load_frames, load_entries}
use latlng.Storage.Aof.Writer.{rewritten}
use latlng.Storage.Aof.Samples.{at, toy, toy-IsCodec, some_inj, none≢some}
use latlng.Storage.Aof.Backup.{
  AofBackupFile, AofBackupReport, AofRestoreReport, Json, aof_backup_format, backup_aof,
  restore_aof,
}
use latlng.Storage.Aof.RoundTrip.{IsJson, backup-restore}

-- The texts of a backup that the stand-in can write.
abbrev has_texts : AofBackupFile → Bool
has_texts b =
    (b.format == aof_backup_format)
    && ((b.version == "1") && ((b.source_path == "a") && (b.checksum_hex == "")))

abbrev entry_numbers : List ℕ → StorageEntry → Bytes → Option Bytes
entry_numbers ns e [] = some (e.sequence ∷ e.timestamp_ns ∷ ns)
entry_numbers ns e (x ∷ c) = none

-- One entry without a command.
abbrev numbers : AofBackupFile → Option ℕ → List StorageEntry → Option Bytes
numbers b (some q) (e ∷ []) =
    entry_numbers (q ∷ b.created_unix_seconds ∷ b.entry_count ∷ b.last_sequence ∷ []) e e.command
numbers b _ _ = none

abbrev backup_of : Bytes → Option AofBackupFile
backup_of (s ∷ t ∷ q ∷ created ∷ count ∷ last ∷ []) = some (record {
  format = aof_backup_format;
  version = "1";
  created_unix_seconds = created;
  source_path = "a";
  entry_count = count;
  first_sequence = some q;
  last_sequence = last;
  checksum_hex = "";
  entries = at s t ∷ [];
})
backup_of _ = none

abbrev toy_json : Json
toy_json = record {
  to_writer_pretty = λ b. if has_texts b then numbers b b.first_sequence b.entries else none;
  from_reader = backup_of;
}

and-true : (a b : Bool) → (a && b) ≡ true → (a ≡ true) × (b ≡ true)
and-true true true h = (refl, refl)
and-true true false h = absurd (cc)
and-true false b h = absurd (cc)

with_texts : AofBackupFile → AofBackupFile
with_texts b = record b {
  format = aof_backup_format;
  version = "1";
  source_path = "a";
  checksum_hex = "";
}

texts-back : (b : AofBackupFile) → has_texts b ≡ true → with_texts b ≡ b
unfolding with_texts
texts-back b h =
    let (f, h1) = and-true (b.format == aof_backup_format) _ h in
    let (v, h2) = and-true (b.version == "1") _ h1 in
    let (s, c) = and-true (b.source_path == "a") _ h2 in
    ap (λ x. record (with_texts b) { format = x }) (sym ((==_iff b.format aof_backup_format).0 f))
    ∙ ap (λ x. record (with_texts b) { format = b.format; version = x })
        (sym ((==_iff b.version "1").0 v))
    ∙ ap (λ x. record b { source_path = x; checksum_hex = "" })
        (sym ((==_iff b.source_path "a").0 s))
    ∙ ap (λ x. record b { checksum_hex = x }) (sym ((==_iff b.checksum_hex "").0 c))

numbers-back :
    (b : AofBackupFile) (p : Bytes) (first : Option ℕ) (es : List StorageEntry)
    → numbers b first es ≡ some p
    → backup_of p ≡ some (record (with_texts b) { first_sequence = first; entries = es })
unfolding with_texts
numbers-back b p none es h = absurd (cc)
numbers-back b p (some q) [] h = absurd (cc)
numbers-back b p (some q) (e ∷ d ∷ es) h = absurd (cc)
numbers-back b p (some q) (e ∷ []) h = go e.command refl
  where
    go :
        (c : Bytes)
        → e.command ≡ c
        → backup_of p ≡ some (record (with_texts b) { first_sequence = some q; entries = e ∷ [] })
    go [] r =
        let ns = q ∷ b.created_unix_seconds ∷ b.entry_count ∷ b.last_sequence ∷ [] in
        ap backup_of
          (some_inj (e.sequence ∷ e.timestamp_ns ∷ ns) p (ap (entry_numbers ns e) (sym r) ∙ h))
        ∙ ap
            (λ k. some (record (with_texts b) {
              first_sequence = some q;
              entries = record e { command = k } ∷ [];
            }))
            (sym r)
    go (x ∷ c) r =
        let ns = q ∷ b.created_unix_seconds ∷ b.entry_count ∷ b.last_sequence ∷ [] in
        elim (none≢some p (ap (entry_numbers ns e) (sym r) ∙ h)) [ ]

with_log :
    (b : AofBackupFile)
    → with_texts b ≡ b
    → record (with_texts b) { first_sequence = b.first_sequence; entries = b.entries } ≡ b
unfolding with_texts
with_log b h = h

toy_json-IsJson : IsJson toy_json
toy_json-IsJson b p h = elim (Bool-cases (has_texts b)) [
  | inl t ↦
      numbers-back b p b.first_sequence b.entries
        (ap (λ x. if x then numbers b b.first_sequence b.entries else none) (sym t) ∙ h)
      ∙ ap some (with_log b (texts-back b t))
  | inr f ↦
      elim (none≢some p
        (ap (λ x. if x then numbers b b.first_sequence b.entries else none) (sym f) ∙ h)) [ ]
]

-- The entry 5, and 3 bytes of a frame that was cut off.
abbrev cut_file : Bytes
cut_file = (le_bytes 8 2 ++ 5 ∷ 50 ∷ []) ++ 2 ∷ 0 ∷ 0 ∷ []

abbrev cut_loaded : Loaded
cut_loaded = record {
  entries = at 5 50 ∷ [];
  offset = 10;
  durable_prefix_bytes = 10;
  truncated_tail = true;
}

abbrev backup_report : AofBackupReport
backup_report = record {
  backup_path = "b";
  source_path = "a";
  entry_count = 1;
  last_sequence = 5;
  checksum_hex = "";
}

backup-restore_example :
    (t : AofRestoreReport) × (restore_aof toy
        (λ _. [])
        toy_json
        "b"
        "c"
        false
        (5 ∷ 50 ∷ 5 ∷ 9 ∷ 1 ∷ 5 ∷ [])
        none
      ≡ (ok t, some (le_bytes 8 2 ++ 5 ∷ 50 ∷ [])))
    × (t.entry_count ≡ 1)
    × (t.checksum_hex ≡ "")
    × (load_entries toy (le_bytes 8 2 ++ 5 ∷ 50 ∷ []) ≡ ok (at 5 50 ∷ []))
unfolding load_all load_frames backup_aof rewritten le_bytes
backup-restore_example =
    backup-restore toy toy-IsCodec (λ _. []) toy_json toy_json-IsJson cut_file cut_loaded refl "1" 9
      "a" "b" "c" false none backup_report (5 ∷ 50 ∷ 5 ∷ 9 ∷ 1 ∷ 5 ∷ [])
      (le_bytes 8 2 ++ 5 ∷ 50 ∷ []) refl refl refl
