-- ===== src/Storage/Aof/Backup.antt =====
-- Verification, backup and restoration of crates/latlng-storage-aof/src/lib.rs as functions of the files' bytes; `none` is a
-- file that does not exist. Files can be read and written; the JSON of a backup is serde_json's.
use latlng.Prelude.{
  ℕ, zero, suc, ◌/◌, ◌%◌, String, Bool, true, false, not, ◌&&◌, Option, none, some, List, [], ◌∷◌,
  Result, ok, err, ◌>>=◌, ◌>>◌, length, if◌then◌else◌, map_ok, last, ◌==◌, string_key, nat_key,
  is_some,
}
use latlng.Storage.{
  Bytes, StorageEntry, StorageError, codec, message, checksum, assert_strictly_increasing,
}
use latlng.Storage.Memory.{sequence_or_zero}
use latlng.Storage.Aof.{Codec, Loaded, nothing_loaded, load_all}
use latlng.Storage.Aof.Writer.{rewritten}

abbrev pub hex_digits : String
hex_digits = "0123456789abcdef"

-- The digit at a place, in front of a text.
abbrev pub with_digit : String → ℕ → String → String
with_digit String.[] n s = s
with_digit (String.◌∷◌ d ds) zero s = String.◌∷◌ d s
with_digit (String.◌∷◌ d ds) (suc n) s = with_digit ds n s

unfoldable pub checksum_hex : Bytes → String
checksum_hex [] = String.[]
checksum_hex (b ∷ bs) =
    with_digit hex_digits (b / 16) (with_digit hex_digits (b % 16) (checksum_hex bs))

pub record AofIntegrityReport : Type 0 where
  pub path : String
  pub entry_count : ℕ
  pub first_sequence : Option ℕ
  pub last_sequence : ℕ
  pub durable_prefix_bytes : ℕ
  pub total_bytes : ℕ
  pub truncated_tail : Bool
  pub checksum_hex : String

pub record AofBackupReport : Type 0 where
  pub backup_path : String
  pub source_path : String
  pub entry_count : ℕ
  pub last_sequence : ℕ
  pub checksum_hex : String

pub record AofRestoreReport : Type 0 where
  pub backup_path : String
  pub restored_path : String
  pub entry_count : ℕ
  pub last_sequence : ℕ
  pub checksum_hex : String

pub record AofBackupFile : Type 0 where
  pub format : String
  pub version : String
  pub created_unix_seconds : ℕ
  pub source_path : String
  pub entry_count : ℕ
  pub first_sequence : Option ℕ
  pub last_sequence : ℕ
  pub checksum_hex : String
  pub entries : List StorageEntry

-- `serde_json::to_writer_pretty` and `from_reader`.
pub record Json : Type 0 where
  pub to_writer_pretty : AofBackupFile → Option Bytes
  pub from_reader : Bytes → Option AofBackupFile

abbrev pub aof_backup_format : String
aof_backup_format = "latlng-aof-backup-v1"

abbrev pub found {ℓ} : {A : Type ℓ} → Option A → Result StorageError A
found none = err (codec [])
found (some a) = ok a

abbrev pub first_sequence : List StorageEntry → Option ℕ
first_sequence [] = none
first_sequence (e ∷ es) = some e.sequence

-- What stops a restoration.
abbrev pub ensure : Bool → Result StorageError (Unit {0})
ensure true = ok tt
ensure false = err (codec [])

module _ (c : Codec) (digest : Bytes → Bytes) where
  abbrev pub report : String → ℕ → Loaded → AofIntegrityReport
  report path total_bytes s = record {
    path = path;
    entry_count = length s.entries;
    first_sequence = first_sequence s.entries;
    last_sequence = sequence_or_zero (last s.entries);
    durable_prefix_bytes = s.durable_prefix_bytes;
    total_bytes = total_bytes;
    truncated_tail = s.truncated_tail;
    checksum_hex = checksum_hex (checksum digest s.entries);
  }

  unfoldable pub load_entries_with_report :
      String → Option Bytes → Result StorageError (List StorageEntry × AofIntegrityReport)
  unfolding load_all checksum_hex checksum
  load_entries_with_report path none = ok ([], report path 0 nothing_loaded)
  load_entries_with_report path (some file) =
      map_ok (λ s. (s.entries, report path (length file) s)) (load_all c file)

  unfoldable pub verify_aof : String → Option Bytes → Result StorageError AofIntegrityReport
  unfolding load_entries_with_report
  verify_aof path file = map_ok (λ x. x.1) (load_entries_with_report path file)

  module _ (j : Json) where
    abbrev pub backup_file :
        String → ℕ → String → List StorageEntry → AofIntegrityReport → AofBackupFile
    backup_file version now source es r = record {
      format = aof_backup_format;
      version = version;
      created_unix_seconds = now;
      source_path = source;
      entry_count = r.entry_count;
      first_sequence = r.first_sequence;
      last_sequence = r.last_sequence;
      checksum_hex = r.checksum_hex;
      entries = es;
    }

    -- The report, and the bytes of the backup.
    unfoldable pub backup_aof :
        (version : String) (now : ℕ) (source destination : String)
        → Option Bytes
        → Result StorageError (AofBackupReport × Bytes)
    unfolding load_entries_with_report
    backup_aof version now source destination file = do
      (es, r) ← load_entries_with_report source file
      bytes ← found (j.to_writer_pretty (backup_file version now source es r))
      ok (
        record {
          backup_path = destination;
          source_path = source;
          entry_count = r.entry_count;
          last_sequence = r.last_sequence;
          checksum_hex = r.checksum_hex;
        },
        bytes,
      )

    -- The checks on a backup, before anything is written.
    unfoldable pub read_backup : Bytes → Result StorageError AofBackupFile
    unfolding assert_strictly_increasing checksum_hex checksum
    read_backup bytes = do
      b ← found (j.from_reader bytes)
      ensure (b.format == aof_backup_format)
      assert_strictly_increasing b.entries
      ensure (checksum_hex (checksum digest b.entries) == b.checksum_hex)
      ok b

    -- The check on what was written.
    unfoldable pub restored :
        String → String → AofBackupFile → Option Bytes → Result StorageError AofRestoreReport
    unfolding verify_aof
    restored backup_path destination b file = do
      r ← verify_aof destination file
      ensure ((r.checksum_hex == b.checksum_hex) && (r.entry_count == b.entry_count))
      ok (record {
        backup_path = backup_path;
        restored_path = destination;
        entry_count = r.entry_count;
        last_sequence = r.last_sequence;
        checksum_hex = r.checksum_hex;
      })

    abbrev pub write_restored :
        String
        → String
        → AofBackupFile
        → Option Bytes
        → Result StorageError Bytes
        → Result StorageError AofRestoreReport × Option Bytes
    write_restored backup_path destination b existing (err e) = (err e, existing)
    write_restored backup_path destination b existing (ok file) =
        (restored backup_path destination b (some file), some file)

    -- The answer, and the destination behind it.
    unfoldable pub restore_aof :
        (backup_path destination : String) (force : Bool)
        → Bytes
        → Option Bytes
        → Result StorageError AofRestoreReport × Option Bytes
    unfolding read_backup restored rewritten
    restore_aof backup_path destination force backup existing =
        if is_some existing && not force
        then (err (message []), existing)
        else elim (read_backup backup) [
          | err e ↦ (err e, existing)
          | ok b ↦ write_restored backup_path destination b existing (rewritten c b.entries)
        ]
