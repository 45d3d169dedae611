-- ===== src/Storage/Aof/RoundTrip.antt =====
-- A backup of crates/latlng-storage-aof/src/lib.rs restores what it was taken of.
use latlng.Prelude.{
  ℕ, String, Bool, true, false, not, ◌&&◌, ◌≡◌, refl, sym, ap, ◌∙◌, Option, none, some, List, [],
  ok, ◌>>◌, length, is_some, bind_ok, ok_inj, map_ok, ==_refl, ◌==◌, string_key, nat_key,
}
use latlng.Storage.{Bytes, StorageEntry, checksum}
use latlng.Storage.Order.{assert_strictly_increasing_iff}
use latlng.Storage.Aof.{Codec, Loaded, load_all, load_entries}
use latlng.Storage.Aof.Writer.{rewritten}
use latlng.Storage.Aof.Reading.{IsCodec}
use latlng.Storage.Aof.Loading.{load_all-file}
use latlng.Storage.Aof.Increasing.{load_entries-IsIncreasing}
use latlng.Storage.Aof.Rewriting.{entries_of, applied-entries, rewritten-file_of}
use latlng.Storage.Aof.Backup.{
  AofBackupReport, AofRestoreReport, AofBackupFile, Json, found, ensure, report, backup_file,
  backup_aof, read_backup, restored, verify_aof, load_entries_with_report, restore_aof,
  checksum_hex,
}

-- What serde_json promises: a backup reads back.
abbrev pub IsJson : Json → Type 0
IsJson j =
    (b : AofBackupFile) (bytes : Bytes)
    → j.to_writer_pretty b ≡ some bytes
    → j.from_reader bytes ≡ some b

module _ (c : Codec) (k : IsCodec c) (digest : Bytes → Bytes) (j : Json) (json : IsJson j)
    (file : Bytes) (s : Loaded) (loads : load_all c file ≡ ok s) (version : String) (now : ℕ)
    (source backup_path : String) where
  abbrev the_backup : AofBackupFile
  the_backup =
      backup_file c digest j version now source s.entries (report c digest source (length file) s)

  entries-load : load_entries c file ≡ ok s.entries
  unfolding load_entries
  entries-load = ap (map_ok (λ x. x.entries)) loads

  found_lem : {A : Type 0} (o : Option A) (a : A) → found o ≡ ok a → o ≡ some a
  found_lem none a h = absurd (cc)
  found_lem (some b) a h = ap some (ok_inj h)

  -- What a backup that succeeds has written.
  backup-writes :
      (r : AofBackupReport) (bytes : Bytes)
      → backup_aof c digest j version now source backup_path (some file) ≡ ok (r, bytes)
      → (j.from_reader bytes ≡ some the_backup)
        × (r.entry_count ≡ length s.entries)
        × (r.checksum_hex ≡ checksum_hex (checksum digest s.entries))
  unfolding backup_aof load_entries_with_report
  backup-writes r bytes h =
      let (x, p, q) =
        bind_ok (load_entries_with_report c digest source (some file)) _ (r, bytes) h in
      let e : (s.entries, report c digest source (length file) s) ≡ x =
        ok_inj (
          ap (map_ok (λ l. (l.entries, report c digest source (length file) l))) (sym loads) ∙ p) in
      let b = backup_file c digest j version now source x.0 x.1 in
      let (bytes', p', q') = bind_ok (found (j.to_writer_pretty b)) _ (r, bytes) q in
      let made = ok_inj q' in
      (
        json b bytes (found_lem (j.to_writer_pretty b) bytes' p' ∙ ap (λ y. some y.1) made)
            ∙ ap (λ y. some (backup_file c digest j version now source y.0 y.1)) (sym e),
        ap (λ y. y.0.entry_count) (sym made) ∙ ap (λ y. y.1.entry_count) (sym e),
        ap (λ y. y.0.checksum_hex) (sym made) ∙ ap (λ y. y.1.checksum_hex) (sym e),
      )

  read-the_backup :
      (bytes : Bytes)
      → j.from_reader bytes ≡ some the_backup
      → read_backup c digest j bytes ≡ ok the_backup
  unfolding read_backup
  read-the_backup bytes h =
      rw (h, found)
        (rw
          (
            (assert_strictly_increasing_iff s.entries).1
                (load_entries-IsIncreasing c file s.entries entries-load),
            ==_refl the_backup.checksum_hex,
          )
          refl)

  -- A file that loads to the entries of the backup passes the check of a restoration.
  restored-load :
      (destination : String) (out : Bytes) (l : Loaded)
      → load_all c out ≡ ok l
      → l.entries ≡ s.entries
      → (t : AofRestoreReport) × (restored c digest j backup_path destination the_backup (some out)
          ≡ ok t)
        × (t.entry_count ≡ length s.entries)
        × (t.checksum_hex ≡ checksum_hex (checksum digest s.entries))
  unfolding restored verify_aof load_entries_with_report
  restored-load destination out l p e =
      let sum = λ (es : List StorageEntry). checksum_hex (checksum digest es) in
      let same : ((sum l.entries == sum s.entries) && (length l.entries == length s.entries))
          ≡ true =
        ap (λ es. (sum es == sum s.entries) && (length es == length s.entries)) e
        ∙ rw (==_refl (sum s.entries), ==_refl (length s.entries)) refl in
      let t : AofRestoreReport = record {
        backup_path = backup_path;
        restored_path = destination;
        entry_count = length l.entries;
        last_sequence = (report c digest destination (length out) l).last_sequence;
        checksum_hex = sum l.entries;
      } in
      (t, rw (p, map_ok) (ap (λ b. ensure b >> ok t) same), ap length e, ap sum e)

  -- The checks and the writing of a restoration from the backup.
  restore-written :
      (destination : String) (force : Bool) (bytes out : Bytes) (existing : Option Bytes)
      → (is_some existing && not force) ≡ false
      → read_backup c digest j bytes ≡ ok the_backup
      → rewritten c s.entries ≡ ok out
      → restore_aof c digest j backup_path destination force bytes existing
        ≡ (restored c digest j backup_path destination the_backup (some out), some out)
  unfolding restore_aof
  restore-written destination force bytes out existing f h w = rw (f, h, w, restore_aof) refl

  -- bincode and serde_json read back what they wrote. A file that loads, whole or with a torn tail,
  -- is backed up, and the backup is restored, to a place where no file is or with `force`. Where
  -- its entries can be encoded, the restoration succeeds, it reports as many entries and the same
  -- checksum as the backup did, and the restored file loads to the entries of the first.
  pub backup-restore :
      (destination : String) (force : Bool) (existing : Option Bytes) (r : AofBackupReport)
      (bytes out : Bytes)
      → (is_some existing && not force) ≡ false
      → backup_aof c digest j version now source backup_path (some file) ≡ ok (r, bytes)
      → rewritten c s.entries ≡ ok out
      → (t : AofRestoreReport) × (restore_aof c digest j backup_path destination force bytes
            existing
          ≡ (ok t, some out))
        × (t.entry_count ≡ r.entry_count)
        × (t.checksum_hex ≡ r.checksum_hex)
        × (load_entries c out ≡ ok s.entries)
  unfolding load_entries
  backup-restore destination force existing r bytes out f h w =
      let (written, count, sum) = backup-writes r bytes h in
      let rises = load_entries-IsIncreasing c file s.entries entries-load in
      let (l, p, e, x, y) =
        load_all-file c k (entries_of s.entries) out s.entries
          (sym (rewritten-file_of c s.entries) ∙ w) (applied-entries [] s.entries rises) in
      let (t, q, n, m) = restored-load destination out l p e in
      (
        t,
        restore-written destination force bytes out existing f (read-the_backup bytes written) w
            ∙ ap (λ z. (z, some out)) q,
        n ∙ sym count,
        m ∙ sym sum,
        ap (map_ok (λ z. z.entries)) p ∙ ap ok e,
      )
