-- ===== src/Storage/Aof/Promises.antt =====
-- What crates/latlng-storage-aof/src/lib.rs promises from one start of the server to the next.
use mathlib.Core.List.{append-nil}
use latlng.Prelude.{
  ℕ, zero, suc, ◌<◌, ◌≡◌, refl, sym, ap, ◌∙◌, arith, List, [], ◌++◌, ok, subst, length, take, All,
  inr, map_ok, ok_inj, false,
}
use latlng.Storage.{Bytes}
use latlng.Storage.Aof.{AofFrame, Codec, frame_bytes, load_entries, load_all, load_frames}
use latlng.Storage.Aof.Writer.{Writer, open_with_options}
use latlng.Storage.Aof.Loop.{WriterCommand, Disk, run_writer_loop, final, acknowledged}
use latlng.Storage.Aof.Reading.{IsCodec}
use latlng.Storage.Aof.Loading.{load_all-torn, take-IsTorn}
use latlng.Storage.Aof.Durable.{IsClean, Durable, Durable-load}
use latlng.Storage.Aof.Runs.{IsCommand, IsMeasured, run-Durable}

module _ (c : Codec) (k : IsCodec c) where
  -- A new store: the file is empty, and so is the log.
  abbrev fresh : Writer
  fresh = record { file = []; buffered = []; durable_len = 0; entries = []; is_closed = false }

  open-fresh : (s : Writer) → open_with_options c [] ≡ ok s → fresh ≡ s
  unfolding open_with_options load_entries load_all load_frames
  open-fresh s h = ok_inj h

  fresh-Durable : Durable c fresh
  fresh-Durable = record {
    frames = [];
    stored = refl;
    replays = refl;
    settled = refl;
    measured = refl;
  }

  module _ (most : ℕ) (disks : List Disk) (cs : List WriterCommand) (s : Writer)
      (opened : open_with_options c [] ≡ ok s) (clean : All (λ d. IsClean d.outcome) disks)
      (submitted : All IsCommand cs)
      (measured : All IsMeasured (run_writer_loop c most disks cs s)) where
    run-fresh :
        Durable c (final s (run_writer_loop c most disks cs s))
        × ((final s (run_writer_loop c most disks cs s)).entries
            ≡ acknowledged [] (run_writer_loop c most disks cs s))
    run-fresh =
        let at = open-fresh s opened in
        let (d, e) =
          run-Durable c k most disks cs s clean submitted (inr (ap (λ w. w.is_closed) (sym at)))
            (subst (Durable c) at fresh-Durable) measured in
        (d, e ∙ ap (λ w. acknowledged w.entries (run_writer_loop c most disks cs s)) (sym at))

    -- bincode reads back what it wrote, a writer is opened on an empty file, and it serves commands
    -- that the interface of the storage submits, in groups of any size; writes may fail as long as
    -- their rollback works and leaves nothing in the buffer, and no file is longer than a u64
    -- counts. Then the entries that the writer counts as committed are those that its answers
    -- acknowledge, and the file loads to exactly them: nothing acknowledged is lost, and nothing
    -- refused comes back.
    pub run-load :
        (let t = run_writer_loop c most disks cs s in
          ((final s t).entries ≡ acknowledged [] t)
          × (load_entries c (final s t).file ≡ ok (acknowledged [] t)))
    run-load = let (d, e) = run-fresh in (e, Durable-load c k _ d ∙ ap ok e)

    -- bincode reads back what it wrote, and a writer that was opened on an empty file has served
    -- commands that the interface submits, in files that a u64 can count, where each write that
    -- failed was rolled back and left nothing in the buffer. Then the process dies in the middle of
    -- the next frame, of which `n` bytes and not all have reached the file: the file still loads,
    -- to exactly the entries that were acknowledged.
    pub run-crash :
        (f : AofFrame) (bytes : Bytes) (n : ℕ)
        → frame_bytes c f ≡ ok bytes
        → n < length bytes
        → (let t = run_writer_loop c most disks cs s in
            load_entries c ((final s t).file ++ take n bytes) ≡ ok (acknowledged [] t))
    unfolding load_entries
    run-crash f bytes zero h m =
        ap (load_entries c) (append-nil ((final s (run_writer_loop c most disks cs s)).file))
        ∙ run-load.1
    run-crash f bytes (suc n) h m =
        let (d, e) = run-fresh in
        let (l, p, q, r, t) =
          load_all-torn c k d.frames _ _ d.stored d.replays (take (suc n) bytes)
            (take-IsTorn c f bytes (suc n) k h (omega arith) m) in
        ap (map_ok (λ x. x.entries)) p ∙ ap ok (q ∙ e)
