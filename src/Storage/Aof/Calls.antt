-- ===== src/Storage/Aof/Calls.antt =====
-- Sequences of calls on the two backends, crates/latlng-storage-aof/src/lib.rs and crates/latlng-storage-memory/src/lib.rs.
use latlng.Prelude.{◌≡◌, refl, ap, ◌∙◌, false, List, [], ◌∷◌, Result, ok, err}
use latlng.Storage.{StorageError}
use latlng.Storage.Memory as Memory
use latlng.Storage.Memory.{MemoryBackend, commit}
use latlng.Storage.Aof.{Codec}
use latlng.Storage.Aof.Writer.{Writer}
use latlng.Storage.Aof.Agreement.{
  Call, append, append_batch, snapshot, view, call_file, call_memory, call-agrees, IsTotal,
}

-- The answers to calls, one after the other, and the state in the end.
abbrev pub calls :
    {S : Type 0}
    → (Call → S → Result StorageError (Unit {0}) × S)
    → List Call
    → S
    → List (Result StorageError (Unit {0})) × S
calls call [] s = ([], s)
calls call (k ∷ ks) s = let (r, s') = call k s in let (rs, t) = calls call ks s' in (r ∷ rs, t)

commit-is_closed :
    (b : MemoryBackend) (r : Result StorageError (Unit {0})) (b' : MemoryBackend)
    → b'.is_closed ≡ b.is_closed
    → (commit b r b').1.is_closed ≡ b.is_closed
commit-is_closed b (ok u) b' h = h
commit-is_closed b (err e) b' h = refl

call_memory-is_closed : (k : Call) (b : MemoryBackend) → (call_memory k b).1.is_closed ≡ b.is_closed
unfolding Memory.append Memory.append_batch Memory.snapshot
call_memory-is_closed (append e) b = commit-is_closed b _ _ refl
call_memory-is_closed (append_batch es) b = commit-is_closed b _ _ refl
call_memory-is_closed (snapshot es) b = commit-is_closed b _ _ refl

module _ (c : Codec) (total : IsTotal c) where
  -- On an open store, as long as frames can be encoded and writes succeed, any sequence of `append`,
  -- `append_batch` and `snapshot` gets the same answers, refusals with their errors included, from the
  -- file's backend as from the in-memory backend, and ends with the same entries.
  pub calls-agree :
      (ks : List Call) (s : Writer)
      → s.is_closed ≡ false
      → (let x = calls (call_file c total) ks s in (x.0, view x.1)) ≡ calls call_memory ks (view s)
  calls-agree [] s o = refl
  calls-agree (k ∷ ks) s o =
      let (r, s') = call_file c total k s in
      let agrees = call-agrees c total k s o in
      let open' : s'.is_closed ≡ false =
        ap (λ x. x.1.is_closed) agrees ∙ call_memory-is_closed k (view s) ∙ o in
      ap (λ x. (r ∷ x.0, x.1)) (calls-agree ks s' open')
      ∙ ap (λ x. let (rs, t) = calls call_memory ks x.1 in (x.0 ∷ rs, t)) agrees
