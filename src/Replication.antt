-- ===== src/Replication.antt =====
-- crates/latlng-replication/src/lib.rs: the status of a server in the replication, and the chunks
-- of the log that a follower fetches.
pub mod CatchUp
pub mod Examples
use latlng.Prelude.{
  ℕ, ◌+◌, ◌≡◌, Bool, true, false, ◌&&◌, ◌||◌, not, List, [], ◌∷◌, ◌++◌, Option, none, some, Result,
  ok, err, String, max, ltb, leb, length, if◌then◌else◌,
}
use latlng.Storage.{Bytes, StorageEntry, StorageError, checksum, Callback}
use latlng.Storage.Memory
use latlng.Storage.Memory.{MemoryBackend}

pub data ReplicationRole : Type 0 where
  leader_role follower_role : ReplicationRole

pub record FollowTarget : Type 0 where
  pub host : String
  pub port : ℕ

pub record ReplicationStatus : Type 0 where
  pub server_id : String
  pub role : ReplicationRole
  pub follow_target : Option FollowTarget
  pub leader_id : Option String
  pub caught_up : Bool
  pub caught_up_once : Bool
  pub local_last_sequence : ℕ
  pub leader_last_sequence : ℕ
  pub reconnects_total : ℕ
  pub checksum_mismatches_total : ℕ
  pub resyncs_total : ℕ
  pub last_error : Option String

unfoldable pub leader : String → ReplicationStatus
leader server_id = record {
  server_id = server_id;
  role = leader_role;
  follow_target = none;
  leader_id = none;
  caught_up = true;
  caught_up_once = true;
  local_last_sequence = 0;
  leader_last_sequence = 0;
  reconnects_total = 0;
  checksum_mismatches_total = 0;
  resyncs_total = 0;
  last_error = none;
}

unfoldable pub follower : String → FollowTarget → ReplicationStatus
follower server_id target = record {
  server_id = server_id;
  role = follower_role;
  follow_target = some target;
  leader_id = none;
  caught_up = false;
  caught_up_once = false;
  local_last_sequence = 0;
  leader_last_sequence = 0;
  reconnects_total = 0;
  checksum_mismatches_total = 0;
  resyncs_total = 0;
  last_error = none;
}

unfoldable pub is_follower : ReplicationStatus → Bool
is_follower s = elim s.role [ leader_role ↦ false | follower_role ↦ true ]

unfoldable pub queries_allowed : ReplicationStatus → Bool
unfolding is_follower
queries_allowed s = not (is_follower s) || s.caught_up_once

unfoldable pub effective_read_only : ReplicationStatus → Bool → Bool
unfolding is_follower
effective_read_only s configured_read_only = configured_read_only || is_follower s

pub record ReplicationChunk (D : Type 0) : Type 0 where
  pub entries : List StorageEntry
  pub digest : D
  pub last_sequence : ℕ

-- The callback of `fetch_chunk`, over the variables `entries` and `last_sequence`.
unfoldable pub fetch_entry : ℕ → Callback (List StorageEntry × ℕ)
fetch_entry max_entries e (entries, last) = (
  ok tt,
  (if ltb (length entries) (max max_entries 1) then entries ++ e ∷ [] else entries, e.sequence),
)

module _ {D : Type 0} (digest : Bytes → D) where
  -- What `fetch_chunk` makes of the variables after the replay.
  abbrev pub finish_chunk :
      Result StorageError ℕ × (List StorageEntry × ℕ) → Result StorageError (ReplicationChunk D)
  finish_chunk (ok _, (entries, last)) =
      ok (record { entries = entries; digest = checksum digest entries; last_sequence = last })
  finish_chunk (err x, _) = err x

  unfoldable pub fetch_chunk : MemoryBackend → ℕ → ℕ → Result StorageError (ReplicationChunk D)
  unfolding fetch_entry Memory.replay
  fetch_chunk b after_sequence max_entries =
      finish_chunk (Memory.replay b after_sequence (fetch_entry max_entries) ([], after_sequence))

  unfoldable pub apply_chunk :
      MemoryBackend → ReplicationChunk D → Result StorageError (Unit {0}) × MemoryBackend
  apply_chunk b chunk = Memory.append_batch b chunk.entries

  unfoldable pub verify_range : (D → D → Bool) → MemoryBackend → ℕ → ℕ → D → Bool
  verify_range same b from to expected = same (Memory.checksum_range digest b from to) expected
