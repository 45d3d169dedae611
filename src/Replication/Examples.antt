-- ===== src/Replication/Examples.antt =====
-- A follower catching up from concrete logs.
use latlng.Prelude.{ℕ, ◌≡◌, refl, [], ◌∷◌, ok, arith}
use latlng.Storage.{Bytes, StorageEntry}
use latlng.Storage.Memory.{MemoryBackend, recording}
use latlng.Storage.Replay.{newer}
use latlng.Replication.{fetch_chunk}
use latlng.Replication.CatchUp.{chunk_of, fetch_chunk_lem, sync_rounds, sync_rounds_catch_up}

abbrev entry : ℕ → StorageEntry
entry n = record { sequence = n; timestamp_ns = 5; command = 97 ∷ [] }

abbrev leader_log : MemoryBackend
leader_log = record recording { entries = entry 1 ∷ entry 3 ∷ entry 4 ∷ entry 9 ∷ [] }

abbrev follower_log : MemoryBackend
follower_log = record recording { entries = entry 1 ∷ [] }

-- The bytes themselves stand for their digest.
abbrev digest : Bytes → Bytes
digest bytes = bytes

fetch_chunk_lem_example :
    fetch_chunk digest leader_log 1 2 ≡ ok (chunk_of digest 2 1 (newer 1 leader_log.entries))
fetch_chunk_lem_example = fetch_chunk_lem digest leader_log 1 2

sync_rounds_catch_up_example :
    (sync_rounds digest 3 leader_log 2 follower_log).entries ≡ leader_log.entries
sync_rounds_catch_up_example =
    sync_rounds_catch_up digest 3 leader_log follower_log 2 (entry 3 ∷ entry 4 ∷ entry 9 ∷ []) refl
      refl (omega arith) (omega arith)
