-- ===== src/Storage/Replication/Tests.antt =====
-- The theorem on the survivors of a death at a small input.
use dest.Base.{ℕ, ◌<◌, ◌≡◌, refl, true, false, some, List, [], ◌∷◌, All, if◌then◌else◌, arith}
use dest.Base.Text.{Bytes, Text, bytes_eq}
use dest.Base.HashMap.{get, insert, remove, values, text_member}
use dest.Core.Encryption.{random_nonce, decrypt}
use dest.Core.Encryption.Tests.{
  rng, tagger, key, sealed, shards, left, sealed-encrypt, sealed-encode, left-Distinct,
}
use dest.Core.Erasure.{padded, reconstruct}
use dest.Core.Erasure.Slots.{IsShardOf}
use dest.Core.Tests.Codec.{copier}
use dest.Storage.Replication.{
  ReplicationState, new, new_state, sum, shards_of, check_replication, add_replica, register_chunk,
  record_peer_shards, remove_peer, bury, handle_peer_death,
}
use dest.Storage.Replication.Laws.{Call, step, run}
use dest.Storage.Replication.Survival.{gather, IsHonest, decrypt-handle_peer_death}

abbrev chunk : Text
chunk = b'c' ∷ []

abbrev alice : Text
alice = b'a' ∷ []

abbrev bob : Text
bob = b'b' ∷ []

-- One shard with alice, who dies, and three with bob.
abbrev calls : List Call
calls = Call.register chunk ∷ Call.record_shards chunk alice 1 ∷ Call.record_shards chunk bob 3 ∷ []

abbrev hold : Text → List (ℕ × Bytes)
hold peer = if bytes_eq peer bob then left else []

abbrev tracked : ReplicationState
tracked = record {
  chunk_id = chunk;
  target_replicas = 3;
  current_replicas = (alice, 1) ∷ (bob, 3) ∷ [];
  is_complete = true;
}

tracked-get : get chunk (run calls (new 3)).states ≡ some tracked
unfolding register_chunk record_peer_shards new_state add_replica check_replication sum values
    insert get bytes_eq run step new
tracked-get = refl

death-silent : text_member chunk (handle_peer_death alice (run calls (new 3))).1 ≡ false
unfolding register_chunk record_peer_shards new_state add_replica check_replication sum values
    insert get bytes_eq handle_peer_death bury remove_peer remove text_member run step new
death-silent = refl

left-shards : All (IsShardOf shards) left
left-shards = (refl, (refl, (refl, tt)))

alice-shards : 0 < shards_of alice tracked
unfolding get bytes_eq
alice-shards = omega arith

left-gather : gather hold (remove alice tracked.current_replicas) ≡ left
unfolding remove bytes_eq
left-gather = refl

left-IsHonest : IsHonest hold (remove alice tracked.current_replicas)
unfolding remove bytes_eq
left-IsHonest = (omega arith, tt)

decrypt-handle_peer_death_example :
    (reconstruct (gather hold (remove alice tracked.current_replicas)) ≡ some (padded sealed))
    × (decrypt key random_nonce sealed ≡ some (5 ∷ 6 ∷ []))
decrypt-handle_peer_death_example =
    decrypt-handle_peer_death 3 calls chunk alice tracked hold key random_nonce (5 ∷ 6 ∷ []) sealed
      shards (omega arith) tracked-get (omega arith) alice-shards death-silent sealed-encrypt
      sealed-encode left-IsHonest (rw left-gather left-shards) (rw left-gather left-Distinct)
