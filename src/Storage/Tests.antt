-- ===== src/Storage/Tests.antt =====
-- The theorems on storage/src at small inputs.
use dest.Base.{◌<◌, ◌≡◌, ◌↔◌, true, some, List, [], ◌∷◌, arith}
use dest.Base.Text.{Text}
use dest.Base.HashMap.{get, remove, values, text_member}
use dest.Storage.Replication.{ReplicationState, new, sum, shards_of, handle_peer_death}
use dest.Storage.Replication.Laws.{Call, run}
use dest.Storage.Replication.Deaths.{handle_peer_death_iff}

abbrev chunk : Text
chunk = b'c' ∷ []

abbrev alice : Text
alice = b'a' ∷ []

abbrev bob : Text
bob = b'b' ∷ []

-- Two peers with shards, and a third that reports and dies.
abbrev calls : List Call
calls =
    Call.register chunk
    ∷ Call.record_shards chunk alice 2
    ∷ Call.record_shards chunk bob 1
    ∷ Call.death (b'd' ∷ [])
    ∷ []

handle_peer_death_iff_example :
    let m = run calls (new 3) in
    (text_member chunk (handle_peer_death alice m).1 ≡ true) ↔ (
      (s : ReplicationState) × (get chunk m.states ≡ some s)
      × (0 < shards_of alice s)
      × (sum (values (remove alice s.current_replicas)) < s.target_replicas))
handle_peer_death_iff_example = handle_peer_death_iff 3 calls chunk alice (omega arith)
