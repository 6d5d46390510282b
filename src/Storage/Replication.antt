-- ===== src/Storage/Replication.antt =====
-- storage/src/replication.rs: who holds how many shards of a chunk, and what the death of a peer asks
-- for.
pub mod Laws
pub mod Deaths
pub mod Survival
mod Tests
use dest.Base.{
  ℕ, ◌+◌, ◌%◌, ◌^◌, Bool, false, Option, none, some, List, [], ◌∷◌, keep, ltb, leb, not,
  if◌then◌else◌, ◌&&◌,
}
use dest.Base.Text.{Text}
use dest.Base.HashMap.{HashMap, get, insert, remove, values, keys}

pub record ReplicationState : Type 0 where
  pub chunk_id : Text
  pub target_replicas : ℕ
  pub current_replicas : HashMap ℕ
  pub is_complete : Bool

-- `ReplicationState::new`
pub new_state : Text → ℕ → ReplicationState
new_state chunk_id target_replicas = record {
  chunk_id = chunk_id;
  target_replicas = target_replicas;
  current_replicas = [];
  is_complete = false;
}

-- `sum()` of 64-bit numbers, which wraps around in a release build.
pub sum : List ℕ → ℕ
sum [] = 0
sum (n ∷ ns) = (n + sum ns) % 2 ^ 64

pub check_replication : ReplicationState → Bool
check_replication s = leb s.target_replicas (sum (values s.current_replicas))

-- `self.is_complete = self.check_replication()`
abbrev pub recheck : ReplicationState → ReplicationState
recheck s = record s { is_complete = check_replication s }

pub add_replica : Text → ℕ → ReplicationState → ReplicationState
add_replica peer_id shard_count s =
    recheck (record s { current_replicas = insert peer_id shard_count s.current_replicas })

-- `remove(peer_id).unwrap_or(0)`
abbrev pub or_zero : Option ℕ → ℕ
or_zero none = 0
or_zero (some n) = n

abbrev pub shards_of : Text → ReplicationState → ℕ
shards_of peer_id s = or_zero (get peer_id s.current_replicas)

pub remove_peer : Text → ReplicationState → ReplicationState × ℕ
remove_peer peer_id s = (
  recheck (record s { current_replicas = remove peer_id s.current_replicas }),
  shards_of peer_id s,
)

abbrev pub peers_needing_replication : ReplicationState → List Text
peers_needing_replication s = if s.is_complete then [] else keys s.current_replicas

pub record ReplicationManager : Type 0 where
  pub states : HashMap ReplicationState
  pub default_replicas : ℕ

-- `ReplicationManager::new`
unfoldable pub new : ℕ → ReplicationManager
new default_replicas = record { states = []; default_replicas = default_replicas }

pub register_chunk : Text → ReplicationManager → ReplicationManager
register_chunk chunk_id m = record m {
  states = insert chunk_id (new_state chunk_id m.default_replicas) m.states;
}

-- The change of the state that `get_mut` finds.
abbrev pub put_back :
    Text
    → (ReplicationState → ReplicationState)
    → Option ReplicationState
    → HashMap ReplicationState
    → HashMap ReplicationState
put_back k f none states = states
put_back k f (some s) states = insert k (f s) states

abbrev pub update :
    Text
    → (ReplicationState → ReplicationState)
    → HashMap ReplicationState
    → HashMap ReplicationState
update k f states = put_back k f (get k states) states

pub record_peer_shards : Text → Text → ℕ → ReplicationManager → ReplicationManager
record_peer_shards chunk_id peer_id shard_count m = record m {
  states = update chunk_id (add_replica peer_id shard_count) m.states;
}

-- The test of the loop of `handle_peer_death`.
abbrev pub needs_repair : ReplicationState × ℕ → Bool
needs_repair (s, removed) = ltb 0 removed && not s.is_complete

-- The loop of `handle_peer_death`.
pub bury : Text → HashMap ReplicationState → HashMap ReplicationState × List Text
bury dead_peer_id [] = ([], [])
bury dead_peer_id ((chunk_id, s) ∷ states) =
    let r = remove_peer dead_peer_id s in
    let (states', repair) = bury dead_peer_id states in
    ((chunk_id, r.0) ∷ states', if needs_repair r then chunk_id ∷ repair else repair)

pub handle_peer_death : Text → ReplicationManager → ReplicationManager × List Text
handle_peer_death dead_peer_id m =
    let (states, repair) = bury dead_peer_id m.states in (record m { states = states }, repair)

abbrev pub chunks_needing_replication : ReplicationManager → List ReplicationState
chunks_needing_replication m = keep (λ (s : ReplicationState). not s.is_complete) (values m.states)

abbrev pub complete_of : Option ReplicationState → Bool
complete_of none = false
complete_of (some s) = s.is_complete

pub is_replicated : Text → ReplicationManager → Bool
is_replicated chunk_id m = complete_of (get chunk_id m.states)

pub unregister_chunk : Text → ReplicationManager → ReplicationManager
unregister_chunk chunk_id m = record m { states = remove chunk_id m.states }
