-- ===== src/Storage/Replication/Laws.antt =====
-- storage/src/replication.rs: the flag of a chunk agrees with the shards that are counted, over any
-- sequence of calls.
use dest.Base.{
  ℕ, ◌+◌, ◌%◌, ◌^◌, ◌<◌, ◌≡◌, refl, none, List, [], ◌∷◌, leb, Option-cases, inl, inr, arith,
}
use dest.Base.Text.{Text}
use dest.Base.HashMap.{
  HashMap, get, insert, values, get-insert_same, AllValues, AllValues-insert, AllValues-get,
  AllValues-remove, HasUniqueKeys, insert-HasUniqueKeys, remove-HasUniqueKeys,
}
use dest.Storage.Replication.{
  ReplicationState, ReplicationManager, new_state, new, sum, check_replication, add_replica,
  remove_peer, update, register_chunk, record_peer_shards, bury, handle_peer_death, is_replicated,
  unregister_chunk,
}

-- The flag of a state says whether its shards reach its target.
abbrev pub IsChecked : ReplicationState → Type 0
IsChecked s = (0 < s.target_replicas) × (s.is_complete ≡ check_replication s)

new_state-IsChecked : (id : Text) (target : ℕ) → 0 < target → IsChecked (new_state id target)
unfolding new_state check_replication sum values
new_state-IsChecked id target h = ground arith

add_replica-IsChecked :
    (peer : Text) (n : ℕ) (s : ReplicationState) → IsChecked s → IsChecked (add_replica peer n s)
unfolding add_replica check_replication
add_replica-IsChecked peer n s h = (h.0, refl)

remove_peer-IsChecked :
    (peer : Text) (s : ReplicationState) → IsChecked s → IsChecked (remove_peer peer s).0
unfolding remove_peer check_replication
remove_peer-IsChecked peer s h = (h.0, refl)

bury-IsChecked :
    (peer : Text) (states : HashMap ReplicationState)
    → AllValues IsChecked states
    → AllValues IsChecked (bury peer states).0
unfolding bury
bury-IsChecked peer [] h = tt
bury-IsChecked peer ((c, s) ∷ states) h =
    (remove_peer-IsChecked peer s h.0, bury-IsChecked peer states h.1)

pub get-bury :
    (c peer : Text) (states : HashMap ReplicationState)
    → get c states ≡ none
    → get c (bury peer states).0 ≡ none
unfolding bury get
get-bury c peer [] h = refl
get-bury c peer ((d, s) ∷ states) h = ground (arith, get-bury c peer states)

bury-HasUniqueKeys :
    (peer : Text) (states : HashMap ReplicationState)
    → HasUniqueKeys states
    → HasUniqueKeys (bury peer states).0
unfolding bury
bury-HasUniqueKeys peer [] h = tt
bury-HasUniqueKeys peer ((c, s) ∷ states) h =
    (get-bury c peer states h.0, bury-HasUniqueKeys peer states h.1)

update-IsSound :
    (c : Text) (f : ReplicationState → ReplicationState) (states : HashMap ReplicationState)
    → ((s : ReplicationState) → IsChecked s → IsChecked (f s))
    → AllValues IsChecked states
    → HasUniqueKeys states
    → AllValues IsChecked (update c f states) × HasUniqueKeys (update c f states)
update-IsSound c f states keeps h u = elim (Option-cases (get c states)) [
  | inl absent ↦ rw absent (h, u)
  | inr (s, found) ↦ rw found (
    AllValues-insert IsChecked c (f s) states (keeps s (AllValues-get IsChecked c s states h found))
        h,
    insert-HasUniqueKeys c (f s) states u,
  )
]

-- A call of a method that changes the manager.
pub data Call : Type 0 where
  register : Text → Call
  record_shards : Text → Text → ℕ → Call
  death : Text → Call
  unregister : Text → Call

unfoldable pub step : Call → ReplicationManager → ReplicationManager
step (Call.register c) m = register_chunk c m
step (Call.record_shards c peer n) m = record_peer_shards c peer n m
step (Call.death peer) m = (handle_peer_death peer m).0
step (Call.unregister c) m = unregister_chunk c m

unfoldable pub run : List Call → ReplicationManager → ReplicationManager
run [] m = m
run (k ∷ ks) m = run ks (step k m)

-- Every flag is right, and the chunks are keys of a hash map.
abbrev pub IsSound : ReplicationManager → Type 0
IsSound m = (0 < m.default_replicas) × AllValues IsChecked m.states × HasUniqueKeys m.states

step-IsSound : (k : Call) (m : ReplicationManager) → IsSound m → IsSound (step k m)
unfolding step register_chunk record_peer_shards handle_peer_death unregister_chunk
step-IsSound (Call.register c) m (some_target, flags, unique) =
    let s = new_state c m.default_replicas in
    (
      some_target,
      AllValues-insert IsChecked c s m.states (new_state-IsChecked c m.default_replicas some_target)
          flags,
      insert-HasUniqueKeys c s m.states unique,
    )
step-IsSound (Call.record_shards c peer n) m (some_target, flags, unique) =
    let (flags', unique') =
      update-IsSound c (add_replica peer n) m.states (add_replica-IsChecked peer n) flags unique in
    (some_target, flags', unique')
step-IsSound (Call.death peer) m (some_target, flags, unique) =
    (some_target, bury-IsChecked peer m.states flags, bury-HasUniqueKeys peer m.states unique)
step-IsSound (Call.unregister c) m (some_target, flags, unique) = (
  some_target,
  AllValues-remove IsChecked c m.states flags,
  remove-HasUniqueKeys c m.states unique,
)

run-IsSound_from : (ks : List Call) (m : ReplicationManager) → IsSound m → IsSound (run ks m)
unfolding run
run-IsSound_from [] m h = h
run-IsSound_from (k ∷ ks) m h = run-IsSound_from ks (step k m) (step-IsSound k m h)

pub run-IsSound : (target : ℕ) (ks : List Call) → 0 < target → IsSound (run ks (new target))
run-IsSound target ks h = run-IsSound_from ks (new target) (unfold new in (h, tt, tt))

add_replica-new_state :
    (c peer : Text) (target n : ℕ)
    → n < 2 ^ 64
    → (add_replica peer n (new_state c target)).is_complete ≡ leb target n
unfolding add_replica new_state check_replication values insert sum
add_replica-new_state c peer target n small =
    let same : (n + 0) % 2 ^ 64 ≡ n = omega arith in rw same refl

-- A chunk that is registered anew counts as replicated as soon as one peer reports as many shards,
-- a number of 64 bits, as the target, whether or not any other peer holds one.
pub is_replicated-record_peer_shards :
    (c peer : Text) (n : ℕ) (m : ReplicationManager)
    → n < 2 ^ 64
    → is_replicated c (record_peer_shards c peer n (register_chunk c m)) ≡ leb m.default_replicas n
unfolding is_replicated record_peer_shards register_chunk
is_replicated-record_peer_shards c peer n m small =
    let s = new_state c m.default_replicas in
    rw
      (get-insert_same c s m.states, get-insert_same c (add_replica peer n s) (insert c s m.states))
      (add_replica-new_state c peer m.default_replicas n small)
