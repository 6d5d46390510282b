-- ===== src/P2p/Heartbeat/Peers.antt =====
-- p2p/src/heartbeat.rs: the counters of the peers over any sequence of calls, and who is touched by a
-- call.
use dest.Base.{
  ℕ, ◌^◌, ◌≤◌, ◌<◌, ◌≡◌, refl, some, List, [], ◌∷◌, inl, inr, if◌then◌else◌, arith, Option-cases,
}
use mathlib.Core.Option
use dest.Base.Text.{Text, bytes_eq}
use dest.Base.HashMap.{HashMap, get, get-insert, AllValues, AllValues-insert, AllValues-get}
use dest.P2p.Heartbeat.{
  HeartbeatConfig, HeartbeatManager, PeerState, PeerStatus, new_peer, new, peer_or_new, beat,
  process_heartbeat, tick_peer, tick_peers, tick, set_available_space, register_peer,
}

abbrev pub StatusCounts : HeartbeatConfig → PeerStatus → ℕ → Type 0
StatusCounts config PeerStatus.alive k = k < config.suspect_threshold
StatusCounts config PeerStatus.suspect k = (config.suspect_threshold ≤ k) × (k < config.max_missed)
StatusCounts config PeerStatus.dead k = Unit

-- The count of a peer that is alive or suspect agrees with its status; nothing is said of the dead, whose
-- count may wrap around.
abbrev pub IsCounted : HeartbeatConfig → PeerState → Type 0
IsCounted config p = StatusCounts config p.status p.missed_heartbeats

-- The thresholds of a configuration, which are 32-bit numbers.
pub record IsOrdered (config : HeartbeatConfig) : Type 0 where
  pub some_missed : 0 < config.suspect_threshold
  pub order : config.suspect_threshold < config.max_missed
  pub small : config.max_missed < 2 ^ 32

new_peer-IsCounted :
    (config : HeartbeatConfig) (now : ℕ) (id : Text)
    → IsOrdered config
    → IsCounted config (new_peer now id)
unfolding new_peer
new_peer-IsCounted config now id o = o.some_missed

pub beat-IsCounted :
    (config : HeartbeatConfig) (now : ℕ) (id : Text) (space : ℕ) (p : PeerState)
    → IsOrdered config
    → IsCounted config p
    → IsCounted config (beat now id space p).0
unfolding beat
beat-IsCounted config now id space p o h = ground arith

tick_peer-IsCounted :
    (config : HeartbeatConfig) (now : ℕ) (p : PeerState)
    → IsOrdered config
    → IsCounted config p
    → IsCounted config (tick_peer config now p).0
unfolding tick_peer
tick_peer-IsCounted config now p o h = ground arith

pub peer_or_new-IsCounted :
    (config : HeartbeatConfig) (now : ℕ) (id : Text) (peers : HashMap PeerState)
    → IsOrdered config
    → AllValues (IsCounted config) peers
    → IsCounted config (peer_or_new now id (get id peers))
peer_or_new-IsCounted config now id peers o h = elim (Option-cases (get id peers)) [
  | inl absent ↦ rw absent (new_peer-IsCounted config now id o)
  | inr (p, found) ↦ rw found (AllValues-get (IsCounted config) id p peers h found)
]

tick_peers-IsCounted :
    (config : HeartbeatConfig) (now : ℕ) (peers : HashMap PeerState)
    → IsOrdered config
    → AllValues (IsCounted config) peers
    → AllValues (IsCounted config) (tick_peers config now peers).0
unfolding tick_peers
tick_peers-IsCounted config now [] o h = tt
tick_peers-IsCounted config now ((k, p) ∷ peers) o h =
    (tick_peer-IsCounted config now p o h.0, tick_peers-IsCounted config now peers o h.1)

get-tick_peers :
    (config : HeartbeatConfig) (now : ℕ) (j : Text) (peers : HashMap PeerState)
    → get j (tick_peers config now peers).0
      ≡ Option.map (λ (p : PeerState). (tick_peer config now p).0) (get j peers)
unfolding tick_peers get
get-tick_peers config now j [] = refl
get-tick_peers config now j ((k, p) ∷ peers) = ground (arith, get-tick_peers config now j peers)

-- A call of a method that changes the peers, at its time.
pub data Call : Type 0 where
  heartbeat_call : ℕ → Text → ℕ → ℕ → Call
  tick_call : ℕ → Call
  register_call : ℕ → Text → Call
  space_call : ℕ → Call

unfoldable pub step : Call → HeartbeatManager → HeartbeatManager
step (Call.heartbeat_call now id timestamp space) m = (process_heartbeat now id timestamp space m).0
step (Call.tick_call now) m = (tick now m).0
step (Call.register_call now id) m = register_peer now id m
step (Call.space_call space) m = set_available_space space m

unfoldable pub run : List Call → HeartbeatManager → HeartbeatManager
run [] m = m
run (k ∷ ks) m = run ks (step k m)

-- The configuration, and every peer counted by it.
abbrev pub IsSound : HeartbeatConfig → HeartbeatManager → Type 0
IsSound config m = (m.config ≡ config) × AllValues (IsCounted config) m.peers

step-IsSound :
    (config : HeartbeatConfig) (k : Call) (m : HeartbeatManager)
    → IsOrdered config
    → IsSound config m
    → IsSound config (step k m)
unfolding step process_heartbeat tick register_peer set_available_space
step-IsSound config (Call.heartbeat_call now id timestamp space) m o h =
    let p = peer_or_new now id (get id m.peers) in
    (
      h.0,
      AllValues-insert (IsCounted config) id (beat now id space p).0 m.peers
          (beat-IsCounted config now id space p o
            (peer_or_new-IsCounted config now id m.peers o h.1))
          h.1,
    )
step-IsSound config (Call.tick_call now) m o h =
    (h.0, rw h.0 (tick_peers-IsCounted config now m.peers o h.1))
step-IsSound config (Call.register_call now id) m o h = (
  h.0,
  AllValues-insert (IsCounted config) id (peer_or_new now id (get id m.peers)) m.peers
      (peer_or_new-IsCounted config now id m.peers o h.1) h.1,
)
step-IsSound config (Call.space_call space) m o h = h

pub run-IsSound :
    (config : HeartbeatConfig) (ks : List Call) (m : HeartbeatManager)
    → IsOrdered config
    → IsSound config m
    → IsSound config (run ks m)
unfolding run
run-IsSound config [] m o h = h
run-IsSound config (k ∷ ks) m o h = run-IsSound config ks (step k m) o (step-IsSound config k m o h)

-- With thresholds 0 < suspect < max < 2^32, after any sequence of heartbeats, ticks and registrations every
-- peer that is alive or suspect has a count that agrees with it: below the suspect threshold, or from there
-- to the maximum.
run-IsCounted :
    (config : HeartbeatConfig) (node_id : Text) (ks : List Call)
    → IsOrdered config
    → AllValues (IsCounted config) (run ks (new node_id config)).peers
run-IsCounted config node_id ks o =
    (run-IsSound config ks (new node_id config) o (unfold new in (refl, tt))).1

pub beat-alive :
    (now : ℕ) (id : Text) (space : ℕ) (p : PeerState)
    → let q = (beat now id space p).0 in
      (q.status ≡ PeerStatus.alive) × (q.last_seen ≡ now) × (q.consecutive_failures ≡ 0)
unfolding beat
beat-alive now id space p = ground arith

-- After a heartbeat its sender is known, alive, last seen at that moment and with no failures
-- counted, and every other peer is as it was.
pub process_heartbeat-get :
    (now : ℕ) (id j : Text) (timestamp space : ℕ) (m : HeartbeatManager)
    → let m' = (process_heartbeat now id timestamp space m).0 in
      (q : PeerState) × (get j m'.peers ≡ (if bytes_eq j id then some q else get j m.peers))
      × (q.status ≡ PeerStatus.alive)
      × (q.last_seen ≡ now)
      × (q.consecutive_failures ≡ 0)
unfolding process_heartbeat
process_heartbeat-get now id j timestamp space m =
    let p = peer_or_new now id (get id m.peers) in
    let q = (beat now id space p).0 in
    let (up, seen, none_failed) = beat-alive now id space p in
    (q, get-insert j id q m.peers, up, seen, none_failed)

-- A tick takes every peer through its own round, and adds or removes none.
pub get-tick :
    (now : ℕ) (j : Text) (m : HeartbeatManager)
    → get j (tick now m).0.peers
      ≡ Option.map (λ (p : PeerState). (tick_peer m.config now p).0) (get j m.peers)
unfolding tick
get-tick now j m = get-tick_peers m.config now j m.peers
