-- ===== src/P2p/Heartbeat.antt =====
-- p2p/src/heartbeat.rs: `HeartbeatManager`. `Instant::now()` is an argument of each method, in
-- nanoseconds; the elapsed time is zero where the clock has not moved on.
pub mod Peers
pub mod Silence
pub mod Rounds
pub mod Counts
use dest.Base.{
  ℕ, ◌+◌, ◌-◌, ◌*◌, ◌%◌, ◌^◌, Bool, true, false, Option, none, some, List, [], ◌∷◌, length, keep,
  ltb, leb, if◌then◌else◌,
}
use dest.Base.Text.{Text}
use dest.Base.HashMap.{HashMap, get, insert, values}
use dest.P2p.Message.{P2pMessage}

pub data PeerStatus : Type 0 where
  alive suspect dead : PeerStatus

pub record PeerState : Type 0 where
  pub peer_id : Text
  pub status : PeerStatus
  pub last_seen : ℕ
  pub available_space_bytes : ℕ
  pub missed_heartbeats : ℕ
  pub consecutive_failures : ℕ

-- `PeerState::new`
pub new_peer : ℕ → Text → PeerState
new_peer now peer_id = record {
  peer_id = peer_id;
  status = PeerStatus.alive;
  last_seen = now;
  available_space_bytes = 0;
  missed_heartbeats = 0;
  consecutive_failures = 0;
}

pub record HeartbeatConfig : Type 0 where
  pub interval_secs : ℕ
  pub max_missed : ℕ
  pub suspect_threshold : ℕ

-- `HeartbeatConfig::default`
abbrev pub default_config : HeartbeatConfig
default_config = record { interval_secs = 900; max_missed = 3; suspect_threshold = 1 }

pub record HeartbeatManager : Type 0 where
  pub config : HeartbeatConfig
  pub peers : HashMap PeerState
  pub node_id : Text
  pub available_space : ℕ

pub data PeerEvent : Type 0 where
  peer_alive peer_suspect peer_died peer_recovered : Text → PeerEvent

-- `HeartbeatManager::new`
unfoldable pub new : Text → HeartbeatConfig → HeartbeatManager
new node_id config = record { config = config; peers = []; node_id = node_id; available_space = 0 }

-- `create_heartbeat`, at the Unix time `now`.
abbrev pub create_heartbeat : ℕ → HeartbeatManager → P2pMessage
create_heartbeat now m = P2pMessage.heartbeat m.node_id now m.available_space

-- What `or_insert_with` gives.
abbrev pub peer_or_new : ℕ → Text → Option PeerState → PeerState
peer_or_new now node_id none = new_peer now node_id
peer_or_new now node_id (some p) = p

-- What a heartbeat does to the state of its sender.
abbrev pub revive : Text → PeerStatus → PeerState → PeerState × PeerEvent
revive node_id PeerStatus.alive p = (p, PeerEvent.peer_alive node_id)
revive node_id _ p = (
  record p { status = PeerStatus.alive; missed_heartbeats = 0 },
  PeerEvent.peer_recovered node_id,
)

pub beat : ℕ → Text → ℕ → PeerState → PeerState × PeerEvent
beat now node_id available_space p = revive node_id p.status (record p {
  last_seen = now;
  available_space_bytes = available_space;
  consecutive_failures = 0;
})

pub process_heartbeat : ℕ → Text → ℕ → ℕ → HeartbeatManager → HeartbeatManager × PeerEvent
process_heartbeat now node_id timestamp available_space m =
    let (p, event) =
      beat now node_id available_space (peer_or_new now node_id (get node_id m.peers)) in
    (record m { peers = insert node_id p m.peers }, event)

-- The `match` of `tick`, on a peer whose count has just gone up; 32-bit counters.
abbrev pub miss : HeartbeatConfig → PeerStatus → PeerState → PeerState × Option PeerEvent
miss config PeerStatus.alive p =
    if leb config.suspect_threshold p.missed_heartbeats
    then (record p { status = PeerStatus.suspect }, some (PeerEvent.peer_suspect p.peer_id))
    else (p, none)
miss config PeerStatus.suspect p =
    if leb config.max_missed p.missed_heartbeats
    then (record p { status = PeerStatus.dead }, some (PeerEvent.peer_died p.peer_id))
    else (p, none)
miss config PeerStatus.dead p =
    (record p { consecutive_failures = (p.consecutive_failures + 1) % 2 ^ 32 }, none)

-- The body of the loop of `tick`.
pub tick_peer : HeartbeatConfig → ℕ → PeerState → PeerState × Option PeerEvent
tick_peer config now p =
    if ltb (config.interval_secs * 10 ^ 9) (now - p.last_seen)
    then miss config p.status (record p { missed_heartbeats = (p.missed_heartbeats + 1) % 2 ^ 32 })
    else (p, none)

abbrev pub push_event : Option PeerEvent → List PeerEvent → List PeerEvent
push_event none events = events
push_event (some e) events = e ∷ events

pub tick_peers : HeartbeatConfig → ℕ → HashMap PeerState → HashMap PeerState × List PeerEvent
tick_peers config now [] = ([], [])
tick_peers config now ((k, p) ∷ peers) =
    let (p', e) = tick_peer config now p in
    let (peers', events) = tick_peers config now peers in ((k, p') ∷ peers', push_event e events)

pub tick : ℕ → HeartbeatManager → HeartbeatManager × List PeerEvent
tick now m =
    let (peers, events) = tick_peers m.config now m.peers in (record m { peers = peers }, events)

abbrev pub is_dead : PeerStatus → Bool
is_dead PeerStatus.dead = true
is_dead _ = false

abbrev pub is_alive : PeerStatus → Bool
is_alive PeerStatus.alive = true
is_alive _ = false

abbrev pub get_dead_peers : HeartbeatManager → List PeerState
get_dead_peers m = keep (λ (p : PeerState). is_dead p.status) (values m.peers)

abbrev pub alive_count : HeartbeatManager → ℕ
alive_count m = length (keep (λ (p : PeerState). is_alive p.status) (values m.peers))

pub set_available_space : ℕ → HeartbeatManager → HeartbeatManager
set_available_space space m = record m { available_space = space }

pub register_peer : ℕ → Text → HeartbeatManager → HeartbeatManager
register_peer now peer_id m = record m {
  peers = insert peer_id (peer_or_new now peer_id (get peer_id m.peers)) m.peers;
}
