-- ===== src/P2p/Heartbeat/Silence.antt =====
-- p2p/src/heartbeat.rs, `tick`: what becomes of a peer that stays silent.
use dest.Base.{
  ℕ, suc, ◌+◌, ◌-◌, ◌*◌, ◌^◌, ◌<◌, ◌≡◌, ◌↔◌, sym, some, List, [], ◌∷◌, length, ltb, if◌then◌else◌,
  All, arith,
}
use mathlib.Core.Path.{subst}
use dest.P2p.Heartbeat.{HeartbeatConfig, PeerState, PeerStatus, PeerEvent, tick_peer}

-- The rounds of `tick`, at these times, on one peer.
pub tick_rounds : HeartbeatConfig → List ℕ → PeerState → PeerState
tick_rounds config [] p = p
tick_rounds config (now ∷ times) p = tick_rounds config times (tick_peer config now p).0

-- More than the interval has passed.
abbrev pub IsOverdue : HeartbeatConfig → ℕ → ℕ → Type 0
IsOverdue config last_seen now = config.interval_secs * 10 ^ 9 < now - last_seen

-- The status that belongs to a number of missed heartbeats.
abbrev pub status_after : HeartbeatConfig → ℕ → PeerStatus
status_after config k =
    if ltb k config.suspect_threshold
    then PeerStatus.alive
    else if ltb k config.max_missed
    then PeerStatus.suspect
    else PeerStatus.dead

tick_peer-last_seen :
    (config : HeartbeatConfig) (now : ℕ) (p : PeerState)
    → (tick_peer config now p).0.last_seen ≡ p.last_seen
unfolding tick_peer
tick_peer-last_seen config now p = ground arith

tick_peer-missed :
    (config : HeartbeatConfig) (now k : ℕ) (p : PeerState)
    → IsOverdue config p.last_seen now
    → p.missed_heartbeats ≡ k
    → k + 1 < 2 ^ 32
    → (tick_peer config now p).0.missed_heartbeats ≡ k + 1
unfolding tick_peer
tick_peer-missed config now k p late e small = ground arith

tick_peer-status :
    (config : HeartbeatConfig) (now k : ℕ) (p : PeerState)
    → config.suspect_threshold < config.max_missed
    → IsOverdue config p.last_seen now
    → p.missed_heartbeats ≡ k
    → k + 1 < 2 ^ 32
    → p.status ≡ status_after config k
    → (tick_peer config now p).0.status ≡ status_after config (k + 1)
unfolding tick_peer
tick_peer-status config now k p order late e small st = ground arith

tick_rounds-status :
    (config : HeartbeatConfig) (times : List ℕ) (k : ℕ) (p : PeerState)
    → config.suspect_threshold < config.max_missed
    → All (IsOverdue config p.last_seen) times
    → p.missed_heartbeats ≡ k
    → k + length times < 2 ^ 32
    → p.status ≡ status_after config k
    → (tick_rounds config times p).status ≡ status_after config (k + length times)
unfolding tick_rounds
tick_rounds-status config [] k p order late e small st =
    let same : k + 0 ≡ k = omega arith in rw same st
tick_rounds-status config (now ∷ times) k p order late e small st =
    let p' = (tick_peer config now p).0 in
    let shift : k + suc (length times) ≡ k + 1 + length times = omega arith in
    rw shift (
      tick_rounds-status config times (k + 1) p' order
        (subst (λ seen. All (IsOverdue config seen) times) (sym (tick_peer-last_seen config now p))
          late.1)
        (tick_peer-missed config now k p late.0 e (omega arith)) (omega arith)
        (tick_peer-status config now k p order late.0 e (omega arith) st))

-- With thresholds 0 < suspect < max, a peer that is alive with nothing missed and then stays silent
-- for k rounds, fewer than 2^32, is alive while k is below the suspect threshold, suspect from then on, and dead from
-- the round on that reaches the maximum.
pub tick_rounds_silent :
    (config : HeartbeatConfig) (times : List ℕ) (p : PeerState)
    → 0 < config.suspect_threshold
    → config.suspect_threshold < config.max_missed
    → p.status ≡ PeerStatus.alive
    → p.missed_heartbeats ≡ 0
    → All (IsOverdue config p.last_seen) times
    → length times < 2 ^ 32
    → (tick_rounds config times p).status ≡ status_after config (length times)
tick_rounds_silent config times p some_missed order up none_missed late small =
    let start : p.status ≡ status_after config 0 = ground arith in
    let count : 0 + length times ≡ length times = omega arith in
    rw count at (tick_rounds-status config times 0 p order late none_missed (omega arith) start)

-- A round reports that a peer died exactly when it takes the peer from suspect to dead.
pub tick_peer-died_iff :
    (config : HeartbeatConfig) (now : ℕ) (p : PeerState)
    → ((tick_peer config now p).1 ≡ some (PeerEvent.peer_died p.peer_id))
      ↔ ((p.status ≡ PeerStatus.suspect) × ((tick_peer config now p).0.status ≡ PeerStatus.dead))
unfolding tick_peer
tick_peer-died_iff config now p = ground arith
