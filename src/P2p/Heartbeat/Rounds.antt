-- ===== src/P2p/Heartbeat/Rounds.antt =====
-- p2p/src/heartbeat.rs: a peer after its last heartbeat, whatever else the manager is called for.
use dest.Base.{
  ℕ, ◌+◌, ◌-◌, ◌*◌, ◌^◌, ◌<◌, ◌≡◌, ◌≢◌, refl, ◌∙◌, inl, inr, Bool, Bool-cases, some, List, [], ◌∷◌,
  ltb, if◌then◌else◌, arith,
}
use dest.Base.Text.{Text, bytes_eq, bytes_eq_iff, bytes_ne_iff}
use dest.Base.HashMap.{get, insert, get-insert, get-insert_same}
use dest.P2p.Heartbeat.{
  HeartbeatConfig, HeartbeatManager, PeerState, new, peer_or_new, beat, process_heartbeat,
  tick_peer, tick, set_available_space, register_peer,
}
use dest.P2p.Heartbeat.Peers.{
  Call, step, run, IsOrdered, IsSound, IsCounted, get-tick, run-IsSound, beat-IsCounted, beat-alive,
  peer_or_new-IsCounted,
}
use dest.P2p.Heartbeat.Silence.{status_after}

-- Whether more than the interval has passed.
abbrev pub is_overdue : HeartbeatConfig → ℕ → ℕ → Bool
is_overdue config last_seen now = ltb (config.interval_secs * 10 ^ 9) (now - last_seen)

-- How many of the calls are ticks for which the peer is overdue.
abbrev pub overdue : HeartbeatConfig → ℕ → List Call → ℕ
overdue config last_seen [] = 0
overdue config last_seen (Call.tick_call now ∷ ks) =
    (if is_overdue config last_seen now then 1 else 0) + overdue config last_seen ks
overdue config last_seen (_ ∷ ks) = overdue config last_seen ks

-- None of the calls is a heartbeat of the peer.
abbrev pub IsSilent : Text → List Call → Type 0
IsSilent id [] = Unit
IsSilent id (Call.heartbeat_call now from timestamp space ∷ ks) = (id ≢ from) × IsSilent id ks
IsSilent id (_ ∷ ks) = IsSilent id ks

-- A peer last seen at a time, with n heartbeats missed and the status that belongs to them.
record IsAt (config : HeartbeatConfig) (last_seen n : ℕ) (p : PeerState) : Type 0 where
  pub seen : p.last_seen ≡ last_seen
  pub missed : p.missed_heartbeats ≡ n
  pub status : p.status ≡ status_after config n

tick_peer-IsAt :
    (config : HeartbeatConfig) (last_seen now n : ℕ) (p : PeerState)
    → IsOrdered config
    → n + (if is_overdue config last_seen now then 1 else 0) < 2 ^ 32
    → IsAt config last_seen n p
    → IsAt config last_seen
        (n + (if is_overdue config last_seen now then 1 else 0))
        (tick_peer config now p).0
unfolding tick_peer
tick_peer-IsAt config last_seen now n p o small h = ground arith

-- The manager, and what it knows of the peer.
record Knows (config : HeartbeatConfig) (id : Text) (last_seen n : ℕ) (m : HeartbeatManager)
    : Type 0 where
  pub same_config : m.config ≡ config
  pub peer : PeerState
  pub found : get id m.peers ≡ some peer
  pub at : IsAt config last_seen n peer

get-insert_other :
    (id j : Text) (q : PeerState) (m : HeartbeatManager) {p : PeerState}
    → id ≢ j
    → get id m.peers ≡ some p
    → get id (insert j q m.peers) ≡ some p
get-insert_other id j q m ne found = get-insert id j q m.peers ∙ ground (arith, bytes_eq_iff id j)

module _ (config : HeartbeatConfig) (id : Text) (last_seen n : ℕ) (m : HeartbeatManager) where
  process_heartbeat-Knows :
      (now : ℕ) (j : Text) (timestamp space : ℕ)
      → id ≢ j
      → Knows config id last_seen n m
      → Knows config id last_seen n (process_heartbeat now j timestamp space m).0
  unfolding process_heartbeat
  process_heartbeat-Knows now j timestamp space ne h = record {
    same_config = h.same_config;
    peer = h.peer;
    found = get-insert_other id j _ m ne h.found;
    at = h.at;
  }

  register_peer-Knows :
      (now : ℕ) (j : Text)
      → Knows config id last_seen n m
      → Knows config id last_seen n (register_peer now j m)
  unfolding register_peer
  register_peer-Knows now j h = record {
    same_config = h.same_config;
    peer = h.peer;
    found = elim (Bool-cases (bytes_eq id j)) [
      | inl same ↦
          get-insert id j _ m.peers ∙ rw same (rw (← (bytes_eq_iff id j).0 same) (rw h.found refl))
      | inr other ↦ get-insert_other id j _ m ((bytes_ne_iff id j).0 other) h.found
    ];
    at = h.at;
  }

  set_available_space-Knows :
      (space : ℕ)
      → Knows config id last_seen n m
      → Knows config id last_seen n (set_available_space space m)
  unfolding set_available_space
  set_available_space-Knows space h = record {
    same_config = h.same_config;
    peer = h.peer;
    found = h.found;
    at = h.at;
  }

  tick-Knows :
      (now : ℕ)
      → IsOrdered config
      → n + (if is_overdue config last_seen now then 1 else 0) < 2 ^ 32
      → Knows config id last_seen n m
      → Knows config id last_seen
          (n + (if is_overdue config last_seen now then 1 else 0))
          (tick now m).0
  tick-Knows now o small h = record {
    same_config = unfold tick in h.same_config;
    peer = (tick_peer config now h.peer).0;
    found = get-tick now id m ∙ rw (h.same_config, h.found) refl;
    at = tick_peer-IsAt config last_seen now n h.peer o small h.at;
  }

run-Knows :
    (config : HeartbeatConfig) (id : Text) (last_seen n : ℕ) (ks : List Call) (m : HeartbeatManager)
    → IsOrdered config
    → IsSilent id ks
    → n + overdue config last_seen ks < 2 ^ 32
    → Knows config id last_seen n m
    → Knows config id last_seen (n + overdue config last_seen ks) (run ks m)
unfolding run step
run-Knows config id last_seen n [] m o quiet small h =
    let same : n + 0 ≡ n = omega arith in rw same h
run-Knows config id last_seen n (Call.heartbeat_call now j timestamp space ∷ ks) m o quiet small h =
    run-Knows config id last_seen n ks (process_heartbeat now j timestamp space m).0 o quiet.1 small
      (process_heartbeat-Knows config id last_seen n m now j timestamp space quiet.0 h)
run-Knows config id last_seen n (Call.register_call now j ∷ ks) m o quiet small h =
    run-Knows config id last_seen n ks (register_peer now j m) o quiet small
      (register_peer-Knows config id last_seen n m now j h)
run-Knows config id last_seen n (Call.space_call space ∷ ks) m o quiet small h =
    run-Knows config id last_seen n ks (set_available_space space m) o quiet small
      (set_available_space-Knows config id last_seen n m space h)
run-Knows config id last_seen n (Call.tick_call now ∷ ks) m o quiet small h =
    let late : ℕ = if is_overdue config last_seen now then 1 else 0 in
    let sum : n + (late + overdue config last_seen ks) ≡ n + late + overdue config last_seen ks =
      omega arith in
    rw sum (
      run-Knows config id last_seen (n + late) ks (tick now m).0 o quiet (omega arith)
        (tick-Knows config id last_seen n m now o (omega arith) h))

-- A heartbeat leaves its sender known, with fewer heartbeats missed than make it suspect.
process_heartbeat-heard :
    (config : HeartbeatConfig) (now : ℕ) (id : Text) (timestamp space : ℕ) (m : HeartbeatManager)
    → IsOrdered config
    → IsSound config m
    → (k : ℕ) × (k < config.suspect_threshold)
      × Knows config id now k (process_heartbeat now id timestamp space m).0
unfolding process_heartbeat
process_heartbeat-heard config now id timestamp space m o sound =
    let p = peer_or_new now id (get id m.peers) in
    let q = (beat now id space p).0 in
    let (up, seen, none_failed) = beat-alive now id space p in
    let counted : IsCounted config q =
      beat-IsCounted config now id space p o
        (peer_or_new-IsCounted config now id m.peers o sound.1) in
    let few : q.missed_heartbeats < config.suspect_threshold = ground arith in
    (
      q.missed_heartbeats,
      few,
      record {
        same_config = sound.0;
        peer = q;
        found = get-insert_same id q m.peers;
        at = record { seen = seen; missed = refl; status = ground arith };
      },
    )

-- With thresholds 0 < suspect < max < 2^32, a manager that any calls have led to hears from a peer, and then
-- any calls follow, none of them a heartbeat of that peer, and fewer than 2^32 - suspect of them ticks later
-- than the interval. Then the peer's status is that of the number of those ticks, however soon after each
-- other, and of k more, fewer than the suspect threshold: alive below that threshold, suspect from there on,
-- and dead from the maximum on.
pub run-silent :
    (config : HeartbeatConfig) (node_id : Text) (before after : List Call) (now : ℕ) (id : Text)
    (timestamp space : ℕ)
    → IsOrdered config
    → IsSilent id after
    → config.suspect_threshold + overdue config now after < 2 ^ 32
    → let m = (process_heartbeat now id timestamp space (run before (new node_id config))).0 in
      (k : ℕ) × (k < config.suspect_threshold)
      × (p : PeerState) × (get id (run after m).peers ≡ some p)
      × (p.status ≡ status_after config (k + overdue config now after))
run-silent config node_id before after now id timestamp space o quiet small =
    let m = run before (new node_id config) in
    let sound = run-IsSound config before (new node_id config) o (unfold new in (refl, tt)) in
    let heard = process_heartbeat-heard config now id timestamp space m o sound in
    let known =
      run-Knows config id now heard.0 after (process_heartbeat now id timestamp space m).0 o quiet
        (omega (arith, heard.1)) heard.2 in
    (heard.0, heard.1, known.peer, known.found, known.at.status)
