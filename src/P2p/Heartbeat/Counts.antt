-- ===== src/P2p/Heartbeat/Counts.antt =====
-- p2p/src/heartbeat.rs: a peer's status is that of its count, as long as the count does not wrap around.
use dest.Base.{
  ℕ, ◌+◌, ◌^◌, ◌≤◌, ◌<◌, ◌≡◌, refl, List, [], ◌∷◌, inl, inr, arith, Option-cases, add-zero,
  zero_add, add_step,
}
use dest.Base.Text.{Text}
use dest.Base.HashMap.{HashMap, get, AllValues, AllValues-insert, AllValues-get}
use dest.P2p.Heartbeat.{
  HeartbeatConfig, HeartbeatManager, PeerState, new_peer, new, peer_or_new, beat, process_heartbeat,
  tick_peer, tick_peers, tick, set_available_space, register_peer,
}
use dest.P2p.Heartbeat.Peers.{Call, step, run, IsOrdered}
use dest.P2p.Heartbeat.Silence.{status_after}

-- How many of the calls are ticks.
unfoldable pub ticks : List Call → ℕ
ticks [] = 0
ticks (Call.tick_call now ∷ ks) = ticks ks + 1
ticks (_ ∷ ks) = ticks ks

-- The status that belongs to the count, which is no more than the number of ticks.
abbrev pub Agrees : HeartbeatConfig → ℕ → PeerState → Type 0
Agrees config n p = (p.missed_heartbeats ≤ n) × (p.status ≡ status_after config p.missed_heartbeats)

module _ (config : HeartbeatConfig) (o : IsOrdered config) where
  beat-Agrees :
      (n now : ℕ) (id : Text) (space : ℕ) (p : PeerState)
      → Agrees config n p
      → Agrees config n (beat now id space p).0
  unfolding beat
  beat-Agrees n now id space p h = ground (arith, o.some_missed, h)

  tick_peer-Agrees :
      (n now : ℕ) (p : PeerState)
      → n + 1 < 2 ^ 32
      → Agrees config n p
      → Agrees config (n + 1) (tick_peer config now p).0
  unfolding tick_peer
  tick_peer-Agrees n now p small h = ground (arith, o.some_missed, o.order, h)

  tick_peers-Agrees :
      (n now : ℕ) (peers : HashMap PeerState)
      → n + 1 < 2 ^ 32
      → AllValues (Agrees config n) peers
      → AllValues (Agrees config (n + 1)) (tick_peers config now peers).0
  unfolding tick_peers
  tick_peers-Agrees n now [] small h = tt
  tick_peers-Agrees n now ((k, p) ∷ peers) small h =
      (tick_peer-Agrees n now p small h.0, tick_peers-Agrees n now peers small h.1)

  peer_or_new-Agrees :
      (n now : ℕ) (id : Text) (peers : HashMap PeerState)
      → AllValues (Agrees config n) peers
      → Agrees config n (peer_or_new now id (get id peers))
  unfolding new_peer
  peer_or_new-Agrees n now id peers h = elim (Option-cases (get id peers)) [
    | inl absent ↦ rw absent (omega arith, ground (arith, o.some_missed))
    | inr (p, found) ↦ rw found (AllValues-get (Agrees config n) id p peers h found)
  ]

  IsAgreed : ℕ → HeartbeatManager → Type 0
  IsAgreed n m = (m.config ≡ config) × AllValues (Agrees config n) m.peers

  run-Agrees :
      (ks : List Call) (n : ℕ) (m : HeartbeatManager)
      → n + ticks ks < 2 ^ 32
      → IsAgreed n m
      → AllValues (Agrees config (n + ticks ks)) (run ks m).peers
  unfolding run step ticks IsAgreed process_heartbeat tick register_peer set_available_space
  run-Agrees [] n m small h = rw (add-zero n) h.1
  run-Agrees (Call.heartbeat_call now id timestamp space ∷ ks) n m small h =
      let p = peer_or_new now id (get id m.peers) in
      run-Agrees ks n (process_heartbeat now id timestamp space m).0 small (
        h.0,
        AllValues-insert (Agrees config n) id (beat now id space p).0 m.peers
            (beat-Agrees n now id space p (peer_or_new-Agrees n now id m.peers h.1)) h.1,
      )
  run-Agrees (Call.tick_call now ∷ ks) n m small h = rw (add_step n (ticks ks)) (
      run-Agrees ks (n + 1) (tick now m).0 (omega (arith, small))
        (h.0, rw h.0 (tick_peers-Agrees n now m.peers (omega (arith, small)) h.1)))
  run-Agrees (Call.register_call now id ∷ ks) n m small h =
      run-Agrees ks n (register_peer now id m) small (
        h.0,
        AllValues-insert (Agrees config n) id (peer_or_new now id (get id m.peers)) m.peers
            (peer_or_new-Agrees n now id m.peers h.1) h.1,
      )
  run-Agrees (Call.space_call space ∷ ks) n m small h =
      run-Agrees ks n (set_available_space space m) small h

-- With thresholds 0 < suspect < max < 2^32, after any sequence of heartbeats, ticks and registrations with fewer than 2^32 ticks, every peer is alive exactly where its count of missed heartbeats is below the suspect threshold, suspect from there to the maximum, and dead from the maximum on, and no count is more than the number of ticks.
pub run-ticks :
    (config : HeartbeatConfig) (node_id : Text) (ks : List Call)
    → IsOrdered config
    → ticks ks < 2 ^ 32
    → AllValues (Agrees config (ticks ks)) (run ks (new node_id config)).peers
unfolding new IsAgreed
run-ticks config node_id ks o small =
    rw⁻¹ (zero_add (ticks ks))
      (run-Agrees config o ks 0 (new node_id config) (omega (arith, small)) (refl, tt))
