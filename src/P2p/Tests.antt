-- ===== src/P2p/Tests.antt =====
-- The theorems on p2p/src at small inputs.
use dest.Base.{ℕ, ◌+◌, ◌^◌, ◌<◌, ◌≤◌, min, length, ◌≡◌, ◌↔◌, some, refl, true, List, [], ◌∷◌, arith}
use dest.Base.Text.{Text}
use dest.Base.HashMap.{get, AllValues}
use dest.Core.Types.{StorageProof}
use dest.Core.Challenge.{is_distinct}
use dest.Core.Challenge as Challenge
use dest.Core.Challenge.Tests.{rng, first}
use dest.P2p.Message.{P2pMessage}
use dest.P2p.Heartbeat.{PeerState, default_config, process_heartbeat}
use dest.P2p.Heartbeat as Beats
use dest.P2p.Heartbeat.Silence.{status_after}
use dest.P2p.Heartbeat.Rounds.{overdue, run-silent}
use dest.P2p.Heartbeat.Counts.{Agrees, ticks, run-ticks}
use dest.P2p.Heartbeat.Peers as Peers
use dest.P2p.Gossip.{MessagePriority, HashOrder, new, new_seen}
use dest.P2p.Gossip.Duplicates.{firsts, check_all, check_all-firsts, Covers, check_all-Covers}
use dest.P2p.Gossip.Seen.{mark_all}
use dest.P2p.Gossip.Service.{Call, replies, spec_replies, replies-new}
use dest.P2p.Challenge.{generate, verify_proof, verify_proof-generate}

abbrev alice : Text
alice = b'a' ∷ []

abbrev bob : Text
bob = b'b' ∷ []

abbrev calls : List Peers.Call
calls =
    Peers.Call.register_call 0 alice
    ∷ Peers.Call.tick_call 901000000000
    ∷ Peers.Call.heartbeat_call 902000000000 alice 902 7
    ∷ Peers.Call.heartbeat_call 902000000001 bob 902 8
    ∷ Peers.Call.tick_call 1900000000000
    ∷ Peers.Call.space_call 4
    ∷ []

-- Three ticks, a nanosecond after each other, when the interval has passed.
abbrev quiet : List Peers.Call
quiet =
    Peers.Call.tick_call 2700000000000
    ∷ Peers.Call.heartbeat_call 2750000000000 bob 2750 8
    ∷ Peers.Call.tick_call 2900000000001
    ∷ Peers.Call.register_call 2900000000002 alice
    ∷ Peers.Call.tick_call 2900000000002
    ∷ Peers.Call.tick_call 2900000000003
    ∷ []

run-silent_example :
    let m =
      (process_heartbeat 2000000000000 alice 2000 5
        (Peers.run calls (Beats.new bob default_config))).0 in
    (k : ℕ) × (k < 1)
    × (p : PeerState) × (get alice (Peers.run quiet m).peers ≡ some p)
    × (p.status ≡ status_after default_config (k + overdue default_config 2000000000000 quiet))
run-silent_example =
    run-silent default_config bob calls quiet 2000000000000 alice 2000 5
      (record { some_missed = omega arith; order = omega arith; small = omega arith })
      ((λ e. ground arith), tt) (omega arith)

calls-few : ticks calls < 2 ^ 32
unfolding ticks
calls-few = omega arith

run-ticks_example :
    AllValues
      (Agrees default_config (ticks calls))
      (Peers.run calls (Beats.new bob default_config)).peers
run-ticks_example =
    run-ticks default_config bob calls
      (record { some_missed = omega arith; order = omega arith; small = omega arith }) calls-few

abbrev ping : ℕ → P2pMessage
ping n = P2pMessage.heartbeat alice n 0

-- Three messages for a queue of two, and three receives.
abbrev traffic : List Call
traffic =
    Call.send 1 MessagePriority.low alice (ping 1)
    ∷ Call.send 2 MessagePriority.high alice (ping 2)
    ∷ Call.send 3 MessagePriority.critical alice (ping 3)
    ∷ Call.receive
    ∷ Call.receive
    ∷ Call.receive
    ∷ []

replies-new_example : replies traffic (new 2) ≡ spec_replies 2 traffic ([], 0)
replies-new_example = replies-new 2 traffic

-- A set that is met in the order of its insertions.
instance abbrev hash_order : HashOrder
hash_order = record {
  arrange = λ xs. xs;
  length-arrange = λ xs. refl;
  member-arrange = λ x xs. refl;
}

-- Room for two, and a third message that is not new.
check_all-firsts_example : check_all (5 ∷ 6 ∷ 5 ∷ []) (new_seen 2) ≡ firsts [] (5 ∷ 6 ∷ 5 ∷ [])
check_all-firsts_example = check_all-firsts 2 (5 ∷ 6 ∷ 5 ∷ []) (omega arith)

-- Room for two, and a fourth message that was dropped before it came again.
check_all-Covers_example :
    Covers (firsts [] (5 ∷ 6 ∷ 7 ∷ 5 ∷ [])) (check_all (5 ∷ 6 ∷ 7 ∷ 5 ∷ []) (new_seen 2))
    × (length (mark_all (5 ∷ 6 ∷ 7 ∷ 5 ∷ []) (new_seen 2)).seen ≤ 2)
check_all-Covers_example = check_all-Covers 2 (5 ∷ 6 ∷ 7 ∷ 5 ∷ []) (omega arith)

-- An answer that shows nothing of the leaves.
abbrev empty_answer : StorageProof
empty_answer = record {
  chunk_id = 7 ∷ [];
  leaf_indices = 0 ∷ 1 ∷ [];
  leaves = [];
  proofs = [];
  root = [];
}

verify_proof-generate_example :
    let challenge = generate 100 (7 ∷ []) 3 2 in
    (length challenge.leaf_indices ≡ min 2 3)
    × ((i : ℕ) → Challenge.member i challenge.leaf_indices ≡ true → i < 3)
    × (is_distinct challenge.leaf_indices ≡ true)
    × ((verify_proof challenge empty_answer ≡ true)
        ↔ ((empty_answer.chunk_id ≡ 7 ∷ []) × (empty_answer.leaf_indices ≡ challenge.leaf_indices)))
verify_proof-generate_example = verify_proof-generate 100 (7 ∷ []) 3 2 empty_answer (omega arith)
