-- ===== src/P2p/Node/Laws.antt =====
-- What any use of a node keeps.
use dest.Base.{
  ℕ, min, not, ltb, ◌+◌, Bool, true, false, List, [], ◌∷◌, leb, ◌≡◌, ◌≢◌, refl, ap, ◌∙◌, arith,
  add-zero, zero_add, add_step, if◌then◌else◌, length-append,
}
use dest.P2p.Message.{GossipTopic, P2pMessage, GossipMessage}
use dest.P2p.Config.{P2pConfig}
use dest.P2p.Gossip.{
  MessagePriority, GossipQueue, Queues, enqueue, len, total, get_message_priority, push_back,
}
use dest.P2p.Gossip as Gossip
use dest.P2p.Node.{P2pNode, new, send_gossip, update_available_space, initialize}
use dest.Base.Text.{Text}

pub data Call : Type 0 where
  send : ℕ → GossipTopic → P2pMessage → Call
  space : ℕ → Call
  init : Call

pub run : List Call → P2pNode → P2pNode
run [] node = node
run (Call.send now topic message ∷ calls) node = run calls (send_gossip now topic message node).0
run (Call.space n ∷ calls) node = run calls (update_available_space n node)
run (Call.init ∷ calls) node = run calls (initialize node)

-- How many messages are sent.
pub sends : List Call → ℕ
sends [] = 0
sends (Call.send now topic message ∷ calls) = sends calls + 1
sends (Call.space n ∷ calls) = sends calls
sends (Call.init ∷ calls) = sends calls

-- The queue of a node after n sends.
abbrev IsFilled : ℕ → GossipQueue → Type 0
IsFilled n q =
    (q.queues.critical ≡ []) × (total q.queues ≡ min n 10_000) × (q.max_queue_size ≡ 10_000)

abbrev is_critical : MessagePriority → Bool
is_critical MessagePriority.critical = true
is_critical _ = false

priority_rank : (m : P2pMessage) → is_critical (get_message_priority m 1) ≢ true
unfolding get_message_priority
priority_rank (P2pMessage.chunk_request a b) e = cc
priority_rank (P2pMessage.chunk_response a b c) e = cc
priority_rank (P2pMessage.chunk_announce a b) e = cc
priority_rank (P2pMessage.challenge_request a) e = cc
priority_rank (P2pMessage.challenge_response a) e = cc
priority_rank (P2pMessage.heartbeat a b c) e = cc
priority_rank (P2pMessage.heartbeat_ack a b) e = cc
priority_rank (P2pMessage.ledger_sync a b c) e = cc
priority_rank (P2pMessage.ledger_request a) e = cc
priority_rank (P2pMessage.replication_request a b) e = cc
priority_rank (P2pMessage.node_join a b c) e = cc

push_back-critical :
    (p : MessagePriority) (m : GossipMessage) (q : Queues)
    → p ≢ MessagePriority.critical
    → (push_back p m q).critical ≡ q.critical
push_back-critical MessagePriority.low m q h = refl
push_back-critical MessagePriority.normal m q h = refl
push_back-critical MessagePriority.high m q h = refl
push_back-critical MessagePriority.critical m q h = absurd (h refl)

push_back-total :
    (p : MessagePriority) (m : GossipMessage) (q : Queues) → total (push_back p m q) ≡ total q + 1
unfolding total
push_back-total MessagePriority.low m q = omega (arith, length-append q.low (m ∷ []))
push_back-total MessagePriority.normal m q = omega (arith, length-append q.normal (m ∷ []))
push_back-total MessagePriority.high m q = omega (arith, length-append q.high (m ∷ []))
push_back-total MessagePriority.critical m q = omega (arith, length-append q.critical (m ∷ []))

get_message_priority-critical :
    (m : P2pMessage) → get_message_priority m 1 ≢ MessagePriority.critical
get_message_priority-critical m e = priority_rank m (ap is_critical e)

-- The test for a full queue is one for the number of sends.
full-sends :
    (n : ℕ) (q : GossipQueue)
    → IsFilled n q
    → leb q.max_queue_size (total q.queues) ≡ not (ltb n 10_000)
full-sends n q f = ground (arith, f.1, f.2)

IsFilled-if :
    (full : Bool) (n : ℕ) (q r : GossipQueue)
    → full ≡ not (ltb n 10_000)
    → IsFilled n q
    → (full ≡ false → IsFilled (n + 1) r)
    → (let x : GossipQueue × Bool = if full then (q, false) else (r, true) in
        IsFilled (n + 1) x.0 × (x.1 ≡ ltb n 10_000))
IsFilled-if true n q r e f h = ((f.0, ground (arith, e, f.1), f.2), ground (arith, e))
IsFilled-if false n q r e f h = (h refl, ground (arith, e))

enqueue-IsFilled :
    (n now : ℕ) (p : MessagePriority) (peer : Text) (m : P2pMessage) (q : GossipQueue)
    → p ≢ MessagePriority.critical
    → IsFilled n q
    → IsFilled (n + 1) (enqueue now p peer m q).0 × ((enqueue now p peer m q).1 ≡ ltb n 10_000)
unfolding enqueue
enqueue-IsFilled n now p peer m q h f =
    IsFilled-if (leb q.max_queue_size (total q.queues)) n q _ (full-sends n q f) f (λ room. (
      push_back-critical p _ q.queues h ∙ f.0,
      push_back-total p _ q.queues ∙ ground (arith, f.1, full-sends n q f, room),
      f.2,
    ))

run-IsFilled :
    (calls : List Call) (n : ℕ) (node : P2pNode)
    → IsFilled n node.gossip_queue
    → IsFilled (n + sends calls) (run calls node).gossip_queue
unfolding run sends send_gossip update_available_space initialize
run-IsFilled [] n node f = rw (add-zero n) f
run-IsFilled (Call.send now topic m ∷ calls) n node f = rw (add_step n (sends calls)) (
    run-IsFilled calls (n + 1) (send_gossip now topic m node).0
      (enqueue-IsFilled n now (get_message_priority m 1) node.peer_id m node.gossip_queue
        (get_message_priority-critical m) f).0)
run-IsFilled (Call.space s ∷ calls) n node f =
    run-IsFilled calls n (update_available_space s node) f
run-IsFilled (Call.init ∷ calls) n node f = run-IsFilled calls n (initialize node) f

-- Whatever messages a node sends, the first 10,000 are accepted and wait, none of them as a critical one, and from then on every send is refused, as the node takes none out of the queue.
pub run-sends :
    (calls : List Call) (peer_id : Text) (config : P2pConfig) (now : ℕ) (topic : GossipTopic)
    (message : P2pMessage)
    → let node = run calls (new peer_id config) in
      (node.gossip_queue.queues.critical ≡ [])
      × (len node.gossip_queue ≡ min (sends calls) 10_000)
      × ((send_gossip now topic message node).1 ≡ ltb (sends calls) 10_000)
unfolding new send_gossip Gossip.new total len
run-sends calls peer_id config now topic message =
    let node = run calls (new peer_id config) in
    let f = run-IsFilled calls 0 (new peer_id config) (refl, refl, refl) in
    let g : IsFilled (sends calls) node.gossip_queue = rw⁻¹ (zero_add (sends calls)) f in
    (
      g.0,
      g.1,
      (enqueue-IsFilled (sends calls) now (get_message_priority message 1) node.peer_id message
          node.gossip_queue (get_message_priority-critical message) g).1,
    )
