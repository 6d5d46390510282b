-- ===== src/P2p/Gossip/Service.antt =====
-- p2p/src/gossip.rs: `GossipQueue` behaves like its specification over any sequence of calls.
use dest.Base.{
  ℕ, ◌+◌, ◌%◌, ◌^◌, ◌≤◌, ◌≡◌, refl, Bool, Option, List, [], ◌∷◌, ◌++◌, length, true, false, leb,
  arith, length-append, if◌then◌else◌,
}
use mathlib.Core.Path.{ap₂}
use dest.Base.Text.{Text}
use dest.P2p.Message.{P2pMessage, GossipMessage}
use dest.P2p.Gossip.{
  MessagePriority, Queues, GossipQueue, new, push_back, total, enqueue, pop_critical, dequeue, len,
}
use dest.P2p.Gossip.Queue.{Waiting, of_priority, serve, Holds, push_back-Holds, pop_critical-serve}

pub data Call : Type 0 where
  send : ℕ → MessagePriority → Text → P2pMessage → Call
  receive : Call

pub data Reply : Type 0 where
  accepted : Bool → Reply
  served : Option GossipMessage → Reply

abbrev with_reply : GossipQueue × Bool → GossipQueue × Reply
with_reply (g, b) = (g, accepted b)

abbrev with_message : GossipQueue × Option GossipMessage → GossipQueue × Reply
with_message (g, m) = (g, served m)

unfoldable pub step : Call → GossipQueue → GossipQueue × Reply
step (Call.send now p peer message) g = with_reply (enqueue now p peer message g)
step Call.receive g = with_message (dequeue g)

-- The replies to a sequence of calls.
pub replies : List Call → GossipQueue → List Reply
replies [] g = []
replies (k ∷ ks) g = let (g', r) = step k g in r ∷ replies ks g'

-- The specification: a list of at most `max` waiting messages, and the next sequence number.
abbrev spec_step : ℕ → Call → Waiting × ℕ → (Waiting × ℕ) × Reply
spec_step max (Call.send now p peer message) (w, n) =
    if leb max (length w) then ((w, n), accepted false) else (
      (
        w
            ++ (
              p,
              record { sender_peer_id = peer; message = message; timestamp = now; sequence = n },
            )
              ∷ [],
        (n + 1) % 2 ^ 64,
      ),
      accepted true,
    )
spec_step max Call.receive (w, n) = let (w', m) = serve w in ((w', n), served m)

pub spec_replies : ℕ → List Call → Waiting × ℕ → List Reply
spec_replies max [] s = []
spec_replies max (k ∷ ks) s = let (s', r) = spec_step max k s in r ∷ spec_replies max ks s'

total-length :
    (w : Waiting)
    → length (of_priority MessagePriority.critical w)
        + length (of_priority MessagePriority.high w)
        + length (of_priority MessagePriority.normal w)
        + length (of_priority MessagePriority.low w)
      ≡ length w
total-length [] = refl
total-length ((p, m) ∷ w) = ground (arith, total-length w)

Holds-total : (q : Queues) (w : Waiting) → Holds q w → total q ≡ length w
unfolding total
Holds-total q w h = rw (h.0, h.1, h.2, h.3) (total-length w)

-- The queue holds what waits in the specification.
abbrev Implements : ℕ → GossipQueue → Waiting × ℕ → Type 0
Implements max g (w, n) = Holds g.queues w × (g.max_queue_size ≡ max) × (g.sequence_counter ≡ n)

step-Implements :
    (max : ℕ) (k : Call) (g : GossipQueue) (w : Waiting) (n : ℕ)
    → Implements max g (w, n)
    → let (g', r) = step k g in
      let (s', r') = spec_step max k (w, n) in Implements max g' s' × (r ≡ r')
unfolding step enqueue dequeue
step-Implements max (Call.send now p peer message) g w n h =
    let m : GossipMessage = record {
      sender_peer_id = peer;
      message = message;
      timestamp = now;
      sequence = n;
    } in
    ground (arith, Holds-total g.queues w, push_back-Holds p m g.queues w)
step-Implements max Call.receive g w n h = ground (arith, pop_critical-serve g.queues w h.0)

replies-spec_replies :
    (max : ℕ) (ks : List Call) (g : GossipQueue) (w : Waiting) (n : ℕ)
    → Implements max g (w, n)
    → replies ks g ≡ spec_replies max ks (w, n)
unfolding replies spec_replies
replies-spec_replies max [] g w n h = refl
replies-spec_replies max (k ∷ ks) g w n h =
    let (next, same) = step-Implements max k g w n h in
    let s = (spec_step max k (w, n)).0 in
    ap₂ (λ r rs. r ∷ rs) same (replies-spec_replies max ks (step k g).0 s.0 s.1 next)

-- Over any sequence of sends and receives a new queue gives the replies of the specification: a send
-- is refused exactly when the waiting messages have reached the maximum, and a receive takes the
-- earliest message among those of the highest waiting priority.
pub replies-new : (max : ℕ) (ks : List Call) → replies ks (new max) ≡ spec_replies max ks ([], 0)
replies-new max ks =
    replies-spec_replies max ks (new max) [] 0
      (unfold new in ((refl, refl, refl, refl), refl, refl))

unfoldable pub run : List Call → GossipQueue → GossipQueue
run [] g = g
run (k ∷ ks) g = run ks (step k g).0

total-push_back :
    (p : MessagePriority) (m : GossipMessage) (q : Queues) → total (push_back p m q) ≡ total q + 1
unfolding total
total-push_back MessagePriority.critical m q = omega (arith, length-append q.critical (m ∷ []))
total-push_back MessagePriority.high m q = omega (arith, length-append q.high (m ∷ []))
total-push_back MessagePriority.normal m q = omega (arith, length-append q.normal (m ∷ []))
total-push_back MessagePriority.low m q = omega (arith, length-append q.low (m ∷ []))

total-pop_critical : (q : Queues) → total (pop_critical q.critical q).0 ≤ total q
unfolding total
total-pop_critical q = ground arith

step-len :
    (k : Call) (g : GossipQueue)
    → len g ≤ g.max_queue_size
    → len (step k g).0 ≤ (step k g).0.max_queue_size
unfolding step enqueue dequeue len
step-len (Call.send now p peer message) g h =
    let m : GossipMessage = record {
      sender_peer_id = peer;
      message = message;
      timestamp = now;
      sequence = g.sequence_counter;
    } in
    ground (arith, total-push_back p m g.queues)
step-len Call.receive g h = ground (arith, total-pop_critical g.queues)

run-len_from :
    (ks : List Call) (g : GossipQueue)
    → len g ≤ g.max_queue_size
    → len (run ks g) ≤ (run ks g).max_queue_size
unfolding run
run-len_from [] g h = h
run-len_from (k ∷ ks) g h = run-len_from ks (step k g).0 (step-len k g h)

-- A queue never holds more messages than its maximum.
pub run-len :
    (max : ℕ) (ks : List Call) → len (run ks (new max)) ≤ (run ks (new max)).max_queue_size
run-len max ks = run-len_from ks (new max) (unfold len total new in (omega arith))
