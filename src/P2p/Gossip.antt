-- ===== src/P2p/Gossip.antt =====
-- p2p/src/gossip.rs: the priority queue of gossip messages, the messages seen, and the priorities.
pub mod Queue
pub mod Seen
pub mod Duplicates
pub mod Service
use dest.Base.{
  ℕ, ◌+◌, ◌/◌, ◌%◌, ◌^◌, Bool, true, false, Option, none, some, List, [], ◌∷◌, ◌++◌, length, drop,
  leb, ◌==◌, if◌then◌else◌, ◌≡◌,
}
use dest.Base.Text.{Text, bytes_eq}
use dest.P2p.Message.{P2pMessage, GossipMessage}

pub data MessagePriority : Type 0 where
  low normal high critical : MessagePriority

-- `queues`: `new` gives each of the four priorities its deque, and none is ever removed.
pub record Queues : Type 0 where
  pub critical : List GossipMessage
  pub high : List GossipMessage
  pub normal : List GossipMessage
  pub low : List GossipMessage

pub record GossipQueue : Type 0 where
  pub queues : Queues
  pub max_queue_size : ℕ
  pub sequence_counter : ℕ

-- `GossipQueue::new`
unfoldable pub new : ℕ → GossipQueue
new max_queue_size = record {
  queues = record { critical = []; high = []; normal = []; low = [] };
  max_queue_size = max_queue_size;
  sequence_counter = 0;
}

-- `get_mut(&priority).unwrap().push_back(…)`
abbrev pub push_back : MessagePriority → GossipMessage → Queues → Queues
push_back MessagePriority.critical msg q = record q { critical = q.critical ++ msg ∷ [] }
push_back MessagePriority.high msg q = record q { high = q.high ++ msg ∷ [] }
push_back MessagePriority.normal msg q = record q { normal = q.normal ++ msg ∷ [] }
push_back MessagePriority.low msg q = record q { low = q.low ++ msg ∷ [] }

unfoldable pub total : Queues → ℕ
total q = length q.critical + length q.high + length q.normal + length q.low

-- `enqueue`, at the Unix time `now`; `false` is the error of a full queue.
unfoldable pub enqueue : ℕ → MessagePriority → Text → P2pMessage → GossipQueue → GossipQueue × Bool
enqueue now priority peer_id message g =
    if leb g.max_queue_size (total g.queues) then (g, false) else (
      record g {
        queues =
            push_back priority
              (record {
                sender_peer_id = peer_id;
                message = message;
                timestamp = now;
                sequence = g.sequence_counter;
              })
              g.queues;
        sequence_counter = (g.sequence_counter + 1) % 2 ^ 64;
      },
      true,
    )

-- The loop of `dequeue`, from each priority on.
abbrev pub pop_low : List GossipMessage → Queues → Queues × Option GossipMessage
pop_low [] q = (q, none)
pop_low (m ∷ ms) q = (record q { low = ms }, some m)

abbrev pub pop_normal : List GossipMessage → Queues → Queues × Option GossipMessage
pop_normal [] q = pop_low q.low q
pop_normal (m ∷ ms) q = (record q { normal = ms }, some m)

abbrev pub pop_high : List GossipMessage → Queues → Queues × Option GossipMessage
pop_high [] q = pop_normal q.normal q
pop_high (m ∷ ms) q = (record q { high = ms }, some m)

abbrev pub pop_critical : List GossipMessage → Queues → Queues × Option GossipMessage
pop_critical [] q = pop_high q.high q
pop_critical (m ∷ ms) q = (record q { critical = ms }, some m)

pub dequeue : GossipQueue → GossipQueue × Option GossipMessage
dequeue g = let (q, m) = pop_critical g.queues.critical g.queues in (record g { queues = q }, m)

unfoldable pub len : GossipQueue → ℕ
len g = total g.queues

abbrev pub is_empty : GossipQueue → Bool
is_empty g = len g == 0

-- `HashSet<u64>`: an iteration meets the numbers in some order, which `arrange` chooses.
abbrev pub member : ℕ → List ℕ → Bool
member x [] = false
member x (y ∷ ys) = if x == y then true else member x ys

pub record HashOrder : Type 0 where
  pub arrange : List ℕ → List ℕ
  pub length-arrange : (xs : List ℕ) → length (arrange xs) ≡ length xs
  pub member-arrange : (x : ℕ) (xs : List ℕ) → member x (arrange xs) ≡ member x xs

pub record SeenMessages : Type 0 where
  pub seen : List ℕ
  pub max_size : ℕ

-- `SeenMessages::new`
pub new_seen : ℕ → SeenMessages
new_seen max_size = record { seen = []; max_size = max_size }

module _ ⦃o : HashOrder⦄ where
  -- The `retain` that drops the first half of the maximum.
  abbrev pub make_room : SeenMessages → List ℕ
  make_room s =
      if leb s.max_size (length s.seen) then drop (s.max_size / 2) (o.arrange s.seen) else s.seen

  pub check_and_mark : ℕ → SeenMessages → SeenMessages × Bool
  check_and_mark seq s =
      if member seq s.seen then (s, false) else (record s { seen = seq ∷ make_room s }, true)

unfoldable pub contains : ℕ → SeenMessages → Bool
contains seq s = member seq s.seen

unfoldable pub get_message_priority : P2pMessage → ℕ → MessagePriority
get_message_priority (P2pMessage.heartbeat_ack _ _) weight = MessagePriority.low
get_message_priority (P2pMessage.heartbeat _ _ _) weight = MessagePriority.normal
get_message_priority (P2pMessage.node_join _ _ _) weight = MessagePriority.normal
get_message_priority (P2pMessage.chunk_announce _ _) weight =
    if leb 3 weight then MessagePriority.high else MessagePriority.normal
get_message_priority (P2pMessage.chunk_request _ _) weight =
    if leb 3 weight then MessagePriority.high else MessagePriority.normal
get_message_priority (P2pMessage.ledger_sync _ _ _) weight = MessagePriority.high
get_message_priority (P2pMessage.ledger_request _) weight = MessagePriority.high
get_message_priority (P2pMessage.challenge_request _) weight = MessagePriority.high
get_message_priority (P2pMessage.challenge_response _) weight = MessagePriority.high
get_message_priority (P2pMessage.replication_request _ _) weight =
    if leb 3 weight then MessagePriority.critical else MessagePriority.high
get_message_priority (P2pMessage.chunk_response _ _ _) weight =
    if leb 2 weight then MessagePriority.high else MessagePriority.normal

-- "premium" and "standard"
abbrev pub premium : Text
premium = b'p' ∷ b'r' ∷ b'e' ∷ b'm' ∷ b'i' ∷ b'u' ∷ b'm' ∷ []

abbrev pub standard : Text
standard = b's' ∷ b't' ∷ b'a' ∷ b'n' ∷ b'd' ∷ b'a' ∷ b'r' ∷ b'd' ∷ []

unfoldable pub subscription_weight_from_tier : Text → ℕ
subscription_weight_from_tier tier =
    if bytes_eq tier premium then 3 else if bytes_eq tier standard then 2 else 1
