-- ===== src/P2p/Message.antt =====
-- p2p/src/message.rs: the messages that nodes exchange.
use dest.Base.{
  ℕ, List, [], ◌∷◌, ◌++◌, ◌≡◌, ◌∙◌, refl, sym, ap, drop, length, drop-length-append, ◌==◌,
  if◌then◌else◌,
}
use dest.Base.Text.{Bytes, Text}
use dest.Core.Types.{ChunkId, StorageChallenge, StorageProof}

pub data P2pMessage : Type 0 where
  chunk_request : ChunkId → List ℕ → P2pMessage
  chunk_response : ChunkId → ℕ → Bytes → P2pMessage
  chunk_announce : ChunkId → List ℕ → P2pMessage
  challenge_request : StorageChallenge → P2pMessage
  challenge_response : StorageProof → P2pMessage
  heartbeat : Text → ℕ → ℕ → P2pMessage
  heartbeat_ack : Text → ℕ → P2pMessage
  ledger_sync : Text → ℕ → List Bytes → P2pMessage
  ledger_request : ℕ → P2pMessage
  replication_request : ChunkId → List ℕ → P2pMessage
  node_join : Text → Text → ℕ → P2pMessage

pub record GossipMessage : Type 0 where
  pub sender_peer_id : Text
  pub message : P2pMessage
  pub timestamp : ℕ
  pub sequence : ℕ

pub data GossipTopic : Type 0 where
  ledger chunk_availability node_info replication billing : GossipTopic

-- "/ledger", "/chunks", "/node-info", "/replication", "/billing"
abbrev pub topic_suffix : GossipTopic → Text
topic_suffix GossipTopic.ledger = b'/' ∷ b'l' ∷ b'e' ∷ b'd' ∷ b'g' ∷ b'e' ∷ b'r' ∷ []
topic_suffix GossipTopic.chunk_availability = b'/' ∷ b'c' ∷ b'h' ∷ b'u' ∷ b'n' ∷ b'k' ∷ b's' ∷ []
topic_suffix GossipTopic.node_info =
    b'/' ∷ b'n' ∷ b'o' ∷ b'd' ∷ b'e' ∷ b'-' ∷ b'i' ∷ b'n' ∷ b'f' ∷ b'o' ∷ []
topic_suffix GossipTopic.replication =
    b'/' ∷ b'r' ∷ b'e' ∷ b'p' ∷ b'l' ∷ b'i' ∷ b'c' ∷ b'a' ∷ b't' ∷ b'i' ∷ b'o' ∷ b'n' ∷ []
topic_suffix GossipTopic.billing = b'/' ∷ b'b' ∷ b'i' ∷ b'l' ∷ b'l' ∷ b'i' ∷ b'n' ∷ b'g' ∷ []

pub topic_name : Text → GossipTopic → Text
topic_name prefix t = prefix ++ topic_suffix t

-- The topic with a suffix, told by its second character.
abbrev second : Text → ℕ
second (_ ∷ c ∷ _) = c
second _ = 0

abbrev by_suffix : Text → GossipTopic
by_suffix s =
    if second s == b'l'
    then GossipTopic.ledger
    else if second s == b'c'
    then GossipTopic.chunk_availability
    else if second s == b'n'
    then GossipTopic.node_info
    else if second s == b'r'
    then GossipTopic.replication
    else GossipTopic.billing

by_suffix-topic_suffix : (t : GossipTopic) → by_suffix (topic_suffix t) ≡ t
by_suffix-topic_suffix GossipTopic.ledger = refl
by_suffix-topic_suffix GossipTopic.chunk_availability = refl
by_suffix-topic_suffix GossipTopic.node_info = refl
by_suffix-topic_suffix GossipTopic.replication = refl
by_suffix-topic_suffix GossipTopic.billing = refl

-- Under one prefix, different topics have different names.
pub topic_name-injective :
    (prefix : Text) (s t : GossipTopic) → topic_name prefix s ≡ topic_name prefix t → s ≡ t
unfolding topic_name
topic_name-injective prefix s t e =
    let same : topic_suffix s ≡ topic_suffix t =
      sym (drop-length-append prefix (topic_suffix s))
      ∙ (ap (drop (length prefix)) e ∙ drop-length-append prefix (topic_suffix t)) in
    sym (by_suffix-topic_suffix s) ∙ (ap by_suffix same ∙ by_suffix-topic_suffix t)
