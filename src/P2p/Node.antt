-- ===== src/P2p/Node.antt =====
-- p2p/src/node.rs: a node. Its identity is new at each start, and an argument; locks are left out, since
-- each method holds one lock for its whole body.
pub mod Laws
mod Tests
use dest.Base.{ℕ, Bool}
use dest.Base.Text.{Text}
use dest.P2p.Message.{GossipTopic, P2pMessage}
use dest.P2p.Config.{P2pConfig}
use dest.P2p.Heartbeat as Heartbeat
use dest.P2p.Heartbeat.{HeartbeatManager, set_available_space}
use dest.P2p.Gossip as Gossip
use dest.P2p.Gossip.{GossipQueue, enqueue, get_message_priority}
use dest.P2p.Behaviour as Behaviour
use dest.P2p.Behaviour.{
  VaultKeeperBehaviour, mark_kademlia_ready, mark_gossip_ready, mark_heartbeat_active,
}

pub record P2pNode : Type 0 where
  pub peer_id : Text
  pub config : P2pConfig
  pub heartbeat : HeartbeatManager
  pub gossip_queue : GossipQueue
  pub behaviour : VaultKeeperBehaviour

-- `P2pNode::new`
pub new : Text → P2pConfig → P2pNode
new peer_id config = record {
  peer_id = peer_id;
  config = config;
  heartbeat =
      Heartbeat.new peer_id
        (record Heartbeat.default_config { interval_secs = config.heartbeat_interval_secs });
  gossip_queue = Gossip.new 10_000;
  behaviour = Behaviour.new;
}

-- `send_gossip`, at the Unix time `now`; `false` is the error. The topic is only logged.
pub send_gossip : ℕ → GossipTopic → P2pMessage → P2pNode → P2pNode × Bool
send_gossip now topic message node =
    let (q, sent) =
      enqueue now (get_message_priority message 1) node.peer_id message node.gossip_queue in
    (record node { gossip_queue = q }, sent)

abbrev pub peer_id_str : P2pNode → Text
peer_id_str node = node.peer_id

pub update_available_space : ℕ → P2pNode → P2pNode
update_available_space space node = record node {
  heartbeat = set_available_space space node.heartbeat;
}

pub initialize : P2pNode → P2pNode
initialize node = record node {
  behaviour = mark_heartbeat_active (mark_gossip_ready (mark_kademlia_ready node.behaviour));
}
