-- ===== src/P2p/Node/Tests.antt =====
-- The theorems on the node, its behaviour and its topics at small inputs.
use dest.Base.{min, ltb, List, [], ◌∷◌, ◌≡◌}
use dest.Base.Text.{Text}
use dest.P2p.Message.{P2pMessage, GossipTopic}
use dest.P2p.Config.{default_config}
use dest.P2p.Gossip.{len}
use dest.P2p.Node.{new, send_gossip}
use dest.P2p.Node.Laws.{Call, run, sends, run-sends}

abbrev peer : Text
peer = b'Q' ∷ b'm' ∷ []

abbrev calls : List Call
calls =
    Call.init
    ∷ Call.send 100 GossipTopic.replication (P2pMessage.replication_request [] (1 ∷ []))
    ∷ Call.space 1024
    ∷ []

run-sends_example :
    let node = run calls (new peer default_config) in
    (node.gossip_queue.queues.critical ≡ [])
    × (len node.gossip_queue ≡ min (sends calls) 10_000)
    × ((send_gossip 101 GossipTopic.replication (P2pMessage.ledger_request 1) node).1
        ≡ ltb (sends calls) 10_000)
run-sends_example =
    run-sends calls peer default_config 101 GossipTopic.replication (P2pMessage.ledger_request 1)
