-- ===== src/P2p/Discovery/Tests.antt =====
-- The theorem on bootstrap nodes at a small input: addresses are texts, one without a peer, and a table is
-- the list of what was added.
use dest.Base.{ℕ, true, Option, none, some, List, [], ◌∷◌, length, ◌≡◌, if◌then◌else◌}
use dest.Base.Text.{Text}
use dest.P2p.Discovery.{
  Multiaddr, Kademlia, add_bootstrap_nodes, add_all, peers, all_parse, add_bootstrap_nodes-peers,
}

abbrev parse : Text → Option Text
parse [] = none
parse (c ∷ cs) = some (c ∷ cs)

abbrev find : Text → Option ℕ
find (a ∷ b ∷ cs) = some b
find _ = none

instance abbrev addresses : Multiaddr
addresses = record { Addr = Text; PeerId = ℕ; parse = parse; find_p2p = find }

instance abbrev lists : Kademlia
lists = record {
  Table = List (ℕ × Text);
  Protocol = Text;
  try_from_owned = parse;
  with_config = λ p protocol. [];
  add_address = λ p a table. (p, a) ∷ table;
  bootstrap = λ table. table;
  put_record = λ key value table. (table, true);
  get_record = λ key table. table;
}

abbrev addrs : List Text
addrs = (1 ∷ 2 ∷ []) ∷ (3 ∷ []) ∷ [] ∷ (4 ∷ 5 ∷ []) ∷ []

add_bootstrap_nodes-peers_example :
    add_bootstrap_nodes addrs []
    ≡ (add_all (peers addrs) [], if all_parse addrs then some (length (peers addrs)) else none)
add_bootstrap_nodes-peers_example = add_bootstrap_nodes-peers addrs []
