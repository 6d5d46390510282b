-- ===== src/P2p/Discovery.antt =====
-- p2p/src/discovery.rs: the addresses of bootstrap nodes and the records of the table. libp2p's Kademlia, its
-- addresses and its records are parameters.
mod Tests
use mathlib.Core.Option
use dest.Base.{
  ℕ, ◌+◌, Bool, true, false, ◌&&◌, if◌then◌else◌, Option-cases, inl, inr, Option, none, some, List,
  [], ◌∷◌, length, ◌≡◌, refl, ap, ◌∙◌, arith,
}
use dest.Base.Text.{Bytes, Text}

-- `Multiaddr`: parsing, and the peer of the first `P2p` part.
pub record Multiaddr : Type 1 where
  pub Addr : Type 0
  pub PeerId : Type 0
  pub parse : Text → Option Addr
  pub find_p2p : Addr → Option PeerId

-- `Kademlia<MemoryStore>`: `false` of `put_record` is its error. `StreamProtocol::try_from_owned` refuses some
-- names, and `with_config` makes a table with a new store and the default configuration but for its protocol.
pub record Kademlia ⦃ma : Multiaddr⦄ : Type 1 where
  pub Table : Type 0
  pub Protocol : Type 0
  pub try_from_owned : Text → Option Protocol
  pub with_config : ma.PeerId → Protocol → Table
  pub add_address : ma.PeerId → ma.Addr → Table → Table
  pub bootstrap : Table → Table
  pub put_record : Bytes → Bytes → Table → Table × Bool
  pub get_record : Bytes → Table → Table

module _ ⦃ma : Multiaddr⦄ ⦃kad : Kademlia⦄ where
  abbrev pub create_kademlia : ma.PeerId → Text → Option kad.Table
  create_kademlia local_peer_id protocol_name =
      Option.map (kad.with_config local_peer_id) (kad.try_from_owned protocol_name)

  abbrev pub Result : Type 0
  Result = kad.Table × Option ℕ

  -- `parse()?` with the table so far.
  abbrev pub with_addr : kad.Table → Option ma.Addr → (ma.Addr → Result) → Result
  with_addr table none k = (table, none)
  with_addr table (some addr) k = k addr

  -- The `if let`, its `continue` among it.
  abbrev pub with_peer : Option ma.PeerId → Result → (ma.PeerId → Result) → Result
  with_peer none skip k = skip
  with_peer (some peer_id) skip k = k peer_id

  abbrev pub add_nodes : ℕ → List Text → kad.Table → Result
  add_nodes added [] table = (table, some added)
  add_nodes added (addr_str ∷ addrs) table = with_addr table (ma.parse addr_str) (λ addr.
      with_peer (ma.find_p2p addr) (add_nodes added addrs table)
        (λ peer_id. add_nodes (added + 1) addrs (kad.add_address peer_id addr table)))

  -- `none` is the error, which leaves what was added before it.
  pub add_bootstrap_nodes : List Text → kad.Table → Result
  add_bootstrap_nodes addrs table = add_nodes 0 addrs table

  abbrev pub bootstrap : kad.Table → kad.Table
  bootstrap table = kad.bootstrap table

  abbrev pub put_record : Bytes → Bytes → kad.Table → kad.Table × Bool
  put_record key value table = kad.put_record key value table

  -- The answer comes with a later event: the result holds nothing.
  abbrev pub get_record : Bytes → kad.Table → kad.Table × Option (Option Bytes)
  get_record key table = (kad.get_record key table, some none)

  -- The addresses with a peer, up to the first text that is no address.
  abbrev pub keep_peer :
      Option ma.PeerId → ma.Addr → List (ma.PeerId × ma.Addr) → List (ma.PeerId × ma.Addr)
  keep_peer none addr ps = ps
  keep_peer (some p) addr ps = (p, addr) ∷ ps

  abbrev pub keep_parsed : Option ma.Addr → List (ma.PeerId × ma.Addr) → List (ma.PeerId × ma.Addr)
  keep_parsed none ps = []
  keep_parsed (some addr) ps = keep_peer (ma.find_p2p addr) addr ps

  pub peers : List Text → List (ma.PeerId × ma.Addr)
  peers [] = []
  peers (a ∷ others) = keep_parsed (ma.parse a) (peers others)

  abbrev pub is_addr : Option ma.Addr → Bool
  is_addr none = false
  is_addr (some addr) = true

  pub all_parse : List Text → Bool
  all_parse [] = true
  all_parse (a ∷ others) = is_addr (ma.parse a) && all_parse others

  pub add_all : List (ma.PeerId × ma.Addr) → kad.Table → kad.Table
  add_all [] table = table
  add_all ((p, addr) ∷ ps) table = add_all ps (kad.add_address p addr table)

  add_nodes-peers :
      (added : ℕ) (addrs : List Text) (table : kad.Table)
      → add_nodes added addrs table ≡ (
        add_all (peers addrs) table,
        if all_parse addrs then some (added + length (peers addrs)) else none,
      )
  unfolding peers all_parse add_all
  add_nodes-peers added [] table = ap (λ n. (table, some n)) (omega arith)
  add_nodes-peers added (a ∷ others) table = elim (Option-cases (ma.parse a)) [
    | inl bad ↦ rw (bad) refl
    | inr (addr, good) ↦ rw (good) (elim (Option-cases (ma.find_p2p addr)) [
      | inl skipped ↦ rw (skipped) (add_nodes-peers added others table)
      | inr (p, found) ↦ rw (found) (
          add_nodes-peers (added + 1) others (kad.add_address p addr table)
          ∙ ap
              (λ n. (
                add_all (peers others) (kad.add_address p addr table),
                if all_parse others then some n else none,
              ))
              (omega arith))
    ])
  ]

  -- The bootstrap addresses are added in their order up to the first text that is no address, without
  -- those that name no peer; the result is the number added where every text is an address, and an
  -- error otherwise.
  pub add_bootstrap_nodes-peers :
      (addrs : List Text) (table : kad.Table)
      → add_bootstrap_nodes addrs table ≡ (
        add_all (peers addrs) table,
        if all_parse addrs then some (length (peers addrs)) else none,
      )
  unfolding add_bootstrap_nodes
  add_bootstrap_nodes-peers addrs table =
      add_nodes-peers 0 addrs table
      ∙ ap (λ n. (add_all (peers addrs) table, if all_parse addrs then some n else none))
          (omega arith)
