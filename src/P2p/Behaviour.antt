-- ===== src/P2p/Behaviour.antt =====
-- p2p/src/behaviour.rs: which protocols of a node are ready. The transport and the key pair, which are calls
-- of libp2p, are left out.
use dest.Base.{Bool, true, false, ◌&&◌, ◌||◌, List, [], ◌∷◌, ◌≡◌, refl}

pub record VaultKeeperBehaviour : Type 0 where
  pub kademlia_initialized : Bool
  pub gossip_initialized : Bool
  pub heartbeat_active : Bool

-- `VaultKeeperBehaviour::new`
unfoldable pub new : VaultKeeperBehaviour
new = record { kademlia_initialized = false; gossip_initialized = false; heartbeat_active = false }

unfoldable pub mark_kademlia_ready : VaultKeeperBehaviour → VaultKeeperBehaviour
mark_kademlia_ready b = record b { kademlia_initialized = true }

unfoldable pub mark_gossip_ready : VaultKeeperBehaviour → VaultKeeperBehaviour
mark_gossip_ready b = record b { gossip_initialized = true }

unfoldable pub mark_heartbeat_active : VaultKeeperBehaviour → VaultKeeperBehaviour
mark_heartbeat_active b = record b { heartbeat_active = true }

unfoldable pub is_fully_initialized : VaultKeeperBehaviour → Bool
is_fully_initialized b = b.kademlia_initialized && b.gossip_initialized && b.heartbeat_active

pub data Mark : Type 0 where
  kademlia gossip heartbeat : Mark

abbrev pub mark : Mark → VaultKeeperBehaviour → VaultKeeperBehaviour
mark Mark.kademlia b = mark_kademlia_ready b
mark Mark.gossip b = mark_gossip_ready b
mark Mark.heartbeat b = mark_heartbeat_active b

pub run : List Mark → VaultKeeperBehaviour → VaultKeeperBehaviour
run [] b = b
run (k ∷ ks) b = run ks (mark k b)

abbrev same_mark : Mark → Mark → Bool
same_mark Mark.kademlia Mark.kademlia = true
same_mark Mark.gossip Mark.gossip = true
same_mark Mark.heartbeat Mark.heartbeat = true
same_mark _ _ = false

pub marked : Mark → List Mark → Bool
marked k [] = false
marked k (j ∷ js) = same_mark k j || marked k js

abbrev flags : Bool → Bool → Bool → VaultKeeperBehaviour
flags a b c = record { kademlia_initialized = a; gossip_initialized = b; heartbeat_active = c }

or_false : (a : Bool) → a || false ≡ a
or_false true = refl
or_false false = refl

or_true : (a : Bool) → a || true ≡ true
or_true true = refl
or_true false = refl

run-flags :
    (ks : List Mark) (a b c : Bool)
    → run ks (flags a b c)
      ≡ flags
          (a || marked Mark.kademlia ks)
          (b || marked Mark.gossip ks)
          (c || marked Mark.heartbeat ks)
unfolding run marked mark_kademlia_ready mark_gossip_ready mark_heartbeat_active
run-flags [] a b c = rw (or_false a, or_false b, or_false c) refl
run-flags (Mark.kademlia ∷ ks) a b c = rw (or_true a) (run-flags ks true b c)
run-flags (Mark.gossip ∷ ks) a b c = rw (or_true b) (run-flags ks a true c)
run-flags (Mark.heartbeat ∷ ks) a b c = rw (or_true c) (run-flags ks a b true)

-- A new node is fully initialized after some marks exactly if each of the three is among them, in
-- whatever order and however often.
pub is_fully_initialized-run :
    (ks : List Mark)
    → is_fully_initialized (run ks new)
      ≡ marked Mark.kademlia ks && marked Mark.gossip ks && marked Mark.heartbeat ks
unfolding is_fully_initialized new
is_fully_initialized-run ks = rw (run-flags ks false false false) refl
