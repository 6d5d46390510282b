-- ===== src/P2p/Config.antt =====
-- p2p/src/config.rs: the configuration of a node.
use dest.Base.{ℕ, Bool, true, List, [], ◌∷◌}
use dest.Base.Text.{Text}

abbrev pub default_listen_port : ℕ
default_listen_port = 9444

-- `DEFAULT_BOOTSTRAP_NODES`: "/dns4/bootstrap1.vaultkeeper.net/tcp/9444/p2p/QmBootstrap1Placeholder000…",
-- and two more.
abbrev pub bootstrap1 : Text
bootstrap1 =
    b'/' ∷ b'd' ∷ b'n' ∷ b's' ∷ b'4' ∷ b'/' ∷ b'b' ∷ b'o' ∷ b'o' ∷ b't' ∷ b's' ∷ b't' ∷ b'r' ∷ b'a'
    ∷ b'p' ∷ b'1' ∷ b'.' ∷ b'v' ∷ b'a' ∷ b'u' ∷ b'l' ∷ b't' ∷ b'k' ∷ b'e' ∷ b'e' ∷ b'p' ∷ b'e'
    ∷ b'r' ∷ b'.' ∷ b'n' ∷ b'e' ∷ b't' ∷ b'/' ∷ b't' ∷ b'c' ∷ b'p' ∷ b'/' ∷ b'9' ∷ b'4' ∷ b'4'
    ∷ b'4' ∷ b'/' ∷ b'p' ∷ b'2' ∷ b'p' ∷ b'/' ∷ b'Q' ∷ b'm' ∷ b'B' ∷ b'o' ∷ b'o' ∷ b't' ∷ b's'
    ∷ b't' ∷ b'r' ∷ b'a' ∷ b'p' ∷ b'1' ∷ b'P' ∷ b'l' ∷ b'a' ∷ b'c' ∷ b'e' ∷ b'h' ∷ b'o' ∷ b'l'
    ∷ b'd' ∷ b'e' ∷ b'r' ∷ b'0' ∷ b'0' ∷ b'0' ∷ b'0' ∷ b'0' ∷ b'0' ∷ b'0' ∷ b'0' ∷ b'0' ∷ b'0'
    ∷ b'0' ∷ b'0' ∷ b'0' ∷ b'0' ∷ b'0' ∷ b'0' ∷ b'0' ∷ b'0' ∷ b'0' ∷ b'0' ∷ b'0' ∷ b'0' ∷ b'0'
    ∷ b'0' ∷ b'0' ∷ b'0' ∷ b'0' ∷ b'0' ∷ b'0' ∷ b'0' ∷ b'0' ∷ []

abbrev pub bootstrap2 : Text
bootstrap2 =
    b'/' ∷ b'd' ∷ b'n' ∷ b's' ∷ b'4' ∷ b'/' ∷ b'b' ∷ b'o' ∷ b'o' ∷ b't' ∷ b's' ∷ b't' ∷ b'r' ∷ b'a'
    ∷ b'p' ∷ b'2' ∷ b'.' ∷ b'v' ∷ b'a' ∷ b'u' ∷ b'l' ∷ b't' ∷ b'k' ∷ b'e' ∷ b'e' ∷ b'p' ∷ b'e'
    ∷ b'r' ∷ b'.' ∷ b'n' ∷ b'e' ∷ b't' ∷ b'/' ∷ b't' ∷ b'c' ∷ b'p' ∷ b'/' ∷ b'9' ∷ b'4' ∷ b'4'
    ∷ b'4' ∷ b'/' ∷ b'p' ∷ b'2' ∷ b'p' ∷ b'/' ∷ b'Q' ∷ b'm' ∷ b'B' ∷ b'o' ∷ b'o' ∷ b't' ∷ b's'
    ∷ b't' ∷ b'r' ∷ b'a' ∷ b'p' ∷ b'2' ∷ b'P' ∷ b'l' ∷ b'a' ∷ b'c' ∷ b'e' ∷ b'h' ∷ b'o' ∷ b'l'
    ∷ b'd' ∷ b'e' ∷ b'r' ∷ b'0' ∷ b'0' ∷ b'0' ∷ b'0' ∷ b'0' ∷ b'0' ∷ b'0' ∷ b'0' ∷ b'0' ∷ b'0'
    ∷ b'0' ∷ b'0' ∷ b'0' ∷ b'0' ∷ b'0' ∷ b'0' ∷ b'0' ∷ b'0' ∷ b'0' ∷ b'0' ∷ b'0' ∷ b'0' ∷ b'0'
    ∷ b'0' ∷ b'0' ∷ b'0' ∷ b'0' ∷ b'0' ∷ b'0' ∷ b'0' ∷ b'0' ∷ []

abbrev pub bootstrap3 : Text
bootstrap3 =
    b'/' ∷ b'd' ∷ b'n' ∷ b's' ∷ b'4' ∷ b'/' ∷ b'b' ∷ b'o' ∷ b'o' ∷ b't' ∷ b's' ∷ b't' ∷ b'r' ∷ b'a'
    ∷ b'p' ∷ b'3' ∷ b'.' ∷ b'v' ∷ b'a' ∷ b'u' ∷ b'l' ∷ b't' ∷ b'k' ∷ b'e' ∷ b'e' ∷ b'p' ∷ b'e'
    ∷ b'r' ∷ b'.' ∷ b'n' ∷ b'e' ∷ b't' ∷ b'/' ∷ b't' ∷ b'c' ∷ b'p' ∷ b'/' ∷ b'9' ∷ b'4' ∷ b'4'
    ∷ b'4' ∷ b'/' ∷ b'p' ∷ b'2' ∷ b'p' ∷ b'/' ∷ b'Q' ∷ b'm' ∷ b'B' ∷ b'o' ∷ b'o' ∷ b't' ∷ b's'
    ∷ b't' ∷ b'r' ∷ b'a' ∷ b'p' ∷ b'3' ∷ b'P' ∷ b'l' ∷ b'a' ∷ b'c' ∷ b'e' ∷ b'h' ∷ b'o' ∷ b'l'
    ∷ b'd' ∷ b'e' ∷ b'r' ∷ b'0' ∷ b'0' ∷ b'0' ∷ b'0' ∷ b'0' ∷ b'0' ∷ b'0' ∷ b'0' ∷ b'0' ∷ b'0'
    ∷ b'0' ∷ b'0' ∷ b'0' ∷ b'0' ∷ b'0' ∷ b'0' ∷ b'0' ∷ b'0' ∷ b'0' ∷ b'0' ∷ b'0' ∷ b'0' ∷ b'0'
    ∷ b'0' ∷ b'0' ∷ b'0' ∷ b'0' ∷ b'0' ∷ b'0' ∷ b'0' ∷ b'0' ∷ []

abbrev pub default_bootstrap_nodes : List Text
default_bootstrap_nodes = bootstrap1 ∷ bootstrap2 ∷ bootstrap3 ∷ []

-- `SocketAddr`: the four numbers of an address, and a port.
pub record SocketAddr : Type 0 where
  pub ip : List ℕ
  pub port : ℕ

pub record P2pConfig : Type 0 where
  pub listen_addr : SocketAddr
  pub bootstrap_nodes : List Text
  pub enable_nat : Bool
  pub dht_protocol : Text
  pub gossip_topic_prefix : Text
  pub heartbeat_interval_secs : ℕ
  pub max_connections : ℕ

-- "/vaultkeeper/dht/1.0.0" and "vaultkeeper"
abbrev pub dht_protocol_name : Text
dht_protocol_name =
    b'/' ∷ b'v' ∷ b'a' ∷ b'u' ∷ b'l' ∷ b't' ∷ b'k' ∷ b'e' ∷ b'e' ∷ b'p' ∷ b'e' ∷ b'r' ∷ b'/' ∷ b'd'
    ∷ b'h' ∷ b't' ∷ b'/' ∷ b'1' ∷ b'.' ∷ b'0' ∷ b'.' ∷ b'0' ∷ []

abbrev pub topic_prefix : Text
topic_prefix = b'v' ∷ b'a' ∷ b'u' ∷ b'l' ∷ b't' ∷ b'k' ∷ b'e' ∷ b'e' ∷ b'p' ∷ b'e' ∷ b'r' ∷ []

-- `P2pConfig::default`
abbrev pub default_config : P2pConfig
default_config = record {
  listen_addr = record { ip = 0 ∷ 0 ∷ 0 ∷ 0 ∷ []; port = default_listen_port };
  bootstrap_nodes = default_bootstrap_nodes;
  enable_nat = true;
  dht_protocol = dht_protocol_name;
  gossip_topic_prefix = topic_prefix;
  heartbeat_interval_secs = 900;
  max_connections = 50;
}
