-- ===== src/Cli/Config.antt =====
-- cli/src/config.rs: the configuration of a node, a file in its data directory, which is the base of the
-- drive. JSON is an interface, the new identity and the time are arguments.
pub mod Laws
use dest.Base.{ℕ, Bool, true, false, Option, none, some, [], ◌∷◌, take, ◌≡◌}
use dest.Base.Text.{Bytes, Text}
use dest.Base.HashMap.{HashMap, get, insert}
use dest.Storage.Files.{Fault, Node, Drive, next_fault, nodes, tick}

pub record NodeConfig : Type 0 where
  pub peer_id : Text
  pub public_key : Bytes
  pub data_dir : Text
  pub p2p_port : ℕ
  pub api_port : ℕ
  pub created_at : Text

-- `serde_json` on `NodeConfig`. Bytes that are not UTF-8, which `read_to_string` refuses, read as `none`.
pub record ConfigJson : Type 0 where
  pub to_string_pretty : NodeConfig → Bytes
  pub from_str : Bytes → Option NodeConfig
  pub from_str-to_string : (c : NodeConfig) → from_str (to_string_pretty c) ≡ some c

-- A file in the base directory itself.
abbrev pub node_bytes : Option Node → Option Bytes
node_bytes none = none
node_bytes (some (Node.file b)) = some b
node_bytes (some (Node.dir fs)) = none

unfoldable pub read_base : Text → Drive → Option Bytes
read_base name drv = node_bytes (get name (nodes drv.base))

unfoldable pub put_base : Text → Bytes → HashMap Node → Drive → Drive
put_base name bytes ns drv = record drv { base = some (insert name (Node.file bytes) ns) }

abbrev pub write_node : Fault → Option Node → Text → Bytes → HashMap Node → Drive → Drive × Bool
write_node f (some (Node.dir fs)) name bytes ns drv = (drv, false)
write_node Fault.refuse o name bytes ns drv = (drv, false)
write_node (Fault.tear k) o name bytes ns drv = (put_base name (take k bytes) ns drv, false)
write_node Fault.pass o name bytes ns drv = (put_base name bytes ns drv, true)

abbrev pub write_base_in : Option (HashMap Node) → Text → Bytes → Drive → Drive × Bool
write_base_in none name bytes drv = (tick drv, false)
write_base_in (some ns) name bytes drv =
    write_node (next_fault drv.faults) (get name ns) name bytes ns (tick drv)

unfoldable pub write_base : Text → Bytes → Drive → Drive × Bool
write_base name bytes drv = write_base_in drv.base name bytes drv

-- "config.json"
abbrev pub config_json : Text
config_json = b'c' ∷ b'o' ∷ b'n' ∷ b'f' ∷ b'i' ∷ b'g' ∷ b'.' ∷ b'j' ∷ b's' ∷ b'o' ∷ b'n' ∷ []

-- A new key pair: its peer, printed and as bytes.
pub record Identity : Type 0 where
  pub peer_id : Text
  pub peer_bytes : Bytes

module _ ⦃js : ConfigJson⦄ where
  unfoldable pub save : NodeConfig → Drive → Drive × Bool
  save c drv = write_base config_json (js.to_string_pretty c) drv

  abbrev pub new_config : Identity → Text → Text → NodeConfig
  new_config identity now data_dir = record {
    peer_id = identity.peer_id;
    public_key = identity.peer_bytes;
    data_dir = data_dir;
    p2p_port = 9444;
    api_port = 8080;
    created_at = now;
  }

  abbrev pub saved : NodeConfig → Drive × Bool → Drive × Option NodeConfig
  saved c (drv, true) = (drv, some c)
  saved c (drv, false) = (drv, none)

  unfoldable pub generate : Identity → Text → Text → Drive → Drive × Option NodeConfig
  generate identity now data_dir drv =
      saved (new_config identity now data_dir) (save (new_config identity now data_dir) drv)

  abbrev pub parse_config : Option Bytes → Option NodeConfig
  parse_config none = none
  parse_config (some b) = js.from_str b

  unfoldable pub load : Drive → Option NodeConfig
  load drv = parse_config (read_base config_json drv)
