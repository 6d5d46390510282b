-- ===== src/Cli/Commands/Tests.antt =====
-- The theorems on the commands at small inputs. A configuration is written as each text after its length.
use dest.Base.{
  ℕ, Option, none, some, [], ◌∷◌, ◌++◌, length, take, drop, replicate, ◌≡◌, refl,
  take-length-append, drop-length-append, length-replicate,
}
use dest.Base.Text.{Bytes, Text, bytes_eq}
use dest.Base.HashMap.{get, insert}
use dest.Core.Extern.{Blake3, Hex}
use dest.Billing.Tests.Crates.{chrono, decimal}
use dest.Storage.Files.{Drive, create_base, create_dir_all, put_files}
use dest.Cli.Config.{
  NodeConfig, ConfigJson, Identity, new_config, generate, save, load, write_base, put_base,
}
use dest.Cli.Commands.{cmd_init, cmd_status}
use dest.Cli.Commands.Laws.{load-cmd_init}

instance abbrev blake3 : Blake3
blake3 = record {
  hash = λ b. replicate 32 (length b);
  length-hash = λ b. length-replicate {A = ℕ} 32 (length b);
}

instance abbrev hex : Hex
hex = record { encode = λ b. b; decode = λ t. some t; decode-encode = λ b. refl }

abbrev field : Text → Bytes → Bytes
field t cs = length t ∷ (t ++ cs)

abbrev to_string : NodeConfig → Bytes
to_string c =
    field c.peer_id
      (field c.public_key (field c.data_dir (field c.created_at (c.p2p_port ∷ c.api_port ∷ []))))

abbrev read_field : Bytes → Text × Bytes
read_field [] = ([], [])
read_field (n ∷ cs) = (take n cs, drop n cs)

abbrev finish : Text → Text → Text → Text → Bytes → Option NodeConfig
finish a b c d (p ∷ q ∷ []) = some (record {
  peer_id = a;
  public_key = b;
  data_dir = c;
  p2p_port = p;
  api_port = q;
  created_at = d;
})
finish a b c d cs = none

abbrev from_str : Bytes → Option NodeConfig
from_str cs =
    let (a, r) = read_field cs in
    let (b, s) = read_field r in
    let (c, t) = read_field s in let (d, u) = read_field t in finish a b c d u

from_str-to_string : (c : NodeConfig) → from_str (to_string c) ≡ some c
from_str-to_string c =
    let r4 : Bytes = c.p2p_port ∷ c.api_port ∷ [] in
    let r3 = field c.created_at r4 in
    let r2 = field c.data_dir r3 in
    let r1 = field c.public_key r2 in
    rw
      (
        take-length-append c.peer_id r1,
        drop-length-append c.peer_id r1,
        take-length-append c.public_key r2,
        drop-length-append c.public_key r2,
        take-length-append c.data_dir r3,
        drop-length-append c.data_dir r3,
        take-length-append c.created_at r4,
        drop-length-append c.created_at r4,
      )
      refl

instance abbrev json : ConfigJson
json = record {
  to_string_pretty = to_string;
  from_str = from_str;
  from_str-to_string = from_str-to_string;
}

abbrev identity : Identity
identity = record { peer_id = b'Q' ∷ []; peer_bytes = 1 ∷ 2 ∷ [] }

abbrev empty : Drive
empty = record { base = none; faults = [] }

abbrev made : NodeConfig
made = new_config identity (b'0' ∷ []) (b'd' ∷ [])

init-ok : (cmd_init identity (b'0' ∷ []) (b'd' ∷ []) empty).1 ≡ some made
unfolding cmd_init generate save write_base put_base create_base create_dir_all put_files get insert
    bytes_eq
init-ok = refl

load-cmd_init_example :
    (load (cmd_init identity (b'0' ∷ []) (b'd' ∷ []) empty).0 ≡ some made)
    × (cmd_status (cmd_init identity (b'0' ∷ []) (b'd' ∷ []) empty).0 ≡ some made)
    × (made.peer_id ≡ identity.peer_id)
load-cmd_init_example = load-cmd_init identity (b'0' ∷ []) (b'd' ∷ []) empty made init-ok
