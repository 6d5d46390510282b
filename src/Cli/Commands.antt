-- ===== src/Cli/Commands.antt =====
-- cli/src/commands.rs: what each command does. The drive is the data directory; what is only printed or
-- logged is left out, but for the lines about chunks. An error is `none`. The parsing of arguments and the
-- choice of the command are left out.
pub mod Laws
pub mod Handle
mod Tests
use dest.Base.{ℕ, ◌+◌, Bool, Option, none, some, List, [], ◌∷◌, ◌++◌, length, if◌then◌else◌}
use dest.Base.Text.{Bytes, Text}
use dest.Base.Decimal.{to_decimal}
use dest.Core.Extern.{Blake3, Hex}
use dest.Core.Types.{ChunkId, as_hex, from_hex, MnemonicWordCount}
use dest.Core.Chunking.{chunk_data, generate_chunk_ids}
use dest.Core.Recovery.{Bip39, generate_mnemonic, parse_mnemonic, recover_key_from_mnemonic}
use dest.Billing.Extern.{Chrono, Decimal, zero_amount}
use dest.Billing.Types.{AccountId}
use dest.Billing.Account as Account
use dest.Billing.Account.{BillingAccount, Outside}
use dest.P2p.Config as P2pConfig
use dest.P2p.Node as Node
use dest.P2p.Node.{P2pNode}
use dest.Ledger.Store.{Database, open_store}
use dest.Storage.Files.{Drive, create_base, create_dir_all}
use dest.Storage.Shards.{and_then}
use dest.Cli.Config as Config
use dest.Cli.Config.{NodeConfig, ConfigJson, Identity, load, read_base, config_json}
use dest.Cli.Api.{Event, serve}

-- "shards", "ledger" and "Initial deposit"
abbrev pub shards_dir : Text
shards_dir = b's' ∷ b'h' ∷ b'a' ∷ b'r' ∷ b'd' ∷ b's' ∷ []

abbrev pub ledger_dir : Text
ledger_dir = b'l' ∷ b'e' ∷ b'd' ∷ b'g' ∷ b'e' ∷ b'r' ∷ []

abbrev pub initial_text : Text
initial_text =
    b'I' ∷ b'n' ∷ b'i' ∷ b't' ∷ b'i' ∷ b'a' ∷ b'l' ∷ b' ' ∷ b'd' ∷ b'e' ∷ b'p' ∷ b'o' ∷ b's' ∷ b'i'
    ∷ b't' ∷ []

module _ ⦃js : ConfigJson⦄ where
  pub cmd_init : Identity → Text → Text → Drive → Drive × Option NodeConfig
  cmd_init identity now data_dir drv = and_then (create_base drv) (λ made.
      and_then (create_dir_all shards_dir made) (λ with_shards.
        and_then (create_dir_all ledger_dir with_shards)
          (λ with_ledger. Config.generate identity now data_dir with_ledger)))

  abbrev pub status_of : Option Bytes → Option NodeConfig → Option NodeConfig
  status_of none config = none
  status_of (some b) config = config

  -- The configuration that `cmd_status` prints. A directory of that name is an error later.
  pub cmd_status : Drive → Option NodeConfig
  cmd_status drv = status_of (read_base config_json drv) (load drv)

  module _ ⦃c : Chrono⦄ ⦃d : Decimal⦄ where
    pub record Daemon : Type 0 where
      pub node : P2pNode
      pub ledger : Database
      pub billing : BillingAccount

    -- What a start meets outside: the new identity, the file of the database, which may not open, whether
    -- the address parses and can be listened on, and what the network brings.
    pub record World : Type 0 where
      pub peer_id : Text
      pub outside : Outside
      pub account : AccountId
      pub connect : Drive → Drive × Option (Option Database)
      pub listens : Bool
      pub events : List Event

    abbrev pub Started : Type 0
    Started = Drive × Option (Daemon × List Text)

    -- `NodeConfig::load(…)?`
    abbrev pub with_config : Option NodeConfig → Drive → Started → Started
    with_config none drv k = (drv, none)
    with_config (some config) drv k = k

    abbrev pub opened : Drive × Option (Option Database) → Drive × Option Database
    opened (drv, file) = (drv, open_store file)

    -- `LedgerStore::open(…)?`
    abbrev pub with_ledger : Drive × Option Database → (Database → Drive → Started) → Started
    with_ledger (drv, none) k = (drv, none)
    with_ledger (drv, some ledger) k = k ledger drv

    abbrev pub new_daemon : World → Database → Daemon
    new_daemon w ledger = record {
      node = Node.new w.peer_id P2pConfig.default_config;
      ledger = ledger;
      billing = Account.new w.outside w.account initial_text zero_amount;
    }

    -- `run_api_server`: the answers that it sends.
    abbrev pub run_api_server : World → Daemon → Drive → Started
    run_api_server w daemon drv = (drv, if w.listens then some (daemon, serve w.events) else none)

    pub cmd_start : World → Drive → Started
    cmd_start w drv = with_config (load drv) drv (
        with_ledger (opened (w.connect drv)) (λ ledger ready.
          and_then (create_dir_all shards_dir ready)
            (λ stored. run_api_server w (new_daemon w ledger) stored)))

    -- `cmd_daemon`, whose address is fixed.
    abbrev pub cmd_daemon : World → Drive → Started
    cmd_daemon w drv = cmd_start w drv

-- "  Chunk ", ": ", " (" and " bytes)"
abbrev pub chunk_text : Text
chunk_text = b' ' ∷ b' ' ∷ b'C' ∷ b'h' ∷ b'u' ∷ b'n' ∷ b'k' ∷ b' ' ∷ []

abbrev pub bytes_text : Text
bytes_text = b' ' ∷ b'b' ∷ b'y' ∷ b't' ∷ b'e' ∷ b's' ∷ b')' ∷ []

module _ ⦃b3 : Blake3⦄ ⦃hx : Hex⦄ where
  abbrev pub chunk_line : ℕ → ChunkId → ℕ → Text
  chunk_line i id n =
      chunk_text
      ++ (to_decimal i
          ++ ((b':' ∷ b' ' ∷ [])
              ++ (as_hex id ++ ((b' ' ∷ b'(' ∷ []) ++ (to_decimal n ++ bytes_text)))))

  -- The loop over the identifiers, from the i-th on; there are as many as chunks.
  abbrev pub chunk_lines : ℕ → List ChunkId → List Bytes → List Text
  chunk_lines i [] chunks = []
  chunk_lines i (id ∷ ids) [] = []
  chunk_lines i (id ∷ ids) (chunk ∷ chunks) =
      chunk_line i id (length chunk) ∷ chunk_lines (i + 1) ids chunks

  -- The lines about a file's chunks; `none` stands for a file that is not there or cannot be read. The
  -- replication factor is only logged.
  pub cmd_upload : Option Bytes → ℕ → Option (List Text)
  cmd_upload none replication = none
  cmd_upload (some bytes) replication =
      some (chunk_lines 0 (generate_chunk_ids (chunk_data bytes)) (chunk_data bytes))

-- Only the identifier is read.
pub cmd_download : ⦃hx : Hex⦄ → Text → Option ChunkId
cmd_download chunk_id = from_hex chunk_id

pub data KeyAction : Type 0 where
  generate show backup : KeyAction

module _ ⦃b : Bip39⦄ where
  abbrev pub print_phrase : Option b.Mnemonic → Option (List Text)
  print_phrase none = none
  print_phrase (some m) = some (b.to_string m ∷ [])

  -- The phrases that are printed; `show` and `backup` print a notice only.
  pub cmd_keys : KeyAction → Option (List Text)
  cmd_keys KeyAction.generate = print_phrase (generate_mnemonic MnemonicWordCount.twelve)
  cmd_keys KeyAction.show = some []
  cmd_keys KeyAction.backup = some []

  abbrev pub recover_key : Text → Option b.Mnemonic → Option Bytes
  recover_key passphrase none = none
  recover_key passphrase (some m) = some (recover_key_from_mnemonic m passphrase)

  -- The key, which is dropped after its derivation.
  pub cmd_recover : Text → Text → Option Bytes
  cmd_recover mnemonic passphrase = recover_key passphrase (parse_mnemonic mnemonic)
