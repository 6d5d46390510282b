-- ===== src/Cli/Commands/Handle.antt =====
-- `handle_command` of cli/src/commands.rs: the choice of the command. The state is the data directories,
-- each under one name, however a path to it is spelled, and none of them within another. What a command meets
-- outside is an argument.
pub mod Frame
use dest.Base.{ℕ, Bool, true, false, Option, none, some, [], ◌∷◌, if◌then◌else◌}
use dest.Base.Text.{Bytes, Text, bytes_eq}
use dest.Core.Extern.{Blake3, Hex}
use dest.Core.Recovery.{Bip39}
use dest.Billing.Extern.{Chrono, Decimal}
use dest.Storage.Files.{Drive}
use dest.Cli.Config.{ConfigJson, Identity}
use dest.Cli.Commands.{
  World, KeyAction, cmd_init, cmd_start, cmd_daemon, cmd_status, cmd_upload, cmd_download, cmd_keys,
  cmd_recover,
}

pub data CliCommand : Type 0 where
  init : Text → CliCommand
  start : Text → Text → CliCommand
  stop : CliCommand
  status : Text → CliCommand
  upload : Text → ℕ → CliCommand
  download : Text → Text → CliCommand
  balance : CliCommand
  keys : KeyAction → CliCommand
  recover : Text → Text → CliCommand
  daemon : Text → CliCommand

-- "127.0.0.1:8080"
abbrev pub daemon_addr : Text
daemon_addr =
    b'1' ∷ b'2' ∷ b'7' ∷ b'.' ∷ b'0' ∷ b'.' ∷ b'0' ∷ b'.' ∷ b'1' ∷ b':' ∷ b'8' ∷ b'0' ∷ b'8' ∷ b'0'
    ∷ []

abbrev pub Drives : Type 0
Drives = Text → Drive

pub set_drive : Text → Drive → Drives → Drives
set_drive dir drv drives e = if bytes_eq e dir then drv else drives e

abbrev pub is_ok {ℓ} : {A : Type ℓ} → Option A → Bool
is_ok none = false
is_ok (some x) = true

abbrev pub in_dir {ℓ} : {A : Type ℓ} → Text → Drive × Option A → Drives → Drives × Bool
in_dir dir (drv, o) drives = (set_drive dir drv drives, is_ok o)

module _ ⦃js : ConfigJson⦄ ⦃b3 : Blake3⦄ ⦃hx : Hex⦄ ⦃b : Bip39⦄ ⦃c : Chrono⦄ ⦃d : Decimal⦄ where
  -- `shellexpand::tilde`, the name of the directory that a path leads to, the new identity and the time, the files that can be read, and what a start meets
  -- at an address.
  pub record Context : Type 0 where
    pub tilde : Text → Text
    pub directory : Text → Text
    pub identity : Identity
    pub now : Text
    pub read_file : Text → Option Bytes
    pub world : Text → World

  -- The directories after the command, and whether it reported no error. After a start, they are what
  -- they are while the server runs, which ends by an error only.
  unfoldable pub handle_command : Context → CliCommand → Drives → Drives × Bool
  handle_command x (CliCommand.init data_dir) drives =
      let path = x.tilde data_dir in
      let dir = x.directory path in in_dir dir (cmd_init x.identity x.now path (drives dir)) drives
  handle_command x (CliCommand.start data_dir api_addr) drives =
      let dir = x.directory (x.tilde data_dir) in
      in_dir dir (cmd_start (x.world api_addr) (drives dir)) drives
  handle_command x CliCommand.stop drives = (drives, true)
  handle_command x (CliCommand.status data_dir) drives =
      (drives, is_ok (cmd_status (drives (x.directory (x.tilde data_dir)))))
  handle_command x (CliCommand.upload file replication) drives =
      (drives, is_ok (cmd_upload (x.read_file file) replication))
  handle_command x (CliCommand.download chunk_id output) drives =
      (drives, is_ok (cmd_download chunk_id))
  handle_command x CliCommand.balance drives = (drives, true)
  handle_command x (CliCommand.keys action) drives = (drives, is_ok (cmd_keys action))
  handle_command x (CliCommand.recover mnemonic passphrase) drives =
      (drives, is_ok (cmd_recover mnemonic passphrase))
  handle_command x (CliCommand.daemon data_dir) drives =
      let dir = x.directory (x.tilde data_dir) in
      in_dir dir (cmd_daemon (x.world daemon_addr) (drives dir)) drives
