-- ===== src/Cli/Commands/Handle/Frame.antt =====
-- Which directories a command changes.
use dest.Base.{Bool, true, false, Option, none, some, List, [], ◌∷◌, All, ◌≡◌, refl, ap, ◌∙◌, sym}
use dest.Base.Text.{Text, bytes_eq, bytes_eq_refl}
use dest.Core.Extern.{Blake3, Hex}
use dest.Core.Recovery.{Bip39}
use dest.Billing.Extern.{Chrono, Decimal}
use dest.Storage.Files.{Drive}
use dest.Cli.Config.{ConfigJson}
use dest.Cli.Commands.{cmd_init, cmd_start, cmd_status}
use dest.Cli.Commands.Laws.{load-cmd_init}
use dest.Cli.Commands.Handle.{
  CliCommand, Context, Drives, set_drive, is_ok, in_dir, daemon_addr, handle_command,
}

some-of : {A : Type 0} (o : Option A) → is_ok o ≡ true → (x : A) × (o ≡ some x)
some-of none h = cc
some-of (some x) h = (x, refl)

in_dir-other :
    {A : Type 0} (dir e : Text) (r : Drive × Option A) (drives : Drives)
    → bytes_eq e dir ≡ false
    → (in_dir dir r drives).0 e ≡ drives e
unfolding set_drive
in_dir-other dir e (drv, o) drives h = rw (h) refl

in_dir-same :
    {A : Type 0} (dir : Text) (r : Drive × Option A) (drives : Drives)
    → (in_dir dir r drives).0 dir ≡ r.0
unfolding set_drive
in_dir-same dir (drv, o) drives = rw (bytes_eq_refl dir) refl

in_dir-ok :
    {A : Type 0} (dir : Text) (r : Drive × Option A) (drives : Drives)
    → (in_dir dir r drives).1 ≡ is_ok r.1
in_dir-ok dir (drv, o) drives = refl

module _ ⦃js : ConfigJson⦄ ⦃b3 : Blake3⦄ ⦃hx : Hex⦄ ⦃b : Bip39⦄ ⦃c : Chrono⦄ ⦃d : Decimal⦄ where
  -- Whether the command is for a directory and writes there.
  writes : Context → CliCommand → Text → Bool
  writes x (CliCommand.init data_dir) e = bytes_eq e (x.directory (x.tilde data_dir))
  writes x (CliCommand.start data_dir api_addr) e = bytes_eq e (x.directory (x.tilde data_dir))
  writes x (CliCommand.daemon data_dir) e = bytes_eq e (x.directory (x.tilde data_dir))
  writes x _ e = false

  handle_command-other :
      (x : Context) (command : CliCommand) (drives : Drives) (e : Text)
      → writes x command e ≡ false
      → (handle_command x command drives).0 e ≡ drives e
  unfolding writes handle_command
  handle_command-other x (CliCommand.init data_dir) drives e h =
      let dir = x.directory (x.tilde data_dir) in
      in_dir-other dir e (cmd_init x.identity x.now (x.tilde data_dir) (drives dir)) drives h
  handle_command-other x (CliCommand.start data_dir api_addr) drives e h =
      let dir = x.directory (x.tilde data_dir) in
      in_dir-other dir e (cmd_start (x.world api_addr) (drives dir)) drives h
  handle_command-other x CliCommand.stop drives e h = refl
  handle_command-other x (CliCommand.status data_dir) drives e h = refl
  handle_command-other x (CliCommand.upload file replication) drives e h = refl
  handle_command-other x (CliCommand.download chunk_id output) drives e h = refl
  handle_command-other x CliCommand.balance drives e h = refl
  handle_command-other x (CliCommand.keys action) drives e h = refl
  handle_command-other x (CliCommand.recover mnemonic passphrase) drives e h = refl
  handle_command-other x (CliCommand.daemon data_dir) drives e h =
      let dir = x.directory (x.tilde data_dir) in
      in_dir-other dir e (cmd_start (x.world daemon_addr) (drives dir)) drives h

  -- Commands one after the other, each in its own context.
  session : List (Context × CliCommand) → Drives → Drives
  session [] drives = drives
  session ((x, command) ∷ later) drives = session later (handle_command x command drives).0

  session-other :
      (later : List (Context × CliCommand)) (drives : Drives) (e : Text)
      → All (λ p. writes p.0 p.1 e ≡ false) later
      → session later drives e ≡ drives e
  unfolding session
  session-other [] drives e h = refl
  session-other ((x, command) ∷ later) drives e h =
      session-other later (handle_command x command drives).0 e h.1
      ∙ handle_command-other x command drives e h.0

  -- Once a directory was initialized without an error, the status command finds a node in it, whatever
  -- commands come between that do not write to that directory.
  status-init :
      (x : Context) (data_dir : Text) (later : List (Context × CliCommand)) (drives : Drives)
      → (handle_command x (CliCommand.init data_dir) drives).1 ≡ true
      → All (λ p. writes p.0 p.1 (x.directory (x.tilde data_dir)) ≡ false) later
      → (handle_command x
          (CliCommand.status data_dir)
          (session later (handle_command x (CliCommand.init data_dir) drives).0)).1
        ≡ true
  unfolding handle_command
  status-init x data_dir later drives ok apart =
      let path = x.tilde data_dir in
      let dir = x.directory path in
      let r = cmd_init x.identity x.now path (drives dir) in
      let (config, made) = some-of r.1 (sym (in_dir-ok dir r drives) ∙ ok) in
      let (_, found, _) = load-cmd_init x.identity x.now path (drives dir) config made in
      ap (λ drv. is_ok (cmd_status drv))
        (session-other later (in_dir dir r drives).0 dir apart ∙ in_dir-same dir r drives)
      ∙ ap is_ok found
