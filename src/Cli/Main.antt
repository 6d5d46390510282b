-- ===== src/Cli/Main.antt =====
-- cli/src/main.rs. The parsing of the arguments, which ends the program where they are wrong, is a parameter.
use dest.Base.{ℕ, ◌+◌, ◌≡◌, refl, Bool, Option, [], ◌∷◌, map, leb, if◌then◌else◌, ◌&&◌}
use dest.Base.Text.{Text, bytes_eq}
use dest.Core.Extern.{Blake3, Hex}
use dest.Core.Recovery.{Bip39}
use dest.Billing.Extern.{Chrono, Decimal}
use dest.Cli.Config.{ConfigJson}
use dest.Cli.Commands.Handle.{CliCommand, Context, Drives, handle_command}

pub record Cli : Type 0 where
  pub command : CliCommand
  pub log_level : Text
  pub config : Option Text

pub data Level : Type 0 where
  trace debug info warn error : Level

abbrev trace_name : Text
trace_name = b't' ∷ b'r' ∷ b'a' ∷ b'c' ∷ b'e' ∷ []

abbrev debug_name : Text
debug_name = b'd' ∷ b'e' ∷ b'b' ∷ b'u' ∷ b'g' ∷ []

abbrev info_name : Text
info_name = b'i' ∷ b'n' ∷ b'f' ∷ b'o' ∷ []

abbrev warn_name : Text
warn_name = b'w' ∷ b'a' ∷ b'r' ∷ b'n' ∷ []

abbrev error_name : Text
error_name = b'e' ∷ b'r' ∷ b'r' ∷ b'o' ∷ b'r' ∷ []

abbrev to_lower : ℕ → ℕ
to_lower c = if leb b'A' c && leb c b'Z' then c + 32 else c

-- `to_lowercase`, of the ASCII letters: no other letter has a lower case in the names below.
abbrev to_lowercase : Text → Text
to_lowercase t = map to_lower t

abbrev level_named : Text → Level
level_named t =
    if bytes_eq t trace_name
    then Level.trace
    else if bytes_eq t debug_name
    then Level.debug
    else if bytes_eq t info_name
    then Level.info
    else if bytes_eq t warn_name
    then Level.warn
    else if bytes_eq t error_name
    then Level.error
    else Level.info

-- The `match` on `log_level`.
pub level : Text → Level
level t = level_named (to_lowercase t)

level_warn : level (b'W' ∷ b'a' ∷ b'r' ∷ b'N' ∷ []) ≡ Level.warn
unfolding level bytes_eq
level_warn = refl

module _ ⦃js : ConfigJson⦄ ⦃b3 : Blake3⦄ ⦃hx : Hex⦄ ⦃b : Bip39⦄ ⦃c : Chrono⦄ ⦃d : Decimal⦄ where
  -- The level of the log, the directories after the command, and whether it reported no error. What
  -- `--config` names is handed to `handle_command`, which does not read it.
  pub main : Context → Cli → Drives → Level × Drives × Bool
  main x cli drives =
      let (drives', done) = handle_command x cli.command drives in
      (level cli.log_level, drives', done)
