-- ===== src/Core/Recovery.antt =====
-- core/src/bip39_recovery.rs: recovery phrases, over an interface for the crate bip39. An error is `none`.
pub mod Trim
pub mod Laws
mod Tests
use dest.Base.{
  ℕ, zero, suc, Bool, true, false, ◌&&◌, ◌||◌, Option, none, some, [], ◌∷◌, length, take, drop, leb,
  ◌==◌, if◌then◌else◌, ◌≡◌,
}
use dest.Core.Extern.{Bytes, Text}
use dest.Core.Types.{MnemonicWordCount, derived_key_len}

-- How many bytes the white space at the front takes, zero if there is none: Unicode's, in UTF-8.
abbrev pub is_ascii_space : ℕ → Bool
is_ascii_space a = (leb 9 a && leb a 13) || (a == 32)

abbrev pub is_space3 : ℕ → ℕ → ℕ → Bool
is_space3 a b c =
    (a == 0xE1 && b == 0x9A && c == 0x80)
    || (a == 0xE2
        && b == 0x80
        && ((leb 0x80 c && leb c 0x8A) || c == 0xA8 || c == 0xA9 || c == 0xAF))
    || (a == 0xE2 && b == 0x81 && c == 0x9F)
    || (a == 0xE3 && b == 0x80 && c == 0x80)

abbrev pub space3 : ℕ → ℕ → Text → ℕ
space3 a b [] = 0
space3 a b (c ∷ cs) = if is_space3 a b c then 3 else 0

abbrev pub space2 : ℕ → Text → ℕ
space2 a [] = 0
space2 a (b ∷ cs) = if a == 0xC2 && (b == 0x85 || b == 0xA0) then 2 else space3 a b cs

abbrev pub space_len : Text → ℕ
space_len [] = 0
space_len (a ∷ cs) = if is_ascii_space a then 1 else space2 a cs

-- `trim_start`, for a text no longer than the fuel.
abbrev pub skip : ℕ → Text → Text
skip zero t = t
skip (suc fuel) t =
    let rest = skip fuel (drop (space_len t) t) in if space_len t == 0 then t else rest

abbrev pub trim_start : Text → Text
trim_start t = skip (length t) t

abbrev pub is_blank : Text → Bool
is_blank t = length (trim_start t) == 0

-- The front up to where only white space follows.
abbrev pub trim_end : Text → Text
trim_end [] = []
trim_end (c ∷ cs) = let rest = trim_end cs in if is_blank (c ∷ cs) then [] else c ∷ rest

pub trim : Text → Text
trim t = trim_end (trim_start t)

-- A phrase of `Mnemonic`: small letters and single spaces, which do not stand at its ends.
abbrev pub is_letter : ℕ → Bool
is_letter c = leb b'a' c && leb c b'z'

abbrev pub ends_well : Text → Bool
ends_well [] = false
ends_well (c ∷ []) = is_letter c
ends_well (c ∷ d ∷ cs) = (is_letter c || c == 32) && ends_well (d ∷ cs)

abbrev pub starts_well : Text → Bool
starts_well [] = false
starts_well (c ∷ cs) = is_letter c

-- `bip39::Mnemonic` in English. A mnemonic prints as its phrase, which parses as itself; a seed has 64
-- bytes.
pub record Bip39 : Type 1 where
  pub Mnemonic : Type 0
  pub generate_in_with : ℕ → Option Mnemonic
  pub parse_normalized : Text → Option Mnemonic
  pub to_seed : Mnemonic → Text → Bytes
  pub to_string : Mnemonic → Text
  pub length-to_seed : (m : Mnemonic) (passphrase : Text) → length (to_seed m passphrase) ≡ 64
  pub parse-to_string : (m : Mnemonic) → parse_normalized (to_string m) ≡ some m
  pub starts_well-to_string : (m : Mnemonic) → starts_well (to_string m) ≡ true
  pub ends_well-to_string : (m : Mnemonic) → ends_well (to_string m) ≡ true

module _ ⦃b : Bip39⦄ where
  abbrev pub generate_mnemonic : MnemonicWordCount → Option b.Mnemonic
  generate_mnemonic MnemonicWordCount.twelve = b.generate_in_with 128
  generate_mnemonic MnemonicWordCount.twenty_four = b.generate_in_with 256

  -- The bytes of the key: the first half of the seed.
  pub recover_key_from_mnemonic : b.Mnemonic → Text → Bytes
  recover_key_from_mnemonic m passphrase = take derived_key_len (b.to_seed m passphrase)

  pub parse_mnemonic : Text → Option b.Mnemonic
  parse_mnemonic phrase = b.parse_normalized (trim phrase)

  abbrev pub is_ok : Option b.Mnemonic → Bool
  is_ok none = false
  is_ok (some m) = true

  pub validate_mnemonic : Text → Bool
  validate_mnemonic phrase = is_ok (b.parse_normalized (trim phrase))
