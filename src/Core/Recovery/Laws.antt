-- ===== src/Core/Recovery/Laws.antt =====
-- A phrase is enough to recover the key.
use dest.Base.{true, some, ◌++◌, length, length-take, ◌≡◌, ap, ◌∙◌, arith}
use dest.Core.Extern.{Text}
use dest.Core.Types.{derived_key_len}
use dest.Core.Recovery.{
  trim, Bip39, parse_mnemonic, validate_mnemonic, recover_key_from_mnemonic, is_ok,
}
use dest.Core.Recovery.Trim.{IsSpaces, trim-phrase}

module _ ⦃b : Bip39⦄ where
  -- A printed phrase, with ASCII white space around it, parses as the mnemonic that it was printed from,
  -- it validates, and the key that this gives has 32 bytes.
  pub parse_mnemonic-to_string :
      (m : b.Mnemonic) (before after passphrase : Text)
      → IsSpaces before
      → IsSpaces after
      → (parse_mnemonic (before ++ (b.to_string m ++ after)) ≡ some m)
        × (validate_mnemonic (before ++ (b.to_string m ++ after)) ≡ true)
        × (length (recover_key_from_mnemonic m passphrase) ≡ derived_key_len)
  unfolding parse_mnemonic validate_mnemonic recover_key_from_mnemonic
  parse_mnemonic-to_string m before after passphrase p q =
      let parsed : b.parse_normalized (trim (before ++ (b.to_string m ++ after))) ≡ some m =
        ap b.parse_normalized (
          trim-phrase before (b.to_string m) after p q (b.starts_well-to_string m)
            (b.ends_well-to_string m))
        ∙ b.parse-to_string m in
      (
        parsed,
        ap is_ok parsed,
        omega (
          arith,
          length-take derived_key_len (b.to_seed m passphrase),
          b.length-to_seed m passphrase,
        ),
      )
