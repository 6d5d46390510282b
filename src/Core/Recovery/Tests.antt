-- ===== src/Core/Recovery/Tests.antt =====
-- The theorem on recovery phrases at a small input: two phrases, "ab c" and "d".
use dest.Base.{
  ℕ, Bool, true, false, Option, none, some, [], ◌∷◌, ◌++◌, length, replicate, length-replicate, ◌≡◌,
  refl, if◌then◌else◌,
}
use dest.Base.Text.{bytes_eq}
use dest.Core.Extern.{Text}
use dest.Core.Types.{derived_key_len}
use dest.Core.Recovery.{
  Bip39, starts_well, ends_well, parse_mnemonic, validate_mnemonic, recover_key_from_mnemonic,
}
use dest.Core.Recovery.Laws.{parse_mnemonic-to_string}

abbrev phrase : Bool → Text
phrase true = b'a' ∷ b'b' ∷ b' ' ∷ b'c' ∷ []
phrase false = b'd' ∷ []

abbrev parse : Text → Option Bool
parse t =
    if bytes_eq t (phrase true)
    then some true
    else if bytes_eq t (phrase false)
    then some false
    else none

parse-phrase : (m : Bool) → parse (phrase m) ≡ some m
unfolding bytes_eq
parse-phrase true = refl
parse-phrase false = refl

starts_well-phrase : (m : Bool) → starts_well (phrase m) ≡ true
starts_well-phrase true = refl
starts_well-phrase false = refl

ends_well-phrase : (m : Bool) → ends_well (phrase m) ≡ true
ends_well-phrase true = refl
ends_well-phrase false = refl

instance abbrev phrases : Bip39
phrases = record {
  Mnemonic = Bool;
  generate_in_with = λ bits. some true;
  parse_normalized = parse;
  to_seed = λ m passphrase. replicate 64 0;
  to_string = phrase;
  length-to_seed = λ m passphrase. length-replicate {A = ℕ} 64 0;
  parse-to_string = parse-phrase;
  starts_well-to_string = starts_well-phrase;
  ends_well-to_string = ends_well-phrase;
}

parse_mnemonic-to_string_example :
    let typed : Text = (b' ' ∷ []) ++ (phrase true ++ (10 ∷ [])) in
    (parse_mnemonic typed ≡ some true)
    × (validate_mnemonic typed ≡ true)
    × (length (recover_key_from_mnemonic true []) ≡ derived_key_len)
parse_mnemonic-to_string_example =
    parse_mnemonic-to_string true (b' ' ∷ []) (10 ∷ []) [] (refl, tt) (refl, tt)
