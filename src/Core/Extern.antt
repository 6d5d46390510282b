-- ===== src/Core/Extern.antt =====
-- The crates that core/src calls, as interfaces: `blake3` and `hex`. Texts are lists of bytes.
pub use dest.Base.Text.{Bytes, Text}
use mathlib.Core.Option
use dest.Base.{◌≡◌, sym, ap, ◌∙◌, Option, some, length}

-- `blake3::hash`; a `Hasher` that is fed a and then b finishes as the hash of a ++ b.
pub record Blake3 : Type 0 where
  pub hash : Bytes → Bytes
  pub length-hash : (b : Bytes) → length (hash b) ≡ 32

-- `hex::encode` and `hex::decode`.
pub record Hex : Type 0 where
  pub encode : Bytes → Text
  pub decode : Text → Option Bytes
  pub decode-encode : (b : Bytes) → decode (encode b) ≡ some b

pub encode-injective : ⦃hx : Hex⦄ → (b c : Bytes) → hx.encode b ≡ hx.encode c → b ≡ c
encode-injective ⦃hx⦄ b c h =
    Option.some-injective b c (sym (hx.decode-encode b) ∙ (ap hx.decode h ∙ hx.decode-encode c))
