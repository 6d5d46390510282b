-- ===== src/Ledger/Json.antt =====
-- The crate `serde_json`, as an interface: what ledger/src asks of a `Value`.
use dest.Base.{Option}
use dest.Base.Int.{ℤ}
use dest.Base.Text.{Text}

pub record Json : Type 1 where
  pub Value : Type 0
  -- `value[key]`, which is `Null` where there is no such field.
  pub index : Value → Text → Value
  pub as_i64 : Value → Option ℤ
  pub as_str : Value → Option Text
  pub to_string : Value → Text
