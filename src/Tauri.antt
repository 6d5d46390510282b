-- ===== src/Tauri.antt =====
-- tauri/src-tauri/src/lib.rs: the state of the desktop shell and the commands on it. Floating-point numbers
-- are an interface. No call panics while it holds a lock, so that no lock is ever poisoned; starting the
-- shell is left out.
use dest.Base.{ℕ, List, [], ◌∷◌, ◌≡◌, refl}
use dest.Base.Text.{Text}

-- `f64` with `0.0` and `+`.
pub record F64 : Type 1 where
  pub Float : Type 0
  pub zero_float : Float
  pub add : Float → Float → Float

-- "running", "0.1.0" and "RUB"
abbrev pub running : Text
running = b'r' ∷ b'u' ∷ b'n' ∷ b'n' ∷ b'i' ∷ b'n' ∷ b'g' ∷ []

abbrev pub version_text : Text
version_text = b'0' ∷ b'.' ∷ b'1' ∷ b'.' ∷ b'0' ∷ []

abbrev pub rub : Text
rub = b'R' ∷ b'U' ∷ b'B' ∷ []

module _ ⦃f : F64⦄ where
  pub record AppState : Type 0 where
    pub balance : f.Float
    pub connected_peers : ℕ

  pub record StatusResponse : Type 0 where
    pub status : Text
    pub balance : f.Float
    pub connected_peers : ℕ
    pub version : Text

  pub record BalanceResponse : Type 0 where
    pub balance : f.Float
    pub currency : Text

  -- The state that `run` starts with.
  abbrev initial_state : AppState
  initial_state = record { balance = f.zero_float; connected_peers = 0 }

  get_status : AppState → StatusResponse
  get_status s = record {
    status = running;
    balance = s.balance;
    connected_peers = s.connected_peers;
    version = version_text;
  }

  get_balance : AppState → BalanceResponse
  get_balance s = record { balance = s.balance; currency = rub }

  update_balance : f.Float → AppState → AppState
  update_balance amount s = record s { balance = f.add s.balance amount }

  update_all : List f.Float → AppState → AppState
  update_all [] s = s
  update_all (amount ∷ amounts) s = update_all amounts (update_balance amount s)

  abbrev sum_from : f.Float → List f.Float → f.Float
  sum_from total [] = total
  sum_from total (amount ∷ amounts) = sum_from (f.add total amount) amounts

  update_all-sum :
      (amounts : List f.Float) (total : f.Float)
      → update_all amounts (record { balance = total; connected_peers = 0 })
        ≡ record { balance = sum_from total amounts; connected_peers = 0 }
  unfolding update_all update_balance
  update_all-sum [] total = refl
  update_all-sum (amount ∷ amounts) total = update_all-sum amounts (f.add total amount)

  -- After any updates of a new state, both answers show the sum of the amounts, from the left, and no peer
  -- is connected.
  get_status-update_all :
      (amounts : List f.Float)
      → let s = update_all amounts initial_state in
        (get_status s ≡ record {
          status = running;
          balance = sum_from f.zero_float amounts;
          connected_peers = 0;
          version = version_text;
        })
        × (get_balance s ≡ record { balance = sum_from f.zero_float amounts; currency = rub })
  unfolding get_status get_balance
  get_status-update_all amounts = rw (update_all-sum amounts f.zero_float) (refl, refl)
