-- ===== src/Ledger/Conflict.antt =====
-- ledger/src/conflict.rs: conflicts between the entries of two ledgers, and who wins.
pub mod Detection
pub mod Resolution
use dest.Base.{
  ℕ, ◌+◌, ◌%◌, ◌^◌, Bool, true, false, Option, none, some, List, [], ◌∷◌, ltb, not, if◌then◌else◌,
}
use dest.Base.Int.{ℤ, pos}
use dest.Base.Text.{Text, bytes_eq, text_ltb}
use dest.Base.HashMap.{HashMap, get, insert}
use dest.Ledger.Json.{Json}

-- "seq", "timestamp" and "id"
abbrev pub seq_key : Text
seq_key = b's' ∷ b'e' ∷ b'q' ∷ []

abbrev pub timestamp_key : Text
timestamp_key = b't' ∷ b'i' ∷ b'm' ∷ b'e' ∷ b's' ∷ b't' ∷ b'a' ∷ b'm' ∷ b'p' ∷ []

abbrev pub id_key : Text
id_key = b'i' ∷ b'd' ∷ []

abbrev or_zero : Option ℤ → ℤ
or_zero none = pos 0
or_zero (some n) = n

abbrev or_empty : Option Text → Text
or_empty none = []
or_empty (some t) = t

module _ ⦃js : Json⦄ where
  pub record LedgerConflict : Type 0 where
    pub local_entry : js.Value
    pub remote_entry : js.Value
    pub local_seq : ℤ
    pub remote_seq : ℤ
    pub local_timestamp : Text
    pub remote_timestamp : Text

  abbrev pub seq_of : js.Value → ℤ
  seq_of e = or_zero (js.as_i64 (js.index e seq_key))

  abbrev pub timestamp_of : js.Value → Text
  timestamp_of e = or_empty (js.as_str (js.index e timestamp_key))

  abbrev pub id_of : js.Value → Option Text
  id_of e = js.as_str (js.index e id_key)

  -- `LedgerConflict::new`
  pub new_conflict : js.Value → js.Value → LedgerConflict
  new_conflict local_entry remote_entry = record {
    local_entry = local_entry;
    remote_entry = remote_entry;
    local_seq = seq_of local_entry;
    remote_seq = seq_of remote_entry;
    local_timestamp = timestamp_of local_entry;
    remote_timestamp = timestamp_of remote_entry;
  }

  unfoldable pub resolve_by_timestamp : LedgerConflict → Bool
  resolve_by_timestamp c = text_ltb c.local_timestamp c.remote_timestamp

  unfoldable pub resolve_by_majority : LedgerConflict → ℕ → ℕ → Bool
  resolve_by_majority c votes_for_local votes_for_remote =
      if ltb votes_for_local votes_for_remote
      then true
      else if ltb votes_for_remote votes_for_local
      then false
      else resolve_by_timestamp c

  -- The `filter_map` and `collect` that make the map: of two entries with one id the later stays.
  abbrev pub collect : Option Text → js.Value → HashMap js.Value → HashMap js.Value
  collect none e m = m
  collect (some id) e m = insert id e m

  pub local_map : List js.Value → HashMap js.Value → HashMap js.Value
  local_map [] m = m
  local_map (e ∷ es) m = local_map es (collect (id_of e) e m)

  -- The body of the loop of `detect_conflicts`, for the remote entry and the local one found for it.
  abbrev pub push_conflict : js.Value → Option js.Value → List LedgerConflict → List LedgerConflict
  push_conflict remote none conflicts = conflicts
  push_conflict remote (some l) conflicts =
      if not (bytes_eq (js.to_string l) (js.to_string remote))
      then new_conflict l remote ∷ conflicts
      else conflicts

  abbrev pub lookup : Option Text → HashMap js.Value → Option js.Value
  lookup none m = none
  lookup (some id) m = get id m

  pub conflicts_with : HashMap js.Value → List js.Value → List LedgerConflict
  conflicts_with m [] = []
  conflicts_with m (r ∷ rs) = push_conflict r (lookup (id_of r) m) (conflicts_with m rs)

  pub detect_conflicts : List js.Value → List js.Value → List LedgerConflict
  detect_conflicts local_entries remote_entries =
      conflicts_with (local_map local_entries []) remote_entries

  pub data ResolveResult : Type 0 where
    use_local use_remote : js.Value → ResolveResult

-- 64-bit counters.
pub record ConflictResolver : Type 0 where
  pub resolved_count : ℕ
  pub local_wins : ℕ
  pub remote_wins : ℕ

-- `ConflictResolver::new`
unfoldable pub new : ConflictResolver
new = record { resolved_count = 0; local_wins = 0; remote_wins = 0 }

abbrev pub next : ℕ → ℕ
next n = (n + 1) % 2 ^ 64

module _ ⦃js : Json⦄ where
  unfoldable pub resolve :
      LedgerConflict → ℕ → ℕ → ConflictResolver → ConflictResolver × ResolveResult
  resolve c votes_for_local votes_for_remote r =
      if resolve_by_majority c votes_for_local votes_for_remote
      then (
        record r { resolved_count = next r.resolved_count; remote_wins = next r.remote_wins },
        ResolveResult.use_remote c.remote_entry,
      )
      else (
        record r { resolved_count = next r.resolved_count; local_wins = next r.local_wins },
        ResolveResult.use_local c.local_entry,
      )

abbrev pub stats : ConflictResolver → ℕ × ℕ × ℕ
stats r = (r.resolved_count, r.local_wins, r.remote_wins)
