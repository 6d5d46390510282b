-- ===== src/Ledger/Store.antt =====
-- ledger/src/schema.rs and ledger/src/store.rs: the ledger's tables, as lists in the order of their
-- primary key, and `LedgerStore` over them. An SQL error is `none`. The column `created_at` and the table
-- `ledger_meta`, which no query of these files reads, are left out.
pub mod Root
pub mod Entries
pub mod Ranges
pub mod Checkpoints
mod Tests
use dest.Base.{
  ℕ, zero, suc, ◌+◌, ◌-◌, ◌^◌, Bool, true, false, Option, none, some, List, [], ◌∷◌, ◌++◌, length,
  take, keep, map, ltb, leb, ◌==◌, not, if◌then◌else◌,
}
use dest.Base.Int.{ℤ, pos, ltb_ℤ, leb_ℤ}
use dest.Base.Text.{Text, Bytes, bytes_eq}
use dest.Core.Extern.{Blake3, Hex}
use dest.Ledger.Json.{Json}

-- A row of `ledger_entries`.
pub record Row : Type 0 where
  pub seq : ℕ
  pub id : Text
  pub entry_type : Text
  pub account_id : Text
  pub amount : Text
  pub balance_after : Text
  pub timestamp : Text
  pub merkle_leaf : Text
  pub synced : Bool

-- A row of `merkle_roots`.
pub record MerkleRoot : Type 0 where
  pub seq : ℕ
  pub root_hash : Text
  pub entry_count : ℕ

-- `last_seq` is what AUTOINCREMENT has given out.
pub record Database : Type 0 where
  pub entries : List Row
  pub last_seq : ℕ
  pub roots : List MerkleRoot

-- `init_schema` on a new database.
pub init_schema : Database
init_schema = record { entries = []; last_seq = 0; roots = [] }

-- `LedgerStore::open`: the database that the file at the path holds, `none` in a new file; `CREATE TABLE
-- IF NOT EXISTS` leaves the tables that there are. The outer `none` is SQLite's error.
unfoldable pub open_store : Option (Option Database) → Option Database
open_store none = none
open_store (some none) = some init_schema
open_store (some (some db)) = some db

-- `LedgerStore::open_in_memory`
abbrev pub open_in_memory : Database
open_in_memory = init_schema

abbrev pub has_entry : Text → List Row → Bool
has_entry id [] = false
has_entry id (r ∷ rows) = if bytes_eq id r.id then true else has_entry id rows

-- `id` is unique, and a sequence number has 63 bits.
pub insert_entry : Text → Text → Text → Text → Text → Text → Text → Database → Database × Option ℕ
insert_entry id entry_type account_id amount balance_after timestamp merkle_leaf db =
    if has_entry id db.entries
    then (db, none)
    else if leb (2 ^ 63 - 1) db.last_seq
    then (db, none)
    else (
      record db {
        entries =
            db.entries
            ++ record {
              seq = db.last_seq + 1;
              id = id;
              entry_type = entry_type;
              account_id = account_id;
              amount = amount;
              balance_after = balance_after;
              timestamp = timestamp;
              merkle_leaf = merkle_leaf;
              synced = false;
            }
              ∷ [];
        last_seq = db.last_seq + 1;
      },
      some (db.last_seq + 1),
    )

-- `COALESCE(MAX(seq), 0)`
abbrev pub max_seq : List Row → ℕ
max_seq [] = 0
max_seq (r ∷ rows) = let m = max_seq rows in if ltb m r.seq then r.seq else m

pub get_latest_seq : Database → ℕ
get_latest_seq db = max_seq db.entries

pub get_entries_from : ℤ → ℕ → Database → List Row
get_entries_from from_seq limit db =
    take limit (keep (λ (r : Row). ltb_ℤ from_seq (pos r.seq)) db.entries)

abbrev pub sync_row : ℤ → Row → Row
sync_row up_to r = if leb_ℤ (pos r.seq) up_to then record r { synced = true } else r

pub mark_synced : ℤ → Database → Database
mark_synced up_to db = record db { entries = map (sync_row up_to) db.entries }

pub get_unsynced_entries : Database → List Row
get_unsynced_entries db = keep (λ (r : Row). not r.synced) db.entries

abbrev pub has_root : ℕ → List MerkleRoot → Bool
has_root seq [] = false
has_root seq (r ∷ roots) = if seq == r.seq then true else has_root seq roots

-- `seq` is the primary key.
pub store_merkle_root : ℕ → Text → ℕ → Database → Option Database
store_merkle_root seq root_hash entry_count db =
    if has_root seq db.roots
    then none
    else some (record db {
      roots = record { seq = seq; root_hash = root_hash; entry_count = entry_count } ∷ db.roots;
    })

-- `ORDER BY seq DESC LIMIT 1`
abbrev pub later_root : MerkleRoot → Option MerkleRoot → MerkleRoot
later_root r none = r
later_root r (some s) = if ltb r.seq s.seq then s else r

abbrev pub last_root : List MerkleRoot → Option MerkleRoot
last_root [] = none
last_root (r ∷ roots) = some (later_root r (last_root roots))

abbrev pub get_latest_merkle_root : Database → Option MerkleRoot
get_latest_merkle_root db = last_root db.roots

-- `LedgerStore::get_entries_from`
abbrev pub store_entries_from : ℤ → Database → List Row
store_entries_from from_seq db = get_entries_from from_seq 10_000 db

-- `LedgerStore::get_unsynced`, `mark_synced` and `latest_seq` pass on.
abbrev pub get_unsynced : Database → List Row
get_unsynced db = get_unsynced_entries db

abbrev pub store_mark_synced : ℤ → Database → Database
store_mark_synced up_to_seq db = mark_synced up_to_seq db

abbrev pub latest_seq : Database → ℕ
latest_seq db = get_latest_seq db

-- `json!({…})` of the columns that a query reads.
pub record RowJson ⦃js : Json⦄ : Type 0 where
  pub json : Row → js.Value

-- ":" and "empty"
abbrev colon : Text
colon = b':' ∷ []

abbrev pub empty : Bytes
empty = b'e' ∷ b'm' ∷ b'p' ∷ b't' ∷ b'y' ∷ []

abbrev pub Hash : Type 0
Hash = Bytes

module _ ⦃b3 : Blake3⦄ ⦃hx : Hex⦄ where
  -- `LedgerStore::record_entry`, at a time and with a new identifier.
  pub record_entry : Text → Text → Text → Text → Text → Text → Database → Database × Option ℕ
  record_entry id timestamp entry_type account_id amount balance_after db =
      insert_entry id entry_type account_id amount balance_after timestamp
        (hx.encode
          (b3.hash (id ++ (colon ++ (entry_type ++ (colon ++ (amount ++ (colon ++ timestamp))))))))
        db

module _ ⦃b3 : Blake3⦄ where
  -- The `for` loop of `compute_merkle_root`.
  pub next_hashes : List Hash → List Hash
  next_hashes [] = []
  next_hashes (x ∷ []) = b3.hash (x ++ x) ∷ []
  next_hashes (x ∷ y ∷ r) = b3.hash (x ++ y) ∷ next_hashes r

  -- Its `while` loop.
  pub reduce : ℕ → List Hash → List Hash
  reduce zero hashes = hashes
  reduce (suc fuel) hashes = elim (ltb 1 (length hashes)) [
    | true ↦ reduce fuel (next_hashes hashes)
    | false ↦ hashes
  ]

-- `hashes[0]`
abbrev pub first {ℓ} : {A : Type ℓ} → List A → Option A
first [] = none
first (x ∷ xs) = some x

module _ ⦃b3 : Blake3⦄ ⦃hx : Hex⦄ ⦃js : Json⦄ ⦃rj : RowJson⦄ where
  abbrev pub leaves : List Row → List Hash
  leaves rows = map (λ (r : Row). b3.hash (js.to_string (rj.json r))) rows

  abbrev pub hex_of : Option Hash → Option Text
  hex_of none = none
  hex_of (some h) = some (hx.encode h)

  abbrev pub root_of : List Row → Option Text
  root_of [] = some (hx.encode (b3.hash empty))
  root_of (r ∷ rows) = hex_of (first (reduce (length (leaves (r ∷ rows))) (leaves (r ∷ rows))))

  -- `none` is the panic of `hashes[0]`. Each round shortens the level, so the number of entries is fuel
  -- enough.
  pub compute_merkle_root : Database → Option Text
  compute_merkle_root db = root_of (get_entries_from (pos 0) 100_000 db)

pub store_merkle_checkpoint : Text → Database → Option Database
store_merkle_checkpoint root_hash db =
    store_merkle_root (get_latest_seq db) root_hash (get_latest_seq db) db
