-- ===== src/Ledger/Store/Entries.antt =====
-- ledger/src/store.rs and schema.rs: the numbers of the entries, and which are synced.
use dest.Base.{
  ℕ, suc, ◌+◌, ◌-◌, ◌<◌, ◌≡◌, refl, sym, ◌∙◌, false, Option, none, some, List, [], ◌∷◌, ◌++◌,
  length, keep, map, ◌==◌, ==-refl, not, if◌then◌else◌, arith, length-append, length-map,
}
use dest.Base.Int.{ℤ, pos, ltb_ℤ}
use dest.Base.Text.{Text}
use dest.Core.Extern.{Blake3, Hex}
use dest.Ledger.Store.{
  Row, Database, init_schema, insert_entry, max_seq, get_latest_seq, sync_row, mark_synced,
  get_unsynced_entries, store_merkle_root, record_entry, store_merkle_checkpoint,
}

-- The numbers go up by one, from the first.
abbrev pub IsNumbered : ℕ → List Row → Type 0
IsNumbered k [] = Unit
IsNumbered k (r ∷ rows) = (r.seq ≡ k) × IsNumbered (suc k) rows

IsNumbered-push :
    (k : ℕ) (rows : List Row) (r : Row)
    → IsNumbered k rows
    → r.seq ≡ k + length rows
    → IsNumbered k (rows ++ r ∷ [])
IsNumbered-push k [] r h e = (omega (arith, e), tt)
IsNumbered-push k (q ∷ rows) r h e = (h.0, IsNumbered-push (suc k) rows r h.1 (omega (arith, e)))

IsNumbered-sync :
    (k : ℕ) (up_to : ℤ) (rows : List Row)
    → IsNumbered k rows
    → IsNumbered k (map (sync_row up_to) rows)
IsNumbered-sync k up_to [] h = tt
IsNumbered-sync k up_to (r ∷ rows) h = (ground (arith, h.0), IsNumbered-sync (suc k) up_to rows h.1)

max_seq-IsNumbered :
    (k : ℕ) (rows : List Row)
    → 0 < k
    → IsNumbered k rows
    → max_seq rows ≡ (if length rows == 0 then 0 else k + length rows - 1)
max_seq-IsNumbered k [] p h = refl
max_seq-IsNumbered k (r ∷ rows) p h =
    ground (arith, h.0, max_seq-IsNumbered (suc k) rows (omega arith) h.1)

-- Every entry is numbered, from one, and AUTOINCREMENT has given out the last number.
abbrev pub IsSound : Database → Type 0
IsSound db = IsNumbered 1 db.entries × (db.last_seq ≡ length db.entries)

pub init_schema-IsSound : IsSound init_schema
unfolding init_schema
init_schema-IsSound = (tt, refl)

-- The latest number of a sound ledger is the number of its entries.
pub get_latest_seq-IsSound : (db : Database) → IsSound db → get_latest_seq db ≡ length db.entries
unfolding get_latest_seq
get_latest_seq-IsSound db sound =
    ground (arith, max_seq-IsNumbered 1 db.entries (omega arith) sound.0)

-- An entry that is marked is no longer unsynced: those left are the unsynced ones with later numbers.
pub get_unsynced_entries-mark_synced :
    (up_to : ℤ) (db : Database)
    → get_unsynced_entries (mark_synced up_to db)
      ≡ keep (λ (r : Row). ltb_ℤ up_to (pos r.seq)) (get_unsynced_entries db)
unfolding get_unsynced_entries mark_synced
get_unsynced_entries-mark_synced up_to db = unsynced db.entries
  where
    unsynced :
        (rows : List Row)
        → keep (λ (r : Row). not r.synced) (map (sync_row up_to) rows)
          ≡ keep (λ (r : Row). ltb_ℤ up_to (pos r.seq)) (keep (λ (r : Row). not r.synced) rows)
    unsynced [] = refl
    unsynced (r ∷ rows) = ground (arith, unsynced rows)

-- A checkpoint can be stored only once for a latest entry: with no new entry the second is an error.
pub store_merkle_checkpoint_twice :
    (a b : Text) (db : Database) {db' : Database}
    → store_merkle_checkpoint a db ≡ some db'
    → store_merkle_checkpoint b db' ≡ none
unfolding store_merkle_checkpoint store_merkle_root get_latest_seq
store_merkle_checkpoint_twice a b db {db'} e = ground (arith, ==-refl (max_seq db.entries))

module _ ⦃b3 : Blake3⦄ ⦃hx : Hex⦄ where
  -- A call of a method that changes the ledger; a call that returns an error changes nothing.
  pub data Call : Type 0 where
    record_call : Text → Text → Text → Text → Text → Text → Call
    sync_call : ℤ → Call
    checkpoint_call : Text → Call

  abbrev pub or_same : Database → Option Database → Database
  or_same db none = db
  or_same db (some db') = db'

  unfoldable pub step : Call → Database → Database
  step (Call.record_call id timestamp kind account amount balance) db =
      (record_entry id timestamp kind account amount balance db).0
  step (Call.sync_call up_to) db = mark_synced up_to db
  step (Call.checkpoint_call root) db = or_same db (store_merkle_checkpoint root db)

  unfoldable pub run : List Call → Database → Database
  run [] db = db
  run (k ∷ ks) db = run ks (step k db)

  insert_entry-IsSound :
      (id kind account amount balance timestamp leaf : Text) (db : Database)
      → IsSound db
      → IsSound (insert_entry id kind account amount balance timestamp leaf db).0
  unfolding insert_entry
  insert_entry-IsSound id kind account amount balance timestamp leaf db h =
      let r : Row = record {
        seq = db.last_seq + 1;
        id = id;
        entry_type = kind;
        account_id = account;
        amount = amount;
        balance_after = balance;
        timestamp = timestamp;
        merkle_leaf = leaf;
        synced = false;
      } in
      let pushed = IsNumbered-push 1 db.entries r h.0 (omega (arith, h.1)) in
      let more : db.last_seq + 1 ≡ length (db.entries ++ r ∷ []) =
        omega (arith, h.1, length-append db.entries (r ∷ [])) in
      ground (arith, pushed, more)

  checkpoint-IsSound :
      (root : Text) (db : Database)
      → IsSound db
      → IsSound (or_same db (store_merkle_checkpoint root db))
  unfolding store_merkle_checkpoint store_merkle_root
  checkpoint-IsSound root db h = ground arith

  pub step-IsSound : (k : Call) (db : Database) → IsSound db → IsSound (step k db)
  unfolding step record_entry mark_synced
  step-IsSound (Call.record_call id timestamp kind account amount balance) db h =
      insert_entry-IsSound id kind account amount balance timestamp _ db h
  step-IsSound (Call.sync_call up_to) db h =
      (IsNumbered-sync 1 up_to db.entries h.0, h.1 ∙ sym (length-map db.entries (sync_row up_to)))
  step-IsSound (Call.checkpoint_call root) db h = checkpoint-IsSound root db h

  run-IsSound : (ks : List Call) (db : Database) → IsSound db → IsSound (run ks db)
  unfolding run
  run-IsSound [] db h = h
  run-IsSound (k ∷ ks) db h = run-IsSound ks (step k db) (step-IsSound k db h)

  -- After any sequence of records, syncs and checkpoints on a new ledger, failed ones included, the
  -- entries are numbered one, two and so on, and the latest number is how many there are.
  pub run-get_latest_seq :
      (ks : List Call)
      → let db = run ks init_schema in
        IsNumbered 1 db.entries × (get_latest_seq db ≡ length db.entries)
  run-get_latest_seq ks =
      let sound = run-IsSound ks init_schema init_schema-IsSound in
      (sound.0, get_latest_seq-IsSound (run ks init_schema) sound)
