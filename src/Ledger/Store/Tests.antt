-- ===== src/Ledger/Store/Tests.antt =====
-- The theorems on the ledger's store at small inputs.
use mathlib.Core.Option
use dest.Base.{
  ℕ, ◌+◌, ◌*◌, ◌%◌, ◌^◌, ◌<◌, ◌≡◌, refl, false, none, some, List, [], ◌∷◌, length, replicate, take,
  drop, map, if◌then◌else◌, arith,
}
use dest.Base.Int.{pos}
use dest.Base.Text.{Text, Bytes, bytes_eq}
use dest.Core.Extern.{Blake3, Hex}
use dest.Core.Merkle.{MerkleTree, from_hashes, root_hex}
use dest.Ledger.Json.{Json}
use dest.Ledger.Conflict.{detect_conflicts}
use dest.Ledger.Conflict as Conflict
use dest.Ledger.GossipSync.{
  SyncMessage, LedgerSyncManager, register_peer_state, create_entry_request, process_entries,
}
use dest.Ledger.GossipSync.Requests.{asked}
use dest.Ledger.GossipSync.Answers.{newer}
use dest.Ledger.GossipSync.Exchange.{process_entries-store_entries_from}
use dest.Ledger.Store.{
  Row, Database, RowJson, init_schema, get_latest_seq, get_entries_from, store_entries_from,
  insert_entry, mark_synced, record_entry, leaves, compute_merkle_root, store_merkle_root,
  store_merkle_checkpoint, get_latest_merkle_root,
}
use dest.Ledger.Store.Root.{compute_merkle_root-from_hashes}
use dest.Ledger.Store.Checkpoints.{is_at, get_latest_merkle_root-store_merkle_checkpoint}
use dest.Ledger.Store.Entries.{IsNumbered, Call, step, run, run-get_latest_seq}

-- A checksum of the bytes, filled up to 32 of them.
sum_bytes : Bytes → ℕ
sum_bytes [] = 7
sum_bytes (b ∷ bs) = (b + 3 * sum_bytes bs) % 251

instance abbrev blake3 : Blake3
blake3 = record { hash = λ b. sum_bytes b ∷ replicate 31 0; length-hash = λ b. refl }

instance abbrev hex : Hex
hex = record { encode = λ b. b; decode = λ t. some t; decode-encode = λ b. refl }

-- A value is a text that prints as itself.
instance abbrev json : Json
json = record {
  Value = Text;
  index = λ v k. [];
  as_i64 = λ v. none;
  as_str = λ v. some v;
  to_string = λ v. v;
}

instance abbrev row_json : RowJson
row_json = record { json = λ r. r.id }

abbrev row : ℕ → Row
row n = record {
  seq = n;
  id = n ∷ [];
  entry_type = [];
  account_id = [];
  amount = [];
  balance_after = [];
  timestamp = [];
  merkle_leaf = [];
  synced = false;
}

abbrev ledger : Database
ledger = record { entries = row 1 ∷ row 2 ∷ row 3 ∷ []; last_seq = 3; roots = [] }

ledger-read : get_entries_from (pos 0) 100_000 ledger ≡ row 1 ∷ row 2 ∷ row 3 ∷ []
unfolding get_entries_from
ledger-read = refl

compute_merkle_root-from_hashes_example :
    (t : MerkleTree) × (from_hashes (leaves (row 1 ∷ row 2 ∷ row 3 ∷ [])) ≡ some t)
    × (compute_merkle_root ledger ≡ some (root_hex t))
compute_merkle_root-from_hashes_example = compute_merkle_root-from_hashes ledger ledger-read

-- The second entry repeats an id and is refused.
abbrev calls : List Call
calls =
    Call.record_call (1 ∷ []) [] [] [] [] []
    ∷ Call.record_call (1 ∷ []) [] [] [] [] []
    ∷ Call.record_call (2 ∷ []) [] [] [] [] []
    ∷ Call.sync_call (pos 1)
    ∷ Call.checkpoint_call []
    ∷ []

run-get_latest_seq_example :
    let db = run calls init_schema in
    IsNumbered 1 db.entries × (get_latest_seq db ≡ length db.entries)
run-get_latest_seq_example = run-get_latest_seq calls

get_latest_merkle_root-store_merkle_checkpoint_example :
    let db = run calls init_schema in
    let seq = get_latest_seq db in
    Option.map get_latest_merkle_root (store_merkle_checkpoint (2 ∷ []) db) ≡ (
      if is_at seq (get_latest_merkle_root db)
      then none
      else some (some (record { seq = seq; root_hash = 2 ∷ []; entry_count = seq })))
get_latest_merkle_root-store_merkle_checkpoint_example =
    get_latest_merkle_root-store_merkle_checkpoint calls (2 ∷ [])

abbrev peer : Text
peer = b'p' ∷ []

abbrev request : Text
request = b'r' ∷ []

-- As many entries as the peer.
abbrev manager : LedgerSyncManager
manager = record {
  local_peer_id = b'm' ∷ [];
  local_merkle_root = 1 ∷ [];
  local_latest_seq = pos 2;
  peers = [];
  conflict_resolver = Conflict.new;
  pending_requests = [];
}

calls-latest : get_latest_seq (run calls init_schema) + 1 < 2 ^ 63
unfolding run step record_entry insert_entry store_merkle_checkpoint store_merkle_root mark_synced
    get_latest_seq init_schema bytes_eq
calls-latest = omega arith

process_entries-store_entries_from_example :
    let db = run calls init_schema in
    let n = asked 2 (get_latest_seq db) in
    let known = register_peer_state 0 peer [] (pos (get_latest_seq db)) manager in
    let sent = create_entry_request request peer known in
    (sent.1 ≡ SyncMessage.entry_request (pos n) request)
    × ((process_entries request
          (map row_json.json (store_entries_from (pos n) db))
          ((9 ∷ []) ∷ [])
          sent.0).1
        ≡ map newer (
            detect_conflicts ((9 ∷ []) ∷ []) (map row_json.json (take 10_000 (drop n db.entries)))))
process_entries-store_entries_from_example =
    process_entries-store_entries_from 0 request peer [] calls ((9 ∷ []) ∷ []) manager refl
      (omega arith) calls-latest
