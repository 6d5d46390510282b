-- ===== src/Ledger/GossipSync/Exchange.antt =====
-- ledger/src/gossip_sync.rs with store.rs: one round of synchronization, from a peer's advert to the
-- processing of what the peer's ledger answers.
use dest.Base.{ℕ, ◌+◌, ◌^◌, ◌<◌, ◌≡◌, refl, ap, ◌∙◌, some, List, take, drop, map, arith}
use dest.Base.Int.{pos}
use dest.Base.Text.{Text}
use dest.Base.HashMap.{get, get-insert_same}
use dest.Core.Extern.{Blake3, Hex}
use dest.Ledger.Json.{Json}
use dest.Ledger.Conflict.{detect_conflicts}
use dest.Ledger.Store.{RowJson, init_schema, get_latest_seq, store_entries_from}
use dest.Ledger.Store.Entries.{Call, run}
use dest.Ledger.Store.Ranges.{get_entries_from-run}
use dest.Ledger.GossipSync.{
  SyncMessage, LedgerSyncManager, register_peer_state, create_entry_request, process_entries,
}
use dest.Ledger.GossipSync.Requests.{asked, create_entry_request_from}
use dest.Ledger.GossipSync.Answers.{newer, process_entries-newer}

get-register_peer_state :
    (now b : ℕ) (peer root : Text) (m : LedgerSyncManager)
    → get peer (register_peer_state now peer root (pos b) m).peers
      ≡ some (record { peer_id = peer; merkle_root = root; latest_seq = pos b; last_sync = now })
unfolding register_peer_state
get-register_peer_state now b peer root m = get-insert_same peer _ m.peers

register_peer_state-local :
    (now b : ℕ) (peer root : Text) (m : LedgerSyncManager)
    → (register_peer_state now peer root (pos b) m).local_latest_seq ≡ m.local_latest_seq
unfolding register_peer_state
register_peer_state-local now b peer root m = refl

get-create_entry_request :
    ⦃js : Json⦄
    → (request_id peer : Text) (m : LedgerSyncManager)
    → get request_id (create_entry_request request_id peer m).0.pending_requests ≡ some peer
unfolding create_entry_request
get-create_entry_request request_id peer m = get-insert_same request_id peer m.pending_requests

module _ ⦃b3 : Blake3⦄ ⦃hx : Hex⦄ ⦃js : Json⦄ ⦃rj : RowJson⦄ where
  -- A peer, whose ledger any calls have made, advertises it, is sent a request, and answers with what
  -- its store reads from the number in the request on. Then the conflicts that are resolved, each by the
  -- later timestamp, are those with the peer's entries after the first n, at most 10,000 of them: n is
  -- zero where the peer has more entries than the local ledger, and otherwise one more than it has fewer.
  -- The latest numbers are less than 2^63 - 1.
  pub process_entries-store_entries_from :
      (now : ℕ) (request_id peer root : Text) (ks : List Call) (ls : List js.Value)
      → (m : LedgerSyncManager) {a : ℕ}
      → let db = run ks init_schema in
        let b = get_latest_seq db in
        let n = asked a b in
        let sent =
          create_entry_request request_id peer (register_peer_state now peer root (pos b) m) in
        m.local_latest_seq ≡ pos a
        → a + 1 < 2 ^ 63
        → b + 1 < 2 ^ 63
        → (sent.1 ≡ SyncMessage.entry_request (pos n) request_id)
          × ((process_entries request_id (map rj.json (store_entries_from (pos n) db)) ls sent.0).1
              ≡ map newer (detect_conflicts ls (map rj.json (take 10_000 (drop n db.entries)))))
  process_entries-store_entries_from now request_id peer root ks ls m {a} la small_a small_b =
      let db = run ks init_schema in
      let b = get_latest_seq db in
      let known = register_peer_state now peer root (pos b) m in
      let entries = map rj.json (store_entries_from (pos (asked a b)) db) in
      (
        create_entry_request_from request_id peer known (get-register_peer_state now b peer root m)
            (register_peer_state-local now b peer root m ∙ la) refl small_a (omega arith),
        (process_entries-newer request_id peer entries ls
              (create_entry_request request_id peer known).0
              (get-create_entry_request request_id peer known)).0
            ∙ ap (λ l. map newer (detect_conflicts ls (map rj.json l)))
                (get_entries_from-run (asked a b) 10_000 ks),
      )
