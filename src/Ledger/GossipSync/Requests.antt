-- ===== src/Ledger/GossipSync/Requests.antt =====
-- ledger/src/gossip_sync.rs: when a peer is asked for its entries, and from which one on.
use dest.Base.{
  ℕ, ◌+◌, ◌-◌, ◌^◌, ◌<◌, ◌≡◌, refl, ap, Bool, true, false, Option, some, ltb, not, if◌then◌else◌,
  ◌||◌, arith,
}
use dest.Base.Int.{ℤ, pos, ◌+ℤ◌, ◌-ℤ◌, ltb_ℤ, max_zero, wrap_i64}
use dest.Base.Text.{Text, bytes_eq}
use dest.Base.HashMap.{get, get-insert}
use dest.Ledger.Json.{Json}
use dest.Ledger.GossipSync.{
  SyncMessage, PeerSyncState, LedgerSyncManager, differs, register_peer_state, needs_sync,
  create_entry_request,
}

differs-if :
    (b : Bool) (s : PeerSyncState) (o : Option PeerSyncState) (m : LedgerSyncManager)
    → differs (if b then some s else o) m ≡ (if b then differs (some s) m else differs o m)
differs-if true s o m = refl
differs-if false s o m = refl

-- After a peer's advert a synchronization with it is needed exactly if its root is not the local one
-- or it has later entries; for every other peer the advert changes nothing.
needs_sync-register_peer_state :
    (now : ℕ) (peer q root : Text) (seq : ℤ) (m : LedgerSyncManager)
    → needs_sync q (register_peer_state now peer root seq m) ≡ (
        if bytes_eq q peer
        then not (bytes_eq root m.local_merkle_root) || ltb_ℤ m.local_latest_seq seq
        else needs_sync q m)
unfolding needs_sync register_peer_state
needs_sync-register_peer_state now peer q root seq m =
    let s : PeerSyncState = record {
      peer_id = peer;
      merkle_root = root;
      latest_seq = seq;
      last_sync = now;
    } in
    rw (get-insert q peer s m.peers) (ground arith)

-- From which entry on a request asks, for the latest local number and that of the peer.
abbrev pub asked : ℕ → ℕ → ℕ
asked a b = if ltb a b then 0 else a - b + 1

from_seq-pos :
    (a b : ℕ)
    → a + 1 < 2 ^ 63
    → b < 2 ^ 63
    → max_zero (wrap_i64 (wrap_i64 (pos a -ℤ pos b) +ℤ pos 1)) ≡ pos (asked a b)
unfolding ◌+ℤ◌ ◌-ℤ◌
from_seq-pos a b small_a small_b = ground arith

module _ ⦃js : Json⦄ where
  -- For latest numbers from zero up to 2^63 - 2, the request to a known peer asks for its whole ledger where
  -- the peer is ahead. Where it is not, it asks from the difference of the two numbers and one on.
  pub create_entry_request_from :
      (request_id peer : Text) (m : LedgerSyncManager) {s : PeerSyncState} {a b : ℕ}
      → get peer m.peers ≡ some s
      → m.local_latest_seq ≡ pos a
      → s.latest_seq ≡ pos b
      → a + 1 < 2 ^ 63
      → b < 2 ^ 63
      → (create_entry_request request_id peer m).1
        ≡ SyncMessage.entry_request (pos (asked a b)) request_id
  unfolding create_entry_request
  create_entry_request_from request_id peer m {s} {a} {b} found la sb small_a small_b =
      rw (found, la, sb)
        (ap (λ n. SyncMessage.entry_request n request_id) (from_seq-pos a b small_a small_b))
