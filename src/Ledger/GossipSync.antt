-- ===== src/Ledger/GossipSync.antt =====
-- ledger/src/gossip_sync.rs: `LedgerSyncManager`. The Unix time and the new request's id are arguments
-- of the methods that ask for them.
pub mod Requests
pub mod Answers
pub mod Exchange
use dest.Base.{ℕ, Bool, true, false, Option, none, some, List, [], ◌∷◌, not, if◌then◌else◌}
use dest.Base.Int.{ℤ, pos, ◌+ℤ◌, ◌-ℤ◌, ltb_ℤ, max_zero, wrap_i64}
use dest.Base.Text.{Text, bytes_eq}
use dest.Base.HashMap.{HashMap, get, insert, remove, values}
use dest.Ledger.Json.{Json}
use dest.Ledger.Conflict.{
  LedgerConflict, ResolveResult, ConflictResolver, detect_conflicts, resolve, stats,
}
use dest.Ledger.Conflict as Conflict

module _ ⦃js : Json⦄ where
  pub data SyncMessage : Type 0 where
    state_advert : Text → Text → ℤ → SyncMessage
    entry_request : ℤ → Text → SyncMessage
    entry_response : Text → List js.Value → SyncMessage
    conflict_notify : List js.Value → SyncMessage

pub record PeerSyncState : Type 0 where
  pub peer_id : Text
  pub merkle_root : Text
  pub latest_seq : ℤ
  pub last_sync : ℕ

pub record LedgerSyncManager : Type 0 where
  pub local_peer_id : Text
  pub local_merkle_root : Text
  pub local_latest_seq : ℤ
  pub peers : HashMap PeerSyncState
  pub conflict_resolver : ConflictResolver
  pub pending_requests : HashMap Text

-- `LedgerSyncManager::new`
unfoldable pub new : Text → LedgerSyncManager
new local_peer_id = record {
  local_peer_id = local_peer_id;
  local_merkle_root = [];
  local_latest_seq = pos 0;
  peers = [];
  conflict_resolver = Conflict.new;
  pending_requests = [];
}

abbrev pub update_local_state : Text → ℤ → LedgerSyncManager → LedgerSyncManager
update_local_state merkle_root latest_seq m = record m {
  local_merkle_root = merkle_root;
  local_latest_seq = latest_seq;
}

pub register_peer_state : ℕ → Text → Text → ℤ → LedgerSyncManager → LedgerSyncManager
register_peer_state now peer_id merkle_root latest_seq m = record m {
  peers =
      insert peer_id
        (record {
          peer_id = peer_id;
          merkle_root = merkle_root;
          latest_seq = latest_seq;
          last_sync = now;
        })
        m.peers;
}

-- The tests of `needs_sync` on the state that is found for the peer.
abbrev pub differs : Option PeerSyncState → LedgerSyncManager → Bool
differs none m = false
differs (some p) m =
    if not (bytes_eq p.merkle_root m.local_merkle_root)
    then true
    else if ltb_ℤ m.local_latest_seq p.latest_seq
    then true
    else false

pub needs_sync : Text → LedgerSyncManager → Bool
needs_sync peer_id m = differs (get peer_id m.peers) m

-- `from_seq`, in 64-bit arithmetic.
abbrev pub from_seq : Option PeerSyncState → LedgerSyncManager → ℤ
from_seq none m = pos 0
from_seq (some p) m = max_zero (wrap_i64 (wrap_i64 (m.local_latest_seq -ℤ p.latest_seq) +ℤ pos 1))

module _ ⦃js : Json⦄ where
  pub create_entry_request : Text → Text → LedgerSyncManager → LedgerSyncManager × SyncMessage
  create_entry_request request_id peer_id m = (
    record m { pending_requests = insert request_id peer_id m.pending_requests },
    SyncMessage.entry_request (from_seq (get peer_id m.peers) m) request_id,
  )

  abbrev pub create_state_advert : LedgerSyncManager → SyncMessage
  create_state_advert m =
      SyncMessage.state_advert m.local_peer_id m.local_merkle_root m.local_latest_seq

  -- The loop of `process_entries`: no votes, so that the timestamps decide.
  pub resolve_each : List LedgerConflict → ConflictResolver → ConflictResolver × List ResolveResult
  resolve_each [] r = (r, [])
  resolve_each (c ∷ cs) r =
      let (r', result) = resolve c 0 0 r in
      let (r'', results) = resolve_each cs r' in (r'', result ∷ results)

  -- What `process_entries` does for the peer that the request was sent to.
  abbrev pub answer :
      Option Text
      → Text
      → List js.Value
      → List js.Value
      → LedgerSyncManager
      → LedgerSyncManager × List ResolveResult
  answer none request_id entries local_entries m = (m, [])
  answer (some peer_id) request_id entries local_entries m =
      let (r, results) =
        resolve_each (detect_conflicts local_entries entries) m.conflict_resolver in
      (
        record m { conflict_resolver = r; pending_requests = remove request_id m.pending_requests },
        results,
      )

  pub process_entries :
      Text
      → List js.Value
      → List js.Value
      → LedgerSyncManager
      → LedgerSyncManager × List ResolveResult
  process_entries request_id entries local_entries m =
      answer (get request_id m.pending_requests) request_id entries local_entries m

abbrev pub peer_states : LedgerSyncManager → List PeerSyncState
peer_states m = values m.peers

abbrev pub conflict_stats : LedgerSyncManager → ℕ × ℕ × ℕ
conflict_stats m = stats m.conflict_resolver
