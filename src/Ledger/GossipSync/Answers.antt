-- ===== src/Ledger/GossipSync/Answers.antt =====
-- ledger/src/gossip_sync.rs, `process_entries`: what an answer does.
use mathlib.Core.Path.{ap₂}
use dest.Base.{
  ◌≡◌, refl, none, some, Option-cases, inl, inr, List, [], ◌∷◌, map, if◌then◌else◌, arith,
}
use dest.Base.Text.{Text, bytes_eq_refl, text_ltb}
use dest.Base.HashMap.{get, get-remove}
use dest.Ledger.Json.{Json}
use dest.Ledger.Conflict.{
  LedgerConflict, ResolveResult, ConflictResolver, resolve_by_timestamp, resolve_by_majority,
  resolve, detect_conflicts,
}
use dest.Ledger.GossipSync.{LedgerSyncManager, resolve_each, process_entries}

module _ ⦃js : Json⦄ where
  -- The remote entry, where its timestamp is later.
  abbrev pub newer : LedgerConflict → ResolveResult
  newer c =
      if text_ltb c.local_timestamp c.remote_timestamp
      then ResolveResult.use_remote c.remote_entry
      else ResolveResult.use_local c.local_entry

  resolve-newer : (c : LedgerConflict) (r : ConflictResolver) → (resolve c 0 0 r).1 ≡ newer c
  unfolding resolve resolve_by_majority resolve_by_timestamp
  resolve-newer c r = ground arith

  resolve_each-newer :
      (cs : List LedgerConflict) (r : ConflictResolver) → (resolve_each cs r).1 ≡ map newer cs
  unfolding resolve_each
  resolve_each-newer [] r = refl
  resolve_each-newer (c ∷ cs) r =
      ap₂ (λ x xs. x ∷ xs) (resolve-newer c r) (resolve_each-newer cs (resolve c 0 0 r).0)

  -- The answer to a pending request resolves every conflict that is detected, in order, by the later
  -- timestamp, the local entry winning a tie. The request is then no longer pending.
  pub process_entries-newer :
      (id peer : Text) (entries ls : List js.Value) (m : LedgerSyncManager)
      → get id m.pending_requests ≡ some peer
      → let (m', results) = process_entries id entries ls m in
        (results ≡ map newer (detect_conflicts ls entries)) × (get id m'.pending_requests ≡ none)
  unfolding process_entries
  process_entries-newer id peer entries ls m found = rw found (
    resolve_each-newer (detect_conflicts ls entries) m.conflict_resolver,
    rw (get-remove id id m.pending_requests, bytes_eq_refl id) refl,
  )

  process_entries-done :
      (id : Text) (entries ls : List js.Value) (m : LedgerSyncManager)
      → get id (process_entries id entries ls m).0.pending_requests ≡ none
  unfolding process_entries
  process_entries-done id entries ls m = elim (Option-cases (get id m.pending_requests)) [
    | inl absent ↦ rw absent absent
    | inr (peer, found) ↦ rw found (rw (get-remove id id m.pending_requests, bytes_eq_refl id) refl)
  ]

  -- A second answer to one request, whatever it holds, changes nothing and resolves nothing.
  process_entries_twice :
      (id : Text) (entries ls more later : List js.Value) (m : LedgerSyncManager)
      → let m' = (process_entries id entries ls m).0 in process_entries id more later m' ≡ (m', [])
  process_entries_twice id entries ls more later m =
      unfold process_entries in (rw (process_entries-done id entries ls m) refl)
