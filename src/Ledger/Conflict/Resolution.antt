-- ===== src/Ledger/Conflict/Resolution.antt =====
-- ledger/src/conflict.rs, `resolve`: what two peers make of one conflict, and the counters.
use dest.Base.{
  ℕ, ◌+◌, ◌%◌, ◌^◌, ◌≡◌, ◌≢◌, ◌↔◌, ◌⊎◌, refl, true, false, List, [], ◌∷◌, ltb, if◌then◌else◌, arith,
}
use dest.Base.Text.{text_ltb, text_ltb_asymm, text_ltb_total, text_ltb_irrefl}
use dest.Ledger.Json.{Json}
use dest.Ledger.Conflict.{
  LedgerConflict, ResolveResult, ConflictResolver, new, timestamp_of, new_conflict,
  resolve_by_timestamp, resolve_by_majority, resolve,
}

module _ ⦃js : Json⦄ where
  abbrev pub winner : ResolveResult → js.Value
  winner (ResolveResult.use_local e) = e
  winner (ResolveResult.use_remote e) = e

  -- Whether the remote entry wins, as its voters and timestamps are more, fewer or the same.
  remote_wins_iff :
      (a b : js.Value) (va vb : ℕ)
      → resolve_by_majority (new_conflict a b) va vb ≡ (
          if ltb va vb
          then true
          else if ltb vb va
          then false
          else text_ltb (timestamp_of a) (timestamp_of b))
  unfolding resolve_by_majority resolve_by_timestamp new_conflict
  remote_wins_iff a b va vb = refl

  winner-resolve :
      (a b : js.Value) (va vb : ℕ) (r : ConflictResolver)
      → winner (resolve (new_conflict a b) va vb r).1
        ≡ (if resolve_by_majority (new_conflict a b) va vb then b else a)
  unfolding resolve new_conflict
  winner-resolve a b va vb r = ground arith

  -- Two peers that hold different entries, and count the same votes for them, choose the same entry
  -- exactly when the votes or the timestamps differ.
  pub winner_agrees_iff :
      (a b : js.Value) (va vb : ℕ) (r q : ConflictResolver)
      → a ≢ b
      → (winner (resolve (new_conflict a b) va vb r).1
          ≡ winner (resolve (new_conflict b a) vb va q).1)
        ↔ ((va ≢ vb) ⊎ (timestamp_of a ≢ timestamp_of b))
  winner_agrees_iff a b va vb r q ne =
      let s = timestamp_of a in
      let t = timestamp_of b in
      rw
        (
          winner-resolve a b va vb r,
          winner-resolve b a vb va q,
          remote_wins_iff a b va vb,
          remote_wins_iff b a vb va,
        )
        (grind
          (arith, text_ltb_asymm s t, text_ltb_asymm t s, text_ltb_total s t, text_ltb_irrefl s))

-- The votes of one conflict.
module _ ⦃js : Json⦄ where
  pub resolve_all : List (LedgerConflict × ℕ × ℕ) → ConflictResolver → ConflictResolver
  resolve_all [] r = r
  resolve_all ((c, va, vb) ∷ cs) r = resolve_all cs (resolve c va vb r).0

  resolve_all-stats_from :
      (cs : List (LedgerConflict × ℕ × ℕ)) (r : ConflictResolver)
      → r.resolved_count ≡ (r.local_wins + r.remote_wins) % 2 ^ 64
      → let s = resolve_all cs r in s.resolved_count ≡ (s.local_wins + s.remote_wins) % 2 ^ 64
  unfolding resolve_all resolve
  resolve_all-stats_from [] r h = h
  resolve_all-stats_from ((c, va, vb) ∷ cs) r h =
      resolve_all-stats_from cs (resolve c va vb r).0 (ground arith)

  -- After any number of resolutions the conflicts resolved are those won by either side, modulo 2^64.
  resolve_all-stats :
      (cs : List (LedgerConflict × ℕ × ℕ))
      → let s = resolve_all cs new in s.resolved_count ≡ (s.local_wins + s.remote_wins) % 2 ^ 64
  resolve_all-stats cs = resolve_all-stats_from cs new (unfold new in refl)
