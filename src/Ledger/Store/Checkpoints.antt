-- ===== src/Ledger/Store/Checkpoints.antt =====
-- ledger/src/store.rs and schema.rs: when a Merkle checkpoint is stored, and what is then the latest one.
use mathlib.Core.Option
use dest.Base.{
  ℕ, ◌+◌, ◌≤◌, ◌≡◌, refl, ap, ◌∙◌, inl, inr, Bool, true, false, Bool-cases, Option, none, some,
  List, [], ◌∷◌, ◌++◌, length, ◌==◌, if◌then◌else◌, All, arith, length-append, length-map,
}
use dest.Base.Text.{Text}
use dest.Core.Extern.{Blake3, Hex}
use dest.Ledger.Store.{
  Row, Database, MerkleRoot, init_schema, sync_row, insert_entry, record_entry, mark_synced,
  get_latest_seq, has_root, last_root, later_root, store_merkle_root, store_merkle_checkpoint,
  get_latest_merkle_root,
}
use dest.Ledger.Store.Entries.{
  Call, step, run, or_same, IsSound, step-IsSound, init_schema-IsSound, get_latest_seq-IsSound,
}

-- No root is of a later entry than the n-th.
abbrev AreBelow : ℕ → List MerkleRoot → Type 0
AreBelow n roots = All (λ (r : MerkleRoot). r.seq ≤ n) roots

AreBelow-mono : (n m : ℕ) (roots : List MerkleRoot) → n ≤ m → AreBelow n roots → AreBelow m roots
AreBelow-mono n m [] h b = tt
AreBelow-mono n m (r ∷ roots) h b = (omega (arith, b.0, h), AreBelow-mono n m roots h b.1)

-- Whether the latest checkpoint is that of the n-th entry.
abbrev pub is_at : ℕ → Option MerkleRoot → Bool
is_at n none = false
is_at n (some r) = n == r.seq

-- So is the latest of them.
abbrev IsBelow : ℕ → Option MerkleRoot → Type 0
IsBelow n none = Unit
IsBelow n (some r) = r.seq ≤ n

later_root-le :
    (n : ℕ) (r : MerkleRoot) (o : Option MerkleRoot)
    → r.seq ≤ n
    → IsBelow n o
    → (later_root r o).seq ≤ n
later_root-le n r none h b = h
later_root-le n r (some s) h b = ground arith

last_root-IsBelow :
    (n : ℕ) (roots : List MerkleRoot) → AreBelow n roots → IsBelow n (last_root roots)
last_root-IsBelow n [] b = tt
last_root-IsBelow n (r ∷ roots) b =
    later_root-le n r (last_root roots) b.0 (last_root-IsBelow n roots b.1)

later_root-is_at :
    (n : ℕ) (r : MerkleRoot) (o : Option MerkleRoot)
    → r.seq ≤ n
    → IsBelow n o
    → (if n == r.seq then true else is_at n o) ≡ is_at n (some (later_root r o))
later_root-is_at n r none h b = ground arith
later_root-is_at n r (some s) h b = ground arith

-- A root of the n-th entry, where there is none of a later one, is the latest.
has_root-is_at :
    (n : ℕ) (roots : List MerkleRoot)
    → AreBelow n roots
    → has_root n roots ≡ is_at n (last_root roots)
has_root-is_at n [] b = refl
has_root-is_at n (r ∷ roots) b =
    ap (λ h. if n == r.seq then true else h) (has_root-is_at n roots b.1)
    ∙ later_root-is_at n r (last_root roots) b.0 (last_root-IsBelow n roots b.1)

later_root-new : (r : MerkleRoot) (o : Option MerkleRoot) → IsBelow r.seq o → later_root r o ≡ r
later_root-new r none b = refl
later_root-new r (some s) b = ground arith

module _ ⦃b3 : Blake3⦄ ⦃hx : Hex⦄ where
  abbrev IsBound : Database → Type 0
  IsBound db = AreBelow (length db.entries) db.roots

  insert_entry-IsBound :
      (id kind account amount balance timestamp leaf : Text) (db : Database)
      → IsBound db
      → IsBound (insert_entry id kind account amount balance timestamp leaf db).0
  unfolding insert_entry
  insert_entry-IsBound id kind account amount balance timestamp leaf db h =
      let r : Row = record {
        seq = db.last_seq + 1;
        id = id;
        entry_type = kind;
        account_id = account;
        amount = amount;
        balance_after = balance;
        timestamp = timestamp;
        merkle_leaf = leaf;
        synced = false;
      } in
      let more : AreBelow (length (db.entries ++ r ∷ [])) db.roots =
        AreBelow-mono (length db.entries) (length (db.entries ++ r ∷ [])) db.roots
          (omega (arith, length-append db.entries (r ∷ []))) h in
      ground (arith, more)

  checkpoint-IsBound :
      (root : Text) (db : Database)
      → get_latest_seq db ≡ length db.entries
      → IsBound db
      → IsBound (or_same db (store_merkle_checkpoint root db))
  unfolding store_merkle_checkpoint store_merkle_root
  checkpoint-IsBound root db e h =
      let latest : get_latest_seq db ≤ length db.entries = omega (arith, e) in ground arith

  step-IsBound :
      (k : Call) (db : Database)
      → get_latest_seq db ≡ length db.entries
      → IsBound db
      → IsBound (step k db)
  unfolding step record_entry mark_synced
  step-IsBound (Call.record_call id timestamp kind account amount balance) db e h =
      insert_entry-IsBound id kind account amount balance timestamp _ db h
  step-IsBound (Call.sync_call up_to) db e h = rw (length-map db.entries (sync_row up_to)) h
  step-IsBound (Call.checkpoint_call root) db e h = checkpoint-IsBound root db e h

  run-IsBound :
      (ks : List Call) (db : Database)
      → IsSound db
      → IsBound db
      → IsSound (run ks db) × IsBound (run ks db)
  unfolding run
  run-IsBound [] db sound h = (sound, h)
  run-IsBound (k ∷ ks) db sound h =
      run-IsBound ks (step k db) (step-IsSound k db sound)
        (step-IsBound k db (get_latest_seq-IsSound db sound) h)

  -- In a ledger that any calls have made, a checkpoint is stored exactly if the latest one is not of the
  -- latest entry, and then it is the latest, with that entry's number as its own and as its count.
  pub get_latest_merkle_root-store_merkle_checkpoint :
      (ks : List Call) (root : Text)
      → let db = run ks init_schema in
        let seq = get_latest_seq db in
        Option.map get_latest_merkle_root (store_merkle_checkpoint root db) ≡ (
          if is_at seq (get_latest_merkle_root db)
          then none
          else some (some (record { seq = seq; root_hash = root; entry_count = seq })))
  unfolding store_merkle_checkpoint store_merkle_root
  get_latest_merkle_root-store_merkle_checkpoint ks root =
      let db = run ks init_schema in
      let (sound, bound) =
        run-IsBound ks init_schema init_schema-IsSound (unfold init_schema in tt) in
      let seq = get_latest_seq db in
      let below : AreBelow seq db.roots = rw (get_latest_seq-IsSound db sound) bound in
      let new : MerkleRoot = record { seq = seq; root_hash = root; entry_count = seq } in
      elim (Bool-cases (is_at seq (last_root db.roots))) [
        | inl same ↦ rw (has_root-is_at seq db.roots below, same) refl
        | inr later ↦
            rw (has_root-is_at seq db.roots below, later)
              (ap (λ r. some (some r))
                (later_root-new new (last_root db.roots) (last_root-IsBelow seq db.roots below)))
      ]
