-- ===== src/Ledger/Store/Ranges.antt =====
-- ledger/src/schema.rs, `get_entries_from`: which entries a query reads.
use dest.Base.{
  ℕ, zero, suc, ◌+◌, ◌-◌, ◌≡◌, refl, sym, ap, ◌∙◌, inl, inr, true, false, List, [], ◌∷◌, keep, take,
  drop, ltb, lt→ltb, le→ltb, lt-cases, arith,
}
use dest.Base.Int.{pos, ltb_ℤ}
use dest.Core.Extern.{Blake3, Hex}
use dest.Ledger.Store.{Row, init_schema, get_entries_from}
use dest.Ledger.Store.Entries.{IsNumbered, Call, run, run-get_latest_seq}

drop-nil : (n : ℕ) → drop {A = Row} n [] ≡ []
drop-nil zero = refl
drop-nil (suc n) = refl

keep-IsNumbered :
    (n k : ℕ) (rows : List Row)
    → IsNumbered k rows
    → keep (λ (r : Row). ltb_ℤ (pos n) (pos r.seq)) rows ≡ drop (suc n - k) rows
keep-IsNumbered n k [] h = sym (drop-nil (suc n - k))
keep-IsNumbered n k (r ∷ rows) h = elim (lt-cases n k) [
  | inl below ↦
      let all : suc n - suc k ≡ 0 = omega arith in
      let none_left : suc n - k ≡ 0 = omega arith in
      let test : ltb (n + 0) (r.seq + 0) ≡ true = lt→ltb _ _ (omega (arith, h.0)) in
      let rest = keep-IsNumbered n (suc k) rows h.1 in
      rw test (rw none_left (ap (λ l. r ∷ l) (rw (all) at rest)))
  | inr above ↦
      let test : ltb (n + 0) (r.seq + 0) ≡ false = le→ltb _ _ (omega (arith, h.0)) in
      let more : suc n - k ≡ suc (suc n - suc k) = omega arith in
      rw test (rw more (keep-IsNumbered n (suc k) rows h.1))
]

module _ ⦃b3 : Blake3⦄ ⦃hx : Hex⦄ where
  -- The entries that a query from a number on reads, in a ledger that any calls have made.
  pub get_entries_from-run :
      (n limit : ℕ) (ks : List Call)
      → let db = run ks init_schema in
        get_entries_from (pos n) limit db ≡ take limit (drop n db.entries)
  unfolding get_entries_from
  get_entries_from-run n limit ks = ap (take limit) (
      keep-IsNumbered n 1 (run ks init_schema).entries (run-get_latest_seq ks).0
      ∙ ap (λ k. drop k (run ks init_schema).entries) (omega arith))
