-- ===== src/Ledger/Conflict/Detection.antt =====
-- ledger/src/conflict.rs, `detect_conflicts`: which conflicts are found.
use mathlib.Core.List.{Memᴰ}
use mathlib.Core.List.Memᴰ
use mathlib.Core.Path.{subst}
use dest.Base.{
  ◌≡◌, ◌≢◌, ◌↔◌, ◌⊎◌, refl, sym, ◌∙◌, ap, inl, inr, Bool, false, Bool-cases, Option, none, some,
  List, [], ◌∷◌, if◌then◌else◌, arith,
}
use dest.Base.Text.{Text, bytes_eq, bytes_ne_iff}
use dest.Base.HashMap.{HashMap, get, get-insert}
use dest.Ledger.Json.{Json}
use dest.Ledger.Conflict.{
  LedgerConflict, id_of, new_conflict, collect, local_map, push_conflict, lookup, conflicts_with,
  detect_conflicts,
}

module _ ⦃js : Json⦄ where
  abbrev has_id : Text → Option Text → Bool
  has_id id none = false
  has_id id (some j) = bytes_eq id j

  abbrev or_else : Option js.Value → Option js.Value → Option js.Value
  or_else none b = b
  or_else (some e) b = some e

  -- The last entry with an id.
  pub last_with : Text → List js.Value → Option js.Value
  last_with id [] = none
  last_with id (e ∷ es) = or_else (last_with id es) (if has_id id (id_of e) then some e else none)

  get-collect :
      (id : Text) (o : Option Text) (e : js.Value) (m : HashMap js.Value)
      → get id (collect o e m) ≡ (if has_id id o then some e else get id m)
  get-collect id none e m = refl
  get-collect id (some j) e m = get-insert id j e m

  or_else-if :
      (b : Bool) (x : Option js.Value) (e : js.Value) (y : Option js.Value)
      → or_else x (if b then some e else y) ≡ or_else (or_else x (if b then some e else none)) y
  or_else-if b x e y = ground arith

  get-local_map :
      (id : Text) (es : List js.Value) (m : HashMap js.Value)
      → get id (local_map es m) ≡ or_else (last_with id es) (get id m)
  unfolding local_map last_with
  get-local_map id [] m = refl
  get-local_map id (e ∷ es) m =
      get-local_map id es (collect (id_of e) e m)
      ∙ ap (or_else (last_with id es)) (get-collect id (id_of e) e m)
      ∙ or_else-if (has_id id (id_of e)) (last_with id es) e (get id m)

  or_else-none : (x : Option js.Value) → or_else x none ≡ x
  or_else-none none = refl
  or_else-none (some e) = refl

  -- The conflict of a remote entry with the local one found for it.
  abbrev Reports : js.Value → Option js.Value → LedgerConflict → Type 0
  Reports r o c =
      (l : js.Value) × (o ≡ some l) × (js.to_string l ≢ js.to_string r) × (c ≡ new_conflict l r)

  mem_cases {κ} : {B : Type κ} {c x : B} {cs : List B} → Memᴰ c (x ∷ cs) → (c ≡ x) ⊎ Memᴰ c cs
  mem_cases (Memᴰ.head e) = inl e
  mem_cases (Memᴰ.tail h) = inr h

  mem-push_conflict :
      (r : js.Value) (o : Option js.Value) (cs : List LedgerConflict) (c : LedgerConflict)
      → Memᴰ c (push_conflict r o cs)
      → Reports r o c ⊎ Memᴰ c cs
  mem-push_conflict r none cs c h = inr h
  mem-push_conflict r (some l) cs c h =
      elim (Bool-cases (bytes_eq (js.to_string l) (js.to_string r))) [
        | inl same ↦ inr (rw same at h)
        | inr other ↦
            let pushed : Memᴰ c (new_conflict l r ∷ cs) = rw other at h in
            elim (mem_cases pushed) [
              | inl e ↦ inl (l, refl, (bytes_ne_iff _ _).0 other, e)
              | inr rest ↦ inr rest
            ]
      ]

  push_conflict-Reports :
      (r : js.Value) (o : Option js.Value) (cs : List LedgerConflict) (c : LedgerConflict)
      → Reports r o c
      → Memᴰ c (push_conflict r o cs)
  push_conflict-Reports r o cs c (l, found, ne, e) =
      rw (found, (bytes_ne_iff (js.to_string l) (js.to_string r)).1 ne) (Memᴰ.head e)

  push_conflict-mem :
      (r : js.Value) (o : Option js.Value) (cs : List LedgerConflict) (c : LedgerConflict)
      → Memᴰ c cs
      → Memᴰ c (push_conflict r o cs)
  push_conflict-mem r none cs c h = h
  push_conflict-mem r (some l) cs c h =
      elim (Bool-cases (bytes_eq (js.to_string l) (js.to_string r))) [
        | inl same ↦ rw same h
        | inr other ↦ rw other (Memᴰ.tail h)
      ]

  mem-conflicts_with :
      (m : HashMap js.Value) (rs : List js.Value) (c : LedgerConflict)
      → Memᴰ c (conflicts_with m rs)
      → (r : js.Value) × Memᴰ r rs × Reports r (lookup (id_of r) m) c
  unfolding conflicts_with
  mem-conflicts_with m [] c h = absurd (Memᴰ.not-nil h)
  mem-conflicts_with m (r ∷ rs) c h =
      elim (mem-push_conflict r (lookup (id_of r) m) (conflicts_with m rs) c h) [
        | inl reports ↦ (r, Memᴰ.head refl, reports)
        | inr rest ↦
            let (q, mem, reports) = mem-conflicts_with m rs c rest in (q, Memᴰ.tail mem, reports)
      ]

  conflicts_with-mem :
      (m : HashMap js.Value) (rs : List js.Value) (c : LedgerConflict) (r : js.Value)
      → Memᴰ r rs
      → Reports r (lookup (id_of r) m) c
      → Memᴰ c (conflicts_with m rs)
  unfolding conflicts_with
  conflicts_with-mem m [] c r h reports = absurd (Memᴰ.not-nil h)
  conflicts_with-mem m (q ∷ rs) c r (Memᴰ.head e) reports =
      push_conflict-Reports q (lookup (id_of q) m) (conflicts_with m rs) c
        (subst (λ x. Reports x (lookup (id_of x) m) c) e reports)
  conflicts_with-mem m (q ∷ rs) c r (Memᴰ.tail h) reports =
      push_conflict-mem q (lookup (id_of q) m) (conflicts_with m rs) c
        (conflicts_with-mem m rs c r h reports)

  -- The local entry that `detect_conflicts` compares with a remote one: the last with its id.
  abbrev pub counterpart : Option Text → List js.Value → Option js.Value
  counterpart none ls = none
  counterpart (some id) ls = last_with id ls

  lookup-local_map :
      (o : Option Text) (ls : List js.Value) → lookup o (local_map ls []) ≡ counterpart o ls
  unfolding get
  lookup-local_map none ls = refl
  lookup-local_map (some id) ls = get-local_map id ls [] ∙ or_else-none (last_with id ls)

  -- A conflict is found exactly if it is that of a remote entry with the last local entry of the same
  -- id, and the two print differently.
  pub detect_conflicts_iff :
      (ls rs : List js.Value) (c : LedgerConflict)
      → Memᴰ c (detect_conflicts ls rs) ↔ (
          (r : js.Value) × Memᴰ r rs
          × (l : js.Value) × (counterpart (id_of r) ls ≡ some l)
          × (js.to_string l ≢ js.to_string r)
          × (c ≡ new_conflict l r))
  unfolding detect_conflicts
  detect_conflicts_iff ls rs c = (
    λ h.
        let (r, mem, (l, found, ne, e)) = mem-conflicts_with (local_map ls []) rs c h in
        (r, mem, l, sym (lookup-local_map (id_of r) ls) ∙ found, ne, e),
    λ (r, mem, l, found, ne, e).
        conflicts_with-mem (local_map ls []) rs c r mem
          (l, lookup-local_map (id_of r) ls ∙ found, ne, e),
  )
