-- ===== src/P2p/Gossip/Duplicates.antt =====
-- p2p/src/gossip.rs, `check_and_mark`: which messages of a sequence pass as new.
use dest.Base.{
  ℕ, zero, suc, drop, ◌/◌, ◌+◌, ◌≤◌, ◌<◌, ◌≡◌, refl, ap, ◌∙◌, inl, inr, Bool, true, false,
  Bool-cases, List, [], ◌∷◌, length, not, leb, ◌==◌, ==_iff, if◌then◌else◌, arith,
}
use dest.P2p.Gossip.{HashOrder, SeenMessages, new_seen, check_and_mark, make_room, member}
use dest.P2p.Gossip.Seen.{mark_all, mark_all-new_seen}

-- For each number whether it comes for the first time, after those of the past.
abbrev pub firsts : List ℕ → List ℕ → List Bool
firsts past [] = []
firsts past (seq ∷ seqs) = not (member seq past) ∷ firsts (seq ∷ past) seqs

-- How many come for the first time.
abbrev pub trues : List Bool → ℕ
trues [] = 0
trues (b ∷ bs) = (if b then 1 else 0) + trues bs

-- Where the first list is true, the second is.
abbrev pub Covers : List Bool → List Bool → Type 0
Covers [] [] = Unit
Covers (b ∷ bs) (c ∷ cs) = (b ≡ true → c ≡ true) × Covers bs cs
Covers _ _ = ⊥

member-drop : (n y : ℕ) (xs : List ℕ) → member y (drop n xs) ≡ true → member y xs ≡ true
member-drop zero y xs h = h
member-drop (suc n) y [] h = cc
member-drop (suc n) y (x ∷ xs) h = ground (arith, member-drop n y xs, h)

-- The same numbers stand in both.
abbrev SameMembers : List ℕ → List ℕ → Type 0
SameMembers xs ys = (y : ℕ) → member y xs ≡ member y ys

member-again :
    (seq y : ℕ) (past : List ℕ) → member seq past ≡ true → member y past ≡ member y (seq ∷ past)
member-again seq y past h = elim (Bool-cases (y == seq)) [
  | inl e ↦ rw e (rw ((==_iff y seq).0 e) h)
  | inr e ↦ rw e refl
]

module _ ⦃o : HashOrder⦄ where
  pub check_all : List ℕ → SeenMessages → List Bool
  check_all [] s = []
  check_all (seq ∷ seqs) s = let (s', fresh) = check_and_mark seq s in fresh ∷ check_all seqs s'

  check_and_mark-old :
      (seq : ℕ) (s : SeenMessages) → member seq s.seen ≡ true → check_and_mark seq s ≡ (s, false)
  unfolding check_and_mark
  check_and_mark-old seq s h = rw h refl

  check_and_mark-new :
      (seq : ℕ) (s : SeenMessages)
      → member seq s.seen ≡ false
      → length s.seen < s.max_size
      → check_and_mark seq s ≡ (record s { seen = seq ∷ s.seen }, true)
  unfolding check_and_mark
  check_and_mark-new seq s h room =
      let no_drop : leb s.max_size (length s.seen) ≡ false = ground arith in rw (h, no_drop) refl

  check_all-firsts_from :
      (seqs past : List ℕ) (s : SeenMessages)
      → SameMembers s.seen past
      → length s.seen + trues (firsts past seqs) ≤ s.max_size
      → check_all seqs s ≡ firsts past seqs
  unfolding check_all
  check_all-firsts_from [] past s same room = refl
  check_all-firsts_from (seq ∷ seqs) past s same room = elim (Bool-cases (member seq past)) [
    | inl old ↦
        let e = check_and_mark-old seq s (same seq ∙ old) in
        let left : length s.seen + (0 + trues (firsts (seq ∷ past) seqs)) ≤ s.max_size =
          rw old at room in
        rw (e, old)
          (ap (λ l. false ∷ l)
            (check_all-firsts_from seqs (seq ∷ past) s (λ y. same y ∙ member-again seq y past old)
              (omega arith)))
    | inr fresh ↦
        let left : length s.seen + (1 + trues (firsts (seq ∷ past) seqs)) ≤ s.max_size =
          rw fresh at room in
        let e = check_and_mark-new seq s (same seq ∙ fresh) (omega arith) in
        rw (e, fresh)
          (ap (λ l. true ∷ l)
            (check_all-firsts_from seqs (seq ∷ past) (record s { seen = seq ∷ s.seen })
              (λ y. ap (λ b. if y == seq then true else b) (same y)) (omega arith)))
  ]

  -- A message passes as new exactly when it comes for the first time, as long as no more different
  -- messages come than the set may hold.
  pub check_all-firsts :
      (max : ℕ) (seqs : List ℕ)
      → trues (firsts [] seqs) ≤ max
      → check_all seqs (new_seen max) ≡ firsts [] seqs
  unfolding new_seen
  check_all-firsts max seqs room =
      check_all-firsts_from seqs [] (new_seen max) (λ y. refl) (omega arith)

  -- No number stands in the first list that is not in the second.
  abbrev AreIn : List ℕ → List ℕ → Type 0
  AreIn xs ys = (y : ℕ) → member y xs ≡ true → member y ys ≡ true

  member-make_room :
      (s : SeenMessages) (y : ℕ) → member y (make_room s) ≡ true → member y s.seen ≡ true
  member-make_room s y h =
      ground
        (arith, member-drop (s.max_size / 2) y (o.arrange s.seen), o.member-arrange y s.seen, h)

  check_and_mark-AreIn :
      (seq : ℕ) (s : SeenMessages) (past : List ℕ)
      → AreIn s.seen past
      → AreIn (check_and_mark seq s).0.seen (seq ∷ past)
  unfolding check_and_mark
  check_and_mark-AreIn seq s past h y e = ground (arith, member-make_room s y, h y, e)

  check_and_mark-first :
      (seq : ℕ) (s : SeenMessages) (past : List ℕ)
      → AreIn s.seen past
      → not (member seq past) ≡ true
      → (check_and_mark seq s).1 ≡ true
  unfolding check_and_mark
  check_and_mark-first seq s past h e = ground (arith, h seq, e)

  check_all-Covers_from :
      (seqs past : List ℕ) (s : SeenMessages)
      → AreIn s.seen past
      → Covers (firsts past seqs) (check_all seqs s)
  unfolding check_all
  check_all-Covers_from [] past s h = tt
  check_all-Covers_from (seq ∷ seqs) past s h = (
    check_and_mark-first seq s past h,
    check_all-Covers_from seqs (seq ∷ past) (check_and_mark seq s).0
        (check_and_mark-AreIn seq s past h),
  )

  -- With a maximum of two or more, however many messages come, each passes as new when it comes for the first time, whatever was dropped before, and the set never holds more than the maximum.
  pub check_all-Covers :
      (max : ℕ) (seqs : List ℕ)
      → 2 ≤ max
      → Covers (firsts [] seqs) (check_all seqs (new_seen max))
        × (length (mark_all seqs (new_seen max)).seen ≤ max)
  unfolding new_seen
  check_all-Covers max seqs two =
      (check_all-Covers_from seqs [] (new_seen max) (λ y e. e), mark_all-new_seen seqs max two)
