-- ===== src/Core/Recovery/Trim.antt =====
-- `trim` takes white space off both ends of a phrase.
use dest.Base.{
  ℕ, zero, suc, ◌+◌, ◌<◌, true, false, [], ◌∷◌, ◌++◌, length, ◌==◌, if◌then◌else◌, ◌≡◌, refl, ap,
  ◌∙◌, arith, All, length-append, Bool-cases, inl, inr,
}
use dest.Core.Extern.{Text}
use dest.Core.Recovery.{
  is_ascii_space, space_len, skip, trim_start, trim_end, trim, is_letter, ends_well, starts_well,
}

abbrev pub IsSpaces : Text → Type 0
IsSpaces t = All (λ c. is_ascii_space c ≡ true) t

space_len-letter : (c : ℕ) (cs : Text) → is_letter c ≡ true → space_len (c ∷ cs) ≡ 0
space_len-letter c [] h = ground (arith, h)
space_len-letter c (d ∷ []) h = ground (arith, h)
space_len-letter c (d ∷ e ∷ cs) h = ground (arith, h)

space_len-space : (c : ℕ) (cs : Text) → is_ascii_space c ≡ true → space_len (c ∷ cs) ≡ 1
space_len-space c cs h = rw (h) refl

-- A text that starts with a letter is skipped over by no fuel.
skip-letter : (fuel : ℕ) (c : ℕ) (cs : Text) → is_letter c ≡ true → skip fuel (c ∷ cs) ≡ c ∷ cs
skip-letter zero c cs h = refl
skip-letter (suc fuel) c cs h = rw (space_len-letter c cs h) refl

skip-space :
    (fuel c : ℕ) (cs : Text) → is_ascii_space c ≡ true → skip (suc fuel) (c ∷ cs) ≡ skip fuel cs
skip-space fuel c cs h = rw (space_len-space c cs h) refl

skip-spaces :
    (fuel : ℕ) (before t : Text)
    → IsSpaces before
    → skip (length before + fuel) (before ++ t) ≡ skip fuel t
skip-spaces fuel [] t h = ap (λ n. skip n t) (omega arith)
skip-spaces fuel (c ∷ before) t h =
    ap (λ n. skip n (c ∷ (before ++ t))) {y = suc (length before + fuel)} (omega arith)
    ∙ (skip-space (length before + fuel) c (before ++ t) h.0 ∙ skip-spaces fuel before t h.1)

trim_start-phrase :
    (before t : Text) → IsSpaces before → starts_well t ≡ true → trim_start (before ++ t) ≡ t
trim_start-phrase before [] h e = cc
trim_start-phrase before (c ∷ cs) h e =
    ap (λ n. skip n (before ++ (c ∷ cs))) (length-append before (c ∷ cs))
    ∙ (skip-spaces (length (c ∷ cs)) before (c ∷ cs) h ∙ skip-letter (length (c ∷ cs)) c cs e)

-- Spaces alone are blank; a text that goes on with a phrase's end is not.
skip-all : (t : Text) → IsSpaces t → skip (length t) t ≡ []
skip-all [] h = refl
skip-all (c ∷ cs) h = skip-space (length cs) c cs h.0 ∙ skip-all cs h.1

trim_end-spaces : (t : Text) → IsSpaces t → trim_end t ≡ []
trim_end-spaces [] h = refl
trim_end-spaces (c ∷ cs) h = rw (skip-all (c ∷ cs) h) refl

length-skip_letter : (fuel c : ℕ) (cs : Text) → is_letter c ≡ true → 0 < length (skip fuel (c ∷ cs))
length-skip_letter fuel c cs h = rw (skip-letter fuel c cs h) (omega arith)

skip-ends_well :
    (fuel : ℕ) (t after : Text) → ends_well t ≡ true → 0 < length (skip fuel (t ++ after))
skip-ends_well fuel [] after h = cc
skip-ends_well fuel (c ∷ []) after h = length-skip_letter fuel c after h
skip-ends_well zero (c ∷ d ∷ cs) after h = omega arith
skip-ends_well (suc fuel) (c ∷ d ∷ cs) after h = elim (Bool-cases (is_letter c)) [
  | inl letter ↦ length-skip_letter (suc fuel) c (d ∷ (cs ++ after)) letter
  | inr other ↦
      rw (skip-space fuel c (d ∷ (cs ++ after)) (ground (arith, other, h)))
        (skip-ends_well fuel (d ∷ cs) after (ground (arith, h)))
]

not_zero : (n : ℕ) → 0 < n → (n == 0) ≡ false
not_zero n h = ground (arith, h)

trim_end-goes_on :
    (c : ℕ) (cs : Text) → 0 < length (trim_start (c ∷ cs)) → trim_end (c ∷ cs) ≡ c ∷ trim_end cs
trim_end-goes_on c cs h =
    ap (λ blank. if blank then [] else c ∷ trim_end cs) (not_zero (length (trim_start (c ∷ cs))) h)

trim_end-phrase : (t after : Text) → ends_well t ≡ true → IsSpaces after → trim_end (t ++ after) ≡ t
trim_end-phrase [] after h s = cc
trim_end-phrase (c ∷ []) after h s =
    trim_end-goes_on c after (skip-ends_well (length (c ∷ after)) (c ∷ []) after h)
    ∙ ap (λ r. c ∷ r) (trim_end-spaces after s)
trim_end-phrase (c ∷ d ∷ cs) after h s =
    trim_end-goes_on c (d ∷ (cs ++ after))
      (skip-ends_well (length (c ∷ d ∷ (cs ++ after))) (c ∷ d ∷ cs) after h)
    ∙ ap (λ r. c ∷ r) (trim_end-phrase (d ∷ cs) after (ground (arith, h)) s)

starts_well-append : (t after : Text) → starts_well t ≡ true → starts_well (t ++ after) ≡ true
starts_well-append [] after h = cc
starts_well-append (c ∷ cs) after h = h

-- ASCII white space around a phrase goes, and the phrase stays.
pub trim-phrase :
    (before t after : Text)
    → IsSpaces before
    → IsSpaces after
    → starts_well t ≡ true
    → ends_well t ≡ true
    → trim (before ++ (t ++ after)) ≡ t
unfolding trim
trim-phrase before t after b a s e =
    ap trim_end (trim_start-phrase before (t ++ after) b (starts_well-append t after s))
    ∙ trim_end-phrase t after e a
