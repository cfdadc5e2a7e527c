-- ===== src/Text/Trim.antt =====
-- Laws of prefixes, suffixes and trimming.
use securecrt_mcp.Prelude.{
  ℕ, ◌≡◌, refl, Bool, true, false, [], ◌∷◌, ◌++◌, arith, if◌then◌else◌, Bool-cases, inl, inr, some,
  All,
}
use securecrt_mcp.Text.{Text, strip_prefix, starts_with, trim_end_matches, trim_start_matches}

pub strip_prefix-append : (p s : Text) → strip_prefix (p ++ s) p ≡ some s
unfolding strip_prefix
strip_prefix-append [] [] = refl
strip_prefix-append [] (c ∷ s) = refl
strip_prefix-append (a ∷ p) s = ground (arith, strip_prefix-append p s)

pub strip_prefix-eq_some : (s p r : Text) → strip_prefix s p ≡ some r → s ≡ p ++ r
unfolding strip_prefix
strip_prefix-eq_some [] [] r h = ground arith
strip_prefix-eq_some (a ∷ s) [] r h = ground arith
strip_prefix-eq_some [] (b ∷ p) r h = cc
strip_prefix-eq_some (a ∷ s) (b ∷ p) r h = ground (arith, strip_prefix-eq_some s p r)

pub starts_with-append : (p s : Text) → starts_with (p ++ s) p ≡ true
unfolding starts_with
starts_with-append [] [] = refl
starts_with-append [] (c ∷ s) = refl
starts_with-append (a ∷ p) s = ground (arith, starts_with-append p s)

-- A text with no character of the set is left as it is.
pub trim_end_matches-none :
    (p : ℕ → Bool) (s : Text) → All (λ c. p c ≡ false) s → trim_end_matches p s ≡ s
unfolding trim_end_matches
trim_end_matches-none p [] h = refl
trim_end_matches-none p (c ∷ []) h = rw h.0
trim_end_matches-none p (c ∷ d ∷ s) h = rw (trim_end_matches-none p (d ∷ s) h.1)

pub trim_start_matches-head :
    (p : ℕ → Bool) (c : ℕ) (s : Text) → p c ≡ false → trim_start_matches p (c ∷ s) ≡ c ∷ s
unfolding trim_start_matches
trim_start_matches-head p c s h = rw h

pub All-trim_end_matches {ℓ} :
    (P : ℕ → Type ℓ) (p : ℕ → Bool) (s : Text) → All P s → All P (trim_end_matches p s)
unfolding trim_end_matches
All-trim_end_matches P p [] h = tt
All-trim_end_matches P p (c ∷ s) h = go (trim_end_matches p s) (All-trim_end_matches P p s h.1)
  where
    go :
        (t : Text)
        → All P t
        → All P (elim t [ [] ↦ if p c then [] else c ∷ [] | d ∷ r ↦ c ∷ d ∷ r ])
    go (d ∷ r) k = (h.0, k)
    go [] k = elim (Bool-cases (p c)) [ inl e ↦ rw e tt | inr e ↦ rw e (h.0, tt) ]

-- A last character that passes the test does not matter.
pub trim_end_matches_last :
    (p : ℕ → Bool) (s : Text) (c : ℕ)
    → p c ≡ true
    → trim_end_matches p (s ++ c ∷ []) ≡ trim_end_matches p s
unfolding trim_end_matches
trim_end_matches_last p [] c h = rw h refl
trim_end_matches_last p (d ∷ s) c h = rw (trim_end_matches_last p s c h) refl
