-- ===== src/Text/Words.antt =====
-- The characters of a text, from those of its words.
use securecrt_mcp.Prelude.{
  ℕ, ◌≡◌, refl, sym, ap, ◌∙◌, Bool, true, ◌&&◌, ◌||◌, List, [], ◌∷◌, arith, Bool-cases, inl, inr,
  all, subst,
}
use securecrt_mcp.Text.{
  Text, eq_text, contains, split_words, add_word, split_ascii_whitespace, is_ascii_whitespace,
}
use securecrt_mcp.Text.Equality.{eq_text→eq}

module _ (p : ℕ → Bool) where
  -- Every character passes the test or is blank.
  abbrev pub or_blank : ℕ → Bool
  or_blank c = p c || is_ascii_whitespace c

  add_word-all :
      (w : Text) (ws : List Text)
      → all (all p) (add_word w ws) ≡ true
      → (all p w ≡ true) × (all (all p) ws ≡ true)
  add_word-all [] ws h = (refl, h)
  add_word-all (c ∷ w) ws h = ground arith

  split_words-all :
      (s : Text)
      → all (all p) (split_words s).0 ≡ true
      → all p (split_words s).1 ≡ true
      → all or_blank s ≡ true
  unfolding split_words
  split_words-all [] h k = refl
  split_words-all (c ∷ s) h k = elim (Bool-cases (is_ascii_whitespace c)) [
    | inl e ↦
        let q : split_words (c ∷ s) ≡ (add_word (split_words s).1 (split_words s).0, []) =
          rw e refl in
        let (w, ws) =
          add_word-all (split_words s).1 (split_words s).0
            (sym (ap (λ x. all (all p) x.0) q) ∙ h) in
        ground (arith, split_words-all s ws w)
    | inr e ↦
        let q : split_words (c ∷ s) ≡ ((split_words s).0, c ∷ (split_words s).1) = rw e refl in
        let ws : all (all p) (split_words s).0 ≡ true = sym (ap (λ x. all (all p) x.0) q) ∙ h in
        let w : (p c && all p (split_words s).1) ≡ true = sym (ap (λ x. all p x.1) q) ∙ k in
        ground (arith, split_words-all s ws)
  ]

  -- If every word consists of characters that pass a test, every character of the text passes it or
  -- is blank.
  pub split_ascii_whitespace-all :
      (s : Text) → all (all p) (split_ascii_whitespace s) ≡ true → all or_blank s ≡ true
  unfolding split_ascii_whitespace
  split_ascii_whitespace-all s h =
      let (w, ws) = add_word-all (split_words s).1 (split_words s).0 h in split_words-all s ws w

  pub eq_text-all : (t w : Text) → all p t ≡ true → eq_text t w ≡ true → all p w ≡ true
  eq_text-all t w h e = subst (λ x. all p x ≡ true) (eq_text→eq t w e) h

  -- A member of a list of texts that all consist of such characters does too.
  pub contains-all :
      (ts : List Text) (w : Text) → all (all p) ts ≡ true → contains ts w ≡ true → all p w ≡ true
  unfolding contains
  contains-all [] w h e = cc
  contains-all (t ∷ ts) w h e = ground (arith, eq_text-all t w, contains-all ts w)

  -- A word that equals a given text of such characters consists of them.
  pub eq_text-all_inv : (w t : Text) → all p t ≡ true → eq_text w t ≡ true → all p w ≡ true
  eq_text-all_inv w t h e = subst (λ x. all p x ≡ true) (sym (eq_text→eq w t e)) h
