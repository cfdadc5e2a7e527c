-- ===== src/Critical/Guarded.antt =====
-- What `is_critical` of src/critical.rs says of whole command lines.
use securecrt_mcp.Prelude.{
  ℕ, ◌≡◌, refl, sym, ap, ◌∙◌, Bool, true, false, not, ◌&&◌, ◌||◌, List, [], ◌∷◌, ◌++◌, arith, ◌==◌,
  if◌then◌else◌, Bool-cases, inl, inr, none, some, All, append_assoc, append-nil, is_empty, any,
}
use securecrt_mcp.Text.{
  Text, codes, eq_text, has_char, starts_with, is_whitespace, contains, after_last, after_last_from,
}
use securecrt_mcp.Critical.{
  Lexer, lexer, is_separator, push_word, push_segment, lex_plain, lex_char, lex, finish_lexer,
  segments, protected, base_name, strip_assignments, strip_wrappers, is_wrapper, is_option,
  takes_value, script_argument, runs_script, is_catastrophic, dangerous, critical_words, check,
  is_critical,
}

-- A character that stands for itself: no blank, separator, quote or backslash.
unfoldable pub is_plain : ℕ → Bool
unfolding is_whitespace is_separator
is_plain c = not (is_whitespace c || is_separator c || c == 92 || c == 39 || c == 34)

lex-append : (l : Lexer) (s t : Text) → lex l (s ++ t) ≡ lex (lex l s) t
unfolding lex
lex-append l [] t = refl
lex-append l (c ∷ s) t = lex-append (lex_char l c) s t

-- The lexer outside quotes and in single quotes.
abbrev outside : List (List Text) → List Text → Text → Lexer
outside r ws w = record { result = r; words = ws; word = w; quote = none; escape = false }

abbrev within : List (List Text) → List Text → Text → Lexer
within r ws w = record { result = r; words = ws; word = w; quote = some 39; escape = false }

plain_step :
    (r : List (List Text)) (ws : List Text) (w : Text) (c : ℕ)
    → is_plain c ≡ true
    → lex_char (outside r ws w) c ≡ outside r ws (w ++ c ∷ [])
unfolding is_plain lex_char lex_plain
plain_step r ws w c h =
    let e : (c == 92) ≡ false = ground arith in
    let q : (c == 39 || c == 34) ≡ false = ground arith in
    let b : is_whitespace c ≡ false = ground arith in
    let d : is_separator c ≡ false = ground arith in rw (e, q, b, d) refl

quoted_step :
    (r : List (List Text)) (ws : List Text) (w : Text) (c : ℕ)
    → (c == 39) ≡ false
    → lex_char (within r ws w) c ≡ within r ws (w ++ c ∷ [])
unfolding lex_char
quoted_step r ws w c h = elim (Bool-cases (c == 92)) [
  | inl e ↦ rw (e, h) refl
  | inr e ↦ rw (e, h) refl
]

-- Outside quotes, a run of plain characters extends the word.
lex-run :
    (r : List (List Text)) (ws : List Text) (w s : Text)
    → All (λ c. is_plain c ≡ true) s
    → lex (outside r ws w) s ≡ outside r ws (w ++ s)
unfolding lex
lex-run r ws w [] h = ap (outside r ws) (sym (append-nil w))
lex-run r ws w (c ∷ s) h =
    ap (λ l. lex l s) (plain_step r ws w c h.0)
    ∙ lex-run r ws (w ++ c ∷ []) s h.1
    ∙ ap (outside r ws) (append_assoc w (c ∷ []) s)

-- In single quotes, so does a run of characters other than the quote.
lex-quoted :
    (r : List (List Text)) (ws : List Text) (w s : Text)
    → has_char s 39 ≡ false
    → lex (within r ws w) s ≡ within r ws (w ++ s)
unfolding lex has_char
lex-quoted r ws w [] h = ap (within r ws) (sym (append-nil w))
lex-quoted r ws w (c ∷ s) h =
    ap (λ l. lex l s) (quoted_step r ws w c (ground arith))
    ∙ lex-quoted r ws (w ++ c ∷ []) s (ground arith)
    ∙ ap (within r ws) (append_assoc w (c ∷ []) s)

rm_start : lex lexer (codes "rm -rf ") ≡ outside [] (codes "rm" ∷ codes "-rf" ∷ []) []
unfolding lex lex_char lex_plain is_whitespace is_separator push_word push_segment
rm_start = refl

grep_start : lex lexer (codes "grep '") ≡ within [] (codes "grep" ∷ []) []
unfolding lex lex_char lex_plain is_whitespace is_separator push_word push_segment
grep_start = refl

rm-segments :
    (c : ℕ) (p : Text)
    → All (λ d. is_plain d ≡ true) (c ∷ p)
    → segments (codes "rm -rf " ++ c ∷ p) ≡ (codes "rm" ∷ codes "-rf" ∷ (c ∷ p) ∷ []) ∷ []
unfolding segments
rm-segments c p h =
    ap finish_lexer (
      lex-append lexer (codes "rm -rf ") (c ∷ p)
      ∙ ap (λ l. lex l (c ∷ p)) rm_start
      ∙ lex-run [] (codes "rm" ∷ codes "-rf" ∷ []) [] (c ∷ p) h)
    ∙ unfold finish_lexer in unfold push_word in unfold push_segment in refl

rm-words :
    (inner : Text → Bool) (path : Text)
    → critical_words inner (codes "rm" ∷ codes "-rf" ∷ path ∷ [])
      ≡ (not (starts_with path (codes "-")) && protected path)
unfolding critical_words dangerous runs_script is_catastrophic strip_assignments strip_wrappers
    is_wrapper is_option takes_value base_name script_argument after_last after_last_from has_char
    contains eq_text starts_with
rm-words inner path = elim (Bool-cases (protected path)) [
  | inl e ↦ rw e (ground arith)
  | inr e ↦ rw e (ground arith)
]

any-one : (f : List Text → Bool) (l : List Text) → any f (l ∷ []) ≡ f l
any-one f l = ground arith

-- `rm -rf` with one path as it stands is stopped exactly if the path is protected.
pub is_critical-rm :
    (path : Text)
    → All (λ c. is_plain c ≡ true) path
    → is_empty path ≡ false
    → is_critical (codes "rm -rf " ++ path) ≡ (not (starts_with path (codes "-")) && protected path)
unfolding is_critical check
is_critical-rm [] h n = cc
is_critical-rm (c ∷ p) h n =
    ap (any (critical_words (check 4))) (rm-segments c p h)
    ∙ any-one (critical_words (check 4)) (codes "rm" ∷ codes "-rf" ∷ (c ∷ p) ∷ [])
    ∙ rm-words (check 4) (c ∷ p)

quote_end :
    (r : List (List Text)) (ws : List Text) (w : Text)
    → lex (within r ws w) (codes "'") ≡ outside r ws w
unfolding lex lex_char
quote_end r ws w = refl

finish_words :
    (t : Text)
    → finish_lexer (outside [] (codes "grep" ∷ []) t)
      ≡ (if is_empty t then codes "grep" ∷ [] else codes "grep" ∷ t ∷ []) ∷ []
unfolding finish_lexer push_word push_segment
finish_words [] = refl
finish_words (c ∷ t) = refl

grep-segments :
    (t : Text)
    → has_char t 39 ≡ false
    → segments (codes "grep '" ++ t ++ codes "'")
      ≡ (if is_empty t then codes "grep" ∷ [] else codes "grep" ∷ t ∷ []) ∷ []
unfolding segments
grep-segments t h =
    ap finish_lexer (
      lex-append lexer (codes "grep '") (t ++ codes "'")
      ∙ ap (λ l. lex l (t ++ codes "'")) grep_start
      ∙ lex-append (within [] (codes "grep" ∷ []) []) t (codes "'")
      ∙ ap (λ l. lex l (codes "'")) (lex-quoted [] (codes "grep" ∷ []) [] t h)
      ∙ quote_end [] (codes "grep" ∷ []) t)
    ∙ finish_words t

grep-words : (inner : Text → Bool) (a : List Text) → critical_words inner (codes "grep" ∷ a) ≡ false
unfolding critical_words dangerous runs_script is_catastrophic strip_assignments strip_wrappers
    is_wrapper is_option takes_value base_name script_argument after_last after_last_from has_char
    contains eq_text starts_with
grep-words inner [] = refl
grep-words inner (t ∷ a) = refl

grep_either :
    (inner : Text → Bool) (t : Text)
    → critical_words inner (if is_empty t then codes "grep" ∷ [] else codes "grep" ∷ t ∷ []) ≡ false
grep_either inner [] = grep-words inner []
grep_either inner (c ∷ t) = grep-words inner ((c ∷ t) ∷ [])

-- The argument of `grep` is no command: in single quotes, any text without a single quote is let
-- through.
pub is_critical-grep :
    (t : Text) → has_char t 39 ≡ false → is_critical (codes "grep '" ++ t ++ codes "'") ≡ false
unfolding is_critical check
is_critical-grep t h =
    ap (any (critical_words (check 4))) (grep-segments t h)
    ∙ any-one (critical_words (check 4))
        (if is_empty t then codes "grep" ∷ [] else codes "grep" ∷ t ∷ [])
    ∙ grep_either (check 4) t
