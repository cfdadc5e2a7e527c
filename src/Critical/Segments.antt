-- ===== src/Critical/Segments.antt =====
-- `segments` of src/critical.rs: a command line as segments of words.
use securecrt_mcp.Prelude.{
  ℕ, Bool, true, false, not, ◌&&◌, ◌||◌, List, [], ◌∷◌, ◌++◌, ◌==◌, if◌then◌else◌, Option, none,
  some,
}
use securecrt_mcp.Text.{Text, is_whitespace}

-- The state of the loop of `segments`.
pub record Lexer : Type 0 where
  pub result : List (List Text)
  pub words : List Text
  pub word : Text
  pub quote : Option ℕ
  pub escape : Bool

abbrev pub lexer : Lexer
lexer = record { result = []; words = []; word = []; quote = none; escape = false }

-- `";|&()".contains(c)`.
unfoldable pub is_separator : ℕ → Bool
is_separator c = c == b';' || c == b'|' || c == b'&' || c == b'(' || c == b')'

abbrev is_quote : ℕ → Option ℕ → Bool
is_quote c none = false
is_quote c (some q) = c == q

-- `if !word.text.is_empty() { words.push(take(word)) }`.
unfoldable pub push_word : Text → List Text → List Text
push_word [] words = words
push_word (c ∷ w) words = words ++ (c ∷ w) ∷ []

unfoldable pub push_segment : List Text → List (List Text) → List (List Text)
push_segment [] result = result
push_segment (w ∷ ws) result = result ++ (w ∷ ws) ∷ []

abbrev push_char : ℕ → Lexer → Lexer
push_char c l = record l { word = l.word ++ c ∷ [] }

-- A character outside quotes that is neither a quote nor a backslash.
unfoldable pub lex_plain : ℕ → Lexer → Lexer
unfolding is_whitespace is_separator push_word push_segment
lex_plain c l =
    let words = push_word l.word l.words in
    if is_whitespace c
    then record l { word = []; words = words }
    else if is_separator c
    then record l { word = []; words = []; result = push_segment words l.result }
    else push_char c l

unfoldable pub lex_char : Lexer → ℕ → Lexer
unfolding lex_plain
lex_char l c =
    if l.escape
    then record (push_char c l) { escape = false }
    else if c == 92 && not (is_quote 39 l.quote)
    then record l { escape = true }
    else elim l.quote [
      | some q ↦ if c == q then record l { quote = none } else push_char c l
      | none ↦ if c == 39 || c == 34 then record l { quote = some c } else lex_plain c l
    ]

unfoldable pub lex : Lexer → Text → Lexer
unfolding lex_char
lex l [] = l
lex l (c ∷ s) = lex (lex_char l c) s

unfoldable pub finish_lexer : Lexer → List (List Text)
unfolding push_word push_segment
finish_lexer l = push_segment (push_word l.word l.words) l.result

unfoldable pub segments : Text → List (List Text)
unfolding lex finish_lexer
segments input = finish_lexer (lex lexer input)
