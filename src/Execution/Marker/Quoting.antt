-- ===== src/Execution/Marker/Quoting.antt =====
-- A reading of POSIX quotes, independent of `envelope` of src/execution.rs, and what it makes of the
-- quoted command.
use securecrt_mcp.Prelude.{
  ℕ, ◌≡◌, refl, sym, ap, ◌∙◌, Bool, true, ◌||◌, [], ◌∷◌, ◌++◌, arith, ◌==◌, if◌then◌else◌,
  Bool-cases, inl, inr, Option, none, some,
}
use securecrt_mcp.Text.{Text, codes}
use securecrt_mcp.Execution.Marker.{quote_mark, quoted, envelope}

-- A POSIX word as the shell reads it, from the state inside or outside single quotes: characters up
-- to a blank or a semicolon outside quotes, and the text from there. Outside quotes a backslash takes
-- the next character as it is. `none` is an unfinished word.
pub data Quoting : Type 0 where
  outside inside escaped : Quoting

abbrev is_delimiter : ℕ → Bool
is_delimiter c = c == 32 || c == b';'

abbrev push_char : ℕ → Option (Text × Text) → Option (Text × Text)
push_char c none = none
push_char c (some (word, rest)) = some (c ∷ word, rest)

unfoldable pub shell_word : Quoting → Text → Option (Text × Text)
shell_word outside [] = some ([], [])
shell_word outside (c ∷ s) =
    let open' = shell_word inside s in
    let escape = shell_word escaped s in
    let plain = shell_word outside s in
    if is_delimiter c
    then some ([], c ∷ s)
    else if c == quote_mark
    then open'
    else if c == 92
    then escape
    else push_char c plain
shell_word inside [] = none
shell_word inside (c ∷ s) =
    let close = shell_word outside s in
    let more = shell_word inside s in if c == quote_mark then close else push_char c more
shell_word escaped [] = none
shell_word escaped (c ∷ s) = let more = shell_word outside s in push_char c more

-- From inside the quotes the quoted text, the closing quote and a delimiter read as the command.
shell_word-quoted :
    (command rest : Text) (d : ℕ)
    → is_delimiter d ≡ true
    → shell_word inside (quoted command ++ quote_mark ∷ d ∷ rest) ≡ some (command, d ∷ rest)
unfolding shell_word quoted
shell_word-quoted [] rest d h = rw h
shell_word-quoted (c ∷ s) rest d h = elim (Bool-cases (c == quote_mark)) [
  | inl e ↦
      let same : c ≡ quote_mark = ground arith in
      rw e (
        ap (push_char quote_mark) (shell_word-quoted s rest d h)
        ∙ ap (λ x. some (x ∷ s, d ∷ rest)) (sym same))
  | inr e ↦ rw e (rw e (ap (push_char c) (shell_word-quoted s rest d h)))
]

-- The part of the envelope from the argument of `eval` on, and the part behind that argument.
abbrev pub after_eval : Text → Text
after_eval end = codes " printf '\\n" ++ (end ++ codes " %s\\n' \"$?\"")

abbrev pub from_eval : Text → Text → Text
from_eval command end = quote_mark ∷ quoted command ++ quote_mark ∷ b';' ∷ after_eval end

-- The envelope is its first command, then `eval` with an argument; and the word that the shell reads
-- there is the command itself, whatever characters it has, with the second marker's command behind it.
pub eval_word-envelope :
    (command begin end : Text)
    → (envelope command begin end
        ≡ codes "printf '\\n%s\\n' '" ++ (begin ++ (codes "'; eval " ++ from_eval command end)))
      × (shell_word outside (from_eval command end) ≡ some (command, b';' ∷ after_eval end))
unfolding shell_word envelope
eval_word-envelope command begin end = (refl, shell_word-quoted command (after_eval end) b';' refl)
