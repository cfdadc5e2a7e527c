-- ===== src/Execution/Marker/Reads.antt =====
-- How the loop of `MarkerParser::feed` of src/execution.rs reads the lines of a text: carriage returns
-- may be lost, and nothing else.
use securecrt_mcp.Prelude.{
  ℕ, ◌≡◌, refl, sym, ap, ap₂, ◌∙◌, true, List, [], ◌∷◌, ◌++◌, arith, ◌==◌, if◌then◌else◌,
  Bool-cases, Option-cases, inl, inr, Option, none, some, append_assoc, subst,
}
use securecrt_mcp.Text.{Text, trim_end_matches}
use securecrt_mcp.Execution.Marker.{
  newline, MarkerParser, push_line, lines_of, is_cr, end_status, take_trimmed, take_line,
  take_lines, split_cr,
}
use securecrt_mcp.Execution.Marker.Chunks.{take_line-Kept}

-- A text but for its carriage returns.
abbrev pub without_cr : Text → Text
without_cr [] = []
without_cr (c ∷ s) = let rest = without_cr s in if c == 13 then rest else c ∷ rest

unfoldable pub unlines : List Text → Text
unlines [] = []
unlines (l ∷ ls) = l ++ newline ∷ unlines ls

pub without_cr-append : (s t : Text) → without_cr (s ++ t) ≡ without_cr s ++ without_cr t
without_cr-append [] t = refl
without_cr-append (c ∷ s) t = ground (arith, without_cr-append s t)

without_cr-trim : (s : Text) → without_cr (trim_end_matches is_cr s) ≡ without_cr s
unfolding trim_end_matches is_cr
without_cr-trim [] = refl
without_cr-trim (c ∷ s) = ground (arith, without_cr-trim s)

pub split_cr-join : (s : Text) → (split_cr s).0 ++ (split_cr s).1 ≡ s
unfolding split_cr
split_cr-join [] = refl
split_cr-join (c ∷ []) = ground arith
split_cr-join (c ∷ d ∷ s) = ap (λ t. c ∷ t) (split_cr-join (d ∷ s))

joined_push :
    (c : ℕ) (d : List Text × Text)
    → unlines (push_line c d).0 ++ (push_line c d).1 ≡ c ∷ (unlines d.0 ++ d.1)
unfolding unlines
joined_push c ([], rest) = refl
joined_push c (l ∷ ls, rest) = refl

==→eq : (a b : ℕ) → (a == b) ≡ true → a ≡ b
==→eq a b h = ground arith

pub lines_of-join : (s : Text) → unlines (lines_of s).0 ++ (lines_of s).1 ≡ s
unfolding unlines lines_of
lines_of-join [] = refl
lines_of-join (c ∷ s) = elim (Bool-cases (c == newline)) [
  | inl e ↦ rw e (ap₂ (λ d t. d ∷ t) (sym (==→eq c newline e)) (lines_of-join s))
  | inr e ↦ rw e (joined_push c (lines_of s) ∙ ap (λ t. c ∷ t) (lines_of-join s))
]

-- A text read as output and an unfinished line, or as output up to the line of the exit code.
abbrev pub Reads : Text → Text → Text → Option ℕ → Text → Type 0
Reads end text out none open_line = without_cr text ≡ without_cr out ++ without_cr open_line
Reads end text out (some code) open_line =
    (line : Text) × (rest : Text) × (without_cr text
      ≡ without_cr out ++ without_cr (line ++ newline ∷ rest))
    × (end_status end line ≡ some code)

pub grouped :
    (out more t : Text) → without_cr out ++ (without_cr more ++ t) ≡ without_cr (out ++ more) ++ t
grouped out more t =
    sym (append_assoc (without_cr out) (without_cr more) t)
    ∙ ap (λ x. x ++ t) (sym (without_cr-append out more))

pub Reads-after :
    (end text out text' more : Text) (last : Option ℕ) (open_line : Text)
    → without_cr text ≡ without_cr out ++ without_cr text'
    → Reads end text' more last open_line
    → Reads end text (out ++ more) last open_line
Reads-after end text out text' more none open_line h k =
    h ∙ ap (λ t. without_cr out ++ t) k ∙ grouped out more (without_cr open_line)
Reads-after end text out text' more (some code) open_line h (line, rest, k, e) = (
  line,
  rest,
  h ∙ ap (λ t. without_cr out ++ t) k ∙ grouped out more (without_cr (line ++ newline ∷ rest)),
  e,
)

-- A turn of the loop, with what follows its line.
take_line-Reads :
    (p : MarkerParser) (raw rest : Text)
    → p.started ≡ true
    → Reads p.end (raw ++ newline ∷ rest) (take_line p raw).1 (take_line p raw).2 rest
unfolding take_line take_trimmed
take_line-Reads p raw rest h =
    let line = trim_end_matches is_cr raw in
    let same : without_cr (raw ++ newline ∷ rest) ≡ without_cr line ++ newline ∷ without_cr rest =
      without_cr-append raw (newline ∷ rest)
      ∙ ap (λ t. t ++ newline ∷ without_cr rest) (sym (without_cr-trim raw)) in
    elim (Option-cases (if p.mid_line then none else end_status p.end line)) [
      | inl e ↦ rw h (
          rw e (
            same
            ∙ sym (append_assoc (without_cr line) (newline ∷ []) (without_cr rest))
            ∙ ap (λ t. t ++ without_cr rest) (sym (without_cr-append line (newline ∷ [])))))
      | inr (code, e) ↦ rw h (
          rw e
            (line, rest, same ∙ sym (without_cr-append line (newline ∷ rest)), ground (arith, e)))
    ]

take_line-started :
    (p : MarkerParser) (raw : Text) → p.started ≡ true → (take_line p raw).0.started ≡ true
unfolding take_line take_trimmed
take_line-started p raw h = ground arith

-- A line and the lines behind it, unless it ends the loop.
abbrev unless_done :
    MarkerParser × Text × Option ℕ → MarkerParser × Text × Option ℕ → MarkerParser × Text × Option ℕ
unless_done (q, out, exit) (r, more, last) = elim exit [
  | some code ↦ (q, out, some code)
  | none ↦ (r, out ++ more, last)
]

unless_done-Reads :
    (end text rest open_line : Text) (q : MarkerParser) (out : Text) (exit : Option ℕ)
    (t : MarkerParser × Text × Option ℕ)
    → Reads end text out exit rest
    → Reads end rest t.1 t.2 open_line
    → Reads end text (unless_done (q, out, exit) t).1 (unless_done (q, out, exit) t).2 open_line
unless_done-Reads end text rest open_line q out (some code) t h k = h
unless_done-Reads end text rest open_line q out none (r, more, last) h k =
    Reads-after end text out rest more last open_line h k

unless_done-started :
    (q : MarkerParser) (out : Text) (exit : Option ℕ) (t : MarkerParser × Text × Option ℕ)
    → q.started ≡ true
    → t.0.started ≡ true
    → (unless_done (q, out, exit) t).0.started ≡ true
unless_done-started q out (some code) t h k = h
unless_done-started q out none t h k = k

pub take_lines-Reads :
    (p : MarkerParser) (ls : List Text) (rest : Text)
    → p.started ≡ true
    → Reads p.end (unlines ls ++ rest) (take_lines p ls).1 (take_lines p ls).2 rest
unfolding take_lines unlines
take_lines-Reads p [] rest h = refl
take_lines-Reads p (l ∷ ls) rest h =
    let (q, out, exit) = take_line p l in
    let later = take_lines q ls in
    let whole = unless_done (q, out, exit) later in
    let text = unlines ls ++ rest in
    let behind = take_lines-Reads q ls rest (take_line-started p l h) in
    subst (λ t. Reads p.end t whole.1 whole.2 rest)
      (sym (append_assoc l (newline ∷ unlines ls) rest))
      (unless_done-Reads p.end (l ++ newline ∷ text) text rest q out exit later
        (take_line-Reads p l text h)
        (subst (λ e. Reads e text later.1 later.2 rest) (take_line-Kept p l).1 behind))

pub take_lines-started :
    (p : MarkerParser) (ls : List Text) → p.started ≡ true → (take_lines p ls).0.started ≡ true
unfolding take_lines
take_lines-started p [] h = h
take_lines-started p (l ∷ ls) h =
    let (q, out, exit) = take_line p l in
    let next = take_line-started p l h in
    unless_done-started q out exit (take_lines q ls) next (take_lines-started q ls next)
