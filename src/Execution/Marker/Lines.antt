-- ===== src/Execution/Marker/Lines.antt =====
-- How a text falls into its lines, and how the loop takes them.
use securecrt_mcp.Prelude.{
  ℕ, ◌≡◌, refl, sym, ap, ◌∙◌, false, List, [], ◌∷◌, ◌++◌, ◌==◌, Bool-cases, inl, inr, Option, none,
  some, All, append_assoc,
}
use securecrt_mcp.Text.{Text}
use securecrt_mcp.Execution.Marker.{
  newline, MarkerParser, push_line, end_line, lines_of, take_line, take_lines,
}

-- A text in two parts: the complete lines of the first, then those of its rest and the second.
abbrev pub then_lines : List Text × Text → Text → List Text × Text
then_lines (ls, rest) t = let (more, last) = lines_of (rest ++ t) in (ls ++ more, last)

push_line-then_lines :
    (c : ℕ) (d : List Text × Text) (t : Text)
    → (c == newline) ≡ false
    → push_line c (then_lines d t) ≡ then_lines (push_line c d) t
unfolding lines_of
push_line-then_lines c ([], rest) t h = rw h
push_line-then_lines c (l ∷ ls, rest) t h = refl

pub lines_of-append : (s t : Text) → lines_of (s ++ t) ≡ then_lines (lines_of s) t
unfolding lines_of
lines_of-append [] t = refl
lines_of-append (c ∷ s) t = elim (Bool-cases (c == newline)) [
  | inl e ↦ rw e (ap end_line (lines_of-append s t))
  | inr e ↦ rw e (ap (push_line c) (lines_of-append s t) ∙ push_line-then_lines c (lines_of s) t e)
]

-- A line, its line feed, and what follows.
pub lines_of-line :
    (l s : Text)
    → All (λ c. (c == newline) ≡ false) l
    → lines_of (l ++ newline ∷ s) ≡ (l ∷ (lines_of s).0, (lines_of s).1)
unfolding lines_of
lines_of-line [] s h = refl
lines_of-line (c ∷ l) s h = rw h.0 (ap (push_line c) (lines_of-line l s h.1))

-- Two runs of the loop in a row.
abbrev pub then_take : MarkerParser × Text × Option ℕ → List Text → MarkerParser × Text × Option ℕ
then_take (q, out, exit) rest =
    let (r, more, last) = take_lines q rest in
    elim exit [ some code ↦ (q, out, some code) | none ↦ (r, out ++ more, last) ]

abbrev pub prefix_out : Text → MarkerParser × Text × Option ℕ → MarkerParser × Text × Option ℕ
prefix_out out (r, more, last) = (r, out ++ more, last)

prefix_out-then_take :
    (out : Text) (t : MarkerParser × Text × Option ℕ) (rest : List Text)
    → prefix_out out (then_take t rest) ≡ then_take (prefix_out out t) rest
prefix_out-then_take out (r, more, some code) rest = refl
prefix_out-then_take out (r, more, none) rest =
    ap (λ x. ((take_lines r rest).0, x, (take_lines r rest).2))
      (sym (append_assoc out more (take_lines r rest).1))

pub take_lines-append :
    (p : MarkerParser) (ls rest : List Text)
    → take_lines p (ls ++ rest) ≡ then_take (take_lines p ls) rest
unfolding take_lines
take_lines-append p [] rest = refl
take_lines-append p (l ∷ ls) rest = go (take_line p l).2 (
    ap (prefix_out (take_line p l).1) (take_lines-append (take_line p l).0 ls rest)
    ∙ prefix_out-then_take (take_line p l).1 (take_lines (take_line p l).0 ls) rest)
  where
    go :
        (exit : Option ℕ)
        → prefix_out (take_line p l).1 (take_lines (take_line p l).0 (ls ++ rest))
          ≡ then_take (prefix_out (take_line p l).1 (take_lines (take_line p l).0 ls)) rest
        → elim exit [
          | some code ↦ ((take_line p l).0, (take_line p l).1, some code)
          | none ↦ prefix_out (take_line p l).1 (take_lines (take_line p l).0 (ls ++ rest))
        ]
          ≡ then_take
              (elim exit [
                | some code ↦ ((take_line p l).0, (take_line p l).1, some code)
                | none ↦ prefix_out (take_line p l).1 (take_lines (take_line p l).0 ls)
              ])
              rest
    go (some code) h = refl
    go none h = h
