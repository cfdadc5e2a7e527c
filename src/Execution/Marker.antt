-- ===== src/Execution/Marker.antt =====
-- The POSIX envelope of src/execution.rs and `MarkerParser`, which reads its output back.
pub mod Lines
pub mod Chunks
pub mod Roundtrip
pub mod Quoting
pub mod Done
pub mod Reads
pub mod Cuts
use securecrt_mcp.Prelude.{
  ℕ, zero, suc, ◌+◌, ◌-◌, ◌≤◌, ◌<◌, min, max, ◌≡◌, refl, sym, ap, ◌∙◌, Bool, true, false, not, ◌&&◌,
  ◌||◌, List, [], ◌∷◌, ◌++◌, arith, ltb, leb, ◌==◌, if◌then◌else◌, Bool-cases, Option-cases, inl,
  inr, Option, none, some, All, append_assoc, append-nil, Result, ok, err, ◌>>=◌, ◌>>◌, ensure,
  context, is_some, unwrap_or, is_empty, all, any, ◌*◌, ◌≢◌, ◌⊎◌, ◌↔◌, subst,
}
use securecrt_mcp.Text.{
  Text, codes, len, eq_text, strip_prefix, ends_with, trim_end_matches, trim_end,
}

-- `'\n'`, `'\r'`, `' '` and `'\''`.
abbrev pub newline : ℕ
newline = 10

abbrev pub carriage_return : ℕ
carriage_return = 13

abbrev pub quote_mark : ℕ
quote_mark = 39

-- `command.replace('\'', "'\\''")`.
unfoldable pub quoted : Text → Text
quoted [] = []
quoted (c ∷ s) = if c == quote_mark then 39 ∷ 92 ∷ 39 ∷ 39 ∷ quoted s else c ∷ quoted s

unfoldable pub envelope : Text → Text → Text → Text
unfolding quoted
envelope command begin end =
    codes "printf '\\n%s\\n' '"
    ++ (begin
        ++ (codes "'; eval '"
            ++ (quoted command ++ (codes "'; printf '\\n" ++ (end ++ codes " %s\\n' \"$?\"")))))

-- A number of decimal digits, at least one.
unfoldable pub digits_from : ℕ → Text → Option ℕ
digits_from n [] = some n
digits_from n (c ∷ s) =
    let rest = digits_from (n * 10 + (c - 48)) s in if leb 48 c && leb c 57 then rest else none

unfoldable pub digits : Text → Option ℕ
unfolding digits_from
digits [] = none
digits (c ∷ s) = digits_from 0 (c ∷ s)

-- `status.parse::<i32>()` with `(0..=255).contains(&code)`: a sign may stand in front; `-0` is 0. A
-- number beyond `i32` is no `i32`, and beyond 255 as well.
abbrev in_byte : Option ℕ → Option ℕ
in_byte none = none
in_byte (some n) = if leb n 255 then some n else none

abbrev zero_only : Option ℕ → Option ℕ
zero_only none = none
zero_only (some n) = if n == 0 then some 0 else none

unfoldable pub parse_status : Text → Option ℕ
unfolding digits
parse_status [] = none
parse_status (c ∷ s) =
    if c == b'+'
    then in_byte (digits s)
    else if c == b'-'
    then zero_only (digits s)
    else in_byte (digits (c ∷ s))

pub record MarkerParser : Type 0 where
  pub begin : Text
  pub end : Text
  pub started : Bool
  pub done : Bool
  pub pending : Text
  pub mid_line : Bool
  pub overflow : Bool

unfoldable pub new : Text → Text → MarkerParser
new begin end = record {
  begin = begin;
  end = end;
  started = false;
  done = false;
  pending = [];
  mid_line = false;
  overflow = false;
}

unfoldable pub drain_partial : MarkerParser → Text × MarkerParser
drain_partial p =
    if not p.started || p.done then ([], p) else (p.pending, record p { pending = [] })

-- What the loop over `pending.find('\n')` takes off the front: the complete lines, without their
-- line feed, and the rest.
abbrev push_line : ℕ → List Text × Text → List Text × Text
push_line c ([], rest) = ([], c ∷ rest)
push_line c (l ∷ ls, rest) = ((c ∷ l) ∷ ls, rest)

abbrev end_line : List Text × Text → List Text × Text
end_line (ls, rest) = ([] ∷ ls, rest)

unfoldable pub lines_of : Text → List Text × Text
lines_of [] = ([], [])
lines_of (c ∷ s) = let rest = lines_of s in if c == newline then end_line rest else push_line c rest

unfoldable pub is_cr : ℕ → Bool
is_cr c = c == carriage_return

-- The status of a line that is the end marker.
unfoldable pub end_status : Text → Text → Option ℕ
unfolding strip_prefix parse_status
end_status end line = elim (strip_prefix line (end ++ 32 ∷ [])) [
  | none ↦ none
  | some s ↦ parse_status s
]

-- One turn of the loop, on a line without its carriage returns: the parser, what it outputs, and the
-- exit code if it is done.
unfoldable pub take_trimmed : MarkerParser → Text → MarkerParser × Text × Option ℕ
unfolding end_status
take_trimmed p line =
    let begins = not p.mid_line && eq_text line p.begin in
    if not p.started
    then (record p { started = begins; mid_line = false }, [], none)
    else elim (if p.mid_line then none else end_status p.end line) [
      | some code ↦ (record p { done = true; pending = [] }, [], some code)
      | none ↦ (record p { mid_line = false }, line ++ newline ∷ [], none)
    ]

unfoldable pub take_line : MarkerParser → Text → MarkerParser × Text × Option ℕ
unfolding take_trimmed is_cr
take_line p raw = take_trimmed p (trim_end_matches is_cr raw)

-- The loop, which leaves at the end marker.
unfoldable pub take_lines : MarkerParser → List Text → MarkerParser × Text × Option ℕ
unfolding take_line
take_lines p [] = (p, [], none)
take_lines p (raw ∷ rest) =
    let (q, out, exit) = take_line p raw in
    let (r, more, last) = take_lines q rest in
    elim exit [ some code ↦ (q, out, some code) | none ↦ (r, out ++ more, last) ]

-- Everything but a last carriage return, and that one.
abbrev push_head : ℕ → Text × Text → Text × Text
push_head c (s, r) = (c ∷ s, r)

unfoldable pub split_cr : Text → Text × Text
unfolding is_cr
split_cr [] = ([], [])
split_cr (c ∷ []) = if is_cr c then ([], c ∷ []) else (c ∷ [], [])
split_cr (c ∷ d ∷ s) = push_head c (split_cr (d ∷ s))

unfoldable pub pending_bound : MarkerParser → ℕ
pending_bound p = max (len p.begin) (len p.end) + 32

-- What follows the loop: a long unfinished line flows on, but for a carriage return at its end.
unfoldable pub flush : MarkerParser → MarkerParser × Text
unfolding pending_bound split_cr
flush p =
    let (flowing, kept) = split_cr p.pending in
    if ltb (pending_bound p) (len p.pending)
    then (record p { pending = kept; mid_line = true }, if p.started then flowing else [])
    else (p, [])

unfoldable pub finish_feed : MarkerParser × Text × Option ℕ → Text → MarkerParser × Text × Option ℕ
unfolding flush
finish_feed (q, out, some code) rest = (q, out, some code)
finish_feed (q, out, none) rest =
    let (r, more) = flush (record q { pending = rest }) in (r, out ++ more, none)

-- The loop drains `pending`: during it the model keeps the rest apart.
unfoldable pub feed : MarkerParser → Text → MarkerParser × Text × Option ℕ
unfolding take_lines lines_of finish_feed
feed p chunk =
    let (lines, rest) = lines_of (p.pending ++ chunk) in
    if p.done
    then (p, [], none)
    else finish_feed (take_lines (record p { pending = [] }) lines) rest

-- `literal_prompt_observed`.
unfoldable pub literal_prompt_observed : Text → Text → Bool
unfolding ends_with trim_end_matches
literal_prompt_observed prompt_tail wait_for =
    not (is_empty wait_for)
    && ends_with
        (trim_end_matches (λ c. c == carriage_return || c == newline || c == 32) prompt_tail)
        wait_for
