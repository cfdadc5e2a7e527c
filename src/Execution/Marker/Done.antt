-- ===== src/Execution/Marker/Done.antt =====
-- `MarkerParser` gives an exit code exactly when it turns done.
use securecrt_mcp.Prelude.{ℕ, ◌≡◌, true, List, [], ◌∷◌, ◌++◌, arith, Option, none, some, if_holds}
use securecrt_mcp.Text.{Text, trim_end_matches}
use securecrt_mcp.Execution.Marker.{
  MarkerParser, feed, take_trimmed, take_line, take_lines, finish_feed, lines_of, is_cr,
}

-- A parser that gives an exit code is done.
abbrev pub IsDone : MarkerParser × Text × Option ℕ → Type 0
IsDone (q, out, none) = Unit
IsDone (q, out, some exit) = q.done ≡ true

take_trimmed-IsDone : (p : MarkerParser) (line : Text) → IsDone (take_trimmed p line)
unfolding take_trimmed
take_trimmed-IsDone p line = ground arith

first-IsDone :
    (x y : MarkerParser × Text × Option ℕ)
    → IsDone x
    → IsDone y
    → IsDone (elim x.2 [ some code ↦ (x.0, x.1, some code) | none ↦ (y.0, x.1 ++ y.1, y.2) ])
first-IsDone (q, out, none) (r, more, none) h k = tt
first-IsDone (q, out, none) (r, more, some last) h k = k
first-IsDone (q, out, some code) y h k = h

take_lines-IsDone : (p : MarkerParser) (lines : List Text) → IsDone (take_lines p lines)
unfolding take_lines take_line
take_lines-IsDone p [] = tt
take_lines-IsDone p (raw ∷ rest) =
    first-IsDone (take_line p raw) (take_lines (take_line p raw).0 rest)
      (take_trimmed-IsDone p (trim_end_matches is_cr raw))
      (take_lines-IsDone (take_line p raw).0 rest)

finish_feed-IsDone :
    (x : MarkerParser × Text × Option ℕ) (rest : Text) → IsDone x → IsDone (finish_feed x rest)
unfolding finish_feed
finish_feed-IsDone (q, out, none) rest h = tt
finish_feed-IsDone (q, out, some exit) rest h = h

pub feed-IsDone : (p : MarkerParser) (chunk : Text) → IsDone (feed p chunk)
unfolding feed
feed-IsDone p chunk =
    let lines = lines_of (p.pending ++ chunk) in
    let q : MarkerParser = record p { pending = [] } in
    if_holds IsDone p.done (p, [], none) (finish_feed (take_lines q lines.0) lines.1) (λ e. tt)
      λ e. finish_feed-IsDone (take_lines q lines.0) lines.1 (take_lines-IsDone q lines.0)
