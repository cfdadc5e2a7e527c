-- ===== src/Execution/Marker/Roundtrip.antt =====
-- What the shell prints for an envelope, and `MarkerParser::feed` of src/execution.rs on it.
use securecrt_mcp.Prelude.{
  ℕ, ◌≡◌, refl, sym, ap, ◌∙◌, true, false, List, [], ◌∷◌, ◌++◌, ◌==◌, Option, none, some, All,
  All-append, All-map_of, append_assoc, append-nil, ◌≢◌,
}
use securecrt_mcp.Text.{Text, eq_text, strip_prefix, trim_end_matches}
use securecrt_mcp.Text.Equality.{eq_text_refl}
use securecrt_mcp.Text.Trim.{trim_end_matches-none, strip_prefix-append}
use securecrt_mcp.Execution.Marker.{
  newline, is_cr, MarkerParser, new, lines_of, take_trimmed, take_line, take_lines, end_status,
  parse_status, finish_feed, feed,
}
use securecrt_mcp.Execution.Marker.Lines.{lines_of-line, prefix_out}

eq_text-nil : (t : Text) → t ≢ [] → eq_text [] t ≡ false
unfolding eq_text
eq_text-nil [] h = absurd (h refl)
eq_text-nil (c ∷ t) h = refl

-- A line with no line feed and no carriage return.
abbrev pub IsPlain : Text → Type 0
IsPlain l = All (λ c. (c == newline) ≡ false) l × All (λ c. is_cr c ≡ false) l

abbrev pub unlines : List Text → Text
unlines [] = []
unlines (l ∷ ls) = l ++ newline ∷ unlines ls

-- A line of output that the parser cannot take for the end marker.
abbrev pub IsOutput : Text → Text → Type 0
IsOutput end l = IsPlain l × (end_status end l ≡ none)

lines_of-unlines :
    (ls : List Text) (s : Text)
    → All IsPlain ls
    → lines_of (unlines ls ++ s) ≡ (ls ++ (lines_of s).0, (lines_of s).1)
lines_of-unlines [] s h = refl
lines_of-unlines (l ∷ ls) s h =
    ap lines_of (append_assoc l (newline ∷ unlines ls) s)
    ∙ lines_of-line l (unlines ls ++ s) h.0.0
    ∙ ap (λ d. (l ∷ d.0, d.1)) (lines_of-unlines ls s h.1)

abbrev pub final_line : Text → Text → Text
final_line end status = end ++ 32 ∷ status

end_status_lem :
    (end status : Text) (code : ℕ)
    → parse_status status ≡ some code
    → end_status end (final_line end status) ≡ some code
unfolding end_status
end_status_lem end status code h =
    let cut : final_line end status ≡ (end ++ 32 ∷ []) ++ status =
      sym (append_assoc end (32 ∷ []) status) in
    let rest : strip_prefix (final_line end status) (end ++ 32 ∷ []) ≡ some status =
      ap (λ t. strip_prefix t (end ++ 32 ∷ [])) cut ∙ strip_prefix-append (end ++ 32 ∷ []) status in
    rw (rest, end_status) h

module _ (begin end status : Text) (code : ℕ) (plain_end : IsPlain (final_line end status))
    (parses : parse_status status ≡ some code) where
  -- The parser behind the begin marker, and behind the end marker.
  abbrev pub reading : MarkerParser
  reading = record {
    begin = begin;
    end = end;
    started = true;
    done = false;
    pending = [];
    mid_line = false;
    overflow = false;
  }

  abbrev pub finished : MarkerParser
  finished = record reading { done = true }

  trimmed : (l : Text) → All (λ c. is_cr c ≡ false) l → take_line reading l ≡ take_trimmed reading l
  unfolding take_line
  trimmed l h = ap (take_trimmed reading) (trim_end_matches-none is_cr l h)

  take_output :
      (l : Text) → IsOutput end l → take_line reading l ≡ (reading, l ++ newline ∷ [], none)
  unfolding take_trimmed
  take_output l o = trimmed l o.0.1 ∙ rw (o.1, take_trimmed)

  take_final : take_line reading (final_line end status) ≡ (finished, [], some code)
  unfolding take_trimmed
  take_final =
      trimmed (final_line end status) plain_end.1
      ∙ rw (end_status_lem end status code parses, take_trimmed)

  -- One line, and then the others.
  abbrev then_rest : List Text → MarkerParser × Text × Option ℕ → MarkerParser × Text × Option ℕ
  then_rest rest (q, out, exit) =
      let (r, more, last) = take_lines q rest in
      elim exit [ some code ↦ (q, out, some code) | none ↦ (r, out ++ more, last) ]

  take_body :
      (body : List Text)
      → All (IsOutput end) body
      → take_lines reading (body ++ final_line end status ∷ [])
        ≡ (finished, unlines body, some code)
  unfolding take_lines
  take_body [] o = ap (then_rest []) take_final
  take_body (l ∷ ls) o =
      ap (then_rest (ls ++ final_line end status ∷ [])) (take_output l o.0)
      ∙ ap (prefix_out (l ++ newline ∷ [])) (take_body ls o.1)
      ∙ ap (λ x. (finished, x, some code)) (append_assoc l (newline ∷ []) (unlines ls))

  -- The whole output of the shell: an empty line, the begin marker, the body, the end marker.
  abbrev pub printed : List Text → Text
  printed body = unlines ([] ∷ begin ∷ (body ++ final_line end status ∷ []))

  module _ (plain_begin : IsPlain begin) (nonempty : begin ≢ []) where
    abbrev pub waiting : MarkerParser
    waiting = new begin end

    waiting_empty : take_line waiting [] ≡ (waiting, [], none)
    unfolding take_line take_trimmed new trim_end_matches
    waiting_empty = rw (eq_text-nil begin nonempty)

    waiting_begin : take_line waiting begin ≡ (reading, [], none)
    unfolding take_line new
    waiting_begin =
        ap (take_trimmed waiting) (trim_end_matches-none is_cr begin plain_begin.1)
        ∙ unfold take_trimmed in rw (eq_text_refl begin)

    take_head :
        (rest : List Text) → take_lines waiting ([] ∷ begin ∷ rest) ≡ take_lines reading rest
    unfolding take_lines
    take_head rest = ap (then_rest (begin ∷ rest)) waiting_empty ∙ ap (then_rest rest) waiting_begin

    abbrev all_lines : List Text → List Text
    all_lines body = [] ∷ begin ∷ (body ++ final_line end status ∷ [])

    lines_of-printed :
        (body : List Text)
        → All (IsOutput end) body
        → lines_of (printed body) ≡ (all_lines body, [])
    lines_of-printed body o =
        ap lines_of (sym (append-nil (printed body)))
        ∙ lines_of-unlines (all_lines body) [] (
          (tt, tt),
          (
            plain_begin,
            All-append IsPlain body (final_line end status ∷ [])
                (All-map_of (IsOutput end) IsPlain (λ l h. h.0) body o) (plain_end, tt),
          ),
        )
        ∙ unfold lines_of in ap (λ x. (x, [])) (append-nil (all_lines body))

    -- The parser reads what the shell prints for an envelope as the lines of the command's output and
    -- the exit code that follows the end marker, if the markers and the output's lines have no line
    -- feed and no carriage return, no output line is an end marker and the begin marker is not empty.
    pub feed-printed :
        (body : List Text)
        → All (IsOutput end) body
        → feed waiting (printed body) ≡ (finished, unlines body, some code)
    unfolding feed new
    feed-printed body o =
        ap (λ d. finish_feed (take_lines waiting d.0) d.1) (lines_of-printed body o)
        ∙ ap (λ t. finish_feed t [])
            (take_head (body ++ final_line end status ∷ []) ∙ take_body body o)
