-- ===== src/Connector/Exec/Readback.antt =====
-- What the shell prints for the envelope of src/connector/exec.rs, and the loop of `run_exec` on it.
use securecrt_mcp.Prelude.{
  ℕ, zero, suc, ◌+◌, ◌-◌, ◌≤◌, ◌<◌, min, ◌≡◌, refl, sym, ap, ap₂, ◌∙◌, Bool, true, false, List, [],
  ◌∷◌, ◌++◌, arith, ltb, ◌==◌, none, some, All, append_assoc, append-nil, is_empty,
}
use securecrt_mcp.Prelude.{length, take, length-append}
use securecrt_mcp.Text.{Text, eq_text, strip_prefix, trim_end_matches}
use securecrt_mcp.Text.Equality.{eq_text_refl}
use securecrt_mcp.Text.Trim.{trim_end_matches-none, strip_prefix-append, trim_end_matches_last}
use securecrt_mcp.Connector.Exec.{
  max_output, line_feed, ExitCode, parse_i32, ends_line, pop_last, finish_framed_output, Reader,
  fresh_reader, is_line_end, exit_of, collect, continue, returned, return_framed, collect_started,
  take_line, on_continue, read_lines, Stop, completed, answered, outcome_of, settle, run_exec,
}

abbrev pub concat : List Text → Text
concat [] = []
concat (c ∷ cs) = c ++ concat cs

-- A chunk of the command's output: it is not empty, and no marker where it stands at a line's start.
abbrev pub IsBody : Text → Text → Text → Type 0
IsBody begin end line =
    (eq_text (trim_end_matches is_line_end line) begin ≡ false)
    × (exit_of end (trim_end_matches is_line_end line) ≡ none)
    × (is_empty line ≡ false)

-- Whether the next chunk stands at a line's start.
abbrev pub line_start_after : Bool → List Text → Bool
line_start_after b [] = b
line_start_after b (c ∷ cs) = line_start_after (ends_line c) cs

abbrev reading : Text → Bool → Reader
reading output at_line_start = record {
  output = output;
  started = true;
  truncated = false;
  at_line_start = at_line_start;
}

take-length : {A : Type 0} (xs : List A) → take (length xs) xs ≡ xs
take-length [] = refl
take-length (x ∷ xs) = ap (λ r. x ∷ r) (take-length xs)

nonempty_length : (s : Text) → is_empty s ≡ false → 0 < length s
nonempty_length [] h = cc
nonempty_length (c ∷ s) h = omega arith

collect_room :
    (line output : Text) (b : Bool)
    → is_empty line ≡ false
    → length output + length line ≤ max_output + 1
    → collect line (reading output b) ≡ reading (output ++ line) b
unfolding collect
collect_room line output b n room =
    let some_room : ltb (length output) (max_output + 1) ≡ true =
      let k = nonempty_length line n in ground arith in
    let whole : min (max_output + 1 - length output) (length line) ≡ length line =
      omega (arith, room) in
    let same : (length line == length line) ≡ true = ground arith in
    rw (some_room, whole, same, take-length line) refl

take_body_line :
    (begin end line output : Text) (b : Bool)
    → IsBody begin end line
    → length output + length line ≤ max_output + 1
    → take_line begin end (reading output b) line
      ≡ continue (reading (output ++ line) (ends_line line))
unfolding take_line collect_started
take_body_line begin end line output true (x, y, n) room =
    rw (x, y, take_line) (ap continue (collect_room line output (ends_line line) n room))
take_body_line begin end line output false (x, y, n) room =
    ap continue (collect_room line output (ends_line line) n room)

read_body :
    (begin end : Text) (cs rest : List Text) (output : Text) (b : Bool)
    → All (IsBody begin end) cs
    → length output + length (concat cs) ≤ max_output + 1
    → read_lines begin end (reading output b) (cs ++ rest)
      ≡ read_lines begin end (reading (output ++ concat cs) (line_start_after b cs)) rest
unfolding read_lines
read_body begin end [] rest output b h room =
    ap (λ o. read_lines begin end (reading o b) rest) (sym (append-nil output))
read_body begin end (c ∷ cs) rest output b h room =
    ap (on_continue (λ q. read_lines begin end q (cs ++ rest)))
      (take_body_line begin end c output b h.0 (omega (arith, room, length-append c (concat cs))))
    ∙ read_body begin end cs rest (output ++ c) (ends_line c) h.1
        (omega (arith, room, length-append c (concat cs), length-append output c))
    ∙ ap (λ o. read_lines begin end (reading o (line_start_after (ends_line c) cs)) rest)
        (append_assoc output c (concat cs))

ends_line_last : (s : Text) → ends_line (s ++ line_feed ∷ []) ≡ true
unfolding ends_line
ends_line_last [] = refl
ends_line_last (c ∷ []) = refl
ends_line_last (c ∷ d ∷ s) = ends_line_last (d ∷ s)

pop_last-append : (s : Text) → pop_last (s ++ line_feed ∷ []) ≡ s
unfolding pop_last
pop_last-append [] = refl
pop_last-append (c ∷ []) = refl
pop_last-append (c ∷ d ∷ s) = ap (λ r. c ∷ r) (pop_last-append (d ∷ s))

take_enough : (n : ℕ) (s : Text) → length s ≤ n → take n s ≡ s
take_enough zero [] h = refl
take_enough (suc n) [] h = refl
take_enough zero (c ∷ s) h = absurd (omega (arith, h))
take_enough (suc n) (c ∷ s) h = ap (λ r. c ∷ r) (take_enough n s (omega (arith, h)))

-- The framing line feed is taken off, and nothing of an output within the limit.
finish_framed :
    (body : Text)
    → length body ≤ max_output
    → finish_framed_output (body ++ line_feed ∷ []) false ≡ (body, false)
unfolding finish_framed_output
finish_framed body h =
    let fits : ltb max_output (length body) ≡ false = ground arith in
    rw (ends_line_last body, pop_last-append body, take_enough max_output body h, fits) refl

eq_text_empty : (t : Text) → is_empty t ≡ false → eq_text [] t ≡ false
unfolding eq_text
eq_text_empty [] h = cc
eq_text_empty (c ∷ t) h = refl

exit_of_empty : (end : Text) → exit_of end [] ≡ none
unfolding exit_of strip_prefix
exit_of_empty [] = refl
exit_of_empty (c ∷ end) = refl

module _ (begin end status : Text) (code : ExitCode) where
  -- The line of the end marker, without its line feed.
  abbrev pub last_line : Text
  last_line = end ++ 32 ∷ status

  exit_of_last : parse_i32 status ≡ some code → exit_of end last_line ≡ some code
  unfolding exit_of
  exit_of_last parses =
      let cut : last_line ≡ (end ++ 32 ∷ []) ++ status = sym (append_assoc end (32 ∷ []) status) in
      let rest : strip_prefix last_line (end ++ 32 ∷ []) ≡ some status =
        ap (λ t. strip_prefix t (end ++ 32 ∷ [])) cut
        ∙ strip_prefix-append (end ++ 32 ∷ []) status in
      rw (rest, exit_of) parses

  trimmed_line :
      (l : Text)
      → All (λ c. is_line_end c ≡ false) l
      → trim_end_matches is_line_end (l ++ line_feed ∷ []) ≡ l
  trimmed_line l h =
      trim_end_matches_last is_line_end l line_feed refl ∙ trim_end_matches-none is_line_end l h

  module _ (plain_begin : All (λ c. is_line_end c ≡ false) begin)
      (plain_end : All (λ c. is_line_end c ≡ false) last_line) (nonempty : is_empty begin ≡ false)
      (apart : eq_text last_line begin ≡ false) (parses : parse_i32 status ≡ some code) where
    take_first : take_line begin end fresh_reader (line_feed ∷ []) ≡ continue fresh_reader
    unfolding take_line fresh_reader collect_started ends_line trim_end_matches
    take_first = rw (eq_text_empty begin nonempty, exit_of_empty end, take_line) refl

    take_begin :
        take_line begin end fresh_reader (begin ++ line_feed ∷ []) ≡ continue (reading [] true)
    unfolding take_line fresh_reader
    take_begin = rw (trimmed_line begin plain_begin, eq_text_refl begin, ends_line_last begin) refl

    take_end :
        (body : Text)
        → length body ≤ max_output
        → take_line begin end (reading (body ++ line_feed ∷ []) true) (last_line ++ line_feed ∷ [])
          ≡ returned body code false
    unfolding take_line
    take_end body h =
        rw (trimmed_line last_line plain_end, apart, exit_of_last parses, take_line)
          (ap (return_framed code) (finish_framed body h))

    -- What the shell prints: an empty line, the begin marker, the chunks of the output and of the line
    -- feed behind it, the end marker with the status.
    abbrev pub transcript : List Text → List Text
    transcript cs =
        (line_feed ∷ []) ∷ (begin ++ line_feed ∷ []) ∷ (cs ++ (last_line ++ line_feed ∷ []) ∷ [])

    read_transcript :
        (body : Text) (cs : List Text)
        → concat cs ≡ body ++ line_feed ∷ []
        → All (IsBody begin end) cs
        → line_start_after true cs ≡ true
        → length body ≤ max_output
        → read_lines begin end fresh_reader (transcript cs) ≡ returned body code false
    unfolding read_lines
    read_transcript body cs whole bodies start fits =
        let tail = cs ++ (last_line ++ line_feed ∷ []) ∷ [] in
        ap (on_continue (λ q. read_lines begin end q ((begin ++ line_feed ∷ []) ∷ tail))) take_first
        ∙ ap (on_continue (λ q. read_lines begin end q tail)) take_begin
        ∙ read_body begin end cs ((last_line ++ line_feed ∷ []) ∷ []) [] true bodies
            (omega (arith, fits, ap length whole, length-append body (line_feed ∷ [])))
        ∙ ap₂ (λ o b. read_lines begin end (reading o b) ((last_line ++ line_feed ∷ []) ∷ [])) whole
            start
        ∙ ap (on_continue (λ q. continue q)) (take_end body fits)

    -- The output of a command, within the limit, is read back as it is with its exit status, if no
    -- chunk of it is a marker at the start of a line, the markers are plain and differ, and the line
    -- feed behind the output ends a chunk. The session stays usable.
    pub run_exec-transcript :
        (body : Text) (cs : List Text) (stop : Stop)
        → concat cs ≡ body ++ line_feed ∷ []
        → All (IsBody begin end) cs
        → line_start_after true cs ≡ true
        → length body ≤ max_output
        → run_exec begin end false (answered (transcript cs) stop) ≡ (
          record {
            state = completed;
            sent = some true;
            output = body;
            exit_code = some code;
            truncated = false;
          },
          false,
        )
    unfolding run_exec outcome_of
    run_exec-transcript body cs stop whole bodies start fits =
        ap (λ t. settle (outcome_of end stop t)) (read_transcript body cs whole bodies start fits)
