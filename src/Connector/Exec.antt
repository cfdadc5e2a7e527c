-- ===== src/Connector/Exec.antt =====
-- src/connector/exec.rs: one command on the persistent shell of a session. The reads from the shell are
-- the environment's: the chunks that `read_until` returned, and why no further chunk came. A line is
-- compared as bytes: the markers and the statuses are ASCII, which `from_utf8_lossy` keeps as it is and
-- makes of no other byte.
pub mod Readback
pub mod Interlock
use securecrt_mcp.Prelude.{
  ℕ, zero, suc, ◌+◌, ◌-◌, ◌≤◌, ◌<◌, min, max, ◌≡◌, refl, sym, ap, ap₂, ◌∙◌, Bool, true, false, not,
  ◌&&◌, ◌||◌, List, [], ◌∷◌, ◌++◌, arith, ltb, leb, ◌==◌, if◌then◌else◌, Bool-cases, Option-cases,
  inl, inr, Option, none, some, All, append_assoc, append-nil, Result, ok, err, ◌>>=◌, ◌>>◌, ensure,
  context, is_some, unwrap_or, is_empty, all, any, ◌*◌, ◌≢◌, ◌⊎◌, ◌↔◌, subst,
}
use securecrt_mcp.Prelude.{length, take, ◌^◌}
use securecrt_mcp.Text.{Text, eq_text, strip_prefix, starts_with, trim_end_matches}
use securecrt_mcp.Execution.Marker.{digits}

-- `MAX_OUTPUT`.
unfoldable pub max_output : ℕ
max_output = 1048576

abbrev pub line_feed : ℕ
line_feed = 10

-- An `i32`: a number that is not negative, or the number below zero by its absolute value.
pub data ExitCode : Type 0 where
  nonnegative negative : ℕ → ExitCode

abbrev signed : Option ℕ → Option ExitCode
signed none = none
signed (some n) =
    if n == 0 then some (nonnegative 0) else if leb n (2 ^ 31) then some (negative n) else none

abbrev unsigned : Option ℕ → Option ExitCode
unsigned none = none
unsigned (some n) = if ltb n (2 ^ 31) then some (nonnegative n) else none

-- `str::parse::<i32>`.
unfoldable pub parse_i32 : Text → Option ExitCode
unfolding digits
parse_i32 [] = none
parse_i32 (c ∷ s) =
    if c == b'+'
    then unsigned (digits s)
    else if c == b'-'
    then signed (digits s)
    else unsigned (digits (c ∷ s))

-- `output.last() == Some(&b'\n')`, and `line.ends_with(b"\n")`.
unfoldable pub ends_line : Text → Bool
ends_line [] = false
ends_line (c ∷ []) = c == line_feed
ends_line (c ∷ d ∷ s) = ends_line (d ∷ s)

-- `output.pop()`.
unfoldable pub pop_last : Text → Text
pop_last [] = []
pop_last (c ∷ []) = []
pop_last (c ∷ d ∷ s) = c ∷ pop_last (d ∷ s)

unfoldable pub finish_framed_output : Text → Bool → Text × Bool
unfolding ends_line pop_last
finish_framed_output output truncated =
    let kept = if not truncated && ends_line output then pop_last output else output in
    (take max_output kept, truncated || ltb max_output (length kept))

-- The local state of the loop over the lines.
pub record Reader : Type 0 where
  pub output : Text
  pub started : Bool
  pub truncated : Bool
  pub at_line_start : Bool

unfoldable pub fresh_reader : Reader
fresh_reader = record { output = []; started = false; truncated = false; at_line_start = true }

abbrev pub is_line_end : ℕ → Bool
is_line_end c = c == 13 || c == line_feed

unfoldable pub exit_of : Text → Text → Option ExitCode
unfolding strip_prefix parse_i32
exit_of end trimmed = elim (strip_prefix trimmed (end ++ 32 ∷ [])) [
  | none ↦ none
  | some status ↦ parse_i32 status
]

-- Output behind the begin marker: one byte more than the limit makes room for the framing line feed.
unfoldable pub collect : Text → Reader → Reader
collect line r =
    let count = min (max_output + 1 - length r.output) (length line) in
    if ltb (length r.output) (max_output + 1)
    then record r {
      output = r.output ++ take count line;
      truncated = r.truncated || not (count == length line);
    }
    else record r { truncated = true }

-- One turn of the loop: it goes on, or it returns at the end marker.
pub data Turn : Type 0 where
  continue : Reader → Turn
  returned : Text → ExitCode → Bool → Turn

unfoldable pub collect_started : Text → Reader → Reader
unfolding collect
collect_started line r = if r.started then collect line r else r

abbrev pub return_framed : ExitCode → Text × Bool → Turn
return_framed code (output, truncated) = returned output code truncated

unfoldable pub take_line : Text → Text → Reader → Text → Turn
unfolding trim_end_matches eq_text exit_of ends_line finish_framed_output collect_started
take_line begin end r line =
    let trimmed = trim_end_matches is_line_end line in
    let next = record r { at_line_start = ends_line line } in
    if r.at_line_start && eq_text trimmed begin
    then continue (record next { started = true })
    else elim (if r.at_line_start then exit_of end trimmed else none) [
      | some code ↦ return_framed code (finish_framed_output r.output r.truncated)
      | none ↦ continue (collect_started line next)
    ]

-- The loop over the chunks that have come.
abbrev pub on_continue : (Reader → Turn) → Turn → Turn
on_continue k (continue r) = k r
on_continue k (returned output code truncated) = returned output code truncated

unfoldable pub read_lines : Text → Text → Reader → List Text → Turn
unfolding take_line
read_lines begin end r [] = continue r
read_lines begin end r (line ∷ lines) =
    on_continue (λ q. read_lines begin end q lines) (take_line begin end r line)

-- Why the loop ended without the end marker: the process is gone, a read failed, or the deadline
-- passed. The last two leave the bytes of an unfinished line.
pub data Stop : Type 0 where
  exited : Stop
  failed timed_out : Text → Stop

abbrev pub unfinished : Stop → Text
unfinished exited = []
unfinished (failed line) = line
unfinished (timed_out line) = line

-- `partial_marker`: an unfinished line that may be the end marker.
unfoldable pub partial_marker : Text → Bool → Text → Bool
unfolding starts_with
partial_marker end at_line_start line =
    at_line_start && not (is_empty line) && (starts_with end line || starts_with line end)

-- The output that is kept where no end marker came.
unfoldable pub partial_output : Text → Reader → Text → Text × Bool
unfolding partial_marker
partial_output end r line =
    let count = min (max_output - length r.output) (length line) in
    let (output, truncated) =
      if r.started && not (is_empty line) && not (partial_marker end r.at_line_start line)
      then (r.output ++ take count line, r.truncated || not (count == length line))
      else (r.output, r.truncated) in
    (take max_output output, truncated || ltb max_output (length output))

pub data ExecState : Type 0 where
  rejected unknown completed : ExecState

pub record ExecOutcome : Type 0 where
  pub state : ExecState
  pub sent : Option Bool
  pub output : Text
  pub exit_code : Option ExitCode
  pub truncated : Bool

-- What the environment does with one command: the write or the flush fails, or the shell answers.
pub data Delivery : Type 0 where
  write_failed flush_failed : Delivery
  answered : List Text → Stop → Delivery

abbrev without_output : ExecState → Option Bool → ExecOutcome
without_output state sent = record {
  state = state;
  sent = sent;
  output = [];
  exit_code = none;
  truncated = false;
}

abbrev unknown_outcome : Text × Bool → ExecOutcome
unknown_outcome (output, truncated) = record {
  state = unknown;
  sent = some true;
  output = output;
  exit_code = none;
  truncated = truncated;
}

unfoldable pub outcome_of : Text → Stop → Turn → ExecOutcome
unfolding partial_output
outcome_of end stop (returned output code truncated) = record {
  state = completed;
  sent = some true;
  output = output;
  exit_code = some code;
  truncated = truncated;
}
outcome_of end stop (continue r) = unknown_outcome (partial_output end r (unfinished stop))

-- `run_exec` with the interlock `unresolved` before and after it. The guard that is dropped at the end
-- sets the interlock unless the command completed.
abbrev pub unresolved_after : ExecState → Bool
unresolved_after completed = false
unresolved_after _ = true

abbrev pub settle : ExecOutcome → ExecOutcome × Bool
settle outcome = (outcome, unresolved_after outcome.state)

unfoldable pub run_exec : Text → Text → Bool → Delivery → ExecOutcome × Bool
unfolding read_lines outcome_of fresh_reader
run_exec begin end true delivery = (without_output rejected (some false), true)
run_exec begin end false write_failed = settle (without_output unknown none)
run_exec begin end false flush_failed = settle (without_output unknown (some true))
run_exec begin end false (answered lines stop) =
    settle (outcome_of end stop (read_lines begin end fresh_reader lines))
