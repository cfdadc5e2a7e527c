-- ===== src/Execution/Capture.antt =====
-- The capture loop `run` of src/execution.rs. What one turn finds in its environment (the stop flag,
-- the clock, the reply of the bridge) is its argument; what it writes into the job is a note.
pub mod Ending
pub mod Evidence
pub mod Progress
pub mod Reading
pub mod Flushing
pub mod Run
pub mod Release
pub mod Final
pub mod Refinement
use securecrt_mcp.Prelude.{
  ℕ, zero, suc, ◌+◌, ◌-◌, ◌≤◌, ◌<◌, min, max, ◌≡◌, refl, sym, ap, ap₂, ◌∙◌, Bool, true, false, not,
  ◌&&◌, ◌||◌, List, [], ◌∷◌, ◌++◌, arith, ltb, leb, ◌==◌, if◌then◌else◌, Bool-cases, Option-cases,
  inl, inr, Option, none, some, All, append_assoc, append-nil, Result, ok, err, ◌>>=◌, ◌>>◌, ensure,
  context, is_some, unwrap_or, is_empty, all, any, ◌*◌, ◌≢◌, ◌⊎◌, ◌↔◌, subst,
}
use securecrt_mcp.Text.{Text, codes, len, eq_text, trim_end, after_last}
use securecrt_mcp.Execution.Job.{State}
use securecrt_mcp.Execution.Params.{ExecuteParams, is_posix, is_prompt, is_snapshot}
use securecrt_mcp.Execution.Marker
use securecrt_mcp.Execution.Marker.{MarkerParser, newline, feed, literal_prompt_observed}
use securecrt_mcp.Execution.NativeLog
use securecrt_mcp.Execution.NativeLog.{Reader, FileAnswer, next_batch, with_session_encoding}
use securecrt_mcp.Execution.Note.{Note, polled}

-- A log file that the reply names: what `capture_log_path` says of it, and what the file answers.
pub record LogFile : Type 0 where
  pub owned : Result Text (Unit {0})
  pub answers : ℕ → FileAnswer

-- The fields of a reply to `poll` that the loop reads.
pub record Reply : Type 0 where
  pub log_file : Option LogFile
  pub text : Option Text
  pub may_be_incomplete : Option Bool
  pub transport : Option Text
  pub overflow : Option Bool
  pub expired : Option Bool
  pub current_line : Option Text
  pub native_log_stopped : Option Bool

-- One turn: the stop flag and the time since the start at its head, the reply, and the time since the
-- start at its end, in microseconds.
pub record Turn : Type 0 where
  pub stop : Bool
  pub elapsed : ℕ
  pub response : Result Text Reply
  pub settled : ℕ

-- The local variables of the loop.
pub record Capture : Type 0 where
  pub parser : MarkerParser
  pub prompt_tail : Text
  pub prompt_progress : Bool
  pub log_reader : Option Reader

-- The value of the loop: `(state, code, reason)`.
pub record Close : Type 0 where
  pub state : State
  pub code : Option ℕ
  pub reason : Text

unfoldable pub start : Text → Text → Capture
start begin end = record {
  parser = Marker.new begin end;
  prompt_tail = [];
  prompt_progress = false;
  log_reader = none;
}

abbrev pub is_yes : Option Bool → Bool
is_yes (some true) = true
is_yes _ = false

abbrev closed : State → Option ℕ → Text → Close
closed state code reason = record { state = state; code = code; reason = reason }

abbrev pub or_empty : Option Text → Text
or_empty o = unwrap_or o []

abbrev pub is_session_log : Option Text → Bool
is_session_log none = false
is_session_log (some t) = eq_text t (codes "native_session_log")

abbrev pub keep_reader : Reader × Result Text Text → Option Reader × Result Text Text
keep_reader (r, result) = (some r, result)

-- The reader in use, or one for the file that the reply names.
unfoldable pub reader_for : LogFile → Option Text → Option Reader → Result Text Reader
unfolding with_session_encoding NativeLog.new
reader_for file transport (some r) = ok r
reader_for file transport none =
    file.owned >> ok (with_session_encoding (is_session_log transport) NativeLog.new)

unfoldable pub read_log :
    ExecuteParams → LogFile → Reply → Option Reader → Option Reader × Result Text Text
unfolding reader_for next_batch
read_log p file reply reader =
    if is_yes p.prefer_native_log && is_posix p.mode
    then elim (reader_for file reply.transport reader) [
      | err e ↦ (reader, err e)
      | ok r ↦ keep_reader (next_batch (is_yes reply.native_log_stopped) file.answers r)
    ]
    else (reader, err (codes "unsolicited native log transport"))

unfoldable pub chunk_of : ExecuteParams → Reply → Option Reader → Option Reader × Result Text Text
unfolding read_log
chunk_of p reply reader = elim reply.log_file [
  | none ↦ (reader, ok (or_empty reply.text))
  | some file ↦ read_log p file reply reader
]

-- The output and the exit code of a chunk: only the POSIX mode looks for markers.
unfoldable pub parse : ExecuteParams → MarkerParser → Text → MarkerParser × Text × Option ℕ
unfolding feed
parse p parser chunk = if is_posix p.mode then feed parser chunk else (parser, chunk, none)

abbrev pub has_lost : Option Reader → Bool
has_lost none = false
has_lost (some r) = r.incomplete

unfoldable pub is_prompt_line : Text → Option Text → Bool
unfolding eq_text trim_end
is_prompt_line wait_for none = false
is_prompt_line wait_for (some line) = not (is_empty wait_for) && eq_text (trim_end line) wait_for

unfoldable pub prompt_observed : Text → Reply → Capture → Bool
unfolding literal_prompt_observed is_prompt_line
prompt_observed wait_for reply c =
    literal_prompt_observed c.prompt_tail wait_for
    || (c.prompt_progress && is_prompt_line wait_for reply.current_line)

unfoldable pub add_chunk : Text → Capture → Capture
add_chunk chunk c = record c {
  prompt_progress = c.prompt_progress || not (is_empty chunk);
  prompt_tail = c.prompt_tail ++ chunk;
}

unfoldable pub cut_line : Capture → Capture
unfolding after_last
cut_line c = record c { prompt_tail = after_last newline c.prompt_tail }

-- The turn of the prompt mode.
unfoldable pub watch_prompt : ExecuteParams → Reply → Text → Capture → Capture × Option Close
unfolding prompt_observed add_chunk cut_line len
watch_prompt p reply chunk c =
    let d = add_chunk chunk c in
    let e = cut_line d in
    if prompt_observed (or_empty p.wait_for) reply d
    then (
      e,
      some (closed State.completed none (codes "literal prompt observed; exit code unverified")),
    )
    else if ltb 65536 (len e.prompt_tail)
    then (e, some (closed State.unknown none (codes "prompt line exceeds limit")))
    else (e, none)

-- What follows the tests on the reply.
unfoldable pub watch : ExecuteParams → ℕ → ℕ → Reply → Text → Capture → Capture × Option Close
unfolding watch_prompt
watch p settle settled reply chunk c =
    if is_prompt p.mode
    then watch_prompt p reply chunk c
    else if is_snapshot p.mode && leb (settle * 1000) settled
    then (
      c,
      some (
          closed State.unknown none
            (codes "snapshot captured; command completion unknown, inspect and acknowledge idle")),
    )
    else (c, none)

unfoldable pub judge :
    ExecuteParams → ℕ → ℕ → Reply → Text → Option ℕ → Capture → Capture × Option Close
unfolding watch
judge p settle settled reply chunk (some exit) c =
    (c, some (closed State.completed (some exit) (codes "POSIX end marker observed")))
judge p settle settled reply chunk none c =
    if is_yes reply.overflow || c.parser.overflow
    then (
      c,
      some (
          closed State.unknown none
            (codes "native capture overflow or output anchor changed; output incomplete")),
    )
    else if is_yes reply.expired
    then (c, some (closed State.timed_out none (codes "native capture deadline exceeded")))
    else watch p settle settled reply chunk c

-- The note of a poll, and the judgement on it.
abbrev noted : Note → Capture × Option Close → Capture × Option Note × Option Close
noted note (c, close) = (c, some note, close)

unfoldable pub consume :
    ExecuteParams → ℕ → ℕ → Reply → Text → Capture → Capture × Option Note × Option Close
unfolding parse judge
consume p settle settled reply chunk c =
    let (parser, output, exit) = parse p c.parser chunk in
    noted
      (polled output (unwrap_or reply.may_be_incomplete true) (has_lost c.log_reader) parser.started
        parser.done reply.transport)
      (judge p settle settled reply chunk exit (record c { parser = parser }))

abbrev pub lost : Text → Text → Close
lost what e = closed State.unknown none (what ++ (e ++ codes "; no replay"))

unfoldable pub receive :
    ExecuteParams → ℕ → ℕ → Reply → Capture → Capture × Option Note × Option Close
unfolding chunk_of consume
receive p settle settled reply c =
    let (reader, result) = chunk_of p reply c.log_reader in
    let d = record c { log_reader = reader } in
    elim result [
      | err e ↦ (d, none, some (lost (codes "native log capture lost: ") e))
      | ok chunk ↦ consume p settle settled reply chunk d
    ]

-- One turn of the loop; `timeout` and `settle` are milliseconds.
unfoldable pub turn : ExecuteParams → ℕ → ℕ → Turn → Capture → Capture × Option Note × Option Close
unfolding receive
turn p timeout settle t c =
    if t.stop
    then (
      c,
      none,
      some (
          closed State.cancelled none
            (codes "capture cancellation requested; remote termination unproven")),
    )
    else if leb (timeout * 1000) t.elapsed
    then (
      c,
      none,
      some (closed State.timed_out none (codes "capture deadline exceeded; remote may still run")),
    )
    else elim t.response [
      | err e ↦ (c, none, some (lost (codes "capture lost: ") e))
      | ok reply ↦ receive p settle t.settled reply c
    ]

-- The loop, on the turns that there are; without a close it goes on.
abbrev pub add_note :
    Option Note → Capture × List Note × Option Close → Capture × List Note × Option Close
add_note none x = x
add_note (some note) (c, notes, close) = (c, note ∷ notes, close)

unfoldable pub loop :
    ExecuteParams → ℕ → ℕ → List Turn → Capture → Capture × List Note × Option Close
unfolding turn
loop p timeout settle [] c = (c, [], none)
loop p timeout settle (t ∷ ts) c =
    let (d, note, close) = turn p timeout settle t c in
    let rest = loop p timeout settle ts d in
    add_note note (elim close [ some b ↦ (d, [], some b) | none ↦ rest ])
