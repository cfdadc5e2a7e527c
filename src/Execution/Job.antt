-- ===== src/Execution/Job.antt =====
-- `State`, `Job`, `Job::snapshot`, `Job::append` and `prefix_len` of src/execution.rs. Times are
-- microseconds on one clock; a time that the code reads is an argument.
pub mod Retention
pub mod Cut
pub mod Life
use securecrt_mcp.Prelude.{
  ℕ, zero, suc, ◌+◌, ◌-◌, ◌*◌, ◌^◌, min, Bool, true, false, not, ◌&&◌, ◌||◌, Option, none, some,
  ◌++◌, List, [], ltb, leb, if◌then◌else◌, is_empty, is_some, unwrap_or,
}
use securecrt_mcp.Text.{Text, len, is_char_boundary, slice_to, slice_from}
use securecrt_mcp.Fault
use securecrt_mcp.Fault.{ErrorCode, Advice, is_unsent}

pub data State : Type 0 where
  starting running completed timed_out cancelled unknown rejected : State

unfoldable pub active : State → Bool
active starting = true
active running = true
active _ = false

pub record Job : Type 0 where
  pub id : Text
  pub operation_id : Text
  pub sent : Option Bool
  pub requires_idle_ack : Bool
  pub session : Text
  pub state : State
  pub output : Text
  pub output_bytes : ℕ
  pub output_start : ℕ
  pub stream : Bool
  pub created : ℕ
  pub first_output_us : Option ℕ
  pub poll_calls : ℕ
  pub audit_dispatch_us : ℕ
  pub exit_code : Option ℕ
  pub reason : Text
  pub truncated : Bool
  pub incomplete : Bool
  pub begin_marker_observed : Bool
  pub end_marker_observed : Bool
  pub capture_transport : Option Text
  pub audit_warning : Option Text
  pub finished : Option ℕ
  pub stop : Bool

-- What `snapshot` reports, where it is not a field of the job read back.
pub data JobCode : Type 0 where
  no_code capture_timeout : JobCode
  fault_code : ErrorCode → JobCode

pub data JobAdvice : Type 0 where
  poll_or_interrupt read_further_pages : JobAdvice
  fault_advice : Advice → JobAdvice

pub data ExecutionState : Type 0 where
  completed not_sent awaiting_completion unknown : ExecutionState

pub data CaptureState : Type 0 where
  collecting not_started may_be_incomplete complete : CaptureState

pub record Snapshot : Type 0 where
  pub job : Job
  pub error_code : JobCode
  pub advice : JobAdvice
  pub automatic_retry : Bool
  pub exit_code_verified : Bool
  pub execution_state : ExecutionState
  pub capture_state : CaptureState
  pub retained_bytes : ℕ
  pub dropped_retention_bytes : ℕ
  pub remote_termination_confirmed : Bool
  pub elapsed_us : ℕ

snapshot_code : State → Text → JobCode
snapshot_code timed_out reason = capture_timeout
snapshot_code rejected reason = fault_code (Fault.code reason)
snapshot_code unknown reason = fault_code (Fault.code reason)
snapshot_code _ reason = no_code

abbrev is_rejected : State → Bool
is_rejected rejected = true
is_rejected _ = false

unfoldable pub snapshot : ℕ → Job → Snapshot
unfolding snapshot_code is_unsent active
snapshot now j = record {
  job = j;
  error_code = snapshot_code j.state j.reason;
  advice =
      if active j.state
      then poll_or_interrupt
      else if j.requires_idle_ack
      then fault_advice (Fault.action ErrorCode.busy_unresolved)
      else if is_rejected j.state
      then fault_advice (Fault.action (Fault.code j.reason))
      else read_further_pages;
  automatic_retry = false;
  exit_code_verified = is_some j.exit_code;
  execution_state =
      if j.end_marker_observed
      then ExecutionState.completed
      else if is_unsent j.sent
      then not_sent
      else if active j.state
      then awaiting_completion
      else ExecutionState.unknown;
  capture_state =
      if active j.state
      then collecting
      else if is_unsent j.sent
      then not_started
      else if j.incomplete
      then may_be_incomplete
      else complete;
  retained_bytes = len j.output;
  dropped_retention_bytes = j.output_bytes - len j.output;
  remote_termination_confirmed = false;
  elapsed_us = unwrap_or j.finished now - j.created;
}

-- `while !text.is_char_boundary(count) { count -= 1 }`, which stops at 0 at the latest.
unfoldable pub back_to_boundary : Text → ℕ → ℕ
back_to_boundary text zero = zero
back_to_boundary text (suc count) =
    let rest = back_to_boundary text count in
    if is_char_boundary text (suc count) then suc count else rest

unfoldable pub prefix_len : Text → ℕ → ℕ
unfolding back_to_boundary
prefix_len text max = back_to_boundary text (min max (len text))

-- `while !output.is_char_boundary(remove) { remove += 1 }`, on fuel.
unfoldable pub next_boundary : ℕ → Text → ℕ → ℕ
next_boundary zero s n = n
next_boundary (suc fuel) s n =
    let rest = next_boundary fuel s (n + 1) in if is_char_boundary s n then n else rest

-- `usize::saturating_add`.
unfoldable pub saturating_add : ℕ → ℕ → ℕ
saturating_add a b = min (a + b) (2 ^ 64 - 1)

-- The streaming branch: push, then drop whole characters from the front.
unfoldable pub append_stream : Job → Text → ℕ → Job
unfolding next_boundary
append_stream j text limit =
    let output = j.output ++ text in
    let remove = next_boundary (len output) output (len output - limit) in
    if ltb limit (len output)
    then record j {
      output = slice_from output remove;
      output_start = j.output_start + remove;
      truncated = true;
    }
    else record j { output = output }

-- The other branch: keep the prefix that fits.
unfoldable pub append_bounded : Job → Text → ℕ → Job
unfolding prefix_len
append_bounded j text limit =
    let count = prefix_len text (limit - len j.output) in
    record j {
      output = j.output ++ slice_to text count;
      truncated = j.truncated || ltb count (len text) || ltb (len text) count;
    }

-- The head of `append`: the time of the first output and the count of all output.
unfoldable pub note_output : ℕ → Job → Text → Job
unfolding saturating_add
note_output now j text = record j {
  first_output_us =
      if not (is_empty text) && not (is_some j.first_output_us)
      then some (now - j.created)
      else j.first_output_us;
  output_bytes = saturating_add j.output_bytes (len text);
}

unfoldable pub append : ℕ → Job → Text → ℕ → Job
unfolding note_output append_stream append_bounded
append now j text limit =
    let k = note_output now j text in
    if j.stream then append_stream k text limit else append_bounded k text limit
