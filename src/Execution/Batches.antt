-- ===== src/Execution/Batches.antt =====
-- `exec_batch` and `batch_status` of src/execution/persistent.rs: the checks, the ledger of batches, and
-- the task that runs the commands. What `exec` and `wait_result` return is the environment's.
pub mod Task
use securecrt_mcp.Prelude.{
  ℕ, zero, suc, ◌+◌, ◌-◌, ◌≤◌, ◌<◌, min, max, ◌≡◌, refl, sym, ap, ap₂, ◌∙◌, Bool, true, false, not,
  ◌&&◌, ◌||◌, List, [], ◌∷◌, ◌++◌, arith, ltb, leb, ◌==◌, if◌then◌else◌, Bool-cases, Option-cases,
  inl, inr, Option, none, some, All, append_assoc, append-nil, Result, ok, err, ◌>>=◌, ◌>>◌, ensure,
  context, is_some, unwrap_or, is_empty, all, any, ◌*◌, ◌≢◌, ◌⊎◌, ◌↔◌, subst,
}
use securecrt_mcp.Prelude.{length, take}
use securecrt_mcp.Text.{Text, codes, len, eq_text, contains}
use securecrt_mcp.Assoc.{Assoc, lookup, insert, modify, any_value, size}
use securecrt_mcp.Fault.{Error}
use securecrt_mcp.Policy.{
  PolicyEngine, Classified, Decision, decided, panicked, classify_command, Reason,
}
use securecrt_mcp.Execution.Job.{State, active}
use securecrt_mcp.Execution.Params.{is_identifier}
use securecrt_mcp.Execution.Registry.{Registry, is_quiescent, is_completed}
use securecrt_mcp.Execution.Waiting.{Answer}
use securecrt_mcp.Execution.Terminal.{Attachment, TerminalError, attachment_value}

pub data BatchError : Type 0 where
  invalid_count too_long invalid_on_error stale invalid_id conflict ledger_full unknown_batch :
      BatchError
  panic : BatchError
  denied : Reason → BatchError

pub data BatchState : Type 0 where
  running stopped completed : BatchState

-- A result is that of a command, or the report of an error.
abbrev pub BatchResult : Type 0
BatchResult = Result Error Answer

pub record BatchValue : Type 0 where
  pub state : BatchState
  pub results : List BatchResult

abbrev pub Batches : Type 0
Batches = Assoc (Text × BatchValue)

unfoldable pub total_len : List Text → ℕ
unfolding len
total_len [] = 0
total_len (c ∷ cs) = len c + total_len cs

unfoldable pub preflight : Classified → Result BatchError (Unit {0})
preflight (decided Decision.allow) = ok tt
preflight (decided (Decision.deny reason)) = err (denied reason)
preflight panicked = err panic

-- `result["state"]` is one of a running command.
unfoldable pub is_waiting : BatchResult → Bool
unfolding active
is_waiting (err e) = false
is_waiting (ok a) = active a.report.job.state

-- What a command comes to: the waits that follow `exec` while it runs. Without an end it still runs.
unfoldable pub settle : BatchResult → List BatchResult → Option BatchResult
unfolding is_waiting
settle r [] = if is_waiting r then none else some r
settle r (next ∷ later) = let rest = settle next later in if is_waiting r then rest else some r

abbrev pub is_success : Option ℕ → Bool
is_success none = false
is_success (some n) = n == 0

-- The test behind each command.
unfoldable pub stops : Bool → BatchResult → Bool
stops go_on (err e) = true
stops go_on (ok a) =
    not (is_completed a.report.job.state)
    || a.report.job.requires_idle_ack
    || (not go_on && not (is_success a.report.job.exit_code))

abbrev pub push_result : BatchResult → BatchValue → BatchValue
push_result r b = record b { results = b.results ++ r ∷ [] }

abbrev pub set_state : BatchState → BatchValue → BatchValue
set_state state b = record b { state = state }

abbrev pub on_value : (BatchValue → BatchValue) → Text × BatchValue → Text × BatchValue
on_value f (hash, b) = (hash, f b)

unfoldable pub record_result : Text → BatchResult → Batches → Batches
unfolding modify
record_result id r m = modify id (on_value (push_result r)) m

unfoldable pub close_batch : Text → Bool → Batches → Batches
unfolding modify
close_batch id was_stopped m =
    modify id (on_value (set_state (if was_stopped then stopped else completed))) m

-- `p.on_error.as_deref() == Some("continue")`.
unfoldable pub goes_on : Option Text → Bool
unfolding eq_text
goes_on none = false
goes_on (some on_error) = eq_text on_error (codes "continue")

-- The task, on what its commands come to one after the other.
unfoldable pub run_task : Option Text → Text → List BatchResult → Batches → Batches
unfolding stops record_result close_batch goes_on
run_task on_error id [] m = close_batch id false m
run_task on_error id (r ∷ rest) m =
    let next = record_result id r m in
    let later = run_task on_error id rest next in
    if stops (goes_on on_error) r then close_batch id true next else later

unfoldable pub batch_status : Text → Batches → Result BatchError BatchValue
unfolding lookup
batch_status id m = elim (lookup id m) [ none ↦ err unknown_batch | some (hash, b) ↦ ok b ]

abbrev pub initial_value : BatchValue
initial_value = record { state = running; results = [] }

-- The locked section: the value of a known batch, or the entry of a new one, which is then run.
unfoldable pub enter_batch : Text → Text → Batches → Batches × Result BatchError (Option BatchValue)
unfolding lookup eq_text size insert
enter_batch id hash m = elim (lookup id m) [
  | some (old, value) ↦ if eq_text old hash then (m, ok (some value)) else (m, err conflict)
  | none ↦
      if ltb (size m) 128
      then (insert id (hash, initial_value) m, ok none)
      else (m, err ledger_full)
]

abbrev stale_of : Result TerminalError Attachment → Result BatchError (Unit {0})
stale_of (err e) = err stale
stale_of (ok a) = ok tt

module _ {ℓ} {Regex : Type ℓ} (regex : Text → Option Regex) (is_match : Regex → Text → Bool)
    (engine : PolicyEngine Regex) where
  unfoldable pub preflight_all : List Text → Result BatchError (Unit {0})
  unfolding preflight
  preflight_all [] = ok tt
  preflight_all (c ∷ cs) = preflight (classify_command regex is_match engine c) >> preflight_all cs

  -- The checks of `exec_batch`; `id` is the identifier that is given or drawn.
  unfoldable pub check_exec_batch :
      List Text → Option Text → Text → Text → Assoc Attachment → Result BatchError (Unit {0})
  unfolding preflight_all total_len contains attachment_value is_identifier
  check_exec_batch commands on_error attachment id m =
      ensure (not (is_empty commands) && leb (length commands) 20) invalid_count
      >> ensure (leb (total_len commands) 32768) too_long
      >> ensure
          (contains (codes "stop" ∷ codes "continue" ∷ []) (unwrap_or on_error (codes "stop")))
          invalid_on_error
      >> stale_of (attachment_value attachment m)
      >> preflight_all commands
      >> ensure (is_identifier 96 id) invalid_id

  unfoldable pub exec_batch :
      List Text
      → Option Text
      → Text
      → Text
      → Text
      → Assoc Attachment
      → Batches
      → Batches × Result BatchError (Option BatchValue)
  unfolding check_exec_batch enter_batch
  exec_batch commands on_error attachment id hash attachments m =
      elim (check_exec_batch commands on_error attachment id attachments) [
        | err e ↦ (m, err e)
        | ok _ ↦ enter_batch id hash m
      ]

-- `quiescent`: no session is held and no batch runs.
abbrev pub is_running : Text × BatchValue → Bool
is_running (hash, b) = elim b.state [ running ↦ true | _ ↦ false ]

pub data StopError : Type 0 where
  active_jobs active_batch : StopError

unfoldable pub quiescent : Registry → Batches → Result StopError (Unit {0})
unfolding is_quiescent any_value
quiescent r m =
    ensure (is_quiescent r) active_jobs >> ensure (not (any_value is_running m)) active_batch
