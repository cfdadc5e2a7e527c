-- ===== src/Execution/System.antt =====
-- The submissions, captures, interrupts and acknowledgements of src/execution.rs as interleaved
-- steps on one registry. An event is one locked section, or a run of sections that touch only the
-- entry of a job that has not been dispatched, which no other section may change. Its arguments are
-- what the environment answers: the clock, the audit log, the bridge.
pub mod Changes
pub mod Soundness
pub mod Preserved
pub mod Requests
pub mod Dispatch
pub mod Submission
pub mod Theorems
pub mod Memory
pub mod Evidence
use securecrt_mcp.Prelude.{
  ℕ, zero, suc, ◌+◌, ◌-◌, ◌≤◌, ◌<◌, min, ◌≡◌, refl, sym, ap, ◌∙◌, Bool, true, false, not, ◌&&◌,
  ◌||◌, List, [], ◌∷◌, ◌++◌, arith, ltb, leb, ◌==◌, if◌then◌else◌, Bool-cases, Option-cases, inl,
  inr, Option, none, some, All, append_assoc, append-nil, Result, ok, err, ◌>>=◌, ◌>>◌, ensure,
  context, is_some, unwrap_or, is_empty, all, any, ◌*◌, ◌≢◌, ◌⊎◌, ◌↔◌, subst,
}
use securecrt_mcp.Text.{Text, codes, eq_text, contains}
use securecrt_mcp.Assoc.{Assoc, lookup, insert}
use securecrt_mcp.Config.{BridgeConfig}
use securecrt_mcp.Fault.{Error, message_of, bridge_fault, is_unsent, other}
use securecrt_mcp.Execution.Job.{State, Job, active}
use securecrt_mcp.Execution.Note.{Note, write}
use securecrt_mcp.Execution.Params.{ExecuteParams, SubmitError}
use securecrt_mcp.Execution.Registry
use securecrt_mcp.Execution.Registry.{
  Registry, Admission, reserve, with_job, finish, ack_check, ack_release, eq_option,
  interrupt_check,
}

-- How far the call of `submit_internal` that drew an identifier has come.
pub data Phase : Type 0 where
  reserved : ExecuteParams → Phase
  dispatching capturing settled : Phase

pub record System : Type 0 where
  pub registry : Registry
  pub phases : Assoc Phase
  -- The pending calls of `acknowledge_idle` that have passed their check.
  pub acks : List (Text × Option Text)
  -- The pending calls of `interrupt` that have passed their check.
  pub interrupts : List Text
  -- The operation and the command of each `begin` request, the latest first.
  pub sent : List (Text × Text)

unfoldable pub initial : System
initial = record { registry = Registry.empty; phases = []; acks = []; interrupts = []; sent = [] }

-- `decision.decision == Allow` and `decision.reason` of `PolicyEngine::classify_command`.
pub record Verdict : Type 0 where
  pub allow : Bool
  pub reason : Text

abbrev pub set_sent : Option Bool → Job → Job
set_sent sent j = record j { sent = sent }

abbrev pub set_audit_us : ℕ → Job → Job
set_audit_us us j = record j { audit_dispatch_us = us }

abbrev pub set_running : Job → Job
set_running j = record j {
  sent = some true;
  state = State.running;
  reason = codes "capturing output";
}

abbrev pub set_stop : Job → Job
set_stop j = record j { stop = true }

-- The sections between the audit of a submission and its `begin` request.
unfoldable pub after_audit :
    Verdict → Text → ExecuteParams → ℕ → Result Text (Unit {0}) → ℕ → System → System
after_audit verdict id p us (err error) now s = record s {
  registry =
      finish id State.rejected none (codes "not sent: " ++ error) true now
        (with_job id (set_audit_us us) s.registry);
  phases = insert id settled s.phases;
}
after_audit verdict id p us (ok _) now s =
    let r = with_job id (set_audit_us us) s.registry in
    if verdict.allow
    then record s {
      registry = with_job id (set_sent none) r;
      phases = insert id dispatching s.phases;
      sent = (p.operation_id, p.command) ∷ s.sent;
    }
    else record s {
      registry = finish id State.rejected none verdict.reason true now r;
      phases = insert id settled s.phases;
    }

-- A reply of the bridge to `begin` counts as a success only with its evidence of sending.
unfoldable pub begin_result : Result Error (Option Bool) → Result Error (Unit {0})
begin_result (err e) = err e
begin_result (ok (some true)) = ok tt
begin_result (ok _) = err (
    bridge_fault
      (codes "dispatch outcome unknown: success reply lacks send evidence; do not replay") none)

-- `downcast_ref::<BridgeFault>().is_some_and(|e| e.sent == Some(false))`.
unfoldable pub is_certainly_unsent : Error → Bool
unfolding is_unsent
is_certainly_unsent (bridge_fault _ sent) = is_unsent sent
is_certainly_unsent (other _) = false

-- The sections after the reply to `begin`.
unfoldable pub after_begin : Text → Result Error (Unit {0}) → ℕ → System → System
unfolding is_certainly_unsent
after_begin id (ok _) now s = record s {
  registry = with_job id set_running s.registry;
  phases = insert id capturing s.phases;
}
after_begin id (err e) now s =
    let unsent = is_certainly_unsent e in
    record s {
      registry =
          finish id (if unsent then State.rejected else State.unknown) none
            ((if unsent then codes "not sent" else codes "dispatch outcome unknown; do not replay")
              ++ codes ": "
              ++ message_of e)
            unsent now (with_job id (set_sent (if unsent then some false else none)) s.registry);
      phases = insert id settled s.phases;
    }

-- How the capture of `run` ends; a release follows only a confirmed completion.
pub data Outcome : Type 0 where
  completed : Option ℕ → Bool → Outcome
  timed_out cancelled unknown : Outcome

unfoldable pub outcome_state : Outcome → State
outcome_state (completed code release_ok) = State.completed
outcome_state timed_out = State.timed_out
outcome_state cancelled = State.cancelled
outcome_state unknown = State.unknown

unfoldable pub outcome_code : Outcome → Option ℕ
outcome_code (completed code release_ok) = code
outcome_code _ = none

unfoldable pub outcome_release : Outcome → Bool
outcome_release (completed code release_ok) = release_ok
outcome_release _ = false

pub data Event : Type 0 where
  submit : ExecuteParams → Text → Text → ℕ → Event
  audited : Text → ℕ → Result Text (Unit {0}) → ℕ → Event
  began : Text → Result Error (Option Bool) → ℕ → Event
  captured : Text → Note → ℕ → Event
  ended : Text → Outcome → Text → ℕ → Event
  -- A call of `interrupt` checks, and finishes the job when the bridge has answered. Such a call, and
  -- one of `acknowledge_idle`, stays listed; that it may be answered twice only adds behaviours.
  interrupt_started : Text → Event
  interrupt_sent : Text → ℕ → Event
  ack_started : Text → Event
  ack_accepted : Text → Option Text → Event

unfoldable pub is_pending : Text → Option Text → List (Text × Option Text) → Bool
is_pending session previous [] = false
is_pending session previous ((s, p) ∷ rest) =
    (eq_text s session && eq_option p previous) || is_pending session previous rest

-- A new entry starts its submission; a replayed or a refused one does nothing more.
unfoldable pub start :
    Text → ExecuteParams → Registry × Result SubmitError Admission → System → System
start id p (r, ok Admission.admitted) s = record s {
  registry = r;
  phases = insert id (reserved p) s.phases;
}
start id p (r, _) s = record s { registry = r }

module _ (config : BridgeConfig) (classify : Text → Verdict) where
  -- The step that a section takes from the phase of its submission.
  unfoldable pub on_audit : Text → ℕ → Result Text (Unit {0}) → ℕ → Option Phase → System → System
  unfolding after_audit
  on_audit id us audit now (some (reserved p)) s =
      after_audit (classify p.command) id p us audit now s
  on_audit id us audit now _ s = s

  unfoldable pub on_begin : Text → Result Error (Option Bool) → ℕ → Option Phase → System → System
  unfolding after_begin begin_result
  on_begin id reply now (some dispatching) s = after_begin id (begin_result reply) now s
  on_begin id reply now _ s = s

  unfoldable pub on_capture : Text → Note → ℕ → Option Phase → System → System
  unfolding write
  on_capture id note now (some capturing) s = record s {
    registry = with_job id (write config.max_output_bytes now note) s.registry;
  }
  on_capture id note now _ s = s

  unfoldable pub on_end : Text → Outcome → Text → ℕ → Option Phase → System → System
  unfolding outcome_state outcome_code outcome_release
  on_end id outcome reason now (some capturing) s = record s {
    registry =
        finish id (outcome_state outcome) (outcome_code outcome) reason (outcome_release outcome)
          now s.registry;
    phases = insert id settled s.phases;
  }
  on_end id outcome reason now _ s = s

  unfoldable pub on_interrupt : Text → ℕ → System → System
  on_interrupt id now s = record s {
    registry =
        finish id State.cancelled none (codes "interrupt sent; inspect and acknowledge idle") false
          now (with_job id set_stop s.registry);
  }

  unfoldable pub on_ack : Text → Option Text → System → System
  on_ack session previous s = record s { registry = ack_release session previous s.registry }

  unfoldable pub step : System → Event → System
  unfolding start on_audit on_begin on_capture on_end on_interrupt on_ack contains
  step s (submit p fingerprint id now) =
      start id p (reserve config now p fingerprint id s.registry) s
  step s (audited id us audit now) = on_audit id us audit now (lookup id s.phases) s
  step s (began id reply now) = on_begin id reply now (lookup id s.phases) s
  step s (captured id note now) = on_capture id note now (lookup id s.phases) s
  step s (ended id outcome reason now) = on_end id outcome reason now (lookup id s.phases) s
  step s (interrupt_started id) = elim (interrupt_check id s.registry) [
    | err _ ↦ s
    | ok session ↦ record s { interrupts = id ∷ s.interrupts }
  ]
  step s (interrupt_sent id now) = if contains s.interrupts id then on_interrupt id now s else s
  step s (ack_started session) = elim (ack_check session s.registry) [
    | err _ ↦ s
    | ok previous ↦ record s { acks = (session, previous) ∷ s.acks }
  ]
  step s (ack_accepted session previous) =
      if is_pending session previous s.acks then on_ack session previous s else s

  unfoldable pub run : System → List Event → System
  run s [] = s
  run s (e ∷ es) = run (step s e) es

  -- An identifier that a submission draws (`Uuid::new_v4`) has not been drawn before.
  abbrev pub IsFresh : System → Event → Type 0
  IsFresh s (submit p fingerprint id now) = lookup id s.phases ≡ none
  IsFresh s _ = Unit

  abbrev pub AllFresh : System → List Event → Type 0
  AllFresh s [] = Unit
  AllFresh s (e ∷ es) = IsFresh s e × AllFresh (step s e) es
