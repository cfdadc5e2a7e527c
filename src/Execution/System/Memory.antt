-- ===== src/Execution/System/Memory.antt =====
-- The room that every sequence of events takes.
use securecrt_mcp.Prelude.{
  ℕ, ◌≤◌, ◌≡◌, Bool, List, [], ◌∷◌, arith, Bool-cases, inl, inr, Option, none, some, Result, ok,
  err,
}
use securecrt_mcp.Text.{Text, contains}
use securecrt_mcp.Assoc.{size, lookup}
use securecrt_mcp.Config.{BridgeConfig, Config, PolicyConfig, validate}
use securecrt_mcp.Config.Bounds.{validate-IsBounded}
use securecrt_mcp.Fault.{Error}
use securecrt_mcp.Execution.Params.{ExecuteParams, SubmitError}
use securecrt_mcp.Execution.Registry
use securecrt_mcp.Execution.Note.Limit.{write-within}
use securecrt_mcp.Execution.Note.{Note}
use securecrt_mcp.Execution.Registry.{
  Registry, with_job, ack_check, interrupt_check, finish, reserve, Admission, InterruptError,
  AckError,
}
use securecrt_mcp.Execution.Registry.Ledger.{
  Fits, retained_output, reserve-Fits, with_job-Fits, finish-Fits, ack_release-Fits, retained-le,
}
use securecrt_mcp.Execution.System.{
  System, Phase, Verdict, initial, is_pending, start, step, run, Event, Outcome, submit, audited,
  began, set_sent, set_audit_us, set_running, captured, ended, interrupt_started, interrupt_sent,
  ack_started, ack_accepted, on_audit, on_begin, on_capture, on_end, reserved, on_interrupt, on_ack,
  after_audit, after_begin, begin_result, dispatching, capturing,
}

module _ (config : BridgeConfig) (classify : Text → Verdict) (s : System)
    (h : Fits config s.registry) where
  start-Fits :
      (id : Text) (p : ExecuteParams) (a : Registry × Result SubmitError Admission)
      → Fits config a.0
      → Fits config (start id p a s).registry
  unfolding start
  start-Fits id p (r, ok Admission.admitted) f = f
  start-Fits id p (r, ok (Admission.replayed j)) f = f
  start-Fits id p (r, err e) f = f

  after_audit-Fits :
      (id : Text) (p : ExecuteParams) (us : ℕ) (audit : Result Text (Unit {0})) (now : ℕ)
      → Fits config (after_audit (classify p.command) id p us audit now s).registry
  unfolding after_audit
  after_audit-Fits id p us (err e) now =
      finish-Fits config id _ _ _ _ now _
        (with_job-Fits config id (set_audit_us us) s.registry (λ j g. g) h)
  after_audit-Fits id p us (ok u) now =
      let r = with_job-Fits config id (set_audit_us us) s.registry (λ j g. g) h in
      elim (Bool-cases (classify p.command).allow) [
        | inl e ↦ rw e (with_job-Fits config id (set_sent none) _ (λ j g. g) r)
        | inr e ↦ rw e (finish-Fits config id _ _ _ _ now _ r)
      ]

  on_audit-Fits :
      (id : Text) (us : ℕ) (audit : Result Text (Unit {0})) (now : ℕ) (o : Option Phase)
      → Fits config (on_audit config classify id us audit now o s).registry
  unfolding on_audit
  on_audit-Fits id us audit now (some (reserved p)) = after_audit-Fits id p us audit now
  on_audit-Fits id us audit now _ = h

  after_begin-Fits :
      (id : Text) (reply : Result Error (Unit {0})) (now : ℕ)
      → Fits config (after_begin id reply now s).registry
  unfolding after_begin
  after_begin-Fits id (ok u) now = with_job-Fits config id set_running s.registry (λ j g. g) h
  after_begin-Fits id (err x) now =
      finish-Fits config id _ _ _ _ now _
        (with_job-Fits config id (set_sent _) s.registry (λ j g. g) h)

  on_begin-Fits :
      (id : Text) (reply : Result Error (Option Bool)) (now : ℕ) (o : Option Phase)
      → Fits config (on_begin config classify id reply now o s).registry
  unfolding on_begin
  on_begin-Fits id reply now (some dispatching) = after_begin-Fits id (begin_result reply) now
  on_begin-Fits id reply now _ = h

  on_capture-Fits :
      (id : Text) (note : Note) (now : ℕ) (o : Option Phase)
      → Fits config (on_capture config classify id note now o s).registry
  unfolding on_capture
  on_capture-Fits id note now (some capturing) =
      with_job-Fits config id _ s.registry
        (λ j g. write-within config.max_output_bytes now note j g) h
  on_capture-Fits id note now _ = h

  on_end-Fits :
      (id : Text) (outcome : Outcome) (reason : Text) (now : ℕ) (o : Option Phase)
      → Fits config (on_end config classify id outcome reason now o s).registry
  unfolding on_end
  on_end-Fits id outcome reason now (some capturing) =
      finish-Fits config id _ _ _ _ now s.registry h
  on_end-Fits id outcome reason now _ = h

  step-Fits : (e : Event) → Fits config (step config classify s e).registry
  unfolding step on_interrupt on_ack
  step-Fits (submit p fingerprint id now) =
      start-Fits id p (reserve config now p fingerprint id s.registry)
        (reserve-Fits config now p fingerprint id s.registry h)
  step-Fits (audited id us audit now) = on_audit-Fits id us audit now (lookup id s.phases)
  step-Fits (began id reply now) = on_begin-Fits id reply now (lookup id s.phases)
  step-Fits (captured id note now) = on_capture-Fits id note now (lookup id s.phases)
  step-Fits (ended id outcome reason now) = on_end-Fits id outcome reason now (lookup id s.phases)
  step-Fits (interrupt_started id) = go (interrupt_check id s.registry)
    where
      go :
          (o : Result InterruptError Text)
          → Fits config
              (elim o as (λ _. System) [
                | err _ ↦ s
                | ok session ↦ record s { interrupts = id ∷ s.interrupts }
              ]).registry
      go (err x) = h
      go (ok session) = h
  step-Fits (interrupt_sent id now) = elim (Bool-cases (contains s.interrupts id)) [
    | inl e ↦
        rw e
          (finish-Fits config id _ _ _ _ now _ (with_job-Fits config id _ s.registry (λ j g. g) h))
    | inr e ↦ rw e h
  ]
  step-Fits (ack_started session) = go (ack_check session s.registry)
    where
      go :
          (o : Result AckError (Option Text))
          → Fits config
              (elim o as (λ _. System) [
                | err _ ↦ s
                | ok previous ↦ record s { acks = (session, previous) ∷ s.acks }
              ]).registry
      go (err x) = h
      go (ok previous) = h
  step-Fits (ack_accepted session previous) =
      elim (Bool-cases (is_pending session previous s.acks)) [
        | inl e ↦ rw e (ack_release-Fits config session previous s.registry h)
        | inr e ↦ rw e h
      ]

run-Fits :
    (config : BridgeConfig) (classify : Text → Verdict) (s : System) (es : List Event)
    → Fits config s.registry
    → Fits config (run config classify s es).registry
unfolding run
run-Fits config classify s [] h = h
run-Fits config classify s (e ∷ es) h =
    run-Fits config classify (step config classify s e) es (step-Fits config classify s h e)

initial-Fits : (config : BridgeConfig) → Fits config initial.registry
unfolding initial Registry.empty size
initial-Fits config = record { jobs = omega arith; operations = omega arith; outputs = tt }

-- With a configuration that passes validation, the registry never holds more than 128 jobs, more than
-- 4096 operations or more than 128 MiB of output, whatever the events are.
pub registry_stays_bounded :
    (policy_ok : PolicyConfig → Bool) (c : Config) (classify : Text → Verdict) (es : List Event)
    → validate policy_ok c ≡ ok tt
    → (size (run c.bridge classify initial es).registry.jobs ≤ 128)
      × (size (run c.bridge classify initial es).registry.operations ≤ 4096)
      × (retained_output (run c.bridge classify initial es).registry.jobs ≤ 134217728)
registry_stays_bounded policy_ok c classify es v =
    let b = validate-IsBounded policy_ok c v in
    let f = run-Fits c.bridge classify initial es (initial-Fits c.bridge) in
    (
      omega (arith, f.jobs, b.jobs_max),
      f.operations,
      omega (
        arith,
        retained-le c.bridge (run c.bridge classify initial es).registry f,
        b.cache_budget,
      ),
    )
