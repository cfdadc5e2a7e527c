-- ===== src/Execution/System/Theorems.antt =====
-- The events of the execution engine in any order.
use securecrt_mcp.Prelude.{
  ℕ, ◌≡◌, refl, sym, ap, ◌∙◌, false, List, [], ◌∷◌, Bool-cases, inl, inr, Option, some, Result, ok,
  err, ◌≢◌,
}
use securecrt_mcp.Text.{Text, contains}
use securecrt_mcp.Assoc.{lookup}
use securecrt_mcp.Config.{BridgeConfig}
use securecrt_mcp.Execution.Job.{Job}
use securecrt_mcp.Execution.Registry.{is_closed, ack_check, AckError, no_such_job, interrupt_check}
use securecrt_mcp.Execution.Registry.Ownership.{ack_check-ne-no_such_job}
use securecrt_mcp.Execution.System.{
  System, Verdict, initial, is_pending, step, run, IsFresh, AllFresh, Event, submit, audited, began,
  captured, ended, interrupt_started, interrupt_sent, ack_started, ack_accepted, on_audit, reserved,
}
use securecrt_mcp.Execution.System.Soundness.{IsSound, initial-IsSound, NoRepeat, AllAllowed}
use securecrt_mcp.Execution.System.Preserved.{on_begin-IsSound, on_capture-IsSound, on_end-IsSound}
use securecrt_mcp.Execution.System.Requests.{
  on_interrupt-IsSound, on_ack-IsSound, on_interrupt_started-IsSound, on_ack_started-IsSound,
}
use securecrt_mcp.Execution.System.Dispatch.{after_audit-IsSound}
use securecrt_mcp.Execution.System.Submission.{submit-IsSound}

module _ (config : BridgeConfig) (classify : Text → Verdict) where
  on_audit-IsSound :
      (s : System) (h : IsSound classify s) (id : Text) (us : ℕ) (audit : Result Text (Unit {0}))
      (now : ℕ) (o : Option _)
      → lookup id s.phases ≡ o
      → IsSound classify (on_audit config classify id us audit now o s)
  unfolding on_audit
  on_audit-IsSound s h id us audit now (some (reserved p)) e =
      after_audit-IsSound classify s h id p us audit now e
  on_audit-IsSound s h id us audit now _ e = h

  step-IsSound :
      (s : System) (e : Event)
      → IsFresh config classify s e
      → IsSound classify s
      → IsSound classify (step config classify s e)
  unfolding step
  step-IsSound s (submit p fingerprint id now) f h =
      submit-IsSound config classify s h now p fingerprint id f
  step-IsSound s (audited id us audit now) f h =
      on_audit-IsSound s h id us audit now (lookup id s.phases) refl
  step-IsSound s (began id reply now) f h =
      on_begin-IsSound config classify s h id reply now (lookup id s.phases) refl
  step-IsSound s (captured id note now) f h =
      on_capture-IsSound config classify s h id note now (lookup id s.phases) refl
  step-IsSound s (ended id outcome reason now) f h =
      on_end-IsSound config classify s h id outcome reason now (lookup id s.phases) refl
  step-IsSound s (interrupt_started id) f h = go (interrupt_check id s.registry) refl
    where
      go :
          (o : Result _ Text)
          → interrupt_check id s.registry ≡ o
          → IsSound classify
              (elim o [ err _ ↦ s | ok session ↦ record s { interrupts = id ∷ s.interrupts } ])
      go (err x) e = h
      go (ok session) e = on_interrupt_started-IsSound config classify s h id session e
  step-IsSound s (interrupt_sent id now) f h = elim (Bool-cases (contains s.interrupts id)) [
    | inl e ↦ rw e (on_interrupt-IsSound config classify s h id now e)
    | inr e ↦ rw e h
  ]
  step-IsSound s (ack_started session) f h = go (ack_check session s.registry) refl
    where
      go :
          (o : Result AckError (Option Text))
          → ack_check session s.registry ≡ o
          → IsSound classify (elim o [
            | err _ ↦ s
            | ok previous ↦ record s { acks = (session, previous) ∷ s.acks }
          ])
      go (err x) e = h
      go (ok previous) e = on_ack_started-IsSound config classify s h session previous e
  step-IsSound s (ack_accepted session previous) f h =
      elim (Bool-cases (is_pending session previous s.acks)) [
        | inl e ↦ rw e (on_ack-IsSound config classify s h session previous e)
        | inr e ↦ rw e h
      ]

  run-IsSound :
      (s : System) (es : List Event)
      → AllFresh config classify s es
      → IsSound classify s
      → IsSound classify (run config classify s es)
  unfolding run
  run-IsSound s [] f h = h
  run-IsSound s (e ∷ es) f h =
      run-IsSound (step config classify s e) es f.1 (step-IsSound s e f.0 h)

  reachable-IsSound :
      (es : List Event)
      → AllFresh config classify initial es
      → IsSound classify (run config classify initial es)
  reachable-IsSound es f = run-IsSound initial es f (initial-IsSound classify)

  -- Whatever the order of submissions, replies, captures, interrupts and acknowledgements, no
  -- operation identifier is sent to the bridge twice, if the drawn job identifiers are new.
  pub no_operation_sent_twice :
      (es : List Event)
      → AllFresh config classify initial es
      → NoRepeat (run config classify initial es).sent
  no_operation_sent_twice es f = (reachable-IsSound es f).no_repeat

  -- Every command that has been sent to the bridge had been allowed by the policy, if the drawn job
  -- identifiers are new.
  pub sent_commands_allowed :
      (es : List Event)
      → AllFresh config classify initial es
      → AllAllowed classify (run config classify initial es).sent
  sent_commands_allowed es f = (reachable-IsSound es f).all_allowed

  -- Two jobs of one session that are both unfinished or unacknowledged are one job: a session never
  -- has two commands whose state is open, if the drawn job identifiers are new.
  pub one_open_job_per_session :
      (es : List Event) (id id' : Text) (j k : Job)
      → AllFresh config classify initial es
      → lookup id (run config classify initial es).registry.jobs ≡ some j
      → lookup id' (run config classify initial es).registry.jobs ≡ some k
      → j.session ≡ k.session
      → is_closed j ≡ false
      → is_closed k ≡ false
      → id ≡ id'
  one_open_job_per_session es id id' j k f at at' same open_j open_k =
      let c = (reachable-IsSound es f).consistent in
      let held = c.holder id j at open_j in
      let held' = c.holder id' k at' open_k in
      let t : some id ≡ some id' =
        sym held ∙ ap (λ x. lookup x (run config classify initial es).registry.busy) same ∙ held' in
      cc

  -- The index of `acknowledge_idle` into the jobs is in range in every reachable state, if the drawn
  -- job identifiers are new.
  pub acknowledge_never_panics :
      (es : List Event) (session : Text)
      → AllFresh config classify initial es
      → ack_check session (run config classify initial es).registry ≢ err no_such_job
  acknowledge_never_panics es session f =
      ack_check-ne-no_such_job session _ (reachable-IsSound es f).consistent
