-- ===== src/Execution/System/Requests.antt =====
-- Interrupts and acknowledgements keep the invariant of the system.
use securecrt_mcp.Prelude.{
  ℕ, ◌≡◌, refl, ap, ◌∙◌, true, false, ◌∷◌, arith, Bool-cases, Option-cases, inl, inr, Option, none,
  some, ok, is_some, subst,
}
use securecrt_mcp.Text.{Text, eq_text, contains, codes}
use securecrt_mcp.Text.Equality.{eq_text→eq}
use securecrt_mcp.Assoc.{Assoc, lookup, remove}
use securecrt_mcp.Config.{BridgeConfig}
use securecrt_mcp.Execution.Job.{State, Job, active}
use securecrt_mcp.Execution.Registry.{
  Registry, ack_check, ack_release, interrupt_check, is_starting, eq_option,
}
use securecrt_mcp.Execution.Registry.Invariant.{IsConsistent}
use securecrt_mcp.Execution.Registry.Ownership.{ack_check-eq_ok}
use securecrt_mcp.Execution.Registry.Acknowledge.{
  ack_release-IsConsistent, ack_release-none-IsConsistent, eq_option-eq_some,
}
use securecrt_mcp.Execution.System.{System, Verdict, is_pending, set_stop, on_interrupt, on_ack}
use securecrt_mcp.Execution.System.Changes.{ack_release-Changes}
use securecrt_mcp.Execution.System.Soundness.{IsSound, is_early, changed-IsSound}
use securecrt_mcp.Execution.System.Preserved.{stays, finish_with, set_stop-KeepsStanding}

module _ (config : BridgeConfig) (classify : Text → Verdict) (s : System)
    (h : IsSound classify s) where
  -- Only the sessions that are held differ.
  with_busy :
      (busy : Assoc Text)
      → IsConsistent (record s.registry { busy = busy })
      → IsSound classify (record s { registry = record s.registry { busy = busy } })
  with_busy busy w = record {
    consistent = w;
    coherent = h.coherent;
    known = h.known;
    early = h.early;
    interrupting = h.interrupting;
    acking = h.acking;
    unsent = h.unsent;
    sent_ledgered = h.sent_ledgered;
    no_repeat = h.no_repeat;
    all_allowed = h.all_allowed;
  }

  pub on_interrupt-IsSound :
      (id : Text) (now : ℕ)
      → contains s.interrupts id ≡ true
      → IsSound classify (on_interrupt config classify id now s)
  unfolding on_interrupt
  on_interrupt-IsSound id now e =
      let (seen, late) = h.interrupting id e in
      finish_with classify s id set_stop State.cancelled none
        (codes "interrupt sent; inspect and acknowledge idle") false now s.phases
        set_stop-KeepsStanding (λ j. refl) (λ j. refl) (unfold active in refl)
        (stays id s.phases seen late) h

  -- The session of an acknowledgement whose job has finished is released.
  pub on_ack-IsSound :
      (session : Text) (previous : Option Text)
      → is_pending session previous s.acks ≡ true
      → IsSound classify (on_ack config classify session previous s)
  unfolding on_ack ack_release
  on_ack-IsSound session (some id) e =
      let (seen, done) = h.acking session id e in
      changed-IsSound classify s id _ s.phases h (ack_release-Changes session id s.registry)
        (ack_release-IsConsistent session id s.registry h.consistent done)
        (stays id s.phases seen (elim (Bool-cases (is_early (lookup id s.phases))) [
          | inl q ↦
              let (j, at, unfinished, starting) = h.early id q in absurd (ground (arith, done j at))
          | inr q ↦ q
        ]))
  on_ack-IsSound session none e =
      let w = ack_release-none-IsConsistent session s.registry h.consistent in
      elim (Bool-cases (eq_option (lookup session s.registry.busy) none)) [
        | inl q ↦
            let v : IsConsistent (record s.registry { busy = remove session s.registry.busy }) =
              rw (q, ack_release) at w in
            rw (q, ack_release) (with_busy (remove session s.registry.busy) v)
        | inr q ↦ rw (q, ack_release) h
      ]

  interrupt_check-eq_ok :
      (id session : Text) (r : Registry)
      → interrupt_check id r ≡ ok session
      → (j : Job) × (lookup id r.jobs ≡ some j) × (is_starting j.state ≡ false)
  unfolding interrupt_check
  interrupt_check-eq_ok id session r q = elim (Option-cases (lookup id r.jobs)) [
    | inl e ↦ absurd (ground arith)
    | inr (j, e) ↦ (j, e, ground arith)
  ]

  -- A job that is there has a phase.
  has_phase :
      (id : Text) (j : Job)
      → lookup id s.registry.jobs ≡ some j
      → is_some (lookup id s.phases) ≡ true
  has_phase id j f = ground (arith, h.known id)

  pub on_interrupt_started-IsSound :
      (id session : Text)
      → interrupt_check id s.registry ≡ ok session
      → IsSound classify (record s { interrupts = id ∷ s.interrupts })
  unfolding contains
  on_interrupt_started-IsSound id session q =
      let (j, found, past) = interrupt_check-eq_ok id session s.registry q in
      let late : is_early (lookup id s.phases) ≡ false =
        elim (Bool-cases (is_early (lookup id s.phases))) [
          | inr e ↦ e
          | inl e ↦
              let (k, at, unfinished, starting) = h.early id e in
              absurd (ground (arith, ap is_starting starting))
        ] in
      record {
        consistent = h.consistent;
        coherent = h.coherent;
        known = h.known;
        early = h.early;
        interrupting = λ i e. elim (Bool-cases (eq_text id i)) [
          | inl same ↦
              subst
                (λ t. (is_some (lookup t s.phases) ≡ true) × (is_early (lookup t s.phases) ≡ false))
                (eq_text→eq id i same) (has_phase id j found, late)
          | inr other ↦ h.interrupting i (ground arith)
        ];
        acking = h.acking;
        unsent = h.unsent;
        sent_ledgered = h.sent_ledgered;
        no_repeat = h.no_repeat;
        all_allowed = h.all_allowed;
      }

  pub on_ack_started-IsSound :
      (session : Text) (previous : Option Text)
      → ack_check session s.registry ≡ ok previous
      → IsSound classify (record s { acks = (session, previous) ∷ s.acks })
  unfolding is_pending
  on_ack_started-IsSound session previous q = record {
    consistent = h.consistent;
    coherent = h.coherent;
    known = h.known;
    early = h.early;
    interrupting = h.interrupting;
    acking = λ t i e. elim (Bool-cases (eq_option previous (some i))) [
      | inr other ↦ h.acking t i (ground arith)
      | inl same ↦
          let was = eq_option-eq_some previous i same in
          let (j, hold, found, inactive) =
            ack_check-eq_ok session s.registry i (q ∙ ap (λ o. ok o) was) in
          (has_phase i j found, λ k f. ground (arith, h.coherent i k f))
    ];
    unsent = h.unsent;
    sent_ledgered = h.sent_ledgered;
    no_repeat = h.no_repeat;
    all_allowed = h.all_allowed;
  }
