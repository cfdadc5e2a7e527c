-- ===== src/Execution/System/Dispatch.antt =====
-- The dispatch of a submission keeps the invariant of the system.
use securecrt_mcp.Prelude.{
  ℕ, ◌≡◌, refl, sym, ap, ◌∙◌, true, false, not, ◌∷◌, arith, if◌then◌else◌, Bool-cases, inl, inr,
  none, some, Result, ok, err, is_some,
}
use securecrt_mcp.Text.{Text, eq_text}
use securecrt_mcp.Text.Equality.{eq_text_iff}
use securecrt_mcp.Assoc.{Assoc, lookup, insert}
use securecrt_mcp.Assoc.Laws.{lookup-insert, lookup-modify, lookup-modify_inv}
use securecrt_mcp.Execution.Job.{State, Job, active}
use securecrt_mcp.Execution.Params.{ExecuteParams}
use securecrt_mcp.Execution.Registry.{Registry, with_job}
use securecrt_mcp.Execution.Registry.Invariant.{with_job-IsConsistent}
use securecrt_mcp.Execution.System.{
  System, Phase, reserved, dispatching, settled, Verdict, set_sent, set_audit_us, after_audit,
}
use securecrt_mcp.Execution.System.Changes.{Changes, Changes-trans, with_job-Changes}
use securecrt_mcp.Execution.System.Soundness.{IsSound}
use securecrt_mcp.Execution.System.Preserved.{
  finish_with, moves, set_audit_us-KeepsStanding, set_sent-KeepsStanding,
}

module _ (classify : Text → Verdict) (s : System) (h : IsSound classify s) where
  module _ (id : Text) (p : ExecuteParams) (us : ℕ)
      (e : lookup id s.phases ≡ some (reserved p)) where
    abbrev audited_job : Registry
    audited_job = with_job id (set_sent none) (with_job id (set_audit_us us) s.registry)

    audited_job-Changes : Changes id s.registry audited_job
    audited_job-Changes =
        Changes-trans (with_job-Changes id (set_audit_us us) s.registry (λ j f c. c) (λ j f. f)) (
          with_job-Changes id (set_sent none) (with_job id (set_audit_us us) s.registry)
            (λ j f c. c) (λ j f. f))

    change_at :
        (i : Text) (w : Job)
        → lookup i audited_job.jobs ≡ some w
        → (k : Job) × (lookup i s.registry.jobs ≡ some k)
          × (w.finished ≡ k.finished)
          × (w.state ≡ k.state)
    unfolding with_job
    change_at i w f =
        let (v, at, q) = lookup-modify_inv id i (set_sent none) _ w f in
        let (k, found, t) = lookup-modify_inv id i (set_audit_us us) s.registry.jobs v at in
        elim (Bool-cases (eq_text id i)) [
          | inl b ↦ (k, found, ground arith, ground arith)
          | inr b ↦ (k, found, ground arith, ground arith)
        ]

    change_from :
        (i : Text) (k : Job)
        → lookup i s.registry.jobs ≡ some k
        → (w : Job) × (lookup i audited_job.jobs ≡ some w)
          × (w.finished ≡ k.finished)
          × (w.state ≡ k.state)
    unfolding with_job
    change_from i k f = elim (Bool-cases (eq_text id i)) [
      | inl b ↦ (
        set_sent none (set_audit_us us k),
        ground (
          arith,
          lookup-modify id i (set_sent none) (with_job id (set_audit_us us) s.registry).jobs,
          lookup-modify id i (set_audit_us us) s.registry.jobs,
        ),
        refl,
        refl,
      )
      | inr b ↦ (
        k,
        ground (
          arith,
          lookup-modify id i (set_sent none) (with_job id (set_audit_us us) s.registry).jobs,
          lookup-modify id i (set_audit_us us) s.registry.jobs,
        ),
        refl,
        refl,
      )
    ]

    abbrev phases' : Assoc Phase
    phases' = insert id dispatching s.phases

    phase_at :
        (i : Text)
        → lookup i phases' ≡ (if eq_text id i then some dispatching else lookup i s.phases)
    phase_at i = lookup-insert id i dispatching s.phases

    -- The send itself: the operation was not sent before, and the command is allowed.
    dispatch-IsSound :
        (classify p.command).allow ≡ true
        → IsSound classify (record s {
          registry = audited_job;
          phases = phases';
          sent = (p.operation_id, p.command) ∷ s.sent;
        })
    dispatch-IsSound allowed =
        let c = audited_job-Changes in
        let (hash, entry, new) = h.unsent id p e in
        record {
          consistent = with_job-IsConsistent id (set_sent none) _ (set_sent-KeepsStanding none) (
              with_job-IsConsistent id (set_audit_us us) s.registry (set_audit_us-KeepsStanding us)
                h.consistent);
          coherent = λ i w f.
              let (k, found, unfinished, state) = change_at i w f in
              ap active state ∙ h.coherent i k found ∙ ap (λ o. not (is_some o)) (sym unfinished);
          known = λ i n. ground (arith, phase_at i, c.jobs i, h.known i);
          early = λ i g.
              let (k, found, unfinished, starting) =
                h.early i (ground (arith, phase_at i, eq_text_iff id i)) in
              let (w, at, x, y) = change_from i k found in (w, at, x ∙ unfinished, y ∙ starting);
          interrupting = λ i g.
              let (seen, late) = h.interrupting i g in
              (ground (arith, phase_at i), ground (arith, phase_at i, eq_text_iff id i));
          acking = λ t i g.
              let (seen, done) = h.acking t i g in
              (
                ground (arith, phase_at i),
                λ w f. let (k, found, x, y) = change_at i w f in ap is_some x ∙ done k found,
              );
          unsent = λ i o g.
              let other : eq_text id i ≡ false = ground (arith, phase_at i) in
              let (hash', entry', new') = h.unsent i o (ground (arith, phase_at i)) in
              (
                hash',
                rw c.operations entry',
                ground (
                  arith,
                  eq_text_iff p.operation_id o.operation_id,
                  eq_text_iff id i,
                  entry,
                  entry',
                ),
              );
          sent_ledgered = λ op g.
              rw c.operations
                (ground (arith, h.sent_ledgered op, eq_text_iff p.operation_id op, entry));
          no_repeat = (new, h.no_repeat);
          all_allowed = (allowed, h.all_allowed);
        }

  pub after_audit-IsSound :
      (id : Text) (p : ExecuteParams) (us : ℕ) (audit : Result Text (Unit {0})) (now : ℕ)
      → lookup id s.phases ≡ some (reserved p)
      → IsSound classify (after_audit (classify p.command) id p us audit now s)
  unfolding after_audit
  after_audit-IsSound id p us (err x) now e =
      finish_with classify s id (set_audit_us us) State.rejected none _ true now _
        (set_audit_us-KeepsStanding us) (λ j. refl) (λ j. refl) (unfold active in refl)
        (moves id settled s.phases (ap is_some e) refl) h
  after_audit-IsSound id p us (ok u) now e = elim (Bool-cases (classify p.command).allow) [
    | inl q ↦ rw q (dispatch-IsSound id p us e q)
    | inr q ↦ rw q (
        finish_with classify s id (set_audit_us us) State.rejected none _ true now _
          (set_audit_us-KeepsStanding us) (λ j. refl) (λ j. refl) (unfold active in refl)
          (moves id settled s.phases (ap is_some e) refl) h)
  ]
