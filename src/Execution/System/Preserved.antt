-- ===== src/Execution/System/Preserved.antt =====
-- Every event but the dispatch keeps the invariant of the system (the dispatch: Dispatch.antt).
use securecrt_mcp.Prelude.{
  ℕ, ◌≡◌, refl, ap, ◌∙◌, Bool, true, false, arith, Bool-cases, inl, inr, Option, none, some, Result,
  ok, err, is_some,
}
use securecrt_mcp.Text.{Text}
use securecrt_mcp.Text.Equality.{eq_text_refl}
use securecrt_mcp.Assoc.{Assoc, lookup, insert}
use securecrt_mcp.Assoc.Laws.{lookup-insert}
use securecrt_mcp.Config.{BridgeConfig}
use securecrt_mcp.Fault.{Error}
use securecrt_mcp.Execution.Job.{State, Job, active}
use securecrt_mcp.Execution.Note.{Note, write, write-SameLife}
use securecrt_mcp.Execution.Registry.{is_closed, with_job, finish}
use securecrt_mcp.Execution.Registry.Invariant.{KeepsStanding, with_job-IsConsistent}
use securecrt_mcp.Execution.Registry.Ownership.{finish-IsConsistent}
use securecrt_mcp.Execution.System.{
  System, Phase, dispatching, capturing, settled, Verdict, set_sent, set_audit_us, set_running,
  set_stop, after_begin, begin_result, is_certainly_unsent, Outcome, outcome_state, on_begin,
  on_capture, on_end,
}
use securecrt_mcp.Execution.System.Changes.{
  IsCoherent, Changes-trans, with_job-Changes, finish-Changes,
}
use securecrt_mcp.Execution.System.Soundness.{IsSound, is_early, Advances, changed-IsSound}

-- The phase of `id` stays, or becomes a late one.
pub stays :
    (id : Text) (m : Assoc Phase)
    → is_some (lookup id m) ≡ true
    → is_early (lookup id m) ≡ false
    → Advances id m m
stays id m k l = record { others = λ i e. refl; was_known = k; is_known = k; late = l }

pub moves :
    (id : Text) (phase : Phase) (m : Assoc Phase)
    → is_some (lookup id m) ≡ true
    → is_early (some phase) ≡ false
    → Advances id m (insert id phase m)
moves id phase m k l =
    let here : lookup id (insert id phase m) ≡ some phase =
      ground (arith, lookup-insert id id phase m, eq_text_refl id) in
    record {
      others = λ i e. ground (arith, lookup-insert id i phase m);
      was_known = k;
      is_known = ap is_some here;
      late = ap is_early here ∙ l;
    }

-- Changes that leave the names and the standing of a job alone.
pub set_sent-KeepsStanding : (sent : Option Bool) → KeepsStanding (set_sent sent)
unfolding is_closed
set_sent-KeepsStanding sent j = (refl, refl, refl)

pub set_audit_us-KeepsStanding : (us : ℕ) → KeepsStanding (set_audit_us us)
unfolding is_closed
set_audit_us-KeepsStanding us j = (refl, refl, refl)

set_running-KeepsStanding : KeepsStanding set_running
unfolding is_closed
set_running-KeepsStanding j = (refl, refl, refl)

pub set_stop-KeepsStanding : KeepsStanding set_stop
unfolding is_closed
set_stop-KeepsStanding j = (refl, refl, refl)

write-KeepsStanding : (limit now : ℕ) (note : Note) → KeepsStanding (write limit now note)
unfolding is_closed
write-KeepsStanding limit now note j =
    let (session, operation, finished, ack, state) = write-SameLife limit now note j in
    (session, operation, rw (finished, ack) refl)

set_running-IsCoherent : (j : Job) → j.finished ≡ none → IsCoherent (set_running j)
unfolding active
set_running-IsCoherent j e = rw e

-- A change of the entry, and then its finish.
pub finish_with :
    (classify : Text → Verdict) (s : System) (id : Text) (f : Job → Job) (state : State)
    (code : Option ℕ) (reason : Text) (release : Bool) (now : ℕ) (phases : Assoc Phase)
    → KeepsStanding f
    → ((j : Job) → (f j).state ≡ j.state)
    → ((j : Job) → (f j).finished ≡ j.finished)
    → active state ≡ false
    → Advances id s.phases phases
    → IsSound classify s
    → IsSound classify (record s {
      registry = finish id state code reason release now (with_job id f s.registry);
      phases = phases;
    })
finish_with classify s id f state code reason release now phases k same_state same_finish a v h =
    changed-IsSound classify s id _ phases h
      (Changes-trans
        (with_job-Changes id f s.registry (λ j found q. ground (arith, same_state j, same_finish j))
          (λ j d. ap is_some (same_finish j) ∙ d))
        (finish-Changes id state code reason release now _ a))
      (finish-IsConsistent id state code reason release now _
        (with_job-IsConsistent id f s.registry k h.consistent))
      v

module _ (config : BridgeConfig) (classify : Text → Verdict) (s : System)
    (h : IsSound classify s) where
  -- The reply to `begin`.
  after_begin-IsSound :
      (id : Text) (reply : Result Error (Unit {0})) (now : ℕ)
      → lookup id s.phases ≡ some dispatching
      → IsSound classify (after_begin id reply now s)
  unfolding after_begin
  after_begin-IsSound id (ok u) now e =
      let (j, found, unfinished, starting) = h.early id (ap is_early e) in
      changed-IsSound classify s id _ _ h
        (with_job-Changes id set_running s.registry
          (λ k at q. set_running-IsCoherent k (ground (arith, found, at, unfinished))) (λ k d. d))
        (with_job-IsConsistent id set_running s.registry set_running-KeepsStanding h.consistent)
        (moves id capturing s.phases (ap is_some e) refl)
  after_begin-IsSound id (err x) now e = elim (Bool-cases (is_certainly_unsent x)) [
    | inl q ↦ rw q (
        finish_with classify s id (set_sent (some false)) _ _ _ _ now _ (set_sent-KeepsStanding _)
          (λ j. refl) (λ j. refl) (unfold active in refl)
          (moves id settled s.phases (ap is_some e) refl) h)
    | inr q ↦ rw q (
        finish_with classify s id (set_sent none) _ _ _ _ now _ (set_sent-KeepsStanding _)
          (λ j. refl) (λ j. refl) (unfold active in refl)
          (moves id settled s.phases (ap is_some e) refl) h)
  ]

  pub on_begin-IsSound :
      (id : Text) (reply : Result Error (Option Bool)) (now : ℕ) (o : Option Phase)
      → lookup id s.phases ≡ o
      → IsSound classify (on_begin config classify id reply now o s)
  unfolding on_begin
  on_begin-IsSound id reply now (some dispatching) e =
      after_begin-IsSound id (begin_result reply) now e
  on_begin-IsSound id reply now _ e = h

  pub on_capture-IsSound :
      (id : Text) (note : Note) (now : ℕ) (o : Option Phase)
      → lookup id s.phases ≡ o
      → IsSound classify (on_capture config classify id note now o s)
  unfolding on_capture
  on_capture-IsSound id note now (some capturing) e =
      changed-IsSound classify s id _ s.phases h
        (with_job-Changes id _ s.registry
          (λ j at q. ground (arith, write-SameLife config.max_output_bytes now note j))
          (λ j d. ground (arith, write-SameLife config.max_output_bytes now note j)))
        (with_job-IsConsistent id _ s.registry
          (write-KeepsStanding config.max_output_bytes now note) h.consistent)
        (stays id s.phases (ap is_some e) (ap is_early e))
  on_capture-IsSound id note now _ e = h

  outcome_state-inactive : (o : Outcome) → active (outcome_state o) ≡ false
  unfolding outcome_state active
  outcome_state-inactive o = ground arith

  pub on_end-IsSound :
      (id : Text) (outcome : Outcome) (reason : Text) (now : ℕ) (o : Option Phase)
      → lookup id s.phases ≡ o
      → IsSound classify (on_end config classify id outcome reason now o s)
  unfolding on_end
  on_end-IsSound id outcome reason now (some capturing) e =
      changed-IsSound classify s id _ _ h
        (finish-Changes id _ _ reason _ now s.registry (outcome_state-inactive outcome))
        (finish-IsConsistent id _ _ reason _ now s.registry h.consistent)
        (moves id settled s.phases (ap is_some e) refl)
  on_end-IsSound id outcome reason now _ e = h
