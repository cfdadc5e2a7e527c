-- ===== src/Execution/System/Submission.antt =====
-- A submission, admitted, replayed or refused, keeps the invariant of the system.
use securecrt_mcp.Prelude.{
  ℕ, ◌≡◌, refl, sym, arith, ltb, if◌then◌else◌, Bool-cases, Option-cases, inl, inr, none, some,
  Result, ok, err, ◌≢◌, subst,
}
use securecrt_mcp.Text.{Text, eq_text}
use securecrt_mcp.Text.Equality.{eq_text_iff}
use securecrt_mcp.Assoc.{Assoc, lookup, insert, size, contains_key}
use securecrt_mcp.Assoc.Laws.{lookup-insert}
use securecrt_mcp.Config.{BridgeConfig}
use securecrt_mcp.Execution.Job.{Job, active}
use securecrt_mcp.Execution.Params.{ExecuteParams, SubmitError}
use securecrt_mcp.Execution.Registry.{
  Registry, Admission, is_closed, reserve, admit, enter, sweep, new_job, replay,
}
use securecrt_mcp.Execution.Registry.Invariant.{IsConsistent}
use securecrt_mcp.Execution.System.{System, reserved, Verdict, start}
use securecrt_mcp.Execution.System.Soundness.{IsSound}
use securecrt_mcp.Execution.Registry.Sweep.{Swept, sweep-Swept}
use securecrt_mcp.Execution.Registry.Invariant.{
  sweep-IsConsistent, enter-IsConsistent, sweep-lookup-none,
}

-- Jobs have gone, and none that is not closed.
Swept-IsSound :
    (classify : Text → Verdict) (s : System) (jobs : Assoc Job)
    → IsSound classify s
    → Swept s.registry.jobs jobs
    → IsConsistent (record s.registry { jobs = jobs })
    → IsSound classify (record s { registry = record s.registry { jobs = jobs } })
unfolding is_closed
Swept-IsSound classify s jobs h w c = record {
  consistent = c;
  coherent = λ i j f. h.coherent i j (w.old i j f);
  known = λ i n. elim (Option-cases (lookup i jobs)) [
    | inl e ↦ e
    | inr (j, e) ↦ absurd (ground (arith, h.known i n, w.old i j e))
  ];
  early = λ i e.
      let (j, found, unfinished, starting) = h.early i e in
      (j, w.kept i j found (rw unfinished), unfinished, starting);
  interrupting = h.interrupting;
  acking = λ t i e. let (seen, done) = h.acking t i e in (seen, λ j f. done j (w.old i j f));
  unsent = h.unsent;
  sent_ledgered = h.sent_ledgered;
  no_repeat = h.no_repeat;
  all_allowed = h.all_allowed;
}

module _ (classify : Text → Verdict) (s : System) (h : IsSound classify s) (now : ℕ)
    (p : ExecuteParams) (fingerprint id : Text) (fresh : lookup id s.phases ≡ none)
    (unseen : lookup p.operation_id s.registry.operations ≡ none) where
  abbrev job : Job
  job = new_job now p id

  job_at :
      (i : Text)
      → lookup i (insert id job s.registry.jobs)
        ≡ (if eq_text id i then some job else lookup i s.registry.jobs)
  job_at i = lookup-insert id i job s.registry.jobs

  phase_at :
      (i : Text)
      → lookup i (insert id (reserved p) s.phases)
        ≡ (if eq_text id i then some (reserved p) else lookup i s.phases)
  phase_at i = lookup-insert id i (reserved p) s.phases

  operation_at :
      (op : Text)
      → lookup op (insert p.operation_id (id, fingerprint) s.registry.operations) ≡ (
          if eq_text p.operation_id op
          then some (id, fingerprint)
          else lookup op s.registry.operations)
  operation_at op = lookup-insert p.operation_id op (id, fingerprint) s.registry.operations

  -- A new entry: its identifier has no phase yet, its operation no line in the ledger.
  entered-IsSound :
      IsConsistent (enter now p fingerprint id s.registry)
      → IsSound classify (record s {
        registry = enter now p fingerprint id s.registry;
        phases = insert id (reserved p) s.phases;
      })
  unfolding enter new_job active
  entered-IsSound c = record {
    consistent = c;
    coherent = λ i j f. elim (Bool-cases (eq_text id i)) [
      | inl e ↦ ground (arith, job_at i)
      | inr e ↦ h.coherent i j (ground (arith, job_at i))
    ];
    known = λ i n. ground (arith, phase_at i, job_at i, h.known i);
    early = λ i e. elim (Bool-cases (eq_text id i)) [
      | inl q ↦ (job, ground (arith, job_at i), refl, refl)
      | inr q ↦
          let (j, found, unfinished, starting) = h.early i (ground (arith, phase_at i)) in
          (j, ground (arith, job_at i), unfinished, starting)
    ];
    interrupting = λ i e.
        let (seen, late) = h.interrupting i e in
        (ground (arith, phase_at i), ground (arith, phase_at i, eq_text_iff id i));
    acking = λ t i e.
        let (seen, done) = h.acking t i e in
        (ground (arith, phase_at i), λ j f. done j (ground (arith, job_at i, eq_text_iff id i)));
    unsent = λ i o e. elim (Bool-cases (eq_text id i)) [
      | inl q ↦
          let same : some p ≡ some o = ground (arith, phase_at i) in
          (
            fingerprint,
            ground (
              arith,
              operation_at o.operation_id,
              eq_text_iff p.operation_id o.operation_id,
              eq_text_iff id i,
            ),
            ground (arith, h.sent_ledgered p.operation_id),
          )
      | inr q ↦
          let (hash, entry, new) = h.unsent i o (ground (arith, phase_at i)) in
          (
            hash,
            ground (arith, operation_at o.operation_id, eq_text_iff p.operation_id o.operation_id),
            new,
          )
    ];
    sent_ledgered = λ op e. ground (arith, operation_at op, h.sent_ledgered op);
    no_repeat = h.no_repeat;
    all_allowed = h.all_allowed;
  }

-- Only an admission starts a submission.
start_refused :
    (s : System) (id : Text) (p : ExecuteParams) (r : Registry)
    (answer : Result SubmitError Admission)
    → answer ≢ ok Admission.admitted
    → start id p (r, answer) s ≡ record s { registry = r }
unfolding start
start_refused s id p r (ok Admission.admitted) n = absurd (n refl)
start_refused s id p r (ok (Admission.replayed j)) n = refl
start_refused s id p r (err e) n = refl

replay-ne-admitted :
    (r : Registry) (fingerprint : Text) (entry : Text × Text)
    → replay r fingerprint entry ≢ ok Admission.admitted
unfolding replay
replay-ne-admitted r fingerprint (old, hash) h = elim (Bool-cases (eq_text hash fingerprint)) [
  | inl e ↦ elim (Option-cases (lookup old r.jobs)) [
    | inl q ↦ ground arith
    | inr (j, q) ↦ ground arith
  ]
  | inr e ↦ ground arith
]

module _ (config : BridgeConfig) (classify : Text → Verdict) (s : System) (h : IsSound classify s)
    (now : ℕ) (p : ExecuteParams) (fingerprint id : Text) (fresh : lookup id s.phases ≡ none) where
  swept : Registry
  swept = sweep config now s.registry

  submit_swept : IsSound classify (record s { registry = swept })
  unfolding swept sweep
  submit_swept =
      Swept-IsSound classify s _ h
        (unfold sweep in sweep-Swept config now s.registry h.consistent.distinct)
        (unfold sweep in sweep-IsConsistent config now s.registry h.consistent)

  submit_entered :
      lookup p.session s.registry.busy ≡ none
      → lookup p.operation_id s.registry.operations ≡ none
      → IsSound classify (record s {
        registry = enter now p fingerprint id swept;
        phases = insert id (reserved p) s.phases;
      })
  submit_entered idle unseen =
      let idle' : lookup p.session swept.busy ≡ none = unfold swept sweep in idle in
      let unseen' : lookup p.operation_id swept.operations ≡ none = unfold swept sweep in unseen in
      let gone : lookup id swept.jobs ≡ none =
        unfold swept in
        sweep-lookup-none config now p fingerprint id s.registry h.consistent (h.known id fresh) in
      entered-IsSound classify (record s { registry = swept }) submit_swept now p fingerprint id
        fresh unseen'
        (enter-IsConsistent now p fingerprint id swept gone idle' unseen' submit_swept.consistent)

  submit_admit :
      lookup p.session s.registry.busy ≡ none
      → lookup p.operation_id s.registry.operations ≡ none
      → IsSound classify (start id p (admit config now p fingerprint id swept) s)
  unfolding admit
  submit_admit idle unseen = elim (Bool-cases (ltb (size swept.jobs) config.max_jobs)) [
    | inr e ↦ rw (e, admit) (unfold start in submit_swept)
    | inl e ↦ elim (Bool-cases (ltb (size swept.operations) 4096)) [
      | inr q ↦ rw (e, admit) (rw q (unfold start in submit_swept))
      | inl q ↦ rw (e, admit) (rw q (unfold start in submit_entered idle unseen))
    ]
  ]

  pub submit-IsSound :
      IsSound classify (start id p (reserve config now p fingerprint id s.registry) s)
  unfolding reserve contains_key swept
  submit-IsSound = elim (Option-cases (lookup p.operation_id s.registry.operations)) [
    | inr (entry, e) ↦
        rw (e, reserve)
          (subst (IsSound classify)
            (sym (
              start_refused s id p s.registry (replay s.registry fingerprint entry)
                (replay-ne-admitted s.registry fingerprint entry)))
            h)
    | inl e ↦ elim (Option-cases (lookup p.session s.registry.busy)) [
      | inr (b, q) ↦ rw (e, reserve) (rw (q, contains_key) (unfold start in h))
      | inl q ↦ rw (e, reserve) (rw (q, contains_key) (submit_admit q e))
    ]
  ]
