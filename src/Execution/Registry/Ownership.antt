-- ===== src/Execution/Registry/Ownership.antt =====
-- `finish` and `acknowledge_idle` on a consistent registry: who holds a session, and until when.
use securecrt_mcp.Prelude.{
  ℕ, ◌≡◌, refl, sym, ap, ◌∙◌, Bool, true, false, ◌&&◌, arith, if◌then◌else◌, Bool-cases,
  Option-cases, inl, inr, Option, none, some, ok, err, is_some, ◌≢◌, subst,
}
use securecrt_mcp.Text.{Text, eq_text}
use securecrt_mcp.Text.Equality.{eq_text_iff, eq_text_refl}
use securecrt_mcp.Assoc.{lookup, remove, modify}
use securecrt_mcp.Assoc.Laws.{lookup-remove, lookup-modify, lookup-modify_inv}
use securecrt_mcp.Assoc.Distinct.{modify-IsDistinct}
use securecrt_mcp.Execution.Job.{State, Job, active}
use securecrt_mcp.Execution.Registry.{
  Registry, finish_job, is_busy_with, is_closed, finish, ack_check, no_such_job,
}
use securecrt_mcp.Execution.Registry.Invariant.{IsConsistent}

module _ (state : State) (code : Option ℕ) (reason : Text) (release : Bool) (now : ℕ) where
  -- A finished job is closed exactly if it was released.
  finish_job-is_closed :
      (j : Job) → is_closed (finish_job state code reason release now j) ≡ release
  unfolding finish_job is_closed
  finish_job-is_closed j = ground arith

  finish_job-names :
      (j : Job)
      → ((finish_job state code reason release now j).session ≡ j.session)
        × ((finish_job state code reason release now j).operation_id ≡ j.operation_id)
  unfolding finish_job
  finish_job-names j = (refl, refl)

is_busy_with_lem :
    (r : Registry) (s i : Text) → lookup s r.busy ≡ some i → is_busy_with r s i ≡ true
unfolding is_busy_with
is_busy_with_lem r s i h = rw (h, is_busy_with) (eq_text_refl i)

abbrev and_true : (b : Bool) → (b && true) ≡ b
and_true true = refl
and_true false = refl

-- The registry after a live job has finished.
module _ (id : Text) (state : State) (code : Option ℕ) (reason : Text) (release : Bool)
    (now : ℕ) where
  abbrev finished_registry : Registry → Job → Registry
  finished_registry r j = record r {
    jobs = modify id (finish_job state code reason release now) r.jobs;
    busy = if release then remove j.session r.busy else r.busy;
  }

  finish_live :
      (r : Registry) (j : Job)
      → IsConsistent r
      → lookup id r.jobs ≡ some j
      → is_closed j ≡ false
      → finish id state code reason release now r ≡ finished_registry r j
  unfolding finish
  finish_live r j c found live =
      rw (found, finish)
        (rw live (
          rw (is_busy_with_lem r j.session id (c.holder id j found live)) (
            ap
              (λ b. record r {
                jobs = modify id (finish_job state code reason release now) r.jobs;
                busy = if b then remove j.session r.busy else r.busy;
              })
              (and_true release))))

  finish_closed :
      (r : Registry) (j : Job)
      → lookup id r.jobs ≡ some j
      → is_closed j ≡ true
      → finish id state code reason release now r ≡ r
  unfolding finish
  finish_closed r j found closed = rw (found, finish) (rw closed)

  finish_unknown :
      (r : Registry) → lookup id r.jobs ≡ none → finish id state code reason release now r ≡ r
  unfolding finish
  finish_unknown r missing = rw (missing, finish)

  module _ (r : Registry) (j : Job) (c : IsConsistent r) (found : lookup id r.jobs ≡ some j)
      (live : is_closed j ≡ false) where
    abbrev f : Job → Job
    f = finish_job state code reason release now

    -- Of two sessions that are held, one is held by this job only if it is this job's.
    busy_after :
        (s i : Text)
        → lookup s (finished_registry r j).busy ≡ some i
        → (lookup s r.busy ≡ some i) × (eq_text id i ≡ true → release ≡ false)
    busy_after s i h =
        let was : lookup s r.busy ≡ some i = ground (arith, lookup-remove j.session s r.busy) in
        let (k, at, q, l) = c.held s i was in
        (
          was,
          λ e.
              ground (
                arith,
                lookup-remove j.session s r.busy,
                eq_text_iff id i,
                eq_text_iff j.session s,
              ),
        )

    finished-IsConsistent : IsConsistent (finished_registry r j)
    finished-IsConsistent = record {
      distinct = modify-IsDistinct id f r.jobs c.distinct;
      held = λ s i h.
          let (was, holds) = busy_after s i h in
          let (k, at, q, l) = c.held s i was in
          elim (Bool-cases (eq_text id i)) [
            | inl e ↦ (
              f k,
              ground (arith, lookup-modify id i f r.jobs),
              (finish_job-names state code reason release now k).0 ∙ q,
              finish_job-is_closed state code reason release now k ∙ holds e,
            )
            | inr e ↦ (k, ground (arith, lookup-modify id i f r.jobs), q, l)
          ];
      holder = λ i w g l.
          let (k, at, q) = lookup-modify_inv id i f r.jobs w g in
          elim (Bool-cases (eq_text id i)) [
            | inl e ↦ ground (
              arith,
              ap is_closed q,
              finish_job-is_closed state code reason release now k,
              finish_job-names state code reason release now k,
              eq_text_iff id i,
              c.holder id j,
            )
            | inr e ↦ ground (
              arith,
              c.holder i k,
              c.holder id j,
              lookup-remove j.session k.session r.busy,
              eq_text_iff j.session k.session,
              eq_text_iff id i,
            )
          ];
      ledgered = λ i w g.
          let (k, at, q) = lookup-modify_inv id i f r.jobs w g in
          let (hash, known) = c.ledgered i k at in
          (hash, ground (arith, finish_job-names state code reason release now k));
    }

  -- Finishing keeps the registry consistent, whoever finishes and whatever the outcome.
  pub finish-IsConsistent :
      (r : Registry) → IsConsistent r → IsConsistent (finish id state code reason release now r)
  finish-IsConsistent r c = elim (Option-cases (lookup id r.jobs)) [
    | inl e ↦ subst IsConsistent (sym (finish_unknown r e)) c
    | inr (j, e) ↦ elim (Bool-cases (is_closed j)) [
      | inl q ↦ subst IsConsistent (sym (finish_closed r j e q)) c
      | inr q ↦ subst IsConsistent (sym (finish_live r j c e q)) (finished-IsConsistent r j c e q)
    ]
  ]

-- On a consistent registry the index `registry.jobs[id]` of `acknowledge_idle` never panics.
pub ack_check-ne-no_such_job :
    (session : Text) (r : Registry) → IsConsistent r → ack_check session r ≢ err no_such_job
unfolding ack_check
ack_check-ne-no_such_job session r c h = elim (Option-cases (lookup session r.busy)) [
  | inl e ↦ let x : ok none ≡ err no_such_job = rw (e, ack_check) at h in cc
  | inr (id, e) ↦
      let (j, found, q, l) = c.held session id e in ground (arith, ap (λ o. is_some o) found)
]

-- What a check that succeeds has seen.
pub ack_check-eq_ok :
    (session : Text) (r : Registry) (id : Text)
    → ack_check session r ≡ ok (some id)
    → (j : Job) × (lookup session r.busy ≡ some id)
      × (lookup id r.jobs ≡ some j)
      × (active j.state ≡ false)
unfolding ack_check
ack_check-eq_ok session r id h = elim (Option-cases (lookup session r.busy)) [
  | inl e ↦ let x : ok none ≡ ok (some id) = rw (e, ack_check) at h in absurd (ground arith)
  | inr (i, e) ↦ elim (Option-cases (lookup i r.jobs)) [
    | inl q ↦ absurd (ground arith)
    | inr (j, q) ↦
        let same : i ≡ id = ground arith in (j, ground arith, rw (← same) q, ground arith)
  ]
]
