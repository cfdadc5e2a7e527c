-- ===== src/Execution/System/Changes.antt =====
-- What one locked section may do to the entry of one job.
use securecrt_mcp.Prelude.{
  ℕ, ◌≡◌, refl, ◌∙◌, Bool, true, false, not, arith, if◌then◌else◌, Bool-cases, Option-cases, inl,
  inr, Option, none, some, is_some,
}
use securecrt_mcp.Text.{Text, eq_text}
use securecrt_mcp.Text.Equality.{eq_text_refl}
use securecrt_mcp.Assoc.{Assoc, lookup, modify}
use securecrt_mcp.Assoc.Laws.{lookup-modify}
use securecrt_mcp.Execution.Job.{State, Job, active}
use securecrt_mcp.Execution.Registry.{
  Registry, with_job, finish_job, finish, is_closed, ack_release, eq_option,
}

-- A job is active exactly until it is finished.
abbrev pub IsCoherent : Job → Type 0
IsCoherent j = active j.state ≡ not (is_some j.finished)

abbrev pub map_option : (Job → Job) → Option Job → Option Job
map_option g none = none
map_option g (some j) = some (g j)

-- The registry `after` differs from `before` by a change of the job `id` and of the sessions only.
pub record Changes (id : Text) (before after : Registry) : Type 0 where
  pub change : Job → Job
  pub jobs :
      (i : Text)
      → lookup i after.jobs
        ≡ (if eq_text id i then map_option change (lookup i before.jobs) else lookup i before.jobs)
  pub operations : after.operations ≡ before.operations
  pub coherent : (j : Job) → lookup id before.jobs ≡ some j → IsCoherent j → IsCoherent (change j)
  pub finished : (j : Job) → is_some j.finished ≡ true → is_some (change j).finished ≡ true

pub Changes-refl : (id : Text) (r : Registry) → Changes id r r
Changes-refl id r = record {
  change = λ j. j;
  jobs = λ i. ground arith;
  operations = refl;
  coherent = λ j found c. c;
  finished = λ j f. f;
}

pub Changes-trans :
    {id : Text} {a b c : Registry} → Changes id a b → Changes id b c → Changes id a c
Changes-trans {id} {a} {b} {c} h k = record {
  change = λ j. k.change (h.change j);
  jobs = λ i. ground (arith, h.jobs i, k.jobs i);
  operations = k.operations ∙ h.operations;
  coherent = λ j found q.
      k.coherent (h.change j) (ground (arith, h.jobs id, eq_text_refl id)) (h.coherent j found q);
  finished = λ j f. k.finished (h.change j) (h.finished j f);
}

-- A change of the job that leaves the ledger alone, whatever it does to the sessions.
module _ (id : Text) (f : Job → Job) (r : Registry)
    (c : (j : Job) → lookup id r.jobs ≡ some j → IsCoherent j → IsCoherent (f j))
    (m : (j : Job) → is_some j.finished ≡ true → is_some (f j).finished ≡ true) where
  modify-Changes :
      (busy : Assoc Text) → Changes id r (record r { jobs = modify id f r.jobs; busy = busy })
  modify-Changes busy = record {
    change = f;
    jobs = λ i. lookup-modify id i f r.jobs ∙ ground arith;
    operations = refl;
    coherent = c;
    finished = m;
  }

  pub with_job-Changes : Changes id r (with_job id f r)
  unfolding with_job
  with_job-Changes = modify-Changes r.busy

pub finish-Changes :
    (id : Text) (state : State) (code : Option ℕ) (reason : Text) (release : Bool) (now : ℕ)
    (r : Registry)
    → active state ≡ false
    → Changes id r (finish id state code reason release now r)
unfolding finish
finish-Changes id state code reason release now r a = elim (Option-cases (lookup id r.jobs)) [
  | inl e ↦ rw (e, finish) (Changes-refl id r)
  | inr (j, e) ↦ elim (Bool-cases (is_closed j)) [
    | inl q ↦ rw (e, finish) (rw q (Changes-refl id r))
    | inr q ↦
        rw (e, finish)
          (rw q (
            modify-Changes id (finish_job state code reason release now) r
              (λ k found c. unfold finish_job in a) (λ k f. unfold finish_job in refl) _))
  ]
]

pub ack_release-Changes :
    (session id : Text) (r : Registry) → Changes id r (ack_release session (some id) r)
unfolding ack_release
ack_release-Changes session id r = elim (Bool-cases (eq_option (lookup session r.busy) (some id))) [
  | inl e ↦ rw (e, ack_release) (modify-Changes id _ r (λ j found c. c) (λ j f. f) _)
  | inr e ↦ rw (e, ack_release) (Changes-refl id r)
]

-- What is found after a change comes from what was there.
pub Changes-lookup :
    {id : Text} {before after : Registry} (c : Changes id before after) (i : Text) (w : Job)
    → lookup i after.jobs ≡ some w
    → (j : Job) × (lookup i before.jobs ≡ some j) × (w ≡ (if eq_text id i then c.change j else j))
Changes-lookup {id} {before} {after} c i w h = elim (Option-cases (lookup i before.jobs)) [
  | inl e ↦ absurd (ground (arith, c.jobs i))
  | inr (j, e) ↦ (j, e, ground (arith, c.jobs i))
]
