-- ===== src/Execution/Registry.antt =====
-- The registry of jobs of src/execution.rs: each function is one section that the code runs while it
-- holds the registry's lock. Times are microseconds on one clock.
pub mod Sweep
pub mod Ledger
pub mod Invariant
pub mod Ownership
pub mod Acknowledge
use securecrt_mcp.Prelude.{
  ℕ, zero, suc, ◌+◌, ◌-◌, ◌≤◌, ◌<◌, min, ◌≡◌, refl, sym, ap, ◌∙◌, Bool, true, false, not, ◌&&◌,
  ◌||◌, List, [], ◌∷◌, ◌++◌, arith, ltb, leb, ◌==◌, if◌then◌else◌, Bool-cases, Option-cases, inl,
  inr, Option, none, some, All, append_assoc, append-nil, Result, ok, err, ◌>>=◌, ◌>>◌, ensure,
  context, is_some, unwrap_or, is_empty, all, any, ◌*◌, ◌≢◌, ◌⊎◌, ◌↔◌, subst,
}
use securecrt_mcp.Text.{Text, codes, eq_text}
use securecrt_mcp.Assoc.{
  Assoc, lookup, insert, remove, modify, retain, contains_key, size, any_value,
}
use securecrt_mcp.Config.{BridgeConfig}
use securecrt_mcp.Fault.{is_unsent}
use securecrt_mcp.Execution.Job.{State, Job, active}
use securecrt_mcp.Execution.Params.{
  ExecuteParams, is_stream, SubmitError, operation_conflict, output_expired, busy_unresolved,
  cache_full, ledger_full,
}

pub record Registry : Type 0 where
  pub jobs : Assoc Job
  pub operations : Assoc (Text × Text)
  pub busy : Assoc Text

unfoldable pub empty : Registry
empty = record { jobs = []; operations = []; busy = [] }

unfoldable pub owns_command : Registry → Text → Bool
owns_command r id = contains_key id r.jobs || any_value (λ entry. eq_text entry.0 id) r.operations

-- The job that `submit_internal` enters.
unfoldable pub new_job : ℕ → ExecuteParams → Text → Job
new_job now p id = record {
  id = id;
  operation_id = p.operation_id;
  sent = some false;
  requires_idle_ack = false;
  session = p.session;
  state = State.starting;
  output = [];
  output_bytes = 0;
  output_start = 0;
  stream = is_stream p.mode;
  created = now;
  first_output_us = none;
  poll_calls = 0;
  audit_dispatch_us = 0;
  exit_code = none;
  reason = codes "dispatch pending";
  truncated = false;
  incomplete = false;
  begin_marker_observed = false;
  end_marker_observed = false;
  capture_transport = none;
  audit_warning = none;
  finished = none;
  stop = false;
}

-- The test of `jobs.retain`: an acknowledgement is due, or the job is not finished, or recently.
unfoldable pub is_retained : ℕ → ℕ → Job → Bool
is_retained now retention j =
    j.requires_idle_ack || elim j.finished [ none ↦ true | some t ↦ ltb (now - t) retention ]

-- The entries that may be evicted, with the time at which they finished.
unfoldable pub evictable : Job → Option ℕ
evictable j = if j.requires_idle_ack then none else j.finished

abbrev pub earlier : Text → ℕ → Option (Text × ℕ) → Option (Text × ℕ)
earlier k t none = some (k, t)
earlier k t (some (j, u)) = if leb t u then some (k, t) else some (j, u)

-- `min_by_key(finished)`: the first of the earliest.
unfoldable pub oldest : Assoc Job → Option (Text × ℕ)
unfolding evictable
oldest [] = none
oldest ((k, j) ∷ m) =
    let rest = oldest m in elim (evictable j) [ none ↦ rest | some t ↦ earlier k t rest ]

unfoldable pub evict : ℕ → Assoc Job → Assoc Job
unfolding oldest
evict max_jobs jobs =
    if leb max_jobs (size jobs)
    then elim (oldest jobs) [ none ↦ jobs | some (id, t) ↦ remove id jobs ]
    else jobs

unfoldable pub sweep : BridgeConfig → ℕ → Registry → Registry
unfolding is_retained evict
sweep config now r = record r {
  jobs =
      evict config.max_jobs (retain (is_retained now (config.job_retention_sec * 1000000)) r.jobs);
}

-- What a submission is answered under the lock: the job of an earlier request with this
-- `operation_id`, or the entry of a new one.
pub data Admission : Type 0 where
  replayed : Job → Admission
  admitted : Admission

unfoldable pub enter : ℕ → ExecuteParams → Text → Text → Registry → Registry
unfolding new_job
enter now p fingerprint id r = record {
  jobs = insert id (new_job now p id) r.jobs;
  operations = insert p.operation_id (id, fingerprint) r.operations;
  busy = insert p.session id r.busy;
}

unfoldable pub admit :
    BridgeConfig
    → ℕ
    → ExecuteParams
    → Text
    → Text
    → Registry
    → Registry × Result SubmitError Admission
unfolding enter
admit config now p fingerprint id r =
    if ltb (size r.jobs) config.max_jobs
    then (if ltb (size r.operations) 4096
        then (enter now p fingerprint id r, ok admitted)
        else (r, err ledger_full))
    else (r, err cache_full)

unfoldable pub replay : Registry → Text → Text × Text → Result SubmitError Admission
replay r fingerprint (old_id, hash) =
    if eq_text hash fingerprint
    then elim (lookup old_id r.jobs) [ none ↦ err output_expired | some j ↦ ok (replayed j) ]
    else err operation_conflict

-- The locked section of `submit_internal`. `id` is the new identifier that it has drawn. The expired
-- jobs are gone also where the submission is refused for want of room.
unfoldable pub reserve :
    BridgeConfig
    → ℕ
    → ExecuteParams
    → Text
    → Text
    → Registry
    → Registry × Result SubmitError Admission
unfolding sweep admit replay
reserve config now p fingerprint id r = elim (lookup p.operation_id r.operations) [
  | some entry ↦ (r, replay r fingerprint entry)
  | none ↦
      if contains_key p.session r.busy
      then (r, err busy_unresolved)
      else admit config now p fingerprint id (sweep config now r)
]

-- `if let Some(job) = inner.lock().await.jobs.get_mut(&id) { … }`.
unfoldable pub with_job : Text → (Job → Job) → Registry → Registry
with_job id f r = record r { jobs = modify id f r.jobs }

abbrev pub is_completed : State → Bool
is_completed State.completed = true
is_completed _ = false

-- The record of a finished job, and of its release.
unfoldable pub finish_job : State → Option ℕ → Text → Bool → ℕ → Job → Job
finish_job state code reason release now j = record j {
  state = state;
  incomplete = j.incomplete || (not (is_unsent j.sent) && not (is_completed state));
  requires_idle_ack = not release;
  exit_code = code;
  reason = reason;
  finished = some now;
}

-- `busy.get(session) == Some(id)`.
unfoldable pub is_busy_with : Registry → Text → Text → Bool
is_busy_with r session id = elim (lookup session r.busy) [ none ↦ false | some b ↦ eq_text b id ]

unfoldable pub is_closed : Job → Bool
is_closed j = is_some j.finished && not j.requires_idle_ack

-- The locked section of `finish`.
unfoldable pub finish : Text → State → Option ℕ → Text → Bool → ℕ → Registry → Registry
unfolding finish_job is_busy_with is_closed
finish id state code reason release now r = elim (lookup id r.jobs) [
  | none ↦ r
  | some j ↦ if is_closed j then r else record r {
    jobs = modify id (finish_job state code reason release now) r.jobs;
    busy = if release && is_busy_with r j.session id then remove j.session r.busy else r.busy;
  }
]

pub data AckError : Type 0 where
  still_active no_such_job : AckError

-- The first section of `acknowledge_idle`: the job that holds the session. `registry.jobs[id]` panics
-- where the job is missing; that outcome is `no_such_job`.
unfoldable pub ack_check : Text → Registry → Result AckError (Option Text)
ack_check session r = elim (lookup session r.busy) [
  | none ↦ ok none
  | some id ↦ elim (lookup id r.jobs) [
    | none ↦ err no_such_job
    | some j ↦
        if not (active j.state) && eq_text j.session session then ok (some id) else err still_active
  ]
]

abbrev pub eq_option : Option Text → Option Text → Bool
eq_option none none = true
eq_option (some a) (some b) = eq_text a b
eq_option _ _ = false

-- The last section of `acknowledge_idle`, after the bridge has accepted the acknowledgement.
unfoldable pub ack_release : Text → Option Text → Registry → Registry
ack_release session previous r =
    if eq_option (lookup session r.busy) previous
    then record r {
      jobs = elim previous [
        | none ↦ r.jobs
        | some id ↦ modify id (λ j. record j { requires_idle_ack = false }) r.jobs
      ];
      busy = remove session r.busy;
    }
    else r

pub data InterruptError : Type 0 where
  unknown_command not_interruptible : InterruptError

abbrev pub is_starting : State → Bool
is_starting State.starting = true
is_starting _ = false

-- The locked section of `interrupt`: the session of the command to be interrupted.
unfoldable pub interrupt_check : Text → Registry → Result InterruptError Text
unfolding is_busy_with
interrupt_check id r = elim (lookup id r.jobs) [
  | none ↦ err unknown_command
  | some j ↦
      if is_busy_with r j.session id && not (is_starting j.state)
      then ok j.session
      else err not_interruptible
]

-- `quiescent`, of the jobs: no session is held.
unfoldable pub is_quiescent : Registry → Bool
is_quiescent r = is_empty r.busy
