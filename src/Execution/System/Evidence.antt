-- ===== src/Execution/System/Evidence.antt =====
-- What submit_internal of src/execution.rs keeps of a failed dispatch, and what that means for the
-- next submission to the session.
use securecrt_mcp.Prelude.{
  ℕ, ◌≡◌, refl, ap, ◌∙◌, Bool, true, false, not, ◌++◌, arith, if◌then◌else◌, Option-cases, inl, inr,
  Option, none, some, Result, ok, err, is_ok, is_some,
}
use securecrt_mcp.Text.{Text, codes}
use securecrt_mcp.Text.Equality.{eq_text_refl}
use securecrt_mcp.Assoc.{lookup, contains_key}
use securecrt_mcp.Config.{BridgeConfig}
use securecrt_mcp.Execution.Params.{ExecuteParams, SubmitError}
use securecrt_mcp.Assoc.Laws.{lookup-modify, lookup-remove}
use securecrt_mcp.Fault.{Error, bridge_fault, other, is_unsent, message_of}
use securecrt_mcp.Execution.Job.{State, Job}
use securecrt_mcp.Execution.Registry.{
  finish, finish_job, with_job, reserve, admit, Admission, is_closed, Registry, is_busy_with,
}
use securecrt_mcp.Execution.System.{
  System, begin_result, after_begin, is_certainly_unsent, set_sent,
}

-- The job that a finish leaves, where the job was open.
finish-lookup :
    (id : Text) (state : State) (code : Option ℕ) (reason : Text) (release : Bool) (now : ℕ)
    (r : Registry) (j : Job)
    → lookup id r.jobs ≡ some j
    → is_closed j ≡ false
    → lookup id (finish id state code reason release now r).jobs
      ≡ some (finish_job state code reason release now j)
unfolding finish
finish-lookup id state code reason release now r j at l =
    rw (at, finish)
      (rw l (
        ground (
          arith,
          lookup-modify id id (finish_job state code reason release now) r.jobs,
          eq_text_refl id,
        )))

finish-busy :
    (id : Text) (state : State) (code : Option ℕ) (reason : Text) (release : Bool) (now : ℕ)
    (r : Registry) (j : Job)
    → lookup id r.jobs ≡ some j
    → is_closed j ≡ false
    → lookup j.session r.busy ≡ some id
    → lookup j.session (finish id state code reason release now r).busy
      ≡ (if release then none else some id)
unfolding finish is_busy_with
finish-busy id state code reason release now r j at l b =
    rw (at, finish)
      (rw l (
        ground (
          arith,
          b,
          eq_text_refl id,
          lookup-remove j.session j.session r.busy,
          eq_text_refl j.session,
        )))

abbrev Settles : Registry → Text → Text → Option Bool → State → Bool → Type 0
Settles r id session sent state release =
    ((k : Job) × (lookup id r.jobs ≡ some k)
      × (k.sent ≡ sent)
      × (k.state ≡ state)
      × (k.requires_idle_ack ≡ not release))
    × (lookup session r.busy ≡ (if release then none else some id))

settle :
    (r : Registry) (id : Text) (sent : Option Bool) (state : State) (reason : Text) (release : Bool)
    (now : ℕ) (j : Job)
    → lookup id r.jobs ≡ some j
    → is_closed j ≡ false
    → lookup j.session r.busy ≡ some id
    → Settles
        (finish id state none reason release now (with_job id (set_sent sent) r))
        id
        j.session
        sent
        state
        release
settle r id sent state reason release now j at l b =
    let r' = with_job id (set_sent sent) r in
    let k = set_sent sent j in
    let found : lookup id r'.jobs ≡ some k =
      unfold with_job in
      ground (arith, lookup-modify id id (set_sent sent) r.jobs, eq_text_refl id) in
    let live : is_closed k ≡ false = unfold is_closed in l in
    (
      (
        finish_job state none reason release now k,
        finish-lookup id state none reason release now r' k found live,
        unfold finish_job in refl,
        unfold finish_job in refl,
        unfold finish_job in refl,
      ),
      finish-busy id state none reason release now r' k found live (unfold with_job in b),
    )

-- The reply to a `begin` request proves that nothing was sent.
abbrev pub proves_unsent : Result Error (Option Bool) → Bool
proves_unsent (err (bridge_fault message (some sent))) = not sent
proves_unsent _ = false

abbrev pub is_busy_error : Result SubmitError Admission → Bool
is_busy_error (err e) = elim e [ SubmitError.busy_unresolved ↦ true | _ ↦ false ]
is_busy_error (ok admission) = false

-- The job of a failed dispatch: rejected as not sent, or unknown and awaiting an acknowledgement.
abbrev pub IsSettled : Bool → Job → Type 0
IsSettled unsent k =
    (k.sent ≡ (if unsent then some false else none))
    × (k.state ≡ (if unsent then State.rejected else State.unknown))
    × (k.requires_idle_ack ≡ not unsent)

reserve-busy :
    (config : BridgeConfig) (now : ℕ) (p : ExecuteParams) (fingerprint id : Text) (r : Registry)
    → lookup p.operation_id r.operations ≡ none
    → is_busy_error (reserve config now p fingerprint id r).1 ≡ is_some (lookup p.session r.busy)
unfolding reserve admit contains_key
reserve-busy config now p fingerprint id r h = ground (arith, h)

finish-operations :
    (id : Text) (state : State) (code : Option ℕ) (reason : Text) (release : Bool) (now : ℕ)
    (sent : Option Bool) (r : Registry)
    → (finish id state code reason release now (with_job id (set_sent sent) r)).operations
      ≡ r.operations
unfolding finish with_job
finish-operations id state code reason release now sent r =
    elim (Option-cases (lookup id (with_job id (set_sent sent) r).jobs)) [
      | inl e ↦ ground (arith, e)
      | inr (j, e) ↦ ground (arith, e)
    ]

abbrev After : Bool → Text → BridgeConfig → ℕ → ExecuteParams → Text → Text → Registry → Type 0
After unsent id config later p fingerprint other_id r =
    ((k : Job) × (lookup id r.jobs ≡ some k) × IsSettled unsent k)
    × (is_busy_error (reserve config later p fingerprint other_id r).1 ≡ not unsent)

held_lem : (unsent : Bool) (id : Text) → is_some (if unsent then none else some id) ≡ not unsent
held_lem true id = refl
held_lem false id = refl

module _ (s : System) (id : Text) (now : ℕ) (j : Job) (config : BridgeConfig) (later : ℕ)
    (p : ExecuteParams) (fingerprint other_id : Text) (at : lookup id s.registry.jobs ≡ some j)
    (live : is_closed j ≡ false) (held : lookup j.session s.registry.busy ≡ some id)
    (same : p.session ≡ j.session)
    (is_new : lookup p.operation_id s.registry.operations ≡ none) where
  failed_lem :
      (e : Error)
      → After
          (is_certainly_unsent e)
          id
          config
          later
          p
          fingerprint
          other_id
          (after_begin id (err e) now s).registry
  unfolding after_begin
  failed_lem e =
      let unsent = is_certainly_unsent e in
      let sent = if unsent then some false else none in
      let state = if unsent then State.rejected else State.unknown in
      let r = (after_begin id (err e) now s).registry in
      let reason =
        (if unsent then codes "not sent" else codes "dispatch outcome unknown; do not replay")
        ++ codes ": "
        ++ message_of e in
      let ((k, found, proof, settled, ack), busy) =
        settle s.registry id sent state reason unsent now j at live held in
      let still_new : lookup p.operation_id r.operations ≡ none =
        ap (lookup p.operation_id)
          (finish-operations id state none reason unsent now sent s.registry)
        ∙ is_new in
      (
        (k, found, (proof, settled, ack)),
        reserve-busy config later p fingerprint other_id r still_new
            ∙ ap is_some (ap (λ t. lookup t r.busy) same ∙ busy)
            ∙ held_lem unsent id,
      )

  -- After a dispatch that failed, whether with an error of any kind or with a reply that lacks the
  -- evidence of sending: if the error is a fault of the bridge that proves that nothing was sent, the
  -- job, open and holding its session before, is rejected as not sent, and a submission of a new
  -- operation to the session is not refused as busy; else the job is unknown and awaits an
  -- acknowledgement, and such a submission is refused as busy.
  pub failed_dispatch_settles :
      (reply : Result Error (Option Bool))
      → is_ok (begin_result reply) ≡ false
      → let r = (after_begin id (begin_result reply) now s).registry in
        ((k : Job) × (lookup id r.jobs ≡ some k) × IsSettled (proves_unsent reply) k)
        × (is_busy_error (reserve config later p fingerprint other_id r).1
            ≡ not (proves_unsent reply))
  unfolding begin_result is_certainly_unsent is_unsent
  failed_dispatch_settles (ok none) f = failed_lem _
  failed_dispatch_settles (ok (some true)) f = absurd (cc f)
  failed_dispatch_settles (ok (some false)) f = failed_lem _
  failed_dispatch_settles (err (bridge_fault message none)) f =
      failed_lem (bridge_fault message none)
  failed_dispatch_settles (err (bridge_fault message (some sent))) f =
      failed_lem (bridge_fault message (some sent))
  failed_dispatch_settles (err (other message)) f = failed_lem (other message)
