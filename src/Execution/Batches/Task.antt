-- ===== src/Execution/Batches/Task.antt =====
-- What the task of a batch leaves in the ledger.
use securecrt_mcp.Prelude.{
  ℕ, suc, ◌≡◌, refl, sym, ap, ◌∙◌, Bool, true, false, not, ◌&&◌, ◌||◌, List, [], ◌∷◌, ◌++◌, arith,
  if◌then◌else◌, Bool-cases, Option-cases, inl, inr, Option, none, some, All, append_assoc,
  append-nil, Result, ok, err, ◌>>◌, all,
}
use securecrt_mcp.Prelude.{take}
use securecrt_mcp.Text.{Text}
use securecrt_mcp.Text.Equality.{eq_text_refl}
use securecrt_mcp.Assoc.{Assoc, lookup}
use securecrt_mcp.Assoc.Laws.{lookup-modify, lookup-insert}
use securecrt_mcp.Policy.{PolicyEngine, Classified, Decision, decided, panicked, classify_command}
use securecrt_mcp.Policy.Decisions.{Passed, allowed-Passed}
use securecrt_mcp.Execution.Registry.{is_completed}
use securecrt_mcp.Execution.Terminal.{Attachment}
use securecrt_mcp.Execution.Batches.{
  BatchResult, BatchValue, BatchState, Batches, BatchError, stops, goes_on, push_result, set_state,
  on_value, record_result, close_batch, run_task, batch_status, enter_batch, preflight, is_success,
  preflight_all, check_exec_batch, exec_batch, initial_value,
}

-- The task goes on behind a command that completed, that awaits no acknowledgement, and that exited
-- with zero unless errors are to be passed over.
abbrev pub is_good : Bool → BatchResult → Bool
is_good go_on (err e) = false
is_good go_on (ok a) =
    is_completed a.report.job.state
    && not a.report.job.requires_idle_ack
    && (go_on || is_success a.report.job.exit_code)

stops-is_good : (go_on : Bool) (r : BatchResult) → stops go_on r ≡ not (is_good go_on r)
unfolding stops
stops-is_good go_on (err e) = refl
stops-is_good go_on (ok a) =
    by_cases (is_completed a.report.job.state) a.report.job.requires_idle_ack go_on
      (is_success a.report.job.exit_code)
  where
    by_cases : (c k g z : Bool) → (not c || k || (not g && not z)) ≡ not (c && not k && (g || z))
    by_cases true true g z = refl
    by_cases true false true z = refl
    by_cases true false false true = refl
    by_cases true false false false = refl
    by_cases false k g z = refl

-- The results before the first that is not good.
abbrev pub leading_good : Bool → List BatchResult → ℕ
leading_good go_on [] = 0
leading_good go_on (r ∷ rest) =
    let more = leading_good go_on rest in if is_good go_on r then suc more else 0

abbrev pub final_state : Bool → List BatchResult → BatchState
final_state go_on rs = if all (is_good go_on) rs then BatchState.completed else BatchState.stopped

-- What is recorded for the batch.
abbrev pub recorded : Bool → List BatchResult → List BatchResult → BatchValue
recorded go_on earlier rs = record {
  state = final_state go_on rs;
  results = earlier ++ take (suc (leading_good go_on rs)) rs;
}

recorded_halt :
    (go_on : Bool) (earlier : List BatchResult) (r : BatchResult) (rest : List BatchResult)
    → is_good go_on r ≡ false
    → recorded go_on earlier (r ∷ rest)
      ≡ record { state = BatchState.stopped; results = earlier ++ r ∷ [] }
recorded_halt go_on earlier r rest e = ground (arith, e)

recorded_on :
    (go_on : Bool) (earlier : List BatchResult) (r : BatchResult) (rest : List BatchResult)
    → is_good go_on r ≡ true
    → recorded go_on earlier (r ∷ rest) ≡ recorded go_on (earlier ++ r ∷ []) rest
recorded_on go_on earlier r rest e =
    ground (arith, e, append_assoc earlier (r ∷ []) (take (suc (leading_good go_on rest)) rest))

module _ (id hash : Text) where
  record_result-lookup :
      (r : BatchResult) (b : BatchValue) (m : Batches)
      → lookup id m ≡ some (hash, b)
      → lookup id (record_result id r m) ≡ some (hash, push_result r b)
  unfolding record_result
  record_result-lookup r b m h =
      ground (arith, lookup-modify id id (on_value (push_result r)) m, eq_text_refl id)

  close_batch-lookup :
      (was_stopped : Bool) (b : BatchValue) (m : Batches)
      → lookup id m ≡ some (hash, b)
      → lookup id (close_batch id was_stopped m)
        ≡ some
            (hash, set_state (if was_stopped then BatchState.stopped else BatchState.completed) b)
  unfolding close_batch
  close_batch-lookup was_stopped b m h =
      let state = if was_stopped then BatchState.stopped else BatchState.completed in
      ground (arith, lookup-modify id id (on_value (set_state state)) m, eq_text_refl id)

  run_task_lem :
      (on_error : Option Text) (rs : List BatchResult) (b : BatchValue) (m : Batches)
      → lookup id m ≡ some (hash, b)
      → lookup id (run_task on_error id rs m)
        ≡ some (hash, recorded (goes_on on_error) b.results rs)
  unfolding run_task
  run_task_lem on_error [] b m h =
      close_batch-lookup false b m h
      ∙ ap (λ xs. some (hash, record b { state = BatchState.completed; results = xs }))
          (sym (append-nil b.results))
  run_task_lem on_error (r ∷ rest) b m h = elim (Bool-cases (is_good (goes_on on_error) r)) [
    | inr e ↦
        let halt : stops (goes_on on_error) r ≡ true =
          stops-is_good (goes_on on_error) r ∙ ap not e in
        rw (halt, run_task)
          (close_batch-lookup true (push_result r b) (record_result id r m)
              (record_result-lookup r b m h)
            ∙ ap (λ v. some (hash, v)) (sym (recorded_halt (goes_on on_error) b.results r rest e)))
    | inl e ↦
        let on : stops (goes_on on_error) r ≡ false =
          stops-is_good (goes_on on_error) r ∙ ap not e in
        rw (on, run_task)
          (run_task_lem on_error rest (push_result r b) (record_result id r m)
              (record_result-lookup r b m h)
            ∙ ap (λ v. some (hash, v)) (sym (recorded_on (goes_on on_error) b.results r rest e)))
  ]

  entered :
      (m m' : Batches)
      → enter_batch id hash m ≡ (m', ok none)
      → lookup id m' ≡ some (hash, initial_value)
  unfolding enter_batch
  entered m m' h = elim (Option-cases (lookup id m)) [
    | inr ((old, value), e) ↦ absurd (ground (arith, e))
    | inl e ↦ ground (arith, e, lookup-insert id id (hash, initial_value) m, eq_text_refl id)
  ]

found_status :
    (id hash : Text) (b : BatchValue) (m : Batches)
    → lookup id m ≡ some (hash, b)
    → batch_status id m ≡ ok b
unfolding batch_status
found_status id hash b m h = rw (h, batch_status) refl

then_parts : (m k : Result BatchError (Unit {0})) → (m >> k) ≡ ok tt → (m ≡ ok tt) × (k ≡ ok tt)
then_parts (ok u) k h = (refl, h)
then_parts (err e) k h = absurd (cc h)

preflight-allow : (c : Classified) → preflight c ≡ ok tt → c ≡ decided Decision.allow
unfolding preflight
preflight-allow (decided Decision.allow) h = refl
preflight-allow (decided (Decision.deny reason)) h = absurd (cc h)
preflight-allow panicked h = absurd (cc h)

module _ {ℓ} {Regex : Type ℓ} (regex : Text → Option Regex) (is_match : Regex → Text → Bool)
    (engine : PolicyEngine Regex) where
  preflight_all-Passed :
      (cs : List Text)
      → preflight_all regex is_match engine cs ≡ ok tt
      → All (Passed regex is_match engine) cs
  unfolding preflight_all
  preflight_all-Passed [] h = tt
  preflight_all-Passed (c ∷ cs) h =
      let (front, rest) = then_parts _ (preflight_all regex is_match engine cs) h in
      (
        allowed-Passed regex is_match engine c
            (preflight-allow (classify_command regex is_match engine c) front),
        preflight_all-Passed cs rest,
      )

  check_exec_batch-Passed :
      (commands : List Text) (on_error : Option Text) (attachment id : Text)
      (attachments : Assoc Attachment)
      → check_exec_batch regex is_match engine commands on_error attachment id attachments ≡ ok tt
      → All (Passed regex is_match engine) commands
  unfolding check_exec_batch
  check_exec_batch-Passed commands on_error attachment id attachments h =
      let (checks, named) = then_parts _ _ h in
      let (front, passed) = then_parts _ (preflight_all regex is_match engine commands) checks in
      preflight_all-Passed commands passed

  -- A batch that is entered anew has commands that have all passed the policy before the first is
  -- sent. Whatever they come to, its task records the results up to the first that is not good,
  -- and no other; the batch ends as completed exactly if all are good, and else as stopped. An exit
  -- code other than zero is good only if `on_error` is `continue`.
  pub exec_batch-recorded :
      (commands : List Text) (on_error : Option Text) (attachment id hash : Text)
      (attachments : Assoc Attachment) (m m' : Batches) (results : List BatchResult)
      → exec_batch regex is_match engine commands on_error attachment id hash attachments m
        ≡ (m', ok none)
      → All (Passed regex is_match engine) commands
        × (batch_status id (run_task on_error id results m')
            ≡ ok (recorded (goes_on on_error) [] results))
  unfolding exec_batch
  exec_batch-recorded commands on_error attachment id hash attachments m m' results h =
      go (check_exec_batch regex is_match engine commands on_error attachment id attachments) refl h
    where
      go :
          (x : Result BatchError (Unit {0}))
          → check_exec_batch regex is_match engine commands on_error attachment id attachments ≡ x
          → elim x as (λ _. Batches × Result BatchError (Option BatchValue)) [
            | err e ↦ (m, err e)
            | ok _ ↦ enter_batch id hash m
          ]
            ≡ (m', ok none)
          → All (Passed regex is_match engine) commands
            × (batch_status id (run_task on_error id results m')
                ≡ ok (recorded (goes_on on_error) [] results))
      go (err e) c k = absurd (cc k)
      go (ok u) c k = (
        check_exec_batch-Passed commands on_error attachment id attachments c,
        found_status id hash (recorded (goes_on on_error) [] results)
            (run_task on_error id results m')
            (run_task_lem id hash on_error results initial_value m' (entered id hash m m' k)),
      )
