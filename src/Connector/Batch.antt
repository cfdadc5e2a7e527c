-- ===== src/Connector/Batch.antt =====
-- `ConnectorManager::batch` of src/connector.rs: the check of all its commands, and the run that stops.
-- What `exec` returns for each command is the environment's.
use securecrt_mcp.Prelude.{
  ℕ, suc, ◌≤◌, ◌≡◌, refl, ap, ◌∙◌, Bool, true, false, not, ◌&&◌, ◌||◌, List, [], ◌∷◌, arith, leb,
  ◌==◌, if◌then◌else◌, Bool-cases, inl, inr, Option, none, some, All, Result, ok, err, ◌>>◌, ensure,
  is_empty, all, any,
}
use securecrt_mcp.Prelude.{length, take}
use securecrt_mcp.Text.{Text, codes, contains, len, is_control}
use securecrt_mcp.Policy.{
  PolicyEngine, Decision, Reason, Classified, decided, panicked, classify_command,
}
use securecrt_mcp.Policy.Decisions.{Passed, allowed-Passed}
use securecrt_mcp.Connector.Exec.{ExitCode, nonnegative, negative, ExecState, completed}

unfoldable pub validate_command : Text → Bool
unfolding len is_control
validate_command command =
    not (is_empty command) && leb (len command) 32768 && not (any is_control command)

pub data BatchError : Type 0 where
  invalid_count invalid_on_error invalid_command panic : BatchError
  denied : Reason → BatchError

-- `ensure!(decision.decision == Allow)`.
unfoldable pub ensure_allowed : Classified → Result BatchError (Unit {0})
ensure_allowed (decided Decision.allow) = ok tt
ensure_allowed (decided (Decision.deny reason)) = err (denied reason)
ensure_allowed panicked = err panic

module _ {ℓ} {Regex : Type ℓ} (regex : Text → Option Regex) (is_match : Regex → Text → Bool)
    (engine : PolicyEngine Regex) where
  -- The loop over the commands before the first is sent.
  unfoldable pub check_commands : List Text → Result BatchError (Unit {0})
  unfolding validate_command ensure_allowed
  check_commands [] = ok tt
  check_commands (c ∷ cs) =
      ensure (validate_command c) invalid_command
      >> ensure_allowed (classify_command regex is_match engine c)
      >> check_commands cs

  unfoldable pub check_batch : List Text → Text → Result BatchError (Unit {0})
  unfolding check_commands contains
  check_batch commands on_error =
      ensure (not (is_empty commands) && leb (length commands) 20) invalid_count
      >> ensure (contains (codes "stop" ∷ codes "continue" ∷ []) on_error) invalid_on_error
      >> check_commands commands

  then_ok : (m k : Result BatchError (Unit {0})) → (m >> k) ≡ ok tt → (m ≡ ok tt) × (k ≡ ok tt)
  then_ok (ok tt) k h = (refl, h)
  then_ok (err e) k h = cc

  ensure_allowed-eq_ok : (c : Classified) → ensure_allowed c ≡ ok tt → c ≡ decided Decision.allow
  unfolding ensure_allowed
  ensure_allowed-eq_ok (decided Decision.allow) h = refl
  ensure_allowed-eq_ok (decided (Decision.deny r)) h = cc
  ensure_allowed-eq_ok panicked h = cc

  check_commands-Passed :
      (cs : List Text) → check_commands cs ≡ ok tt → All (Passed regex is_match engine) cs
  unfolding check_commands
  check_commands-Passed [] h = tt
  check_commands-Passed (c ∷ cs) h =
      let (front, rest) = then_ok _ (check_commands cs) h in
      let (valid, allowed) =
        then_ok _ (ensure_allowed (classify_command regex is_match engine c)) front in
      (
        allowed-Passed regex is_match engine c
            (ensure_allowed-eq_ok (classify_command regex is_match engine c) allowed),
        check_commands-Passed cs rest,
      )

  -- A batch that passes its check has 1 to 20 commands, every one of which has passed the policy.
  pub check_batch-Passed :
      (commands : List Text) (on_error : Text)
      → check_batch commands on_error ≡ ok tt
      → (is_empty commands ≡ false)
        × (length commands ≤ 20)
        × All (Passed regex is_match engine) commands
  unfolding check_batch
  check_batch-Passed commands on_error h =
      let (front, rest) = then_ok _ (check_commands commands) h in
      let (sized, mode) = then_ok _ _ front in
      let fits : (not (is_empty commands) && leb (length commands) 20) ≡ true =
        ensure_true (not (is_empty commands) && leb (length commands) 20) sized in
      (ground arith, ground arith, check_commands-Passed commands rest)
    where
      ensure_true : (b : Bool) → ensure b invalid_count ≡ ok tt → b ≡ true
      ensure_true true e = refl
      ensure_true false e = cc

-- What `exec` returns where it is not an error: the fields that `batch` reads.
pub record Receipt : Type 0 where
  pub state : ExecState
  pub exit_code : Option ExitCode

abbrev pub is_completed : ExecState → Bool
is_completed completed = true
is_completed _ = false

abbrev pub is_zero : Option ExitCode → Bool
is_zero none = false
is_zero (some (nonnegative n)) = n == 0
is_zero (some (negative n)) = false

-- `unknown_or_failed && (result["state"] != "completed" || on_error == "stop")`.
unfoldable pub stops_at : Bool → Receipt → Bool
stops_at stop r =
    (not (is_completed r.state) || not (is_zero r.exit_code))
    && (not (is_completed r.state) || stop)

pub data BatchState : Type 0 where
  finished stopped : BatchState

abbrev pub Answer : Type 0
Answer = Result Text Receipt

abbrev pub cons_result : Answer → List Answer × BatchState → List Answer × BatchState
cons_result a (results, state) = (a ∷ results, state)

-- The loop, on the answers that the commands would get one after the other: what is recorded.
unfoldable pub run_batch : Bool → List Answer → List Answer × BatchState
unfolding stops_at
run_batch stop [] = ([], finished)
run_batch stop (err e ∷ rest) = (err e ∷ [], stopped)
run_batch stop (ok r ∷ rest) =
    let more = run_batch stop rest in
    if stops_at stop r then (ok r ∷ [], stopped) else cons_result (ok r) more

-- A command that completed, and with a zero exit if the batch stops on errors.
abbrev pub is_good : Bool → Answer → Bool
is_good stop (err e) = false
is_good stop (ok r) = is_completed r.state && (is_zero r.exit_code || not stop)

-- How many answers are good before the first that is not.
abbrev pub leading_good : Bool → List Answer → ℕ
leading_good stop [] = 0
leading_good stop (a ∷ rest) =
    let more = leading_good stop rest in if is_good stop a then suc more else 0

stops_at_lem : (stop : Bool) (r : Receipt) → stops_at stop r ≡ not (is_good stop (ok r))
unfolding stops_at
stops_at_lem stop r = go (is_completed r.state) (is_zero r.exit_code) stop
  where
    go : (c z s : Bool) → ((not c || not z) && (not c || s)) ≡ not (c && (z || not s))
    go true true true = refl
    go true true false = refl
    go true false true = refl
    go true false false = refl
    go false true true = refl
    go false true false = refl
    go false false true = refl
    go false false false = refl

-- A batch records the good answers up to the first that is not good, and that one, and no command
-- behind it is run; it is finished exactly if all its answers are good.
pub run_batch_lem :
    (stop : Bool) (answers : List Answer)
    → ((run_batch stop answers).0 ≡ take (suc (leading_good stop answers)) answers)
      × ((run_batch stop answers).1 ≡ (if all (is_good stop) answers then finished else stopped))
unfolding run_batch
run_batch_lem stop [] = (refl, refl)
run_batch_lem stop (err e ∷ rest) = (refl, refl)
run_batch_lem stop (ok r ∷ rest) = elim (Bool-cases (is_good stop (ok r))) [
  | inl e ↦
      let go_on : stops_at stop r ≡ false = stops_at_lem stop r ∙ ap not e in
      let (results, state) = run_batch_lem stop rest in
      rw (go_on, e, run_batch) (ap (λ x. ok r ∷ x) results, state)
  | inr e ↦
      let halt : stops_at stop r ≡ true = stops_at_lem stop r ∙ ap not e in
      rw (halt, e, run_batch) (refl, refl)
]
