-- ===== src/Connector/Guard.antt =====
-- `DispatchGuard` of src/connector/security.rs: the policy and the audit log before each dispatch.
-- The outcome of the audit record is an argument.
use securecrt_mcp.Prelude.{Bool, ◌≡◌, refl, Option, Result, ok, err, ◌>>◌, ensure}
use securecrt_mcp.Text.{Text}
use securecrt_mcp.Policy.{
  PolicyEngine, Classified, Decision, Reason, decided, panicked, classify_command, raw_send_allowed,
  interrupt_allowed,
}
use securecrt_mcp.Policy.Decisions.{Passed, allowed-Passed}

pub data GuardError : Type 0 where
  raw_disabled interrupt_disabled panic : GuardError
  denied : Reason → GuardError
  audit_failed : Text → GuardError

abbrev pub audited : Result Text (Unit {0}) → Result GuardError (Unit {0})
audited (ok _) = ok tt
audited (err e) = err (audit_failed e)

module _ {ℓ} {Regex : Type ℓ} (regex : Text → Option Regex) (is_match : Regex → Text → Bool)
    (engine : PolicyEngine Regex) where
  -- The attempt is recorded whatever the decision is, which comes first where it panics.
  unfoldable pub admitted : Classified → Result Text (Unit {0}) → Result GuardError (Unit {0})
  admitted panicked audit = err panic
  admitted (decided Decision.allow) audit = audited audit
  admitted (decided (Decision.deny reason)) audit = audited audit >> err (denied reason)

  unfoldable pub guard_command : Text → Result Text (Unit {0}) → Result GuardError (Unit {0})
  unfolding admitted
  guard_command command audit = admitted (classify_command regex is_match engine command) audit

  unfoldable pub guard_raw : Result Text (Unit {0}) → Result GuardError (Unit {0})
  unfolding raw_send_allowed
  guard_raw audit = ensure (raw_send_allowed regex is_match engine) raw_disabled >> audited audit

  unfoldable pub guard_interrupt : Result Text (Unit {0}) → Result GuardError (Unit {0})
  unfolding interrupt_allowed
  guard_interrupt audit =
      ensure (interrupt_allowed regex is_match engine) interrupt_disabled >> audited audit

  admitted-allow :
      (c : Classified) (audit : Result Text (Unit {0}))
      → admitted c audit ≡ ok tt
      → (c ≡ decided Decision.allow) × (audit ≡ ok tt)
  unfolding admitted
  admitted-allow panicked audit h = absurd (cc h)
  admitted-allow (decided Decision.allow) (ok u) h = (refl, refl)
  admitted-allow (decided Decision.allow) (err e) h = absurd (cc h)
  admitted-allow (decided (Decision.deny r)) (ok u) h = absurd (cc h)
  admitted-allow (decided (Decision.deny r)) (err e) h = absurd (cc h)

  -- A command that the guard admits has passed the policy, and its attempt is in the audit log.
  pub guard_command-Passed :
      (command : Text) (audit : Result Text (Unit {0}))
      → guard_command command audit ≡ ok tt
      → Passed regex is_match engine command × (audit ≡ ok tt)
  unfolding guard_command
  guard_command-Passed command audit h =
      let (allowed, recorded) =
        admitted-allow (classify_command regex is_match engine command) audit h in
      (allowed-Passed regex is_match engine command allowed, recorded)
