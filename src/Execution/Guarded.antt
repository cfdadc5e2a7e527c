-- ===== src/Execution/Guarded.antt =====
-- The execution of src/execution.rs with the policy engine of src/policy.rs: the decision and the
-- reason that `submit_internal` takes from `classify_command`.
use securecrt_mcp.Prelude.{
  ℕ, zero, suc, ◌+◌, ◌≡◌, refl, Bool, true, false, List, [], ◌∷◌, ◌++◌, ltb, if◌then◌else◌, Option,
  All,
}
use securecrt_mcp.Prelude.{◌/◌, ◌%◌}
use securecrt_mcp.Text.{Text, codes}
use securecrt_mcp.Config.{BridgeConfig}
use securecrt_mcp.Policy.{
  PolicyEngine, Decision, Reason, Classified, decided, panicked, classify_command,
}
use securecrt_mcp.Policy.Decisions.{Passed, allowed-Passed}
use securecrt_mcp.Execution.System.{Verdict, initial, run, Event, AllFresh}
use securecrt_mcp.Execution.System.Soundness.{AllAllowed}
use securecrt_mcp.Execution.System.Theorems.{sent_commands_allowed}

-- A decimal number; `fuel` bounds its digits.
unfoldable pub decimal : ℕ → ℕ → Text
decimal zero n = []
decimal (suc fuel) n =
    let front = decimal fuel (n / 10) in
    if ltb n 10 then (b'0' + n) ∷ [] else front ++ (b'0' + n % 10) ∷ []

-- The sentences of `classify_command`. The indices stay below 128.
unfoldable pub reason_text : Reason → Text
unfolding decimal
reason_text Reason.control_or_length =
    codes "control/multiline input or command length is not allowed"
reason_text Reason.empty_command = codes "empty command"
reason_text Reason.observe_mode = codes "observe mode disables execution"
reason_text (Reason.custom_deny_rule n) =
    codes "custom_deny_rule[" ++ decimal 3 n ++ codes "]: operator-configured pattern matched"
reason_text Reason.critical_guardrail =
    codes
      "critical_guardrail: catastrophic command position/target; client approval does not override this narrow guard"
reason_text (Reason.builtin_guardrail n) =
    codes "builtin_guardrail[" ++ decimal 3 n ++ codes "]: legacy optional local policy"
reason_text Reason.not_in_grammar =
    codes "not in the finite safe grammar or an explicit full-command allow rule"

-- A panic sends nothing.
unfoldable pub verdict : Classified → Verdict
unfolding reason_text
verdict (decided Decision.allow) = record {
  allow = true;
  reason = codes "allowed by local policy; this is not proof of client approval or a sandbox";
}
verdict (decided (Decision.deny reason)) = record { allow = false; reason = reason_text reason }
verdict panicked = record { allow = false; reason = [] }

allow-verdict : (c : Classified) → (verdict c).allow ≡ true → c ≡ decided Decision.allow
unfolding verdict
allow-verdict (decided Decision.allow) h = refl
allow-verdict (decided (Decision.deny r)) h = cc
allow-verdict panicked h = cc

module _ {ℓ} {Regex : Type ℓ} (config : BridgeConfig) (regex : Text → Option Regex)
    (is_match : Regex → Text → Bool) (engine : PolicyEngine Regex) where
  abbrev pub by_engine : Text → Verdict
  by_engine command = verdict (classify_command regex is_match engine command)

  AllAllowed-Passed :
      (sent : List (Text × Text))
      → AllAllowed by_engine sent
      → All (λ entry. Passed regex is_match engine entry.1) sent
  AllAllowed-Passed [] h = tt
  AllAllowed-Passed ((op, command) ∷ sent) h = (
    allowed-Passed regex is_match engine command
        (allow-verdict (classify_command regex is_match engine command) h.0),
    AllAllowed-Passed sent h.1,
  )

  -- Whatever the order of events, every command that has been sent to the bridge is at most 32768
  -- bytes long, holds no control character, is not blank, matches no deny pattern, is not critical
  -- and is allowed by the mode of the engine, if the drawn job identifiers are new.
  pub sent_commands-Passed :
      (es : List Event)
      → AllFresh config by_engine initial es
      → All (λ entry. Passed regex is_match engine entry.1) (run config by_engine initial es).sent
  sent_commands-Passed es f =
      AllAllowed-Passed (run config by_engine initial es).sent
        (sent_commands_allowed config by_engine es f)
