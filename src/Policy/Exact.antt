-- ===== src/Policy/Exact.antt =====
-- `classify_command` of src/policy.rs against a conjunction of tests, in no order.
use securecrt_mcp.Prelude.{
  ℕ, ◌+◌, ◌≡◌, refl, ap, ◌∙◌, Bool, true, false, not, ◌&&◌, ◌||◌, List, [], ◌∷◌, arith, ltb, leb,
  if◌then◌else◌, Option-cases, inl, inr, Option, none, some, is_some, is_empty, all, any,
}
use securecrt_mcp.Text.{Text, codes, eq_text, len, trim, is_control}
use securecrt_mcp.Critical.{is_critical}
use securecrt_mcp.Policy.Grammar.{safe_command}
use securecrt_mcp.Policy.{
  PolicyEngine, allow, deny, Classified, decided, panicked, Reason, hard_deny, position, guardrail,
  is_client, is_allowed, by_mode, after_guardrail, classify_trimmed, classify_command,
}

abbrev pub is_allow : Classified → Bool
is_allow (decided allow) = true
is_allow (decided (deny reason)) = false
is_allow panicked = false

unless_denied :
    (b : Bool) (reason : Reason) (k : Classified)
    → is_allow (if b then decided (deny reason) else k) ≡ (not b && is_allow k)
unless_denied true reason k = refl
unless_denied false reason k = refl

regroup :
    (n : ℕ) (a b c d e f : Bool)
    → (not (ltb 32768 n || a) && (b && (c && (d && (e && f)))))
      ≡ ((leb n 32768 && not a) && b && c && d && e && f)
regroup n a b c d e f = ground arith

module _ {ℓ} {Regex : Type ℓ} (regex : Text → Option Regex) (is_match : Regex → Text → Bool) where
  -- A built-in pattern that compiles and does not match.
  abbrev pub misses : Text → Text → Bool
  misses cmd pattern = elim (regex pattern) [ none ↦ false | some r ↦ not (is_match r cmd) ]

  -- The tests on a mode; only the client mode passes over the built-in patterns.
  abbrev pub mode_permits : PolicyEngine Regex → Text → Bool
  mode_permits engine cmd =
      eq_text engine.mode (codes "client")
      || (all (misses cmd) hard_deny
          && (eq_text engine.mode (codes "unrestricted")
              || any (λ p. is_match p cmd) engine.allow
              || (eq_text engine.mode (codes "safe") && safe_command cmd)))

  abbrev pub permits : PolicyEngine Regex → Text → Bool
  permits engine command =
      (leb (len command) 32768 && not (any is_control command))
      && not (is_empty (trim command))
      && not (eq_text engine.mode (codes "observe"))
      && not (any (λ p. is_match p (trim command)) engine.deny)
      && not (is_critical (trim command))
      && mode_permits engine (trim command)

  position_lem :
      (n : ℕ) (ps : List Regex) (cmd : Text)
      → is_some (position regex is_match n ps cmd) ≡ any (λ p. is_match p cmd) ps
  unfolding position
  position_lem n [] cmd = refl
  position_lem n (p ∷ ps) cmd = ground (arith, position_lem (n + 1) ps cmd)

  module _ (engine : PolicyEngine Regex) (cmd : Text) where
    by_mode_lem :
        is_allow (decided (by_mode regex is_match engine cmd))
        ≡ is_allowed regex is_match engine cmd
    unfolding by_mode
    by_mode_lem = ground arith

    guardrail_lem :
        (n : ℕ) (ps : List Text)
        → is_allow (after_guardrail regex is_match engine cmd (guardrail regex is_match n ps cmd))
          ≡ (all (misses cmd) ps && is_allowed regex is_match engine cmd)
    unfolding guardrail after_guardrail
    guardrail_lem n [] = by_mode_lem
    guardrail_lem n (p ∷ ps) = elim (Option-cases (regex p)) [
      | inl e ↦ ground (arith, e)
      | inr (r, e) ↦ ground (arith, e, guardrail_lem (n + 1) ps)
    ]

    on_mode_lem :
        is_allow (
          if is_client regex is_match engine
          then decided (by_mode regex is_match engine cmd)
          else after_guardrail regex is_match engine cmd (guardrail regex is_match 0 hard_deny cmd))
        ≡ mode_permits engine cmd
    unfolding is_client is_allowed
    on_mode_lem = ground (arith, by_mode_lem, guardrail_lem 0 hard_deny)

    denied_lem :
        (o : Option ℕ) (k : Classified)
        → is_allow (elim o [ some n ↦ decided (deny (Reason.custom_deny_rule n)) | none ↦ k ])
          ≡ (not (is_some o) && is_allow k)
    denied_lem none k = refl
    denied_lem (some n) k = refl

    on_mode : Classified
    on_mode =
        if is_client regex is_match engine
        then decided (by_mode regex is_match engine cmd)
        else after_guardrail regex is_match engine cmd (guardrail regex is_match 0 hard_deny cmd)

    trimmed_lem : is_allow (classify_trimmed regex is_match engine cmd) ≡ (
        not (is_empty cmd)
        && (not (eq_text engine.mode (codes "observe"))
            && (not (any (λ p. is_match p cmd) engine.deny)
                && (not (is_critical cmd) && mode_permits engine cmd))))
    unfolding classify_trimmed on_mode
    trimmed_lem =
        let found = position regex is_match 0 engine.deny cmd in
        let calm = if is_critical cmd then decided (deny Reason.critical_guardrail) else on_mode in
        let searched : Classified = elim found [
          | some n ↦ decided (deny (Reason.custom_deny_rule n))
          | none ↦ calm
        ] in
        let executing =
          if eq_text engine.mode (codes "observe")
          then decided (deny Reason.observe_mode)
          else searched in
        unless_denied (is_empty cmd) Reason.empty_command executing
        ∙ ap (λ b. not (is_empty cmd) && b)
            (unless_denied (eq_text engine.mode (codes "observe")) Reason.observe_mode searched
              ∙ ap (λ b. not (eq_text engine.mode (codes "observe")) && b)
                  (denied_lem found calm
                    ∙ ap (λ b. not b && is_allow calm) (position_lem 0 engine.deny cmd)
                    ∙ ap (λ b. not (any (λ p. is_match p cmd) engine.deny) && b)
                        (unless_denied (is_critical cmd) Reason.critical_guardrail on_mode
                          ∙ ap (λ b. not (is_critical cmd) && b) on_mode_lem)))

  -- A command is allowed exactly if it is at most 32768 bytes long and holds no control character, is
  -- not blank, the mode is not observe, no deny pattern matches, it is not critical, and its mode
  -- permits it: the client mode does; any other one if every built-in pattern compiles and misses,
  -- and it is unrestricted, or an allow pattern matches, or it is safe and the command in the grammar.
  pub classify_command-permits :
      (engine : PolicyEngine Regex) (command : Text)
      → is_allow (classify_command regex is_match engine command) ≡ permits engine command
  unfolding classify_command
  classify_command-permits engine command =
      let cmd = trim command in
      unless_denied (ltb 32768 (len command) || any is_control command) Reason.control_or_length
        (classify_trimmed regex is_match engine cmd)
      ∙ ap (λ b. not (ltb 32768 (len command) || any is_control command) && b)
          (trimmed_lem engine cmd)
      ∙ regroup (len command) (any is_control command) (not (is_empty cmd))
          (not (eq_text engine.mode (codes "observe")))
          (not (any (λ p. is_match p cmd) engine.deny)) (not (is_critical cmd))
          (mode_permits engine cmd)
