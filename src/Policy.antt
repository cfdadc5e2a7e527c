-- ===== src/Policy.antt =====
-- src/policy.rs: the engine that decides whether a command may be sent. The regular expressions are
-- those of the regex crate: their type, compilation and matching are parameters.
pub mod Grammar
pub mod Alphabet
pub mod Decisions
pub mod Exact
use securecrt_mcp.Prelude.{
  ℕ, zero, suc, ◌+◌, ◌-◌, ◌≤◌, ◌<◌, min, max, ◌≡◌, refl, sym, ap, ap₂, ◌∙◌, Bool, true, false, not,
  ◌&&◌, ◌||◌, List, [], ◌∷◌, ◌++◌, arith, ltb, leb, ◌==◌, if◌then◌else◌, Bool-cases, Option-cases,
  inl, inr, Option, none, some, All, append_assoc, append-nil, Result, ok, err, ◌>>=◌, ◌>>◌, ensure,
  context, is_some, unwrap_or, is_empty, all, any, ◌*◌, ◌≢◌, ◌⊎◌, ◌↔◌, subst,
}
use securecrt_mcp.Prelude.{length}
use securecrt_mcp.Text.{Text, codes, eq_text, contains, len, trim, is_control, to_ascii_lowercase}
use securecrt_mcp.Critical.{is_critical}
use securecrt_mcp.Config.{PolicyConfig}
use Grammar.{safe_command}

-- The reasons of a decision, where the code has a sentence for each.
pub data Reason : Type 0 where
  control_or_length empty_command observe_mode critical_guardrail not_in_grammar : Reason
  custom_deny_rule builtin_guardrail : ℕ → Reason

pub data Decision : Type 0 where
  allow : Decision
  deny : Reason → Decision

-- `Regex::new(pattern).expect(…)` panics where a built-in pattern does not compile.
pub data Classified : Type 0 where
  decided : Decision → Classified
  panicked : Classified

pub data PolicyError : Type 0 where
  invalid_mode too_many_patterns pattern_too_long invalid_regex : PolicyError

unfoldable pub modes : List Text
modes =
    codes "client" ∷ codes "observe" ∷ codes "safe" ∷ codes "allowlist" ∷ codes "unrestricted" ∷ []

-- `HARD_DENY`.
unfoldable pub hard_deny : List Text
hard_deny =
    codes
      "(?i)^\\s*(rm|shred|wipefs|mkfs(?:\\.[a-z0-9]+)?|fdisk|parted|dd|reboot|shutdown|poweroff|halt)\\b"
    ∷ codes "(?i)^\\s*systemctl\\s+(restart|stop|start|enable|disable|mask|unmask|daemon-reload)\\b"
    ∷ codes "(?i)^\\s*service\\s+\\S+\\s+(restart|stop|start)\\b"
    ∷ codes
        "(?i)^\\s*kubectl\\s+(delete|apply|create|replace|patch|edit|scale|cordon|uncordon|drain)\\b"
    ∷ codes "(?i)^\\s*kubectl\\s+rollout\\s+(restart|undo)\\b"
    ∷ codes "(?i)^\\s*helm\\s+(install|upgrade|uninstall|rollback)\\b"
    ∷ codes
        "(?i)^\\s*(docker|podman)\\s+(rm|rmi|kill|restart|stop|start|run|exec|system\\s+prune|image\\s+prune|container\\s+prune|volume\\s+prune)\\b"
    ∷ codes
        "(?i)^\\s*(iptables|ip6tables|nft|firewall-cmd|ufw|passwd|useradd|userdel|usermod|groupadd|groupdel|chown|chmod)\\b"
    ∷ []

module _ {ℓ} (Regex : Type ℓ) where
  pub record PolicyEngine : Type ℓ where
    pub mode : Text
    pub raw : Bool
    pub interrupt : Bool
    pub allow : List Regex
    pub deny : List Regex

module _ {ℓ} {Regex : Type ℓ} (regex : Text → Option Regex) (is_match : Regex → Text → Bool) where
  -- The closure of `new` that compiles one pattern.
  unfoldable pub compile_one : Bool → Text → Result PolicyError Regex
  unfolding len
  compile_one full pattern = do
    ensure (leb (len pattern) 4096) pattern_too_long
    context (regex (if full then codes "\\A(?:" ++ pattern ++ codes ")\\z" else pattern))
        invalid_regex

  unfoldable pub compile : Bool → List Text → Result PolicyError (List Regex)
  unfolding compile_one
  compile full [] = ok []
  compile full (p ∷ ps) = do r ← compile_one full p; rs ← compile full ps; ok (r ∷ rs)

  unfoldable pub new : PolicyConfig → Result PolicyError (PolicyEngine Regex)
  unfolding compile contains modes to_ascii_lowercase
  new config = do
    ensure (contains modes (to_ascii_lowercase config.mode)) invalid_mode
    ensure
        (leb (length config.custom_allow_patterns) 128
          && leb (length config.custom_deny_patterns) 128)
        too_many_patterns
    denied ← compile false config.custom_deny_patterns
    allowed ← compile true config.custom_allow_patterns
    ok (record {
      mode = to_ascii_lowercase config.mode;
      raw = config.allow_raw_send;
      interrupt = config.allow_interrupt;
      allow = allowed;
      deny = denied;
    })

  -- `position(|p| p.is_match(cmd))`, counted from `index`.
  unfoldable pub position : ℕ → List Regex → Text → Option ℕ
  position index [] cmd = none
  position index (p ∷ ps) cmd =
      let rest = position (index + 1) ps cmd in if is_match p cmd then some index else rest

  -- The loop over the built-in patterns: the index of the first that matches.
  unfoldable pub guardrail : ℕ → List Text → Text → Result PolicyError (Option ℕ)
  guardrail index [] cmd = ok none
  guardrail index (p ∷ ps) cmd =
      let rest = guardrail (index + 1) ps cmd in
      elim (regex p) [
        | none ↦ err invalid_regex
        | some r ↦ if is_match r cmd then ok (some index) else rest
      ]

  module _ (engine : PolicyEngine Regex) where
    unfoldable pub is_client : Bool
    unfolding eq_text
    is_client = eq_text engine.mode (codes "client")

    unfoldable pub is_allowed : Text → Bool
    unfolding eq_text is_client
    is_allowed cmd =
        is_client
        || eq_text engine.mode (codes "unrestricted")
        || any (λ p. is_match p cmd) engine.allow
        || (eq_text engine.mode (codes "safe") && safe_command cmd)

    -- The last test of `classify_command`.
    unfoldable pub by_mode : Text → Decision
    unfolding is_allowed
    by_mode cmd = if is_allowed cmd then allow else deny not_in_grammar

    unfoldable pub after_guardrail : Text → Result PolicyError (Option ℕ) → Classified
    unfolding by_mode
    after_guardrail cmd (err _) = panicked
    after_guardrail cmd (ok (some index)) = decided (deny (builtin_guardrail index))
    after_guardrail cmd (ok none) = decided (by_mode cmd)

    -- The tests on the trimmed command.
    unfoldable pub classify_trimmed : Text → Classified
    unfolding position guardrail after_guardrail eq_text is_client
    classify_trimmed cmd =
        if is_empty cmd
        then decided (deny empty_command)
        else if eq_text engine.mode (codes "observe")
        then decided (deny observe_mode)
        else elim (position 0 engine.deny cmd) [
          | some index ↦ decided (deny (custom_deny_rule index))
          | none ↦
              if is_critical cmd
              then decided (deny critical_guardrail)
              else if is_client
              then decided (by_mode cmd)
              else after_guardrail cmd (guardrail 0 hard_deny cmd)
        ]

    unfoldable pub classify_command : Text → Classified
    unfolding classify_trimmed len trim
    classify_command command =
        if ltb 32768 (len command) || any is_control command
        then decided (deny control_or_length)
        else classify_trimmed (trim command)

    unfoldable pub raw_send_allowed : Bool
    unfolding eq_text
    raw_send_allowed = engine.raw && not (eq_text engine.mode (codes "observe"))

    unfoldable pub interrupt_allowed : Bool
    unfolding eq_text
    interrupt_allowed = engine.interrupt && not (eq_text engine.mode (codes "observe"))
