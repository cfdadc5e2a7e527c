-- ===== src/Policy/Decisions.antt =====
-- What a decision of `classify_command` of src/policy.rs guarantees.
use securecrt_mcp.Prelude.{
  ℕ, ◌+◌, ◌≤◌, ◌≡◌, refl, ap, Bool, true, false, ◌&&◌, ◌||◌, List, [], ◌∷◌, arith, ltb,
  if◌then◌else◌, Bool-cases, Option-cases, inl, inr, Option, none, some, Result, ok, err, is_empty,
  all, any,
}
use securecrt_mcp.Prelude.{||_none}
use securecrt_mcp.Text.{Text, codes, eq_text, len, trim, is_control}
use securecrt_mcp.Text.Words.{or_blank}
use securecrt_mcp.Critical.{is_critical}
use securecrt_mcp.Policy.Grammar.{is_literal_char, safe_command}
use securecrt_mcp.Policy.Alphabet.{safe_command-alphabet}
use securecrt_mcp.Policy.{
  PolicyEngine, allow, deny, Classified, decided, Reason, PolicyError, hard_deny, position,
  guardrail, is_client, is_allowed, by_mode, after_guardrail, classify_trimmed, classify_command,
}

-- A test that denies was passed, if the command was allowed.
unless :
    (b : Bool) (reason : Reason) (k : Classified)
    → (if b then decided (deny reason) else k) ≡ decided allow
    → (b ≡ false) × (k ≡ decided allow)
unless true reason k h = cc
unless false reason k h = (refl, h)

only_last :
    (a b c d e : Bool)
    → a ≡ false
    → b ≡ false
    → c ≡ false
    → (a || b || c || (d && e)) ≡ true
    → e ≡ true
only_last a b c d e ha hb hc h = ground arith

module _ {ℓ} {Regex : Type ℓ} (regex : Text → Option Regex) (is_match : Regex → Text → Bool) where
  -- What an allowed command has passed.
  pub record Passed (engine : PolicyEngine Regex) (command : Text) : Type 0 where
    pub short : len command ≤ 32768
    pub one_line : any is_control command ≡ false
    pub nonempty : is_empty (trim command) ≡ false
    pub executing : eq_text engine.mode (codes "observe") ≡ false
    pub not_denied : any (λ p. is_match p (trim command)) engine.deny ≡ false
    pub not_critical : is_critical (trim command) ≡ false
    pub by_its_mode : is_allowed regex is_match engine (trim command) ≡ true

  position-eq_none :
      (n : ℕ) (ps : List Regex) (cmd : Text)
      → position regex is_match n ps cmd ≡ none
      → any (λ p. is_match p cmd) ps ≡ false
  unfolding position
  position-eq_none n [] cmd h = refl
  position-eq_none n (p ∷ ps) cmd h = elim (Bool-cases (is_match p cmd)) [
    | inl e ↦ let g : some n ≡ none = rw (e, position) at h in cc
    | inr e ↦
        let g : position regex is_match (n + 1) ps cmd ≡ none = rw (e, position) at h in
        ground (arith, position-eq_none (n + 1) ps cmd g)
  ]

  by_mode-eq_allow :
      (engine : PolicyEngine Regex) (cmd : Text)
      → decided (by_mode regex is_match engine cmd) ≡ decided allow
      → is_allowed regex is_match engine cmd ≡ true
  unfolding by_mode
  by_mode-eq_allow engine cmd h = elim (Bool-cases (is_allowed regex is_match engine cmd)) [
    | inl e ↦ e
    | inr e ↦
        let g : decided (deny Reason.not_in_grammar) ≡ decided allow = rw (e, by_mode) at h in cc
  ]

  after_guardrail-eq_allow :
      (engine : PolicyEngine Regex) (cmd : Text) (o : Result PolicyError (Option ℕ))
      → after_guardrail regex is_match engine cmd o ≡ decided allow
      → is_allowed regex is_match engine cmd ≡ true
  unfolding after_guardrail
  after_guardrail-eq_allow engine cmd (err e) h = cc
  after_guardrail-eq_allow engine cmd (ok (some n)) h = cc
  after_guardrail-eq_allow engine cmd (ok none) h = by_mode-eq_allow engine cmd h

  module _ (engine : PolicyEngine Regex) (cmd : Text) where
    on_mode : Classified
    on_mode =
        if is_client regex is_match engine
        then decided (by_mode regex is_match engine cmd)
        else after_guardrail regex is_match engine cmd (guardrail regex is_match 0 hard_deny cmd)

    on_mode-eq_allow : on_mode ≡ decided allow → is_allowed regex is_match engine cmd ≡ true
    unfolding on_mode
    on_mode-eq_allow h = elim (Bool-cases (is_client regex is_match engine)) [
      | inl e ↦ by_mode-eq_allow engine cmd (rw (e, on_mode) at h)
      | inr e ↦
          after_guardrail-eq_allow engine cmd (guardrail regex is_match 0 hard_deny cmd)
            (rw (e, on_mode) at h)
    ]

    trimmed-eq_allow :
        classify_trimmed regex is_match engine cmd ≡ decided allow
        → (is_empty cmd ≡ false)
          × (eq_text engine.mode (codes "observe") ≡ false)
          × (any (λ p. is_match p cmd) engine.deny ≡ false)
          × (is_critical cmd ≡ false)
          × (is_allowed regex is_match engine cmd ≡ true)
    unfolding classify_trimmed on_mode
    trimmed-eq_allow h =
        let (nonempty, h1) = unless (is_empty cmd) Reason.empty_command _ h in
        let (executing, h2) =
          unless (eq_text engine.mode (codes "observe")) Reason.observe_mode _ h1 in
        elim (Option-cases (position regex is_match 0 engine.deny cmd)) [
          | inr (n, e) ↦
              let g : decided (deny (Reason.custom_deny_rule n)) ≡ decided allow =
                rw (e, classify_trimmed) at h2 in
              cc
          | inl e ↦
              let g : (if is_critical cmd
                    then decided (deny Reason.critical_guardrail)
                    else on_mode)
                  ≡ decided allow =
                rw (e, classify_trimmed) at h2 in
              let (calm, h3) = unless (is_critical cmd) Reason.critical_guardrail on_mode g in
              (nonempty, executing, position-eq_none 0 engine.deny cmd e, calm, on_mode-eq_allow h3)
        ]

  -- An allowed command is at most 32768 bytes long, holds no control character, is not blank, matches
  -- no deny pattern and is not critical, in every mode; the mode is not observe, and it allows it.
  pub allowed-Passed :
      (engine : PolicyEngine Regex) (command : Text)
      → classify_command regex is_match engine command ≡ decided allow
      → Passed engine command
  unfolding classify_command
  allowed-Passed engine command h =
      let (first, h1) =
        unless (ltb 32768 (len command) || any is_control command) Reason.control_or_length
          (classify_trimmed regex is_match engine (trim command)) h in
      let (a, b, c, d, e) = trimmed-eq_allow engine (trim command) h1 in
      record {
        short = ground arith;
        one_line = (||_none (ltb 32768 (len command)) (any is_control command) first).1;
        nonempty = a;
        executing = b;
        not_denied = c;
        not_critical = d;
        by_its_mode = e;
      }

  -- In safe mode without allow patterns, an allowed command consists of letters, digits, the
  -- characters `_./:=,@%+-` and blanks, apart from the space around it.
  pub safe_mode-alphabet :
      (engine : PolicyEngine Regex) (command : Text)
      → engine.mode ≡ codes "safe"
      → engine.allow ≡ []
      → classify_command regex is_match engine command ≡ decided allow
      → all (or_blank is_literal_char) (trim command) ≡ true
  unfolding is_allowed is_client eq_text
  safe_mode-alphabet engine command m no_allow h = safe_command-alphabet (trim command) (
      only_last (eq_text engine.mode (codes "client")) (eq_text engine.mode (codes "unrestricted"))
        (any (λ p. is_match p (trim command)) engine.allow) (eq_text engine.mode (codes "safe"))
        (safe_command (trim command)) (ap (λ t. eq_text t (codes "client")) m)
        (ap (λ t. eq_text t (codes "unrestricted")) m)
        (ap (any (λ p. is_match p (trim command))) no_allow)
        (allowed-Passed engine command h).by_its_mode)
