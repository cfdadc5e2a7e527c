-- ===== src/Config.antt =====
-- src/config.rs: the settings, their defaults and `Config::validate`.
-- Numbers of the file are natural numbers; `u16`, `u64` and `usize` bound them from above only.
pub mod Bounds
use securecrt_mcp.Prelude.{
  ℕ, zero, suc, ◌+◌, ◌-◌, ◌≤◌, ◌<◌, min, ◌≡◌, refl, sym, ap, ◌∙◌, Bool, true, false, not, ◌&&◌,
  ◌||◌, List, [], ◌∷◌, ◌++◌, arith, ltb, leb, ◌==◌, if◌then◌else◌, Bool-cases, Option-cases, inl,
  inr, Option, none, some, All, append_assoc, append-nil, Result, ok, err, ◌>>=◌, ◌>>◌, ensure,
  context, is_some, unwrap_or, is_empty, all, any, ◌*◌, ◌≢◌, ◌⊎◌, ◌↔◌, subst,
}
use securecrt_mcp.Text.{Text, codes, eq_text, contains}

pub record BridgeConfig : Type 0 where
  pub host : Text
  pub port : ℕ
  pub connect_timeout_ms : ℕ
  pub request_timeout_ms : ℕ
  pub max_command_timeout_ms : ℕ
  pub max_stream_timeout_ms : ℕ
  pub max_output_bytes : ℕ
  pub max_jobs : ℕ
  pub job_retention_sec : ℕ

pub record PolicyConfig : Type 0 where
  pub mode : Text
  pub allow_raw_send : Bool
  pub allow_interrupt : Bool
  pub custom_allow_patterns : List Text
  pub custom_deny_patterns : List Text

pub record AuditConfig : Type 0 where
  pub enabled : Bool
  pub file : Text
  pub include_command_text : Bool
  pub durability : Text

pub record Config : Type 0 where
  pub bridge : BridgeConfig
  pub policy : PolicyConfig
  pub audit : AuditConfig

unfoldable pub default_bridge : BridgeConfig
default_bridge = record {
  host = codes "127.0.0.1";
  port = 27855;
  connect_timeout_ms = 1500;
  request_timeout_ms = 5000;
  max_command_timeout_ms = 30000;
  max_stream_timeout_ms = 3600000;
  max_output_bytes = 1048576;
  max_jobs = 32;
  job_retention_sec = 3600;
}

unfoldable pub default_policy : PolicyConfig
default_policy = record {
  mode = codes "client";
  allow_raw_send = false;
  allow_interrupt = true;
  custom_allow_patterns = [];
  custom_deny_patterns = [];
}

unfoldable pub default_audit : AuditConfig
default_audit = record {
  enabled = true;
  file = codes "audit.jsonl";
  include_command_text = false;
  durability = codes "os_buffered";
}

pub data ConfigError : Type 0 where
  invalid_host invalid_port invalid_connect_timeout invalid_request_timeout : ConfigError
  invalid_command_timeout invalid_stream_timeout invalid_output_bytes invalid_max_jobs : ConfigError
  invalid_retention cache_over_budget empty_audit_file invalid_durability invalid_policy :
      ConfigError

-- `(lo..=hi).contains(&n)`.
abbrev pub within : ℕ → ℕ → ℕ → Bool
within lo hi n = leb lo n && leb n hi

-- `usize::saturating_mul`.
unfoldable pub saturating_mul : ℕ → ℕ → ℕ
saturating_mul a b = min (a * b) 18446744073709551615

unfoldable pub validate_bridge : BridgeConfig → Result ConfigError (Unit {0})
unfolding eq_text saturating_mul
validate_bridge b = do
  ensure (eq_text b.host (codes "127.0.0.1")) invalid_host
  ensure (leb 1024 b.port) invalid_port
  ensure (within 100 10000 b.connect_timeout_ms) invalid_connect_timeout
  ensure (within 2000 60000 b.request_timeout_ms) invalid_request_timeout
  ensure (within 1000 3600000 b.max_command_timeout_ms) invalid_command_timeout
  ensure (within 1000 3600000 b.max_stream_timeout_ms) invalid_stream_timeout
  ensure (within 4096 16777216 b.max_output_bytes) invalid_output_bytes
  ensure (within 1 128 b.max_jobs) invalid_max_jobs
  ensure (within 60 86400 b.job_retention_sec) invalid_retention
  ensure (leb (saturating_mul b.max_output_bytes b.max_jobs) 134217728) cache_over_budget

unfoldable pub validate_audit : AuditConfig → Result ConfigError (Unit {0})
unfolding contains
validate_audit a = do
  ensure (not (is_empty a.file)) empty_audit_file
  ensure (contains (codes "os_buffered" ∷ codes "each_event" ∷ []) a.durability) invalid_durability

-- `policy_ok` is whether `PolicyEngine::new(&self.policy)` succeeds (Policy.antt).
unfoldable pub validate : (PolicyConfig → Bool) → Config → Result ConfigError (Unit {0})
unfolding validate_bridge validate_audit
validate policy_ok c = do
  validate_bridge c.bridge
  validate_audit c.audit
  ensure (policy_ok c.policy) invalid_policy
