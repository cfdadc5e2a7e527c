-- ===== src/Config/Bounds.antt =====
-- What `Config::validate` guarantees of the limits that the other components read.
use securecrt_mcp.Prelude.{
  ◌≤◌, ◌≡◌, refl, Bool, true, false, arith, Result, ok, err, ◌>>◌, ensure, ◌*◌,
}
use securecrt_mcp.Config.{
  BridgeConfig, Config, PolicyConfig, ConfigError, validate, validate_bridge, saturating_mul,
}

-- What a configuration that `validate` accepts guarantees of its limits.
pub record IsBounded (b : BridgeConfig) : Type 0 where
  pub output_min : 4096 ≤ b.max_output_bytes
  pub jobs_min : 1 ≤ b.max_jobs
  pub jobs_max : b.max_jobs ≤ 128
  pub command_timeout : (1000 ≤ b.max_command_timeout_ms) × (b.max_command_timeout_ms ≤ 3600000)
  pub request_timeout : (2000 ≤ b.request_timeout_ms) × (b.request_timeout_ms ≤ 60000)
  pub cache_budget : b.max_output_bytes * b.max_jobs ≤ 134217728

-- A sequence of checks that succeeds has passed its first.
pub ensure_then :
    (b : Bool) (e : ConfigError) (k : Result ConfigError (Unit {0}))
    → (ensure b e >> k) ≡ ok tt
    → (b ≡ true) × (k ≡ ok tt)
ensure_then true e k h = (refl, h)
ensure_then false e k h = cc

pub >>-eq_ok : (m k : Result ConfigError (Unit {0})) → (m >> k) ≡ ok tt → (m ≡ ok tt) × (k ≡ ok tt)
>>-eq_ok (ok tt) k h = (refl, h)
>>-eq_ok (err e) k h = cc

validate_bridge-IsBounded : (b : BridgeConfig) → validate_bridge b ≡ ok tt → IsBounded b
unfolding validate_bridge saturating_mul
validate_bridge-IsBounded b h = ground arith

-- A configuration that `validate` accepts keeps every limit within the bounds that the code names,
-- and the output of all retained jobs together within 128 MiB.
pub validate-IsBounded :
    (policy_ok : PolicyConfig → Bool) (c : Config)
    → validate policy_ok c ≡ ok tt
    → IsBounded c.bridge
unfolding validate
validate-IsBounded policy_ok c h =
    validate_bridge-IsBounded c.bridge (>>-eq_ok (validate_bridge c.bridge) _ h).0
