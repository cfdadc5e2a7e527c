-- ===== src/Execution/Prepare.antt =====
-- `run_command_inner` of src/execution/convenience.rs up to its submission: what is checked before
-- anything is sent, and what is submitted.
pub mod Faithful
use securecrt_mcp.Prelude.{
  ℕ, zero, suc, ◌+◌, ◌-◌, ◌≤◌, ◌<◌, min, max, ◌≡◌, refl, sym, ap, ap₂, ◌∙◌, Bool, true, false, not,
  ◌&&◌, ◌||◌, List, [], ◌∷◌, ◌++◌, arith, ltb, leb, ◌==◌, if◌then◌else◌, Bool-cases, Option-cases,
  inl, inr, Option, none, some, All, append_assoc, append-nil, Result, ok, err, ◌>>=◌, ◌>>◌, ensure,
  context, is_some, unwrap_or, is_empty, all, any, ◌*◌, ◌≢◌, ◌⊎◌, ◌↔◌, subst,
}
use Prim.Native.Nat.{◌%◌, ◌^◌}
use securecrt_mcp.Text.{
  Text, codes, len, is_control, eq_text, ends_with, contains_text, to_ascii_lowercase, trim_end,
}
use securecrt_mcp.Assoc.{Assoc, lookup, insert, retain, contains_key}
use securecrt_mcp.Config.{BridgeConfig, within}
use securecrt_mcp.Execution.Params.{CaptureMode, ExecuteParams, is_posix}
use securecrt_mcp.Execution.Registry.{Registry}

pub record RunParams : Type 0 where
  pub session : Text
  pub command : Text
  pub mode : CaptureMode
  pub operation_id : Option Text
  pub expected_prompt : Option Text
  pub wait_for : Option Text
  pub timeout_ms : Option ℕ
  pub wait_ms : Option ℕ
  pub max_bytes : Option ℕ
  pub settle_ms : Option ℕ
  pub prefer_native_log : Option Bool

pub data RunError : Type 0 where
  invalid_max_bytes invalid_wait invalid_timeout preparing conflict busy_unresolved : RunError
  bridge_failed preflight_failed prompt_mismatch context_required missing_token : RunError

-- `u64::wrapping_add` of a built without overflow checks.
abbrev pub wrapping_add : ℕ → ℕ → ℕ
wrapping_add a b = (a + b) % 2 ^ 64

-- The wait that is chosen where none is asked for.
unfoldable pub default_wait : BridgeConfig → ℕ → ℕ
default_wait config timeout = min (wrapping_add timeout (2 * config.request_timeout_ms)) 50000

unfoldable pub run_timeout : BridgeConfig → RunParams → ℕ
run_timeout config p = unwrap_or p.timeout_ms (min 30000 config.max_command_timeout_ms)

-- The words of `shell_prompt_candidate`. `to_lowercase` differs from the lower case of ASCII in
-- other characters only, none of which it turns into a part of these words.
abbrev secret_words : List Text
secret_words =
    codes "password"
    ∷ codes "passphrase"
    ∷ codes "--more--"
    ∷ codes "verification code"
    ∷ codes "otp:"
    ∷ codes "密码"
    ∷ []

unfoldable pub shell_prompt_candidate : Text → Bool
unfolding len is_control contains_text to_ascii_lowercase ends_with
shell_prompt_candidate line =
    if is_empty line || ltb 512 (len line) || any is_control line
    then false
    else if any (contains_text (to_ascii_lowercase line)) secret_words
    then false
    else ends_with line (codes "$") || ends_with line (codes "#") || ends_with line (codes "%")

-- The fields of a reply to `read_screen`.
pub record Screen : Type 0 where
  pub current_line : Option Text
  pub screen_token : Option Text

-- The prompt that the submission is to expect.
unfoldable pub expected : RunParams → Text → Result RunError Text
unfolding eq_text trim_end shell_prompt_candidate
expected p current = elim p.expected_prompt [
  | some prompt ↦
      if eq_text (trim_end prompt) current then ok (trim_end prompt) else err prompt_mismatch
  | none ↦
      if is_posix p.mode && shell_prompt_candidate current then ok current else err context_required
]

unfoldable pub submission : BridgeConfig → RunParams → Text → Text → Text → ExecuteParams
unfolding run_timeout
submission config p op token prompt = record {
  attachment_id = none;
  session = p.session;
  screen_token = token;
  expected_prompt = prompt;
  operation_id = op;
  command = p.command;
  mode = p.mode;
  wait_for = p.wait_for;
  timeout_ms = some (run_timeout config p);
  settle_ms = p.settle_ms;
  prefer_native_log = p.prefer_native_log;
}

-- What is to be done: wait for a known command, or submit one.
pub data Plan : Type 0 where
  replays : Text → Plan
  submits : ExecuteParams → Plan

unfoldable pub on_screen : BridgeConfig → RunParams → Text → Screen → Result RunError Plan
unfolding expected submission trim_end
on_screen config p op screen =
    expected p (trim_end (unwrap_or screen.current_line [])) >>= λ prompt.
    context screen.screen_token missing_token >>= λ token.
    ok (submits (submission config p op token prompt))

unfoldable pub on_free :
    BridgeConfig → RunParams → Text → Result Text Bool → Result Text Screen → Result RunError Plan
unfolding on_screen submission
on_free config p op fast screen =
    if is_posix p.mode
    then elim fast [
      | err e ↦ err bridge_failed
      | ok true ↦ ok (submits (submission config p op [] (unwrap_or p.expected_prompt [])))
      | ok false ↦ elim screen [ err e ↦ err preflight_failed | ok s ↦ on_screen config p op s ]
    ]
    else elim screen [ err e ↦ err preflight_failed | ok s ↦ on_screen config p op s ]

-- The section that holds the registry's lock.
unfoldable pub existing : Registry → Text → Text → Text → Result RunError (Option Text)
unfolding eq_text lookup contains_key
existing r session op fingerprint = elim (lookup op r.operations) [
  | some (id, hash) ↦ if eq_text hash fingerprint then ok (some id) else err conflict
  | none ↦ if contains_key session r.busy then err busy_unresolved else ok none
]

unfoldable pub planned :
    BridgeConfig
    → RunParams
    → Text
    → Result Text Bool
    → Result Text Screen
    → Option Text
    → Result RunError Plan
unfolding on_free
planned config p op fast screen (some id) = ok (replays id)
planned config p op fast screen none = on_free config p op fast screen

-- `gate_free` is the answer of `try_lock`, `op` the identifier that is given or drawn.
unfoldable pub prepare :
    BridgeConfig
    → RunParams
    → Text
    → Text
    → Bool
    → Registry
    → Result Text Bool
    → Result Text Screen
    → Result RunError Plan
unfolding default_wait run_timeout existing planned
prepare config p op fingerprint gate_free r fast screen =
    let timeout = run_timeout config p in
    let wait = unwrap_or p.wait_ms (default_wait config timeout) in
    ensure (within 4 65536 (unwrap_or p.max_bytes 16384)) invalid_max_bytes
    >> ensure (leb wait 60000) invalid_wait
    >> ensure (within 1000 config.max_command_timeout_ms timeout) invalid_timeout
    >> ensure gate_free preparing
    >> (existing r p.session op fingerprint >>= planned config p op fast screen)

-- `gate_for`, on the number of the other holders of each gate: a gate without holders is dropped, and
-- the gate of the session is taken up or made.
abbrev is_held : ℕ → Bool
is_held n = ltb 0 n

unfoldable pub gate_for : Text → Assoc ℕ → Assoc ℕ
unfolding retain lookup insert
gate_for session gates =
    let kept = retain is_held gates in insert session (suc (unwrap_or (lookup session kept) 0)) kept
