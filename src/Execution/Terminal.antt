-- ===== src/Execution/Terminal.antt =====
-- Attachments, their commands and streams of src/execution/persistent.rs. What the bridge and the
-- audit log answer is the argument of each operation.
pub mod Latency
pub mod Attached
use securecrt_mcp.Prelude.{
  ℕ, zero, suc, ◌+◌, ◌-◌, ◌≤◌, ◌<◌, min, max, ◌≡◌, refl, sym, ap, ap₂, ◌∙◌, Bool, true, false, not,
  ◌&&◌, ◌||◌, List, [], ◌∷◌, ◌++◌, arith, ltb, leb, ◌==◌, if◌then◌else◌, Bool-cases, Option-cases,
  inl, inr, Option, none, some, All, append_assoc, append-nil, Result, ok, err, ◌>>=◌, ◌>>◌, ensure,
  context, is_some, unwrap_or, is_empty, all, any, ◌*◌, ◌≢◌, ◌⊎◌, ◌↔◌, subst,
}
use Prim.Native.Nat.{◌/◌}
use securecrt_mcp.Prelude.{length, get_elem?}
use securecrt_mcp.Text.{Text, codes, len, eq_text, contains, after_last}
use securecrt_mcp.Assoc.{Assoc, lookup, insert, remove, size}
use securecrt_mcp.Config.{BridgeConfig, within}
use securecrt_mcp.Policy.{PolicyEngine, raw_send_allowed}
use securecrt_mcp.Execution.Job.{Job, active}
use securecrt_mcp.Execution.Params.{CaptureMode, ExecuteParams, is_stream}
use securecrt_mcp.Execution.Registry.{Registry, with_job}
use securecrt_mcp.Execution.System.{set_stop}
use securecrt_mcp.Execution.Prepare.{default_wait}

-- The fields of an attachment, as the bridge has answered, that are read back.
pub record Attachment : Type 0 where
  pub session : Option Text
  pub mode : Option Text

pub data TerminalError : Type 0 where
  stale_attachment bridge_incompatible invalid_mode cache_full missing_id no_session : TerminalError
  observe_only invalid_wait not_confirmed raw_disabled invalid_input unknown_stream : TerminalError
  not_active invalid_samples : TerminalError
  failed : Text → TerminalError

unfoldable pub attachment_cache_key : Text → Text
unfolding after_last
attachment_cache_key id = after_last b'/' id

-- `attachment_value`: an attachment is kept under its local name.
unfoldable pub attachment_value : Text → Assoc Attachment → Result TerminalError Attachment
unfolding attachment_cache_key
attachment_value id m = elim (lookup id m) [
  | some a ↦ ok a
  | none ↦ context (lookup (attachment_cache_key id) m) stale_attachment
]

abbrev pub from_text {ℓ} : {A : Type ℓ} → Result Text A → Result TerminalError A
from_text (err e) = err (failed e)
from_text (ok a) = ok a

-- The reply to `attach`: the name and the attachment.
unfoldable pub attach :
    Result Text Bool
    → Text
    → Result Text (Option Text × Attachment)
    → Assoc Attachment
    → Assoc Attachment × Result TerminalError Attachment
unfolding contains
attach fast mode reply m =
    let checked = from_text fast >>= λ supported.
    ensure supported bridge_incompatible
    >> ensure (contains (codes "shared" ∷ codes "exclusive" ∷ codes "observe" ∷ []) mode)
        invalid_mode
    >> ensure (ltb (size m) 128) cache_full
    >> from_text reply in
    elim checked [
      | err e ↦ (m, err e)
      | ok (none, a) ↦ (m, err missing_id)
      | ok (some id, a) ↦ (insert id a m, ok a)
    ]

-- The handle is forgotten whatever the bridge answers.
unfoldable pub detach : Text → Assoc Attachment → Assoc Attachment
unfolding attachment_cache_key
detach id m = remove (attachment_cache_key id) (remove id m)

unfoldable pub attachment_session : Text → Assoc Attachment → Result TerminalError Text
unfolding attachment_value
attachment_session id m = attachment_value id m >>= λ a. context a.session no_session

-- `restore_prompt` up to its request: the capabilities of the bridge and the audit record.
unfoldable pub restore_prompt :
    Bool
    → Text
    → Assoc Attachment
    → Result Text (List Text)
    → Result Text (Unit {0})
    → Result TerminalError (Unit {0})
unfolding attachment_value contains
restore_prompt confirmed_idle id m capabilities audit =
    ensure confirmed_idle not_confirmed
    >> attachment_value id m
    >> (from_text capabilities >>= λ items.
        ensure (contains items (codes "restore_prompt")) bridge_incompatible)
    >> from_text audit

pub record ExecParams : Type 0 where
  pub attachment_id : Text
  pub command : Text
  pub mode : CaptureMode
  pub expected_prompt : Option Text
  pub operation_id : Option Text
  pub timeout_ms : Option ℕ
  pub wait_ms : Option ℕ
  pub max_bytes : Option ℕ
  pub wait_for : Option Text
  pub prefer_native_log : Option Bool

unfoldable pub exec_timeout : BridgeConfig → ExecParams → ℕ
exec_timeout config p = unwrap_or p.timeout_ms (
    if is_stream p.mode
    then min config.max_stream_timeout_ms 600000
    else min config.max_command_timeout_ms 30000)

abbrev pub is_observe : Option Text → Bool
is_observe none = false
is_observe (some mode) = eq_text mode (codes "observe")

-- What `exec` submits, with how long it waits and how much of the output it returns; `drawn` is the
-- identifier that it draws where none is given.
unfoldable pub exec :
    BridgeConfig
    → Text
    → ExecParams
    → Assoc Attachment
    → Result TerminalError (ExecuteParams × ℕ × ℕ)
unfolding attachment_value exec_timeout default_wait eq_text
exec config drawn p m =
    let timeout = exec_timeout config p in
    let wait = unwrap_or p.wait_ms (default_wait config timeout) in
    let max_bytes = unwrap_or p.max_bytes 16384 in
    attachment_value p.attachment_id m >>= λ a.
    ensure (not (is_observe a.mode)) observe_only
    >> ensure (leb wait 60000 && within 4 65536 max_bytes) invalid_wait
    >> (context a.session no_session >>= λ session. ok (
      record {
        attachment_id = some p.attachment_id;
        session = session;
        screen_token = [];
        expected_prompt = unwrap_or p.expected_prompt [];
        operation_id = unwrap_or p.operation_id drawn;
        command = p.command;
        mode = p.mode;
        wait_for = p.wait_for;
        timeout_ms = some timeout;
        settle_ms = none;
        prefer_native_log = p.prefer_native_log;
      },
      wait,
      max_bytes,
    ))

-- The session of an active stream.
unfoldable pub active_stream : Text → Registry → Result TerminalError Text
unfolding active
active_stream id r = context (lookup id r.jobs) unknown_stream >>= λ j.
    ensure (j.stream && active j.state) not_active >> ok j.session

-- `stream_write` up to its request: the input and whether Enter follows it.
module _ {ℓ} {Regex : Type ℓ} (regex : Text → Option Regex) (is_match : Regex → Text → Bool)
    (engine : PolicyEngine Regex) where
  unfoldable pub stream_write :
      Text
      → Text
      → Option Bool
      → Registry
      → Result Text (Unit {0})
      → Result TerminalError (Text × Text × Bool)
  unfolding raw_send_allowed len active_stream
  stream_write id text append_enter r audit =
      ensure (raw_send_allowed regex is_match engine) raw_disabled
      >> ensure (not (is_empty text) && leb (len text) 8192) invalid_input
      >> active_stream id r
      >> from_text audit
      >> ok (id, text, unwrap_or append_enter true)

-- `stream_close` sets the stop flag of the job, behind the audit record.
unfoldable pub stream_close :
    Text → Registry → Result Text (Unit {0}) → Registry × Result TerminalError (Unit {0})
unfolding active_stream with_job
stream_close id r audit = elim (active_stream id r >> from_text audit) [
  | err e ↦ (r, err e)
  | ok _ ↦ (with_job id set_stop r, ok tt)
]

-- `latency`: the times of the pings, sorted, and their percentiles. `values[i]` panics out of range.
abbrev pub insert_sorted : ℕ → List ℕ → List ℕ
insert_sorted a [] = a ∷ []
insert_sorted a (b ∷ bs) = let rest = insert_sorted a bs in if leb a b then a ∷ b ∷ bs else b ∷ rest

unfoldable pub sort : List ℕ → List ℕ
sort [] = []
sort (a ∷ times) = insert_sorted a (sort times)

pub record Percentiles : Type 0 where
  pub min_us : Option ℕ
  pub p50_us : Option ℕ
  pub p95_us : Option ℕ
  pub max_us : Option ℕ

unfoldable pub percentiles : List ℕ → Percentiles
unfolding sort
percentiles times =
    let values = sort times in
    let count = length values in
    record {
      min_us = get_elem? values 0;
      p50_us = get_elem? values (count / 2);
      p95_us = get_elem? values (min (count * 95 / 100) (count - 1));
      max_us = get_elem? values (count - 1);
    }

unfoldable pub latency : List ℕ → Result TerminalError Percentiles
unfolding percentiles
latency times = ensure (within 1 100 (length times)) invalid_samples >> ok (percentiles times)
