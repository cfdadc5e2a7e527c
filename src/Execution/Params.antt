-- ===== src/Execution/Params.antt =====
-- src/model.rs: the parameters of the commands, and the bounds that `submit_internal` of
-- src/execution.rs checks on them.
use securecrt_mcp.Prelude.{
  ℕ, min, Bool, true, false, not, ◌&&◌, ◌||◌, [], leb, ◌==◌, if◌then◌else◌, Option, Result, ok,
  ◌>>◌, ensure, is_some, unwrap_or, is_empty, all, any,
}
use securecrt_mcp.Text.{Text, len, trim, is_control, is_ascii_alphanumeric}
use securecrt_mcp.Config.{BridgeConfig, within}

pub data CaptureMode : Type 0 where
  snapshot prompt posix stream : CaptureMode

abbrev pub is_posix : CaptureMode → Bool
is_posix posix = true
is_posix _ = false

abbrev pub is_prompt : CaptureMode → Bool
is_prompt prompt = true
is_prompt _ = false

abbrev pub is_stream : CaptureMode → Bool
is_stream stream = true
is_stream _ = false

abbrev pub is_snapshot : CaptureMode → Bool
is_snapshot snapshot = true
is_snapshot _ = false

pub record ExecuteParams : Type 0 where
  pub attachment_id : Option Text
  pub session : Text
  pub screen_token : Text
  pub expected_prompt : Text
  pub operation_id : Text
  pub command : Text
  pub mode : CaptureMode
  pub wait_for : Option Text
  pub timeout_ms : Option ℕ
  pub settle_ms : Option ℕ
  pub prefer_native_log : Option Bool

pub data SubmitError : Type 0 where
  invalid_operation_id invalid_timeout invalid_settle invalid_prompt missing_wait_for : SubmitError
  operation_conflict output_expired busy_unresolved cache_full ledger_full : SubmitError

-- The identifiers: ASCII letters, digits and three punctuation marks, 1 to `limit` bytes.
unfoldable pub is_identifier : ℕ → Text → Bool
unfolding len is_ascii_alphanumeric
is_identifier limit id =
    not (is_empty id)
    && leb (len id) limit
    && all (λ c. is_ascii_alphanumeric c || c == b'-' || c == b'_' || c == b'.') id

unfoldable pub is_literal_line : Text → Bool
unfolding len trim is_control
is_literal_line s = not (is_empty (trim s)) && leb (len s) 512 && not (any is_control s)

-- The checks of `submit_internal` before it takes the registry's lock, in their order. The result is
-- the capture's time and its settling time, in milliseconds.
unfoldable pub validate_submit : BridgeConfig → Bool → ExecuteParams → Result SubmitError (ℕ × ℕ)
unfolding is_identifier is_literal_line
validate_submit config fast p =
    let timeout = unwrap_or p.timeout_ms 5000 in
    let settle = unwrap_or p.settle_ms 750 in
    let longest =
      if is_stream p.mode then config.max_stream_timeout_ms else config.max_command_timeout_ms in
    let prepared =
      fast && is_empty p.screen_token && (is_posix p.mode || is_some p.attachment_id) in
    do
      ensure (is_identifier 128 p.operation_id) invalid_operation_id
      ensure (within 1000 longest timeout) invalid_timeout
      ensure (within 25 (min timeout 10000) settle) invalid_settle
      ensure (prepared || is_literal_line p.expected_prompt) invalid_prompt
      ensure (not (is_prompt p.mode) || is_literal_line (unwrap_or p.wait_for [])) missing_wait_for
      ok (timeout, settle)
