-- ===== src/Fault.antt =====
-- src/fault.rs: the classification of error messages, the advice given for each class, and the
-- report of an error with its evidence of delivery.
use securecrt_mcp.Prelude.{Bool, false, not, ◌||◌, Option, none, some, if◌then◌else◌}
use securecrt_mcp.Text.{Text, codes, contains_text, to_ascii_lowercase}

-- The strings that `code` returns.
pub data ErrorCode : Type 0 where
  stale_screen stale_attachment ownership_conflict unstable_screen stale_session : ErrorCode
  context_changed input_context_required operation_conflict busy_unresolved : ErrorCode
  audit_unavailable custom_deny_rule builtin_guardrail bridge_incompatible : ErrorCode
  command_not_found invalid_parameters policy_rejected expired_request bridge_error : ErrorCode

unfoldable pub code : Text → ErrorCode
unfolding contains_text to_ascii_lowercase
code message =
    let lower = to_ascii_lowercase message in
    if contains_text lower (codes "stale_screen")
    then stale_screen
    else if contains_text lower (codes "stale_attachment")
    then stale_attachment
    else if contains_text lower (codes "ownership_conflict")
    then ownership_conflict
    else if contains_text lower (codes "unstable_screen")
    then unstable_screen
    else if contains_text lower (codes "stale_session")
    then stale_session
    else if contains_text lower (codes "context_changed")
    then context_changed
    else if contains_text lower (codes "input_context_required")
        || contains_text lower (codes "prompt_mismatch")
    then input_context_required
    else if contains_text lower (codes "operation_id conflict")
        || contains_text lower (codes "operation_conflict")
    then operation_conflict
    else if contains_text lower (codes "busy") || contains_text lower (codes "unresolved")
    then busy_unresolved
    else if contains_text lower (codes "audit")
    then audit_unavailable
    else if contains_text lower (codes "custom_deny_rule")
    then custom_deny_rule
    else if contains_text lower (codes "builtin_guardrail")
    then builtin_guardrail
    else if contains_text lower (codes "protocol") || contains_text lower (codes "upgrade")
    then bridge_incompatible
    else if contains_text lower (codes "expired command")
        || contains_text lower (codes "output expired")
        || contains_text lower (codes "unknown command_id")
    then command_not_found
    else if contains_text lower (codes "invalid")
        || contains_text lower (codes "requires")
        || contains_text lower (codes "must be")
        || contains_text lower (codes "limit")
    then invalid_parameters
    else if contains_text lower (codes "not in the finite")
        || contains_text lower (codes "observe mode")
    then policy_rejected
    else if contains_text lower (codes "stale") || contains_text lower (codes "expired")
    then expired_request
    else bridge_error

-- The sentences that `action` returns, named by what they ask for.
pub data Advice : Type 0 where
  read_screen_again list_sessions_again open_fresh_attachment inspect_owner wait_for_rendering :
      Advice
  wait_for_original_prompt confirm_idle_shell inspect_bridge_status retrieve_original : Advice
  repair_audit_path check_policy run_upgrade job_not_retained correct_parameters : Advice
  inspect_never_replay : Advice

unfoldable pub action : ErrorCode → Advice
action stale_screen = read_screen_again
action stale_session = list_sessions_again
action stale_attachment = open_fresh_attachment
action ownership_conflict = inspect_owner
action unstable_screen = wait_for_rendering
action context_changed = wait_for_original_prompt
action input_context_required = confirm_idle_shell
action busy_unresolved = inspect_bridge_status
action operation_conflict = retrieve_original
action audit_unavailable = repair_audit_path
action custom_deny_rule = check_policy
action builtin_guardrail = check_policy
action policy_rejected = check_policy
action bridge_incompatible = run_upgrade
action command_not_found = job_not_retained
action invalid_parameters = correct_parameters
action _ = inspect_never_replay

-- An error value: a `BridgeFault` with its evidence of delivery, or any other error.
pub data Error : Type 0 where
  bridge_fault : Text → Option Bool → Error
  other : Text → Error

abbrev pub message_of : Error → Text
message_of (bridge_fault m _) = m
message_of (other m) = m

-- `downcast_ref::<BridgeFault>().map_or(Some(false), |e| e.sent)`.
unfoldable pub sent_of : Error → Option Bool
sent_of (bridge_fault _ sent) = sent
sent_of (other _) = some false

-- `sent == Some(false)`.
unfoldable pub is_unsent : Option Bool → Bool
is_unsent none = false
is_unsent (some sent) = not sent

pub data Delivery : Type 0 where
  rejected unknown : Delivery

pub record Details : Type 0 where
  pub state : Delivery
  pub sent : Option Bool
  pub error_code : ErrorCode
  pub message : Text
  pub advice : Advice
  pub automatic_retry : Bool
  pub remote_termination_confirmed : Bool
  pub requires_idle_ack : Bool

unfoldable pub details : Error → Details
unfolding sent_of is_unsent
details error =
    let message = message_of error in
    let sent = sent_of error in
    let error_code = code message in
    record {
      state = if is_unsent sent then rejected else unknown;
      sent = sent;
      error_code = error_code;
      message = message;
      advice = action error_code;
      automatic_retry = false;
      remote_termination_confirmed = false;
      requires_idle_ack = not (is_unsent sent);
    }
