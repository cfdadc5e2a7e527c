-- ===== src/Examples/Values.antt =====
-- The values that the examples share.
use securecrt_mcp.Prelude.{true, false, List, [], ◌∷◌, Option, none, some, ok}
use securecrt_mcp.Text.{Text, codes}
use securecrt_mcp.Config.{Config, default_bridge, default_policy, default_audit}
use securecrt_mcp.Policy.{PolicyEngine}
use securecrt_mcp.Execution.Params.{ExecuteParams, CaptureMode}
use securecrt_mcp.Execution.Note
use securecrt_mcp.Execution.System
use securecrt_mcp.Execution.System.{Event}

abbrev pub sample_config : Config
sample_config = record { bridge = default_bridge; policy = default_policy; audit = default_audit }

-- Patterns of plain text, each of which matches the commands that contain it.
abbrev pub plain_regex : Text → Option Text
plain_regex p = some p

abbrev pub client_engine : PolicyEngine Text
client_engine = record {
  mode = codes "client";
  raw = false;
  interrupt = true;
  allow = [];
  deny = codes "secret" ∷ [];
}

abbrev pub safe_engine : PolicyEngine Text
safe_engine = record { mode = codes "safe"; raw = false; interrupt = true; allow = []; deny = [] }

abbrev pub sample_params : Text → Text → ExecuteParams
sample_params operation command = record {
  attachment_id = none;
  session = codes "s";
  screen_token = codes "t";
  expected_prompt = codes "$";
  operation_id = operation;
  command = command;
  mode = CaptureMode.posix;
  wait_for = none;
  timeout_ms = none;
  settle_ms = none;
  prefer_native_log = none;
}

abbrev pub list_files : ExecuteParams
list_files = sample_params (codes "o") (codes "ls")

-- A command that runs to its end, and a second on the same session with the same operation, which is
-- answered with the first; then one whose dispatch fails, which is acknowledged.
abbrev pub sample_events : List Event
sample_events =
    Event.submit list_files (codes "f") (codes "a") 1
    ∷ Event.audited (codes "a") 2 (ok tt) 3
    ∷ Event.began (codes "a") (ok (some true)) 4
    ∷ Event.captured (codes "a") (Note.appended (codes "x")) 5
    ∷ Event.ended (codes "a") (System.completed (some 0) true) (codes "done") 6
    ∷ Event.submit list_files (codes "f") (codes "b") 7
    ∷ []
