-- ===== src/Examples/Waits.antt =====
-- Waits, preparations, batches of the engine, latencies and pages of receipts.
use securecrt_mcp.Prelude.{
  ℕ, ◌+◌, ◌≡◌, refl, true, false, List, [], ◌∷◌, none, some, ok, is_some, ◌*◌,
}
use securecrt_mcp.Text.{
  Text, codes, eq_text, len, len_utf8, is_control, contains_text, to_ascii_lowercase, ends_with,
  trim_end, starts_with, is_whitespace, trim_end_matches,
}
use securecrt_mcp.Assoc.{lookup, contains_key}
use securecrt_mcp.Config.{default_bridge, within}
use securecrt_mcp.Execution.Job.{State, Job, active}
use securecrt_mcp.Execution.Params.{CaptureMode, ExecuteParams}
use securecrt_mcp.Execution.Registry
use securecrt_mcp.Execution.Registry.{Registry, new_job}
use securecrt_mcp.Execution.Waiting.{Look, answer, wait_loop, wait_turn, wait_result}
use securecrt_mcp.Execution.Waiting.Answers.{
  SomeOf, IsFirstPage, wait_result-output, wait_result_answers,
}
use securecrt_mcp.Execution.Prepare.{
  RunParams, Screen, submits, prepare, planned, existing, on_free, on_screen, expected, submission,
  shell_prompt_candidate, run_timeout, default_wait,
}
use securecrt_mcp.Execution.Prepare.Faithful.{IsPrepared, prepare-IsPrepared}
use securecrt_mcp.Execution.Terminal.{Percentiles, percentiles, latency, sort}
use securecrt_mcp.Execution.Terminal.Latency.{InOrder, latency-InOrder}
use securecrt_mcp.Connector.Buffer
use securecrt_mcp.Connector.Output.{
  command_page, page_within, IsPageOf, closed_buffer, command_page-page,
}
use securecrt_mcp.Examples.Values.{list_files}

-- A job that still runs, seen before and behind the deadline of a wait for one second.
abbrev running_job : Job
running_job = record (new_job 1 list_files (codes "a")) {
  state = State.running;
  sent = some true;
  output = 104 ∷ 105 ∷ [];
}

abbrev look_at : ℕ → Look
look_at time = record {
  registry = record { jobs = (codes "a", running_job) ∷ []; operations = []; busy = [] };
  now = time;
}

abbrev looks : List Look
looks = look_at 10 ∷ look_at 2000000 ∷ []

wait_result_answers_example : is_some (wait_result (codes "a") 1000 4 0 looks) ≡ true
wait_result_answers_example = wait_result_answers (codes "a") 1000 4 0 looks refl

late_answer : wait_result (codes "a") 1000 4 0 looks ≡ some (ok (answer 2000000 4 running_job))
unfolding wait_result wait_loop wait_turn lookup eq_text active
late_answer = refl

wait_result-output_example :
    SomeOf (IsFirstPage (codes "a") 4 (0 + 1000 * 1000) (answer 2000000 4 running_job)) looks
wait_result-output_example =
    wait_result-output (codes "a") 1000 4 0 looks (answer 2000000 4 running_job) late_answer

-- A request on a screen that shows the prompt of a shell.
abbrev request : RunParams
request = record {
  session = codes "s";
  command = codes "ls";
  mode = CaptureMode.posix;
  operation_id = none;
  expected_prompt = none;
  wait_for = none;
  timeout_ms = none;
  wait_ms = none;
  max_bytes = none;
  settle_ms = none;
  prefer_native_log = none;
}

abbrev shell_screen : Screen
shell_screen = record { current_line = some (117 ∷ 36 ∷ 32 ∷ []); screen_token = some (116 ∷ []) }

abbrev prepared : ExecuteParams
prepared = submission default_bridge request (111 ∷ []) (116 ∷ []) (117 ∷ 36 ∷ [])

request-prepared :
    prepare default_bridge request
      (111 ∷ [])
      (102 ∷ [])
      true
      Registry.empty
      (ok false)
      (ok shell_screen)
    ≡ ok (submits prepared)
unfolding prepare planned existing on_free on_screen expected submission shell_prompt_candidate
    run_timeout default_wait default_bridge Registry.empty lookup contains_key len len_utf8
    is_control contains_text starts_with to_ascii_lowercase ends_with eq_text trim_end
    trim_end_matches is_whitespace
request-prepared = refl

prepare-IsPrepared_example :
    (lookup (111 ∷ []) Registry.empty.operations ≡ none)
    × (contains_key (codes "s") Registry.empty.busy ≡ false)
    × (true ≡ true)
    × (within 1000 default_bridge.max_command_timeout_ms (run_timeout default_bridge request)
        ≡ true)
    × IsPrepared default_bridge request (111 ∷ []) (ok false) (ok shell_screen) prepared
prepare-IsPrepared_example =
    prepare-IsPrepared default_bridge request (111 ∷ []) (102 ∷ []) true Registry.empty (ok false)
      (ok shell_screen) prepared request-prepared

abbrev times : List ℕ
times = 30 ∷ 10 ∷ 20 ∷ []

abbrev times_ranked : Percentiles
times_ranked = record { min_us = some 10; p50_us = some 20; p95_us = some 30; max_us = some 30 }

times_measured : latency times ≡ ok times_ranked
unfolding latency percentiles sort
times_measured = refl

latency-InOrder_example : InOrder times_ranked
latency-InOrder_example = latency-InOrder times times_ranked times_measured

-- The second page of an output of five bytes.
abbrev five : Text
five = 1 ∷ 2 ∷ 3 ∷ 4 ∷ 5 ∷ []

five_page : command_page 0 five 4 4 ≡ ok (page_within 0 five 4 4)
unfolding command_page
five_page = refl

command_page-page_example :
    IsPageOf (page_within 0 five 4 4) (Buffer.page (closed_buffer 0 five) 4 4)
command_page-page_example = command_page-page 0 five 4 4 (page_within 0 five 4 4) five_page
