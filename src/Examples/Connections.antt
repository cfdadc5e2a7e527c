-- ===== src/Examples/Connections.antt =====
-- Commands on concrete sessions of OpenSSH.
use securecrt_mcp.Prelude.{◌≤◌, ◌≡◌, refl, true, false, not, [], ◌∷◌, arith, some, All, all}
use securecrt_mcp.Prelude.{length, ok, err, is_empty, none, List}
use securecrt_mcp.Assoc.{Assoc, lookup, insert, size}
use securecrt_mcp.Fault.{other}
use securecrt_mcp.Text.{is_ascii_alphanumeric}
use securecrt_mcp.Execution.Params.{is_identifier}
use securecrt_mcp.Execution.Terminal.{Attachment, attachment_value}
use securecrt_mcp.Execution.Batches.{
  BatchResult, exec_batch, check_exec_batch, enter_batch, preflight_all, preflight, total_len,
  run_task, batch_status, initial_value,
}
use securecrt_mcp.Execution.Batches.Task.{recorded, exec_batch-recorded}
use securecrt_mcp.Text.{
  Text, codes, eq_text, strip_prefix, trim_end_matches, len, len_utf8, trim, is_control,
  is_whitespace, trim_start_matches, contains_text, starts_with, after_last, after_last_from,
  has_char, contains,
}
use securecrt_mcp.Execution.Marker.{digits, digits_from}
use securecrt_mcp.Connector.Exec.{
  max_output, is_line_end, exit_of, parse_i32, nonnegative, ends_line, completed, exited, timed_out,
  Delivery, answered, write_failed, run_exec,
}
use securecrt_mcp.Connector.Batch.{
  Answer, run_batch, stopped, run_batch_lem, check_batch, check_commands, validate_command,
  ensure_allowed, check_batch-Passed,
}
use securecrt_mcp.Policy.{
  classify_command, classify_trimmed, position, guardrail, after_guardrail, by_mode, is_allowed,
  is_client,
}
use securecrt_mcp.Policy.Decisions.{Passed}
use securecrt_mcp.Critical.{
  is_critical, check, critical_words, segments, lex, lex_char, lex_plain, finish_lexer, push_word,
  push_segment, is_separator, strip_assignments, strip_wrappers, is_wrapper, is_option, takes_value,
  base_name, dangerous, runs_script, is_catastrophic, script_argument, has_pair, last,
  target_directory,
}
use securecrt_mcp.Examples.Values.{plain_regex, client_engine}
use securecrt_mcp.Connector.Exec.Interlock.{
  SessionRequest, command, acknowledges, run_all, StopsAtDoubt, run_all-StopsAtDoubt,
}
use securecrt_mcp.Connector.Exec.Readback.{IsBody, run_exec-transcript}

abbrev late : Delivery
late = answered (codes "\n" ∷ codes "B\n" ∷ codes "x\n" ∷ []) (timed_out (codes "y"))

-- A command that times out, one that is held back, and one behind an acknowledgement.
abbrev doubtful : List SessionRequest
doubtful =
    command (codes "B") (codes "E") late
    ∷ command (codes "C") (codes "F") write_failed
    ∷ acknowledges
    ∷ command (codes "C") (codes "F") write_failed
    ∷ []

run_all-StopsAtDoubt_example : StopsAtDoubt (run_all false doubtful)
run_all-StopsAtDoubt_example = run_all-StopsAtDoubt false doubtful

hi_bodies : All (IsBody (codes "B") (codes "E")) (codes "hi\n" ∷ [])
unfolding eq_text trim_end_matches exit_of strip_prefix
hi_bodies = ((refl, refl, refl), tt)

zero_parses : parse_i32 (codes "0") ≡ some (nonnegative 0)
unfolding parse_i32 digits digits_from
zero_parses = refl

run_exec-transcript_example :
    run_exec
      (codes "B")
      (codes "E")
      false
      (answered (codes "\n" ∷ codes "B\n" ∷ codes "hi\n" ∷ codes "E 0\n" ∷ []) exited)
    ≡ (
      record {
        state = completed;
        sent = some true;
        output = codes "hi";
        exit_code = some (nonnegative 0);
        truncated = false;
      },
      false,
    )
run_exec-transcript_example =
    run_exec-transcript (codes "B") (codes "E") (codes "0") (nonnegative 0)
      (all_plain (codes "B") refl) (all_plain (codes "E 0") refl) refl (unfold eq_text in refl)
      zero_parses (codes "hi") (codes "hi\n" ∷ []) exited refl hi_bodies (unfold ends_line in refl)
      (unfold max_output in omega arith)
  where
    all_plain :
        (s : Text) → all (λ c. not (is_line_end c)) s ≡ true → All (λ c. is_line_end c ≡ false) s
    all_plain [] h = tt
    all_plain (c ∷ s) h = (ground arith, all_plain s (ground arith))

abbrev good_answer : Answer
good_answer = ok (record { state = completed; exit_code = some (nonnegative 0) })

abbrev failed_answer : Answer
failed_answer = ok (record { state = completed; exit_code = some (nonnegative 1) })

run_batch_lem_example :
    ((run_batch true (good_answer ∷ failed_answer ∷ good_answer ∷ [])).0
      ≡ good_answer ∷ failed_answer ∷ [])
    × ((run_batch true (good_answer ∷ failed_answer ∷ good_answer ∷ [])).1 ≡ stopped)
run_batch_lem_example = run_batch_lem true (good_answer ∷ failed_answer ∷ good_answer ∷ [])

pwd_checks :
    check_batch plain_regex contains_text client_engine (codes "pwd" ∷ []) (codes "stop") ≡ ok tt
unfolding check_batch check_commands validate_command ensure_allowed classify_command
    classify_trimmed position guardrail after_guardrail by_mode is_allowed is_client len len_utf8
    trim is_control is_whitespace trim_start_matches trim_end_matches contains_text starts_with
    is_critical check critical_words segments lex lex_char lex_plain finish_lexer push_word
    push_segment is_separator strip_assignments strip_wrappers is_wrapper is_option takes_value
    base_name after_last after_last_from has_char dangerous runs_script is_catastrophic contains
    script_argument has_pair last target_directory eq_text
pwd_checks = refl

check_batch-Passed_example :
    (is_empty (codes "pwd" ∷ []) ≡ false)
    × (length (codes "pwd" ∷ []) ≤ 20)
    × All (Passed plain_regex contains_text client_engine) (codes "pwd" ∷ [])
check_batch-Passed_example =
    check_batch-Passed plain_regex contains_text client_engine (codes "pwd" ∷ []) (codes "stop")
      pwd_checks

-- A batch of one command on a terminal that is attached.
abbrev attached : Assoc Attachment
attached = (97 ∷ [], record { session = some (codes "s"); mode = some (codes "shared") }) ∷ []

pwd_batch :
    exec_batch plain_regex contains_text client_engine
      (codes "pwd" ∷ [])
      none
      (97 ∷ [])
      (98 ∷ [])
      (104 ∷ [])
      attached
      []
    ≡ ((98 ∷ [], (104 ∷ [], initial_value)) ∷ [], ok none)
unfolding exec_batch check_exec_batch enter_batch preflight_all preflight total_len attachment_value
    is_identifier is_ascii_alphanumeric lookup insert size classify_command classify_trimmed
    position guardrail after_guardrail by_mode is_allowed is_client len len_utf8 trim is_control
    is_whitespace trim_start_matches trim_end_matches contains_text starts_with is_critical check
    critical_words segments lex lex_char lex_plain finish_lexer push_word push_segment is_separator
    strip_assignments strip_wrappers is_wrapper is_option takes_value base_name after_last
    after_last_from has_char dangerous runs_script is_catastrophic contains script_argument has_pair
    last target_directory eq_text
pwd_batch = refl

abbrev pwd_results : List BatchResult
pwd_results = err (other (codes "lost")) ∷ []

exec_batch-recorded_example :
    All (Passed plain_regex contains_text client_engine) (codes "pwd" ∷ [])
    × (batch_status
          (98 ∷ [])
          (run_task none (98 ∷ []) pwd_results ((98 ∷ [], (104 ∷ [], initial_value)) ∷ []))
        ≡ ok (recorded false [] pwd_results))
exec_batch-recorded_example =
    exec_batch-recorded plain_regex contains_text client_engine (codes "pwd" ∷ []) none (97 ∷ [])
      (98 ∷ []) (104 ∷ []) attached [] ((98 ∷ [], (104 ∷ [], initial_value)) ∷ []) pwd_results
      pwd_batch
