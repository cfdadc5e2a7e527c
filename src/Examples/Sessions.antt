-- ===== src/Examples/Sessions.antt =====
-- Runs of the execution system.
use securecrt_mcp.Prelude.{
  ◌≤◌, ◌≡◌, refl, true, false, List, [], ◌∷◌, none, some, All, ok, err, ◌≢◌,
}
use securecrt_mcp.Text.{Text, codes, eq_text, contains}
use securecrt_mcp.Assoc.{lookup, insert, remove, modify, retain, size, contains_key}
use securecrt_mcp.Text.{contains_text}
use securecrt_mcp.Config.{
  default_bridge, default_policy, default_audit, validate, validate_bridge, validate_audit,
  saturating_mul,
}
use securecrt_mcp.Fault.{other}
use securecrt_mcp.Execution.Job.{Job}
use securecrt_mcp.Execution.Registry.{ack_check, no_such_job}
use securecrt_mcp.Execution.Registry.Sweep.{Swept, sweep-Swept}
use securecrt_mcp.Execution.Registry.Ledger.{retained_output}
use securecrt_mcp.Execution.System.{Event}
use securecrt_mcp.Execution.System.Soundness.{NoRepeat}
use securecrt_mcp.Execution.System.Theorems.{
  no_operation_sent_twice, one_open_job_per_session, acknowledge_never_panics,
}
use securecrt_mcp.Execution.System.Memory.{registry_stays_bounded}
use securecrt_mcp.Execution.System.Evidence.{IsSettled, is_busy_error, failed_dispatch_settles}
use securecrt_mcp.Execution.Params.{ExecuteParams}
use securecrt_mcp.Execution.Guarded.{by_engine, verdict, sent_commands-Passed}
use securecrt_mcp.Policy.Decisions.{Passed}
use securecrt_mcp.Prelude.{is_ok}
use securecrt_mcp.Policy.{
  new, compile, modes, classify_command, classify_trimmed, position, guardrail, after_guardrail,
  by_mode, is_allowed, is_client,
}
use securecrt_mcp.Critical.{
  is_critical, check, critical_words, segments, lex, lex_char, lex_plain, finish_lexer, push_word,
  push_segment, is_separator, strip_assignments, strip_wrappers, is_wrapper, is_option, takes_value,
  base_name, dangerous, runs_script, is_catastrophic, script_argument, has_pair, last,
  target_directory,
}
use securecrt_mcp.Text.{
  to_ascii_lowercase, len, len_utf8, trim, is_control, is_whitespace, trim_start_matches,
  trim_end_matches, starts_with, after_last, after_last_from, has_char,
}
use securecrt_mcp.Assoc.{IsDistinct}
use securecrt_mcp.Execution.Registry
use securecrt_mcp.Execution.Registry.{Registry, Admission}
use securecrt_mcp.Execution.Registry.{
  reserve, admit, enter, sweep, evict, replay, finish, finish_job, with_job, is_closed,
  is_busy_with, new_job, is_retained,
}
use securecrt_mcp.Execution.System.{
  initial, run, step, start, on_audit, on_begin, on_capture, on_end, after_audit, begin_result,
  after_begin, Verdict, AllFresh,
}
use securecrt_mcp.Examples.Values.{
  sample_events, list_files, sample_config, client_engine, plain_regex,
}

abbrev allow_all : Text → Verdict
allow_all command = record { allow = true; reason = [] }

sample_fresh : AllFresh default_bridge allow_all initial sample_events
unfolding initial Registry.empty step start on_audit on_begin on_capture on_end after_audit
    begin_result after_begin reserve admit enter sweep evict replay finish finish_job with_job
    is_closed is_busy_with new_job is_retained lookup insert remove modify retain size contains_key
    eq_text default_bridge
sample_fresh = (refl, (tt, (tt, (tt, (tt, (refl, tt))))))

abbrev ends_at : Registry
ends_at = (run default_bridge allow_all initial sample_events).registry

no_operation_sent_twice_example : NoRepeat (run default_bridge allow_all initial sample_events).sent
no_operation_sent_twice_example =
    no_operation_sent_twice default_bridge allow_all sample_events sample_fresh

-- The job that the sample leaves behind, and a run in which it is still open.
abbrev open_events : List Event
open_events =
    Event.submit list_files (codes "f") (codes "a") 1 ∷ Event.audited (codes "a") 2 (ok tt) 3 ∷ []

open_fresh : AllFresh default_bridge allow_all initial open_events
unfolding initial Registry.empty step start on_audit on_begin on_capture on_end after_audit
    begin_result after_begin reserve admit enter sweep evict replay finish finish_job with_job
    is_closed is_busy_with new_job is_retained lookup insert remove modify retain size contains_key
    eq_text default_bridge
open_fresh = (refl, (tt, tt))

abbrev dispatched : Job
dispatched = record (record (new_job 1 list_files (codes "a")) { audit_dispatch_us = 2 }) {
  sent = none;
}

open_lookup :
    lookup (codes "a") (run default_bridge allow_all initial open_events).registry.jobs
    ≡ some dispatched
unfolding run initial Registry.empty step start on_audit on_begin on_capture on_end after_audit
    begin_result after_begin reserve admit enter sweep evict replay finish finish_job with_job
    is_closed is_busy_with new_job is_retained lookup insert remove modify retain size contains_key
    eq_text default_bridge
open_lookup = refl

open_is_open : is_closed dispatched ≡ false
unfolding is_closed new_job
open_is_open = refl

one_open_job_per_session_example : codes "a" ≡ codes "a"
one_open_job_per_session_example =
    one_open_job_per_session default_bridge allow_all open_events (codes "a") (codes "a") dispatched
      dispatched open_fresh open_lookup open_lookup refl open_is_open open_is_open

acknowledge_never_panics_example :
    ack_check (codes "s") (run default_bridge allow_all initial open_events).registry
    ≢ err no_such_job
acknowledge_never_panics_example =
    acknowledge_never_panics default_bridge allow_all open_events (codes "s") open_fresh

valid_config : validate (λ p. is_ok (new plain_regex contains_text p)) sample_config ≡ ok tt
unfolding validate validate_bridge default_bridge default_policy default_audit eq_text contains
    saturating_mul validate_audit new compile modes to_ascii_lowercase
valid_config = refl

registry_stays_bounded_example :
    (size (run default_bridge allow_all initial sample_events).registry.jobs ≤ 128)
    × (size (run default_bridge allow_all initial sample_events).registry.operations ≤ 4096)
    × (retained_output (run default_bridge allow_all initial sample_events).registry.jobs
        ≤ 134217728)
registry_stays_bounded_example =
    registry_stays_bounded (λ p. is_ok (new plain_regex contains_text p)) sample_config allow_all
      sample_events valid_config

open_busy :
    lookup (codes "s") (run default_bridge allow_all initial open_events).registry.busy
    ≡ some (codes "a")
unfolding run initial Registry.empty step start on_audit on_begin on_capture on_end after_audit
    begin_result after_begin reserve admit enter sweep evict replay finish finish_job with_job
    is_closed is_busy_with new_job is_retained lookup insert remove modify retain size contains_key
    eq_text default_bridge
open_busy = refl

abbrev in_doubt : Registry
in_doubt =
    (after_begin (codes "a") (begin_result (err (other (codes "timeout")))) 9
      (run default_bridge allow_all initial open_events)).registry

abbrev another : ExecuteParams
another = record list_files { operation_id = codes "other" }

another_new :
    lookup (codes "other") (run default_bridge allow_all initial open_events).registry.operations
    ≡ none
unfolding run initial Registry.empty step start on_audit on_begin on_capture on_end after_audit
    begin_result after_begin reserve admit enter sweep evict replay finish finish_job with_job
    is_closed is_busy_with new_job is_retained lookup insert remove modify retain size contains_key
    eq_text default_bridge
another_new = refl

failed_dispatch_settles_example :
    ((k : Job) × (lookup (codes "a") in_doubt.jobs ≡ some k) × IsSettled false k)
    × (is_busy_error (reserve default_bridge 12 another (codes "g") (codes "b") in_doubt).1 ≡ true)
unfolding new_job begin_result
failed_dispatch_settles_example =
    failed_dispatch_settles (run default_bridge allow_all initial open_events) (codes "a") 9
      dispatched default_bridge 12 another (codes "g") (codes "b") open_lookup open_is_open
      open_busy refl another_new (err (other (codes "timeout"))) refl

open-IsDistinct : IsDistinct (run default_bridge allow_all initial open_events).registry.jobs
unfolding run initial Registry.empty step start on_audit on_begin on_capture on_end after_audit
    begin_result after_begin reserve admit enter sweep evict replay finish finish_job with_job
    is_closed is_busy_with new_job is_retained lookup insert remove modify retain size contains_key
    eq_text default_bridge
open-IsDistinct = (refl, tt)

sweep-Swept_example :
    Swept
      (run default_bridge allow_all initial open_events).registry.jobs
      (sweep default_bridge 9 (run default_bridge allow_all initial open_events).registry).jobs
sweep-Swept_example =
    sweep-Swept default_bridge 9 (run default_bridge allow_all initial open_events).registry
      open-IsDistinct

engine_fresh :
    AllFresh default_bridge
      (by_engine default_bridge plain_regex contains_text client_engine)
      initial
      sample_events
unfolding initial Registry.empty step start on_audit on_begin on_capture on_end after_audit
    begin_result after_begin reserve admit enter sweep evict replay finish finish_job with_job
    is_closed is_busy_with new_job is_retained lookup insert remove modify retain size contains_key
    eq_text default_bridge run verdict classify_command classify_trimmed position guardrail
    after_guardrail by_mode is_allowed is_client len len_utf8 trim is_control is_whitespace
    trim_start_matches trim_end_matches contains_text starts_with is_critical check critical_words
    segments lex lex_char lex_plain finish_lexer push_word push_segment is_separator
    strip_assignments strip_wrappers is_wrapper is_option takes_value base_name after_last
    after_last_from has_char dangerous runs_script is_catastrophic contains script_argument has_pair
    last target_directory
engine_fresh = (refl, (tt, (tt, (tt, (tt, (refl, tt))))))

sent_commands-Passed_example :
    All
      (λ entry. Passed plain_regex contains_text client_engine entry.1)
      (run default_bridge
        (by_engine default_bridge plain_regex contains_text client_engine)
        initial
        sample_events).sent
sent_commands-Passed_example =
    sent_commands-Passed default_bridge plain_regex contains_text client_engine sample_events
      engine_fresh
