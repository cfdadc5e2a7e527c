-- ===== src/Examples/Commands.antt =====
-- Decisions on concrete commands.
use securecrt_mcp.Prelude.{◌≡◌, refl, true, false, all}
use securecrt_mcp.Prelude.{all→All}
use securecrt_mcp.Text.{
  codes, eq_text, contains, contains_text, starts_with, trim_end_matches, split, has_char, trim,
  trim_start_matches, is_whitespace, is_control, is_ascii_whitespace, is_ascii_alphanumeric, len,
  len_utf8, after_last, after_last_from, split_ascii_whitespace,
}
use securecrt_mcp.Text.Words.{or_blank}
use securecrt_mcp.Text.{to_ascii_lowercase}
use securecrt_mcp.Fault.{ErrorCode, code}
use securecrt_mcp.Policy.{Reason}
use securecrt_mcp.Execution.Guarded.{reason_text}
use securecrt_mcp.Critical.{
  protected, protected_normal, normalized, resolve, push_part, absolute, join_reversed, is_critical,
  check, critical_words, segments, lex, lex_char, lex_plain, finish_lexer, push_word, push_segment,
  is_separator, strip_assignments, strip_wrappers, is_wrapper, is_option, takes_value, base_name,
  dangerous, runs_script, is_catastrophic, script_argument, has_pair, last, target_directory,
}
use securecrt_mcp.Critical.Guarded.{is_plain, is_critical-rm}
use securecrt_mcp.Critical.Paths.{normalized-detour, IsPart}
use securecrt_mcp.Policy.{
  hard_deny, classify_command, classify_trimmed, position, guardrail, after_guardrail, by_mode,
  is_allowed, is_client, Decision, decided,
}
use securecrt_mcp.Policy.Grammar.{
  is_literal_char, literal, options, ip_ok, systemctl_ok, docker_ok, kubectl_ok, asks_too_much,
  parse_u32, digits_value, safe_command,
}
use securecrt_mcp.Policy.Decisions.{Passed, allowed-Passed, safe_mode-alphabet}
use securecrt_mcp.Policy.Exact.{is_allow, permits, classify_command-permits}
use securecrt_mcp.Examples.Values.{plain_regex, client_engine, safe_engine}

roundabout_plain : all is_plain (codes "/srv/../etc") ≡ true
unfolding is_plain is_whitespace is_separator
roundabout_plain = refl

is_critical-rm_example : is_critical (codes "rm -rf /srv/../etc") ≡ true
unfolding protected protected_normal normalized resolve push_part absolute join_reversed split
    starts_with trim_end_matches contains eq_text
is_critical-rm_example =
    is_critical-rm (codes "/srv/../etc") (all→All is_plain (codes "/srv/../etc") roundabout_plain)
      refl

nested_script : check 2 (codes "sh -c reboot") ≡ true
unfolding check critical_words segments lex lex_char lex_plain finish_lexer push_word push_segment
    is_separator is_whitespace strip_assignments strip_wrappers is_wrapper is_option takes_value
    base_name after_last after_last_from has_char dangerous runs_script is_catastrophic contains
    script_argument has_pair last target_directory eq_text starts_with
nested_script = refl

srv-IsPart : IsPart (codes "srv")
unfolding has_char eq_text
srv-IsPart = (refl, refl, refl, refl)

normalized-detour_example : normalized (codes "/x/srv/../etc") ≡ normalized (codes "/x/etc")
normalized-detour_example =
    normalized-detour (codes "/x") (codes "srv") (codes "etc") (unfold starts_with in refl)
      srv-IsPart

tail_safe : safe_command (codes "tail -n 20 /var/log/x") ≡ true
unfolding safe_command split_ascii_whitespace contains options literal asks_too_much parse_u32
    digits_value is_literal_char is_ascii_alphanumeric has_char starts_with ip_ok systemctl_ok
    docker_ok kubectl_ok eq_text is_ascii_whitespace
tail_safe = refl

-- A number of lines beyond 32 bits passes the bound of 5000.
tail_unbounded : safe_command (codes "tail -n 5000000000 /var/log/x") ≡ true
unfolding safe_command split_ascii_whitespace contains options literal asks_too_much parse_u32
    digits_value is_literal_char is_ascii_alphanumeric has_char starts_with ip_ok systemctl_ok
    docker_ok kubectl_ok eq_text is_ascii_whitespace
tail_unbounded = refl

tail_bounded : safe_command (codes "tail -n 5001 /var/log/x") ≡ false
unfolding safe_command split_ascii_whitespace contains options literal asks_too_much parse_u32
    digits_value is_literal_char is_ascii_alphanumeric has_char starts_with ip_ok systemctl_ok
    docker_ok kubectl_ok eq_text is_ascii_whitespace
tail_bounded = refl

client_allows :
    classify_command plain_regex contains_text client_engine (codes "ls") ≡ decided Decision.allow
unfolding classify_command classify_trimmed position guardrail after_guardrail by_mode is_allowed
    is_client len len_utf8 trim is_control is_whitespace trim_start_matches trim_end_matches
    contains_text starts_with is_critical check critical_words segments lex lex_char lex_plain
    finish_lexer push_word push_segment is_separator strip_assignments strip_wrappers is_wrapper
    is_option takes_value base_name after_last after_last_from has_char dangerous runs_script
    is_catastrophic contains script_argument has_pair last target_directory eq_text
client_allows = refl

allowed-Passed_example : Passed plain_regex contains_text client_engine (codes "ls")
allowed-Passed_example =
    allowed-Passed plain_regex contains_text client_engine (codes "ls") client_allows

safe_allows :
    classify_command plain_regex contains_text safe_engine (codes "pwd") ≡ decided Decision.allow
unfolding classify_command classify_trimmed position guardrail after_guardrail by_mode is_allowed
    is_client hard_deny len len_utf8 trim is_control is_whitespace trim_start_matches
    trim_end_matches contains_text starts_with is_critical check critical_words segments lex
    lex_char lex_plain finish_lexer push_word push_segment is_separator strip_assignments
    strip_wrappers is_wrapper is_option takes_value base_name after_last after_last_from has_char
    dangerous runs_script is_catastrophic contains script_argument has_pair last target_directory
    eq_text safe_command split_ascii_whitespace options literal is_ascii_whitespace
safe_allows = refl

safe_mode-alphabet_example : all (or_blank is_literal_char) (trim (codes "pwd")) ≡ true
safe_mode-alphabet_example =
    safe_mode-alphabet plain_regex contains_text safe_engine (codes "pwd") refl refl safe_allows

classify_command-permits_example :
    is_allow (classify_command plain_regex contains_text safe_engine (codes "pwd"))
    ≡ permits plain_regex contains_text safe_engine (codes "pwd")
classify_command-permits_example =
    classify_command-permits plain_regex contains_text safe_engine (codes "pwd")

-- The classes of two denials.
critical_guardrail_code : code (reason_text Reason.critical_guardrail) ≡ ErrorCode.bridge_error
unfolding code reason_text contains_text starts_with to_ascii_lowercase
critical_guardrail_code = refl

not_in_grammar_code : code (reason_text Reason.not_in_grammar) ≡ ErrorCode.policy_rejected
unfolding code reason_text contains_text starts_with to_ascii_lowercase
not_in_grammar_code = refl
