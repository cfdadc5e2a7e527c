-- ===== src/Examples/Polling.antt =====
-- Runs of the capture loop and of the log reader.
use securecrt_mcp.Prelude.{
  ℕ, ◌+◌, ◌≡◌, refl, true, false, List, [], ◌∷◌, ◌++◌, arith, ◌==◌, if◌then◌else◌, inl, inr, none,
  some, ok, err, is_some,
}
use securecrt_mcp.Text.{Text, codes, eq_text, len, len_utf8, strip_prefix, trim_end_matches}
use securecrt_mcp.Assoc.{lookup, insert, modify, retain, size, contains_key}
use securecrt_mcp.Bytes.{Bytes}
use securecrt_mcp.Bytes.Encode.{encode_utf16, encode_all, unit_bytes}
use securecrt_mcp.Config.{default_bridge}
use securecrt_mcp.Execution.Job.{State}
use securecrt_mcp.Execution.Note.{polled}
use securecrt_mcp.Execution.Registry.{
  with_job, reserve, admit, enter, sweep, evict, replay, finish, finish_job, is_closed,
  is_busy_with, new_job, is_retained,
}
use securecrt_mcp.Execution.Registry
use securecrt_mcp.Execution.System
use securecrt_mcp.Execution.System.{
  System, Phase, Event, Verdict, initial, step, start, on_audit, on_begin, on_capture, on_end,
  after_audit, begin_result, after_begin,
}
use securecrt_mcp.Execution.Marker
use securecrt_mcp.Execution.Marker.{
  feed, lines_of, take_lines, take_line, take_trimmed, finish_feed, end_status, parse_status,
  digits, digits_from, is_cr,
}
use securecrt_mcp.Execution.NativeLog.{utf16_le, FileAnswer, data_read}
use securecrt_mcp.Execution.NativeLog.Chunks.{
  read_all, concat, mark, encode_of, session_reader, read_all-encode,
}
use securecrt_mcp.Execution.Capture
use securecrt_mcp.Execution.Capture.{
  Capture, Close, Turn, Reply, loop, turn, receive, chunk_of, consume, parse, judge,
}
use securecrt_mcp.Execution.Capture.Evidence.{LoopIsEvident, loop-IsEvident}
use securecrt_mcp.Execution.Capture.Progress.{loop-Ends}
use securecrt_mcp.Execution.Capture.Ending.{
  Ending, Surroundings, EndReply, end_run, check_stop, flush, conclude, partial_notes, screen_notes,
  explain, releases,
}
use securecrt_mcp.Execution.Capture.Flushing.{end_run_total}
use securecrt_mcp.Execution.Capture.Release.{IsSafeEnding, end_run-IsSafe}
use securecrt_mcp.Execution.Capture.Run.{Run, ended, run_capture, record_run}
use securecrt_mcp.Execution.Capture.Refinement.{run_events, run_capture_refines}
use securecrt_mcp.Examples.Values.{list_files}

-- A capital letter and an emoji in UTF-16, cut within the surrogate pair.
abbrev word : Text
word = 0x41 ∷ 0x1f642 ∷ []

abbrev first_piece : Bytes
first_piece = 0xff ∷ 0xfe ∷ 0x41 ∷ []

abbrev pieces : List Bytes
pieces = (0 ∷ 0x3d ∷ []) ∷ (0xd8 ∷ 0x42 ∷ 0xde ∷ []) ∷ []

pieces_lem : concat (first_piece ∷ pieces) ≡ mark utf16_le ++ encode_all (encode_of utf16_le) word
unfolding concat mark encode_all encode_of encode_utf16 unit_bytes
pieces_lem = refl

read_all-encode_example :
    read_all (first_piece ∷ pieces) session_reader
    ≡ (word, record session_reader { pending = []; encoding = some utf16_le; incomplete = false })
read_all-encode_example =
    read_all-encode utf16_le word first_piece pieces
      (inl (omega arith), (inr (omega arith, omega arith), tt)) pieces_lem

abbrev one_line : ℕ → FileAnswer
one_line i = data_read 3 (if i == 0 then 0x68 ∷ 0x69 ∷ 0x0a ∷ [] else [])

-- The output of `ls` between its markers, in one reply, and a reply without anything.
abbrev reply_with : Text → Reply
reply_with text = record {
  log_file = none;
  text = some text;
  may_be_incomplete = some false;
  transport = none;
  overflow = none;
  expired = none;
  current_line = none;
  native_log_stopped = none;
}

abbrev turn_at : ℕ → Text → Turn
turn_at time text = record {
  stop = false;
  elapsed = time;
  response = ok (reply_with text);
  settled = time;
}

abbrev printed : Text
printed = 66 ∷ 10 ∷ 104 ∷ 105 ∷ 10 ∷ 69 ∷ 32 ∷ 48 ∷ 10 ∷ []

abbrev marked_turns : List Turn
marked_turns = turn_at 10 [] ∷ turn_at 20 printed ∷ []

abbrev begin_mark : Text
begin_mark = 66 ∷ []

abbrev end_mark : Text
end_mark = 69 ∷ []

loop-IsEvident_example :
    LoopIsEvident list_files
      (loop list_files 5000 750 marked_turns (Capture.start begin_mark end_mark))
loop-IsEvident_example =
    loop-IsEvident list_files 5000 750 marked_turns (Capture.start begin_mark end_mark)
      (unfold Capture.start in refl)

loop-Ends_example :
    is_some
      (loop list_files 5000 750
        (turn_at 10 [] ∷ turn_at 5000000 [] ∷ [])
        (Capture.start begin_mark end_mark)).2
    ≡ true
loop-Ends_example =
    loop-Ends list_files 5000 750 (turn_at 10 [] ∷ turn_at 5000000 [] ∷ [])
      (Capture.start begin_mark end_mark) refl

abbrev released_reply : EndReply
released_reply = record {
  unresolved = some false;
  restore_errors = some [];
  released = some true;
  native_log_stopped = none;
}

abbrev calm : Surroundings
calm = record {
  stop = false;
  reply = ok released_reply;
  answers = one_line;
  removed = ok tt;
  read_screen = err [];
}

abbrev observed : Close
observed = record {
  state = State.completed;
  code = some 0;
  reason = codes "POSIX end marker observed";
}

end_run_total_example :
    is_some (
      end_run list_files calm
        (loop list_files 5000 750 marked_turns (Capture.start begin_mark end_mark)).0
        observed)
    ≡ true
end_run_total_example =
    end_run_total list_files 5000 750 marked_turns begin_mark end_mark calm observed

abbrev observed_ending : Ending
observed_ending = record { notes = []; close = observed; release = true; confirmed = true }

calm_ending :
    end_run list_files calm (Capture.start begin_mark end_mark) observed ≡ some observed_ending
unfolding end_run check_stop flush conclude partial_notes screen_notes explain releases
    Capture.start
calm_ending = refl

end_run-IsSafe_example : IsSafeEnding calm observed observed_ending
end_run-IsSafe_example =
    end_run-IsSafe list_files calm (Capture.start begin_mark end_mark) observed observed_ending
      calm_ending

abbrev sample_run : Run
sample_run =
    ended
      (polled [] false false false false none
        ∷ polled (104 ∷ 105 ∷ 10 ∷ []) false false true true none
        ∷ [])
      observed_ending

sample_run_lem :
    run_capture list_files 5000 750 begin_mark end_mark marked_turns calm ≡ some sample_run
unfolding run_capture loop turn receive chunk_of consume parse judge feed lines_of take_lines
    take_line take_trimmed finish_feed end_status parse_status digits digits_from is_cr strip_prefix
    trim_end_matches eq_text end_run check_stop flush conclude partial_notes screen_notes explain
    releases Capture.start Marker.new Marker.flush Marker.pending_bound Marker.split_cr len len_utf8
sample_run_lem = refl

abbrev allow_every : Text → Verdict
allow_every command = record { allow = true; reason = [] }

abbrev sample_capturing : System
sample_capturing = System.run default_bridge allow_every initial (
    Event.submit list_files (codes "f") (codes "a") 1
    ∷ Event.audited (codes "a") 2 (ok tt) 3
    ∷ Event.began (codes "a") (ok (some true)) 4
    ∷ [])

sample_phase : lookup (codes "a") sample_capturing.phases ≡ some Phase.capturing
unfolding System.run initial Registry.empty step start on_audit on_begin after_audit begin_result
    after_begin reserve admit enter sweep evict replay with_job new_job is_retained lookup insert
    modify retain size contains_key eq_text default_bridge
sample_phase = refl

run_capture_refines_example :
    (System.run default_bridge allow_every sample_capturing
      (run_events (codes "a") (λ i. 5 + i) 9 sample_run)).registry
    ≡ record_run default_bridge.max_output_bytes
        (codes "a")
        (λ i. 5 + i)
        9
        sample_run
        sample_capturing.registry
run_capture_refines_example =
    run_capture_refines default_bridge allow_every list_files 5000 750 begin_mark end_mark
      marked_turns calm sample_run sample_capturing (codes "a") (λ i. 5 + i) 9 sample_run_lem
      sample_phase
