-- ===== src/Execution/Note.antt =====
-- What the capture loop `run` of src/execution.rs and its ending write into the job, each in one
-- locked section.
pub mod Limit
use securecrt_mcp.Prelude.{ℕ, ◌+◌, ◌≤◌, ◌≡◌, refl, Bool, true, ◌||◌, Option, some, []}
use securecrt_mcp.Text.{Text, len}
use securecrt_mcp.Execution.Job.{Job, append}
use securecrt_mcp.Execution.Job.Life.{SameLife, append-SameLife}

pub data Note : Type 0 where
  -- One poll: its output, the two tests of completeness, the markers seen and the transport.
  polled : Text → Bool → Bool → Bool → Bool → Option Text → Note
  -- A piece of the final flush, or a partial line.
  appended : Text → Note
  -- The last piece of the final flush, with the markers and whether the reader lost something.
  flushed : Text → Bool → Bool → Bool → Note
  flush_failed : Text → Note
  -- The screen that is taken in place of the output.
  screen : Text → Note

abbrev pub set_polled : Bool → Bool → Bool → Bool → Option Text → Job → Job
set_polled incomplete lost begin end transport j = record j {
  incomplete = (j.incomplete || incomplete) || lost;
  begin_marker_observed = begin;
  end_marker_observed = end;
  capture_transport = transport;
}

abbrev pub set_flushed : Bool → Bool → Bool → Job → Job
set_flushed begin end lost j = record j {
  begin_marker_observed = begin;
  end_marker_observed = end;
  incomplete = j.incomplete || lost;
}

abbrev pub cleared : Job → Job
cleared j = record j { output = []; output_bytes = 0; incomplete = true }

unfoldable pub write : ℕ → ℕ → Note → Job → Job
unfolding append
write limit now (polled text incomplete lost begin end transport) j =
    set_polled incomplete lost begin end transport
      (append now (record j { poll_calls = j.poll_calls + 1 }) text limit)
write limit now (appended text) j = append now j text limit
write limit now (flushed text begin end lost) j =
    set_flushed begin end lost (append now j text limit)
write limit now (flush_failed warning) j = record j {
  incomplete = true;
  audit_warning = some warning;
}
write limit now (screen text) j = append now (cleared j) text limit

-- No note touches what the registry's invariant reads of a job.
pub write-SameLife : (limit now : ℕ) (n : Note) (j : Job) → SameLife (write limit now n j) j
unfolding write
write-SameLife limit now (polled text incomplete lost begin end transport) j =
    append-SameLife now (record j { poll_calls = j.poll_calls + 1 }) text limit
write-SameLife limit now (appended text) j = append-SameLife now j text limit
write-SameLife limit now (flushed text begin end lost) j = append-SameLife now j text limit
write-SameLife limit now (flush_failed warning) j = (refl, refl, refl, refl, refl)
write-SameLife limit now (screen text) j = append-SameLife now (cleared j) text limit
