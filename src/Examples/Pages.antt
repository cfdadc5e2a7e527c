-- ===== src/Examples/Pages.antt =====
-- Pages of concrete outputs.
use securecrt_mcp.Prelude.{◌≡◌, refl, true, [], ◌∷◌, arith, none, some, ok}
use securecrt_mcp.Execution.Output.{page}
use securecrt_mcp.Text.{codes, len, len_utf8}
use securecrt_mcp.Execution.Job.{State, Job, active}
use securecrt_mcp.Execution.Output.Pages.{read_pages, read_pages_lem}
use securecrt_mcp.Execution.Registry.{new_job}
use securecrt_mcp.Connector.Buffer.{RingBuffer, Holds, append_all, append_all-Holds, new}
use securecrt_mcp.Examples.Values.{list_files}

abbrev finished_job : Job
finished_job = record (new_job 0 list_files (codes "a")) {
  state = State.completed;
  output = codes "some output";
  output_start = 7;
}

read_pages_lem_example : read_pages 12 finished_job 4 (some 7) ≡ ok (some (codes "some output"))
unfolding new_job len read_pages page len_utf8
read_pages_lem_example = read_pages_lem finished_job 4 (unfold active in refl) (omega arith)

append_all-Holds_example : Holds (append_all new (codes "ab" ∷ codes "cd" ∷ [])) (codes "abcd")
append_all-Holds_example = append_all-Holds (codes "ab" ∷ codes "cd" ∷ [])

abbrev closed_buffer : RingBuffer
closed_buffer = record { bytes = codes "abcde"; start = 10; closed = true; reason = none }
