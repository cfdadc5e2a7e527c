-- ===== src/Execution/Capture/Run.antt =====
-- The whole of `run` of src/execution.rs: its loop and what follows it, and what both do to the
-- registry.
use securecrt_mcp.Prelude.{ℕ, ◌+◌, List, [], ◌∷◌, ◌++◌, Option, none, some}
use securecrt_mcp.Text.{Text}
use securecrt_mcp.Execution.Params.{ExecuteParams}
use securecrt_mcp.Execution.Note.{Note, write}
use securecrt_mcp.Execution.Registry.{Registry, with_job, finish}
use securecrt_mcp.Execution.Capture.{Turn, start, loop}
use securecrt_mcp.Execution.Capture.Ending.{Ending, Surroundings, end_run, map_option}

-- A run that still captures, and one that has ended, with the notes of its loop.
pub data Run : Type 0 where
  capturing : List Note → Run
  ended : List Note → Ending → Run

unfoldable pub run_capture :
    ExecuteParams → ℕ → ℕ → Text → Text → List Turn → Surroundings → Option Run
unfolding start loop end_run
run_capture p timeout settle begin end turns env =
    let (c, notes, close) = loop p timeout settle turns (start begin end) in
    elim close [
      | none ↦ some (capturing notes)
      | some b ↦ map_option (ended notes) (end_run p env c b)
    ]

-- The notes in the registry, from the `i`-th reading of the clock.
unfoldable pub record_notes : ℕ → Text → (ℕ → ℕ) → ℕ → List Note → Registry → Registry
unfolding write with_job
record_notes limit id clock i [] r = r
record_notes limit id clock i (n ∷ notes) r =
    record_notes limit id clock (i + 1) notes (with_job id (write limit (clock i) n) r)

unfoldable pub record_ending : Text → ℕ → Ending → Registry → Registry
unfolding finish
record_ending id now e r = finish id e.close.state e.close.code e.close.reason e.release now r

unfoldable pub record_run : ℕ → Text → (ℕ → ℕ) → ℕ → Run → Registry → Registry
unfolding record_notes record_ending
record_run limit id clock now (capturing notes) r = record_notes limit id clock 0 notes r
record_run limit id clock now (ended notes e) r =
    record_ending id now e (record_notes limit id clock 0 (notes ++ e.notes) r)
