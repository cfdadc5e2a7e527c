-- ===== src/Execution/Capture/Refinement.antt =====
-- A run of the capture is a sequence of steps of Execution.System.
use securecrt_mcp.Prelude.{
  ℕ, ◌+◌, ◌≡◌, refl, sym, ap, ◌∙◌, Bool, List, [], ◌∷◌, ◌++◌, Option, some, append-nil,
}
use securecrt_mcp.Text.{Text}
use securecrt_mcp.Assoc.{lookup}
use securecrt_mcp.Config.{BridgeConfig}
use securecrt_mcp.Execution.Job.{State}
use securecrt_mcp.Execution.Params.{ExecuteParams}
use securecrt_mcp.Execution.Note.{Note, write}
use securecrt_mcp.Execution.Registry.{Registry, with_job, finish}
use securecrt_mcp.Execution.System
use securecrt_mcp.Execution.System.{
  System, Phase, Event, Outcome, Verdict, step, on_capture, on_end, outcome_state, outcome_code,
  outcome_release, settled,
}
use securecrt_mcp.Execution.Capture.{Turn}
use securecrt_mcp.Execution.Capture.Ending.{Ending, Surroundings}
use securecrt_mcp.Execution.Capture.Final.{IsOutcome, outcome_of, RunIsFinal, run_capture-IsFinal}
use securecrt_mcp.Execution.Capture.Run.{
  Run, capturing, ended, run_capture, record_notes, record_ending, record_run,
}

-- The events of a run: its notes, then its end.
unfoldable pub note_events : Text → (ℕ → ℕ) → ℕ → List Note → List Event
note_events id clock i [] = []
note_events id clock i (n ∷ notes) =
    Event.captured id n (clock i) ∷ note_events id clock (i + 1) notes

abbrev pub end_event : Text → ℕ → Ending → Event
end_event id now e =
    Event.ended id (outcome_of e.close.state e.close.code e.release) e.close.reason now

unfoldable pub run_events : Text → (ℕ → ℕ) → ℕ → Run → List Event
run_events id clock now (capturing notes) = note_events id clock 0 notes
run_events id clock now (ended notes e) =
    note_events id clock 0 (notes ++ e.notes) ++ end_event id now e ∷ []

finish_same :
    (o : Outcome) (state : State) (code : Option ℕ) (release : Bool) (id reason : Text) (now : ℕ)
    (r : Registry)
    → IsOutcome o state code release
    → finish id (outcome_state o) (outcome_code o) reason (outcome_release o) now r
      ≡ finish id state code reason release now r
finish_same o state code release id reason now r (s, c, l) = rw (s, c, l) refl

module _ (config : BridgeConfig) (classify : Text → Verdict) where
  captured_step :
      (s : System) (id : Text) (n : Note) (now : ℕ)
      → lookup id s.phases ≡ some Phase.capturing
      → step config classify s (Event.captured id n now)
        ≡ record s { registry = with_job id (write config.max_output_bytes now n) s.registry }
  unfolding step on_capture
  captured_step s id n now h = rw h refl

  end_step :
      (s : System) (id : Text) (o : Outcome) (reason : Text) (now : ℕ)
      → lookup id s.phases ≡ some Phase.capturing
      → (step config classify s (Event.ended id o reason now)).registry
        ≡ finish id (outcome_state o) (outcome_code o) reason (outcome_release o) now s.registry
  unfolding step on_end
  end_step s id o reason now h = rw h refl

  notes_refine :
      (s : System) (id : Text) (clock : ℕ → ℕ) (i : ℕ) (notes : List Note) (later : List Event)
      → lookup id s.phases ≡ some Phase.capturing
      → System.run config classify s (note_events id clock i notes ++ later)
        ≡ System.run config classify
            (record s {
              registry = record_notes config.max_output_bytes id clock i notes s.registry;
            })
            later
  unfolding note_events record_notes System.run
  notes_refine s id clock i [] later h = refl
  notes_refine s id clock i (n ∷ notes) later h =
      let r = with_job id (write config.max_output_bytes (clock i) n) s.registry in
      ap (λ q. System.run config classify q (note_events id clock (i + 1) notes ++ later))
        (captured_step s id n (clock i) h)
      ∙ notes_refine (record s { registry = r }) id clock (i + 1) notes later h

  run_refines :
      (run : Run) (s : System) (id : Text) (clock : ℕ → ℕ) (now : ℕ)
      → RunIsFinal run
      → lookup id s.phases ≡ some Phase.capturing
      → (System.run config classify s (run_events id clock now run)).registry
        ≡ record_run config.max_output_bytes id clock now run s.registry
  unfolding run_events record_run System.run record_ending
  run_refines (capturing notes) s id clock now f h =
      ap (λ es. (System.run config classify s es).registry)
        (sym (append-nil (note_events id clock 0 notes)))
      ∙ ap (λ (q : System). q.registry) (notes_refine s id clock 0 notes [] h)
  run_refines (ended notes e) s id clock now f h =
      let r = record_notes config.max_output_bytes id clock 0 (notes ++ e.notes) s.registry in
      let t = record s { registry = r } in
      let o = outcome_of e.close.state e.close.code e.release in
      ap (λ (q : System). q.registry)
        (notes_refine s id clock 0 (notes ++ e.notes) (end_event id now e ∷ []) h)
      ∙ end_step t id o e.close.reason now h
      ∙ finish_same o e.close.state e.close.code e.release id e.close.reason now r f

  -- A run of the capture, whatever the bridge and the log file answer, changes the registry as a
  -- sequence of steps of the system does: one for each of its notes, and one for its end, from each
  -- state in which its submission captures.
  pub run_capture_refines :
      (p : ExecuteParams) (timeout settle : ℕ) (begin end : Text) (turns : List Turn)
      (env : Surroundings) (run : Run) (s : System) (id : Text) (clock : ℕ → ℕ) (now : ℕ)
      → run_capture p timeout settle begin end turns env ≡ some run
      → lookup id s.phases ≡ some Phase.capturing
      → (System.run config classify s (run_events id clock now run)).registry
        ≡ record_run config.max_output_bytes id clock now run s.registry
  run_capture_refines p timeout settle begin end turns env run s id clock now ran h =
      run_refines run s id clock now
        (run_capture-IsFinal p timeout settle begin end turns env run ran) h
