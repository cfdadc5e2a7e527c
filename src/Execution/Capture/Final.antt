-- ===== src/Execution/Capture/Final.antt =====
-- Each run of the capture ends with an outcome of Execution.System.
use securecrt_mcp.Prelude.{
  ℕ, ◌≡◌, refl, sym, Bool, true, false, ◌&&◌, List, arith, inl, inr, Option, none, some, subst,
}
use securecrt_mcp.Text.{Text}
use securecrt_mcp.Execution.Job.{State}
use securecrt_mcp.Execution.Params.{ExecuteParams}
use securecrt_mcp.Execution.Note.{Note}
use securecrt_mcp.Execution.Registry.{is_completed}
use securecrt_mcp.Execution.System.{Outcome, outcome_state, outcome_code, outcome_release}
use securecrt_mcp.Execution.Marker.{MarkerParser}
use securecrt_mcp.Execution.Capture.Release.{
  IsUpgrade, explain-state, flush-IsUpgrade, FlushedIsUpgrade,
}
use securecrt_mcp.Execution.Capture.{Capture, Close, Turn, start, loop}
use securecrt_mcp.Execution.Capture.Evidence.{IsEvident, LoopIsEvident, loop-IsEvident}
use securecrt_mcp.Execution.Capture.Ending.{
  Surroundings, end_run, map_option, check_stop, flush, conclude, releases,
}
use securecrt_mcp.Execution.Capture.Run.{Run, capturing, ended, run_capture}

-- The states that a capture ends in; an exit code belongs to a completion.
abbrev pub IsFinal : State → Option ℕ → Type 0
IsFinal State.completed code = Unit
IsFinal State.timed_out none = Unit
IsFinal State.cancelled none = Unit
IsFinal State.unknown none = Unit
IsFinal _ _ = ⊥

abbrev pub CloseIsFinal : Close → Type 0
CloseIsFinal b = IsFinal b.state b.code

evident-IsFinal :
    (p : ExecuteParams) (c : Capture) (state : State) (code : Option ℕ)
    → IsEvident p c state code
    → IsFinal state code
evident-IsFinal p c State.completed (some code) h = tt
evident-IsFinal p c State.completed none h = tt
evident-IsFinal p c State.timed_out none h = tt
evident-IsFinal p c State.cancelled none h = tt
evident-IsFinal p c State.unknown none h = tt
evident-IsFinal p c State.timed_out (some code) h = h
evident-IsFinal p c State.cancelled (some code) h = h
evident-IsFinal p c State.unknown (some code) h = h
evident-IsFinal p c State.starting none h = h
evident-IsFinal p c State.starting (some code) h = h
evident-IsFinal p c State.running none h = h
evident-IsFinal p c State.running (some code) h = h
evident-IsFinal p c State.rejected none h = h
evident-IsFinal p c State.rejected (some code) h = h

upgrade-IsFinal : (b d : Close) → IsUpgrade b d → CloseIsFinal b → CloseIsFinal d
upgrade-IsFinal b d (inl e) h = subst CloseIsFinal (sym e) h
upgrade-IsFinal b d (inr (t, e)) h = subst (λ s. IsFinal s d.code) (sym e) tt

stop-IsFinal : (stop : Bool) (b : Close) → CloseIsFinal b → CloseIsFinal (check_stop stop b)
unfolding check_stop
stop-IsFinal true b h = tt
stop-IsFinal false b h = h

-- The outcome of Execution.System that an ending is.
abbrev pub outcome_of : State → Option ℕ → Bool → Outcome
outcome_of State.completed code release = Outcome.completed code release
outcome_of State.timed_out code release = Outcome.timed_out
outcome_of State.cancelled code release = Outcome.cancelled
outcome_of _ code release = Outcome.unknown

abbrev pub IsOutcome : Outcome → State → Option ℕ → Bool → Type 0
IsOutcome o state code release =
    (outcome_state o ≡ state) × (outcome_code o ≡ code) × (outcome_release o ≡ release)

outcome_of-IsOutcome :
    (state : State) (code : Option ℕ) (release_ok : Bool)
    → IsFinal state code
    → let release = release_ok && is_completed state in
      IsOutcome (outcome_of state code release) state code release
unfolding outcome_state outcome_code outcome_release
outcome_of-IsOutcome State.completed code r h = (refl, refl, refl)
outcome_of-IsOutcome State.timed_out none r h = (refl, refl, ground arith)
outcome_of-IsOutcome State.cancelled none r h = (refl, refl, ground arith)
outcome_of-IsOutcome State.unknown none r h = (refl, refl, ground arith)
outcome_of-IsOutcome State.timed_out (some c) r h = absurd h
outcome_of-IsOutcome State.cancelled (some c) r h = absurd h
outcome_of-IsOutcome State.unknown (some c) r h = absurd h
outcome_of-IsOutcome State.starting code r h = absurd h
outcome_of-IsOutcome State.running code r h = absurd h
outcome_of-IsOutcome State.rejected code r h = absurd h

abbrev pub RunIsFinal : Run → Type 0
RunIsFinal (capturing notes) = Unit
RunIsFinal (ended notes e) =
    IsOutcome (outcome_of e.close.state e.close.code e.release) e.close.state e.close.code e.release

conclude-IsFinal :
    (p : ExecuteParams) (env : Surroundings) (confirmed : Bool)
    (x : MarkerParser × Close × List Note)
    → CloseIsFinal x.1
    → let e = conclude p env confirmed x in
      IsOutcome
        (outcome_of e.close.state e.close.code e.release)
        e.close.state
        e.close.code
        e.release
unfolding conclude
conclude-IsFinal p env confirmed (parser, b, notes) h =
    let (state, code) = explain-state (releases env.reply) b in
    rw (state, code) (outcome_of-IsOutcome b.state b.code (releases env.reply) h)

abbrev RanIsFinal : Option Run → Type 0
RanIsFinal none = Unit
RanIsFinal (some run) = RunIsFinal run

end_run-IsFinal :
    (p : ExecuteParams) (env : Surroundings) (c : Capture) (b : Close) (notes : List Note)
    → CloseIsFinal b
    → RanIsFinal (map_option (ended notes) (end_run p env c b))
unfolding end_run
end_run-IsFinal p env c b notes h =
    go (flush env c (check_stop env.stop b)) (flush-IsUpgrade env c (check_stop env.stop b))
  where
    go :
        (o : Option (MarkerParser × Close × List Note))
        → FlushedIsUpgrade (check_stop env.stop b) o
        → RanIsFinal (
            map_option
              (ended notes)
              (map_option (conclude p env (is_completed (check_stop env.stop b).state)) o))
    go none u = tt
    go (some x) u =
        conclude-IsFinal p env (is_completed (check_stop env.stop b).state) x
          (upgrade-IsFinal (check_stop env.stop b) x.1 u (stop-IsFinal env.stop b h))

run_capture-RanIsFinal :
    (p : ExecuteParams) (timeout settle : ℕ) (begin end : Text) (turns : List Turn)
    (env : Surroundings)
    → RanIsFinal (run_capture p timeout settle begin end turns env)
unfolding run_capture
run_capture-RanIsFinal p timeout settle begin end turns env =
    go (loop p timeout settle turns (start begin end))
      (loop-IsEvident p timeout settle turns (start begin end) (unfold start in refl))
  where
    go :
        (x : Capture × List Note × Option Close)
        → LoopIsEvident p x
        → RanIsFinal (elim x.2 [
          | none ↦ some (capturing x.1)
          | some b ↦ map_option (ended x.1) (end_run p env x.0 b)
        ])
    go (c, notes, none) h = tt
    go (c, notes, some b) h = end_run-IsFinal p env c b notes (evident-IsFinal p c b.state b.code h)

pub run_capture-IsFinal :
    (p : ExecuteParams) (timeout settle : ℕ) (begin end : Text) (turns : List Turn)
    (env : Surroundings) (run : Run)
    → run_capture p timeout settle begin end turns env ≡ some run
    → RunIsFinal run
run_capture-IsFinal p timeout settle begin end turns env run h =
    subst RanIsFinal h (run_capture-RanIsFinal p timeout settle begin end turns env)
