-- ===== src/Connector/Exec/Interlock.antt =====
-- The bound on the output and the interlock `unresolved` of src/connector/exec.rs.
use securecrt_mcp.Prelude.{
  ◌-◌, ◌≤◌, min, ◌≡◌, refl, sym, Bool, true, false, not, ◌&&◌, List, [], ◌∷◌, ◌++◌, arith,
  if◌then◌else◌, Bool-cases, Option-cases, inl, inr, none, some, is_empty, ◌⊎◌, subst,
}
use securecrt_mcp.Prelude.{length, take, length-take}
use securecrt_mcp.Text.{Text, eq_text, trim_end_matches}
use securecrt_mcp.Connector.Exec.{
  max_output, finish_framed_output, Reader, fresh_reader, exit_of, is_line_end, ends_line, Turn,
  continue, returned, take_line, on_continue, read_lines, Stop, partial_output, partial_marker,
  unfinished, pop_last, ExecState, rejected, unknown, completed, ExecOutcome, Delivery,
  write_failed, flush_failed, answered, outcome_of, unresolved_after, run_exec,
}

-- A returned output is within the limit.
abbrev IsWithin : Turn → Type 0
IsWithin (continue r) = Unit
IsWithin (returned output code truncated) = length output ≤ max_output

finish-IsWithin :
    (output : Text) (truncated : Bool)
    → length (finish_framed_output output truncated).0 ≤ max_output
unfolding finish_framed_output
finish-IsWithin output truncated = omega (
  arith,
  length-take max_output (if not truncated && ends_line output then pop_last output else output),
)

take_line-IsWithin :
    (begin end : Text) (r : Reader) (line : Text) → IsWithin (take_line begin end r line)
unfolding take_line
take_line-IsWithin begin end r line =
    let trimmed = trim_end_matches is_line_end line in
    elim (Bool-cases (r.at_line_start && eq_text trimmed begin)) [
      | inl e ↦ rw e tt
      | inr e ↦ elim (Option-cases (if r.at_line_start then exit_of end trimmed else none)) [
        | inl o ↦ rw e (rw o tt)
        | inr (code, o) ↦ rw e (rw o (finish-IsWithin r.output r.truncated))
      ]
    ]

on_continue-IsWithin :
    (k : Reader → Turn) (t : Turn)
    → ((r : Reader) → IsWithin (k r))
    → IsWithin t
    → IsWithin (on_continue k t)
on_continue-IsWithin k (continue q) f h = f q
on_continue-IsWithin k (returned output code truncated) f h = h

read_lines-IsWithin :
    (begin end : Text) (r : Reader) (lines : List Text) → IsWithin (read_lines begin end r lines)
unfolding read_lines
read_lines-IsWithin begin end r [] = tt
read_lines-IsWithin begin end r (line ∷ lines) =
    on_continue-IsWithin (λ q. read_lines begin end q lines) (take_line begin end r line)
      (λ q. read_lines-IsWithin begin end q lines) (take_line-IsWithin begin end r line)

partial-IsWithin :
    (end : Text) (r : Reader) (line : Text) → length (partial_output end r line).0 ≤ max_output
unfolding partial_output
partial-IsWithin end r line =
    elim (Bool-cases
      (r.started && not (is_empty line) && not (partial_marker end r.at_line_start line))) [
        | inl e ↦ rw e (
            omega (
              arith,
              length-take max_output
                  (r.output ++ take (min (max_output - length r.output) (length line)) line),
            ))
        | inr e ↦ rw e (omega (arith, length-take max_output r.output))
      ]

outcome-IsWithin :
    (end : Text) (stop : Stop) (t : Turn)
    → IsWithin t
    → length (outcome_of end stop t).output ≤ max_output
unfolding outcome_of
outcome-IsWithin end stop (continue r) h = partial-IsWithin end r (unfinished stop)
outcome-IsWithin end stop (returned output code truncated) h = h

-- Whatever the shell answers, the output of a command is at most 1 MiB long.
pub run_exec-within :
    (begin end : Text) (unresolved : Bool) (delivery : Delivery)
    → length (run_exec begin end unresolved delivery).0.output ≤ max_output
unfolding run_exec
run_exec-within begin end true delivery = omega arith
run_exec-within begin end false write_failed = omega arith
run_exec-within begin end false flush_failed = omega arith
run_exec-within begin end false (answered lines stop) =
    outcome-IsWithin end stop (read_lines begin end fresh_reader lines)
      (read_lines-IsWithin begin end fresh_reader lines)

-- What a session is asked for, one after the other as its lock admits it: a command with its markers,
-- or `acknowledge`, which clears the interlock.
pub data SessionRequest : Type 0 where
  command : Text → Text → Delivery → SessionRequest
  acknowledges : SessionRequest

pub data SessionAnswer : Type 0 where
  outcome : ExecOutcome → SessionAnswer
  acknowledged : SessionAnswer

unfoldable pub run_all : Bool → List SessionRequest → List SessionAnswer
unfolding run_exec
run_all unresolved [] = []
run_all unresolved (command begin end delivery ∷ requests) =
    let (o, next) = run_exec begin end unresolved delivery in outcome o ∷ run_all next requests
run_all unresolved (acknowledges ∷ requests) = acknowledged ∷ run_all false requests

abbrev pub IsUnsent : ExecOutcome → Type 0
IsUnsent o = (o.state ≡ rejected) × (o.sent ≡ some false)

-- Nothing is sent up to the next acknowledgement.
abbrev pub IsHeld : List SessionAnswer → Type 0
IsHeld [] = Unit
IsHeld (outcome o ∷ answers) = IsUnsent o × IsHeld answers
IsHeld (acknowledged ∷ answers) = Unit

-- Every outcome is a completion, or holds what follows it.
abbrev pub StopsAtDoubt : List SessionAnswer → Type 0
StopsAtDoubt [] = Unit
StopsAtDoubt (outcome o ∷ answers) = ((o.state ≡ completed) ⊎ IsHeld answers) × StopsAtDoubt answers
StopsAtDoubt (acknowledged ∷ answers) = StopsAtDoubt answers

blocked-IsHeld : (requests : List SessionRequest) → IsHeld (run_all true requests)
unfolding run_all run_exec
blocked-IsHeld [] = tt
blocked-IsHeld (command begin end delivery ∷ requests) = ((refl, refl), blocked-IsHeld requests)
blocked-IsHeld (acknowledges ∷ requests) = tt

settled_next : (o : ExecOutcome) → (o.state ≡ completed) ⊎ (unresolved_after o.state ≡ true)
settled_next o = go o.state
  where
    go : (state : ExecState) → (state ≡ completed) ⊎ (unresolved_after state ≡ true)
    go rejected = inr refl
    go unknown = inr refl
    go completed = inl refl

run_exec_next :
    (begin end : Text) (unresolved : Bool) (delivery : Delivery)
    → ((run_exec begin end unresolved delivery).0.state ≡ completed)
      ⊎ ((run_exec begin end unresolved delivery).1 ≡ true)
unfolding run_exec
run_exec_next begin end true delivery = inr refl
run_exec_next begin end false write_failed = inr refl
run_exec_next begin end false flush_failed = inr refl
run_exec_next begin end false (answered lines stop) =
    settled_next (outcome_of end stop (read_lines begin end fresh_reader lines))

doubt :
    (o : ExecOutcome) (next : Bool) (requests : List SessionRequest)
    → (o.state ≡ completed) ⊎ (next ≡ true)
    → (o.state ≡ completed) ⊎ IsHeld (run_all next requests)
doubt o next requests (inl e) = inl e
doubt o next requests (inr e) =
    inr (subst (λ b. IsHeld (run_all b requests)) (sym e) (blocked-IsHeld requests))

-- After an outcome that is not a completion, no command of the session is sent before the next
-- acknowledgement: each is rejected, as not sent.
pub run_all-StopsAtDoubt :
    (unresolved : Bool) (requests : List SessionRequest)
    → StopsAtDoubt (run_all unresolved requests)
unfolding run_all
run_all-StopsAtDoubt unresolved [] = tt
run_all-StopsAtDoubt unresolved (command begin end delivery ∷ requests) =
    let (o, next) = run_exec begin end unresolved delivery in
    (
      doubt o next requests (run_exec_next begin end unresolved delivery),
      run_all-StopsAtDoubt next requests,
    )
run_all-StopsAtDoubt unresolved (acknowledges ∷ requests) = run_all-StopsAtDoubt false requests
