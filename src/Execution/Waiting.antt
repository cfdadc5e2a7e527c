-- ===== src/Execution/Waiting.antt =====
-- The bounded waits of src/execution/convenience.rs and src/execution/persistent.rs. What a turn of a
-- loop finds, the registry under its lock and the clock, is its argument.
pub mod Answers
use securecrt_mcp.Prelude.{
  ℕ, zero, suc, ◌+◌, ◌-◌, ◌≤◌, ◌<◌, min, max, ◌≡◌, refl, sym, ap, ap₂, ◌∙◌, Bool, true, false, not,
  ◌&&◌, ◌||◌, List, [], ◌∷◌, ◌++◌, arith, ltb, leb, ◌==◌, if◌then◌else◌, Bool-cases, Option-cases,
  inl, inr, Option, none, some, All, append_assoc, append-nil, Result, ok, err, ◌>>=◌, ◌>>◌, ensure,
  context, is_some, unwrap_or, is_empty, all, any, ◌*◌, ◌≢◌, ◌⊎◌, ◌↔◌, subst,
}
use securecrt_mcp.Text.{Text, len, slice_to}
use securecrt_mcp.Assoc.{lookup, any_value}
use securecrt_mcp.Config.{within}
use securecrt_mcp.Execution.Job.{State, Job, Snapshot, snapshot, active, prefix_len}
use securecrt_mcp.Execution.Registry.{Registry}
use securecrt_mcp.Execution.Output.{Page, OutputError, output}

pub record Look : Type 0 where
  pub registry : Registry
  pub now : ℕ

-- A loop that waits: each turn answers or waits on. Without an answer it is still waiting.
unfoldable pub wait_loop {ℓ} : {A : Type ℓ} → (Look → Option A) → List Look → Option A
wait_loop turn [] = none
wait_loop turn (look ∷ looks) =
    let rest = wait_loop turn looks in elim (turn look) [ none ↦ rest | some a ↦ some a ]

pub data WaitError : Type 0 where
  invalid_wait unknown_or_expired : WaitError

-- `wait_result` reports the snapshot of the job and the first page of its output.
pub record Answer : Type 0 where
  pub report : Snapshot
  pub text : Text
  pub cursor : ℕ
  pub next_cursor : Option ℕ
  pub wait_budget_exhausted : Bool

unfoldable pub answer : ℕ → ℕ → Job → Answer
unfolding snapshot active prefix_len
answer now max_bytes j =
    let end = prefix_len j.output max_bytes in
    record {
      report = snapshot now j;
      text = slice_to j.output end;
      cursor = j.output_start;
      next_cursor =
          if ltb end (len j.output) || active j.state then some (end + j.output_start) else none;
      wait_budget_exhausted = active j.state;
    }

unfoldable pub wait_turn : Text → ℕ → ℕ → Look → Option (Result WaitError Answer)
unfolding answer
wait_turn id max_bytes until look = elim (lookup id look.registry.jobs) [
  | none ↦ some (err unknown_or_expired)
  | some j ↦
      if not (active j.state) || leb until look.now
      then some (ok (answer look.now max_bytes j))
      else none
]

-- `wait_result`, from the time `start`; the wait is in milliseconds.
unfoldable pub wait_result : Text → ℕ → ℕ → ℕ → List Look → Option (Result WaitError Answer)
unfolding wait_loop wait_turn
wait_result id wait_ms max_bytes start looks =
    if leb wait_ms 60000 && within 4 65536 max_bytes
    then wait_loop (wait_turn id max_bytes (start + wait_ms * 1000)) looks
    else some (err invalid_wait)

-- `stream_read`: a page with text, one of a stream that is not active, or whatever there is in time.
unfoldable pub read_turn : Text → Option ℕ → Option ℕ → ℕ → Look → Option (Result OutputError Page)
unfolding output
read_turn id cursor max_bytes until look = elim (output look.registry id cursor max_bytes) [
  | err e ↦ some (err e)
  | ok page ↦
      if not (is_empty page.text) || not (active page.state) || leb until look.now
      then some (ok page)
      else none
]

unfoldable pub stream_read :
    Text
    → Option ℕ
    → Option ℕ
    → Option ℕ
    → ℕ
    → List Look
    → Result WaitError (Option (Result OutputError Page))
unfolding wait_loop read_turn
stream_read id cursor max_bytes wait_ms start looks =
    let wait = unwrap_or wait_ms 1000 in
    if leb wait 60000
    then ok (wait_loop (read_turn id cursor max_bytes (start + wait * 1000)) looks)
    else err invalid_wait

-- `drain_on_disconnect`: at most two seconds, and no longer than a job is active.
unfoldable pub drain_turn : ℕ → Look → Option (Unit {0})
unfolding any_value
drain_turn until look =
    if not (any_value (λ j. active j.state) look.registry.jobs) || leb until look.now
    then some tt
    else none

unfoldable pub drain_on_disconnect : ℕ → List Look → Option (Unit {0})
unfolding wait_loop drain_turn
drain_on_disconnect start looks = wait_loop (drain_turn (start + 2000000)) looks
