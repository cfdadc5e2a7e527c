-- ===== src/Execution/Capture/Release.antt =====
-- When the end of a capture releases its session.
use securecrt_mcp.Prelude.{
  ℕ, zero, suc, ◌+◌, ◌≡◌, refl, sym, ap, ◌∙◌, Bool, true, false, List, [], ◌∷◌, arith,
  if◌then◌else◌, inl, inr, Option, none, some, Result, ok, err, is_empty, ◌⊎◌, subst, if_holds,
  &&_parts,
}
use mathlib.Core.Option.{some-injective}
use securecrt_mcp.Text.{Text}
use securecrt_mcp.Execution.Job.{State}
use securecrt_mcp.Execution.Params.{ExecuteParams}
use securecrt_mcp.Execution.Note.{Note}
use securecrt_mcp.Execution.Registry.{is_completed}
use securecrt_mcp.Execution.Marker.{MarkerParser}
use securecrt_mcp.Execution.Capture.{Capture, Close}
use securecrt_mcp.Execution.Capture.Ending.{
  Ending, Surroundings, Flush, end_run, map_option, check_stop, flush, conclude, explain, upgrade,
  drain, complete_flush, after_flush, add_piece,
}
use securecrt_mcp.Execution.NativeLog.{Reader, FileAnswer, next}
use securecrt_mcp.Execution.Marker.{feed}
use securecrt_mcp.Execution.Capture.Ending.{unwrap_ok, is_flushable, drain_fuel, releases}

-- What the flush may make of a close: a capture that ran out of time may turn out to be completed.
abbrev pub IsUpgrade : Close → Close → Type 0
IsUpgrade b d = (d ≡ b) ⊎ ((b.state ≡ State.timed_out) × (d.state ≡ State.completed))

upgrade_state :
    (exit : ℕ) (state : State) (code : Option ℕ) (reason : Text)
    → let b : Close = record { state = state; code = code; reason = reason } in
      IsUpgrade b (upgrade (some exit) b)
unfolding upgrade
upgrade_state exit State.timed_out code reason = inr (refl, refl)
upgrade_state exit State.starting code reason = inl refl
upgrade_state exit State.running code reason = inl refl
upgrade_state exit State.completed code reason = inl refl
upgrade_state exit State.cancelled code reason = inl refl
upgrade_state exit State.unknown code reason = inl refl
upgrade_state exit State.rejected code reason = inl refl

upgrade-IsUpgrade : (exit : Option ℕ) (b : Close) → IsUpgrade b (upgrade exit b)
upgrade-IsUpgrade none b = unfold upgrade in inl refl
upgrade-IsUpgrade (some exit) b = upgrade_state exit b.state b.code b.reason

IsUpgrade-trans : (b d e : Close) → IsUpgrade b d → IsUpgrade d e → IsUpgrade b e
IsUpgrade-trans b d e (inl p) (inl q) = inl (q ∙ p)
IsUpgrade-trans b d e (inl p) (inr (t, q)) = inr (ap (λ (x : Close). x.state) (sym p) ∙ t, q)
IsUpgrade-trans b d e (inr (t, q)) (inl p) = inr (t, ap (λ (x : Close). x.state) p ∙ q)
IsUpgrade-trans b d e (inr (t, q)) (inr (u, r)) = inr (t, r)

abbrev FlushIsUpgrade : Close → Option Flush → Type 0
FlushIsUpgrade b none = Unit
FlushIsUpgrade b (some f) = IsUpgrade b f.close

add_piece-IsUpgrade :
    (b d : Close) (output : Text) (f : Option Flush)
    → IsUpgrade b d
    → FlushIsUpgrade d f
    → FlushIsUpgrade b (add_piece output f)
add_piece-IsUpgrade b d output none h k = tt
add_piece-IsUpgrade b d output (some f) h k = IsUpgrade-trans b d f.close h k

drain-IsUpgrade :
    (fuel : ℕ) (answers : ℕ → FileAnswer) (i : ℕ) (r : Reader) (parser : MarkerParser) (b : Close)
    → FlushIsUpgrade b (drain fuel answers i r parser b)
unfolding drain
drain-IsUpgrade zero answers i r parser b = tt
drain-IsUpgrade (suc fuel) answers i r parser b =
    go (next true (answers i) r) (drain-IsUpgrade fuel answers (i + 1))
  where
    go :
        (x : Reader × Result Text Text)
        → ((s : Reader) (q : MarkerParser) (d : Close)
            → FlushIsUpgrade d (drain fuel answers (i + 1) s q d))
        → let y = feed parser (unwrap_ok x.1) in
          FlushIsUpgrade b (elim x.1 as (λ _. Option Flush) [
            | err e ↦
                some
                  (record { reader = x.0; parser = parser; close = b; notes = []; result = err e })
            | ok text ↦
                if is_empty text
                then some (record {
                  reader = x.0;
                  parser = parser;
                  close = b;
                  notes = [];
                  result = ok tt;
                })
                else add_piece y.1 (drain fuel answers (i + 1) x.0 y.0 (upgrade y.2 b))
          ])
    go (s, err e) rest = inl refl
    go (s, ok []) rest = inl refl
    go (s, ok (c ∷ text)) rest =
        let (q, output, exit) = feed parser (c ∷ text) in
        add_piece-IsUpgrade b (upgrade exit b) output _ (upgrade-IsUpgrade exit b)
          (rest s q (upgrade exit b))

complete_flush-close :
    (removed : Result Text (Unit {0})) (f : Flush) → (complete_flush removed f).close ≡ f.close
unfolding complete_flush
complete_flush-close removed f = ground arith

abbrev pub FlushedIsUpgrade : Close → Option (MarkerParser × Close × List Note) → Type 0
FlushedIsUpgrade b none = Unit
FlushedIsUpgrade b (some x) = IsUpgrade b x.1

pub flush-IsUpgrade :
    (env : Surroundings) (c : Capture) (b : Close) → FlushedIsUpgrade b (flush env c b)
unfolding flush
flush-IsUpgrade env c b = go c.log_reader
  where
    after :
        (o : Option Flush)
        → FlushIsUpgrade b o
        → FlushedIsUpgrade b (after_flush (map_option (complete_flush env.removed) o))
    after none h = tt
    after (some f) h = subst (IsUpgrade b) (sym (complete_flush-close env.removed f)) h

    go :
        (reader : Option Reader)
        → FlushedIsUpgrade b (elim reader as (λ _. Option (MarkerParser × Close × List Note)) [
          | none ↦ some (c.parser, b, [])
          | some r ↦
              if is_flushable env.reply
              then after_flush (
                  map_option
                    (complete_flush env.removed)
                    (drain drain_fuel env.answers 0 r c.parser b))
              else some (c.parser, b, [])
        ])
    go none = inl refl
    go (some r) =
        let drained = drain drain_fuel env.answers 0 r c.parser b in
        if_holds (FlushedIsUpgrade b) (is_flushable env.reply)
          (after_flush (map_option (complete_flush env.removed) drained)) (some (c.parser, b, []))
          (λ _. after drained (drain-IsUpgrade drain_fuel env.answers 0 r c.parser b))
          (λ _. inl refl)

-- How an ending may differ from the close of the loop, and when it releases the session.
pub record IsSafeEnding (env : Surroundings) (b : Close) (e : Ending) : Type 0 where
  pub stopped : env.stop ≡ true → (e.close.state ≡ State.cancelled) × (e.close.code ≡ none)
  pub going :
      env.stop ≡ false
      → (e.close.state ≡ b.state)
        ⊎ ((b.state ≡ State.timed_out) × (e.close.state ≡ State.completed))
  pub released :
      e.release ≡ true
      → (is_completed e.close.state ≡ true) × (releases env.reply ≡ true) × (env.stop ≡ false)
  pub confirmed : e.confirmed ≡ true → is_completed e.close.state ≡ true

pub explain-state :
    (release_ok : Bool) (b : Close)
    → ((explain release_ok b).state ≡ b.state) × ((explain release_ok b).code ≡ b.code)
unfolding explain
explain-state release_ok b = ground arith

-- The close behind the flush, by the stop flag.
after_stop :
    (stop : Bool) (b d : Close)
    → IsUpgrade (check_stop stop b) d
    → (stop ≡ true → (d.state ≡ State.cancelled) × (d.code ≡ none))
      × (stop ≡ false
          → (d.state ≡ b.state) ⊎ ((b.state ≡ State.timed_out) × (d.state ≡ State.completed)))
unfolding check_stop
after_stop true b d (inl e) =
    (λ _. (ap (λ (x : Close). x.state) e, ap (λ (x : Close). x.code) e), λ k. absurd (cc k))
after_stop true b d (inr (t, q)) = absurd (cc t)
after_stop false b d (inl e) = (λ k. absurd (cc k), λ _. inl (ap (λ (x : Close). x.state) e))
after_stop false b d (inr (t, q)) = (λ k. absurd (cc k), λ _. inr (t, q))

-- A completion before the flush is one behind it, and a completion was not stopped.
completed_stays :
    (b d : Close) → IsUpgrade b d → is_completed b.state ≡ true → is_completed d.state ≡ true
completed_stays b d (inl e) h = subst (λ (x : Close). is_completed x.state ≡ true) (sym e) h
completed_stays b d (inr (t, e)) h = rw e refl

not_stopped :
    (stop : Bool) (b d : Close)
    → IsUpgrade (check_stop stop b) d
    → is_completed d.state ≡ true
    → stop ≡ false
not_stopped false b d h c = refl
not_stopped true b d h c =
    let (cancelled, code) = (after_stop true b d h).0 refl in absurd (cc (rw cancelled at c))

conclude-IsSafe :
    (p : ExecuteParams) (env : Surroundings) (b : Close) (x : MarkerParser × Close × List Note)
    → IsUpgrade (check_stop env.stop b) x.1
    → IsSafeEnding env b (conclude p env (is_completed (check_stop env.stop b).state) x)
unfolding conclude
conclude-IsSafe p env b (parser, d, notes) h =
    let (state, code) = explain-state (releases env.reply) d in
    let (stopped, going) = after_stop env.stop b d h in
    record {
      stopped = λ e. (state ∙ (stopped e).0, code ∙ (stopped e).1);
      going = λ e. rw state (going e);
      released = λ e.
          let (r, c) = &&_parts (releases env.reply) (is_completed d.state) e in
          (rw state c, r, not_stopped env.stop b d h c);
      confirmed = λ e. rw state (completed_stays (check_stop env.stop b) d h e);
    }

-- The end of a capture, whatever the bridge and the log file answer: if the stop flag is set it is
-- cancelled, without an exit code; else its state is that of the loop, or completed where the loop
-- ran out of time. It releases the session, and confirms the completion to the bridge, only as
-- completed, and it releases only if the bridge has left nothing unresolved and the flag is not set.
pub end_run-IsSafe :
    (p : ExecuteParams) (env : Surroundings) (c : Capture) (b : Close) (e : Ending)
    → end_run p env c b ≡ some e
    → IsSafeEnding env b e
unfolding end_run
end_run-IsSafe p env c b e h =
    go (flush env c (check_stop env.stop b)) (flush-IsUpgrade env c (check_stop env.stop b)) h
  where
    go :
        (o : Option (MarkerParser × Close × List Note))
        → FlushedIsUpgrade (check_stop env.stop b) o
        → map_option (conclude p env (is_completed (check_stop env.stop b).state)) o ≡ some e
        → IsSafeEnding env b e
    go none u k = absurd (cc k)
    go (some x) u k =
        subst (IsSafeEnding env b)
          (some-injective (conclude p env (is_completed (check_stop env.stop b).state) x) e k)
          (conclude-IsSafe p env b x u)
