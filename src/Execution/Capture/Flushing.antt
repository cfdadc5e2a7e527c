-- ===== src/Execution/Capture/Flushing.antt =====
-- The flush loop behind the capture loop ends on its fuel, whatever the log file answers.
use securecrt_mcp.Prelude.{
  ℕ, zero, suc, ◌+◌, ◌-◌, ◌<◌, ◌≡◌, refl, true, List, [], ◌∷◌, arith, if◌then◌else◌, Option, none,
  some, Result, ok, err, is_some, is_empty,
}
use securecrt_mcp.Text.{Text}
use securecrt_mcp.Execution.Params.{ExecuteParams}
use securecrt_mcp.Execution.Marker.{MarkerParser, feed}
use securecrt_mcp.Execution.NativeLog.{Reader, FileAnswer, limit, next}
use securecrt_mcp.Execution.NativeLog.Settled.{IsSettled, IsStep, next-IsStep}
use securecrt_mcp.Execution.Note.{Note}
use securecrt_mcp.Execution.Capture.{Capture, Close, Turn, loop, start}
use securecrt_mcp.Execution.Capture.Reading.{ReaderIsSettled, loop-IsSettled}
use securecrt_mcp.Execution.Capture.Ending.{
  Flush, Ending, Surroundings, upgrade, add_piece, unwrap_ok, drain, drain_fuel, flush, check_stop,
  end_run, after_flush, map_option, complete_flush, is_flushable,
}

add_piece_some :
    (output : Text) (f : Option Flush) → is_some f ≡ true → is_some (add_piece output f) ≡ true
add_piece_some output none h = absurd (cc h)
add_piece_some output (some f) h = refl

-- Each piece with a text uses up bytes of the limit.
pub drain_total :
    (fuel : ℕ) (answers : ℕ → FileAnswer) (i : ℕ) (r : Reader) (parser : MarkerParser) (b : Close)
    → IsSettled r
    → limit - r.read < fuel
    → is_some (drain fuel answers i r parser b) ≡ true
unfolding drain
drain_total zero answers i r parser b h f = absurd (omega arith)
drain_total (suc fuel) answers i r parser b h f =
    go (next true (answers i) r) (next-IsStep true (answers i) r h)
      (drain_total fuel answers (i + 1))
  where
    go :
        (x : Reader × Result Text Text)
        → IsStep r.read x
        → ((s : Reader) (q : MarkerParser) (d : Close)
            → IsSettled s
            → limit - s.read < fuel
            → is_some (drain fuel answers (i + 1) s q d) ≡ true)
        → let y = feed parser (unwrap_ok x.1) in
          is_some (elim x.1 as (λ _. Option Flush) [
            | err e ↦
                some
                  (record { reader = x.0; parser = parser; close = b; notes = []; result = err e })
            | ok text ↦
                if is_empty text
                then some (record {
                  reader = x.0;
                  parser = parser;
                  close = b;
                  notes = [];
                  result = ok tt;
                })
                else add_piece y.1 (drain fuel answers (i + 1) x.0 y.0 (upgrade y.2 b))
          ])
          ≡ true
    go (s, err e) w rest = refl
    go (s, ok []) w rest = refl
    go (s, ok (c ∷ text)) (w, (lo, hi)) rest =
        let (q, output, exit) = feed parser (c ∷ text) in
        add_piece_some output (drain fuel answers (i + 1) s q (upgrade exit b))
          (rest s q (upgrade exit b) w (omega (arith, lo, hi, f)))

flush_some :
    (env : Surroundings) (c : Capture) (b : Close)
    → ReaderIsSettled c.log_reader
    → is_some (flush env c b) ≡ true
unfolding flush
flush_some env c b h = go c.log_reader h
  where
    after_some :
        (o : Option Flush)
        → is_some o ≡ true
        → is_some (after_flush (map_option (complete_flush env.removed) o)) ≡ true
    after_some none e = absurd (cc e)
    after_some (some f) e = refl

    go :
        (reader : Option Reader)
        → ReaderIsSettled reader
        → is_some (elim reader as (λ _. Option (MarkerParser × Close × List Note)) [
          | none ↦ some (c.parser, b, [])
          | some r ↦
              if is_flushable env.reply
              then after_flush (
                  map_option
                    (complete_flush env.removed)
                    (drain drain_fuel env.answers 0 r c.parser b))
              else some (c.parser, b, [])
        ])
          ≡ true
    go none w = refl
    go (some r) w = ground (
      arith,
      after_some (drain drain_fuel env.answers 0 r c.parser b)
          (drain_total drain_fuel env.answers 0 r c.parser b w (omega arith)),
    )

map_some :
    (f : MarkerParser × Close × List Note → Ending) (o : Option (MarkerParser × Close × List Note))
    → is_some o ≡ true
    → is_some (map_option f o) ≡ true
map_some f none e = absurd (cc e)
map_some f (some x) e = refl

-- Whatever the loop has read and however it closed, what follows it ends as well: its fuel is enough
-- for the flush of the log reader, whatever the log file answers.
pub end_run_total :
    (p : ExecuteParams) (timeout settle : ℕ) (turns : List Turn) (begin end : Text)
    (env : Surroundings) (b : Close)
    → is_some (end_run p env (loop p timeout settle turns (start begin end)).0 b) ≡ true
unfolding end_run
end_run_total p timeout settle turns begin end env b =
    let d = check_stop env.stop b in
    let c = (loop p timeout settle turns (start begin end)).0 in
    map_some _ (flush env c d) (
      flush_some env c d
        (loop-IsSettled p timeout settle turns (start begin end) (unfold start in tt)))
