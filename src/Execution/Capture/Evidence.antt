-- ===== src/Execution/Capture/Evidence.antt =====
-- What a capture that closes as completed has seen.
use securecrt_mcp.Prelude.{
  ℕ, ◌≡◌, refl, Bool, true, not, ◌&&◌, ◌||◌, List, [], ◌∷◌, ◌++◌, arith, Option, none, some, Result,
  ok, err, is_empty, if_holds,
}
use securecrt_mcp.Text.{
  Text, codes, eq_text, ends_with, trim_end_matches, after_last, after_last_from,
}
use securecrt_mcp.Execution.Job.{State}
use securecrt_mcp.Execution.Params.{ExecuteParams, is_posix, is_prompt}
use securecrt_mcp.Execution.Marker.Done.{IsDone, feed-IsDone}
use securecrt_mcp.Execution.Marker.{MarkerParser, feed, literal_prompt_observed, newline}
use securecrt_mcp.Execution.NativeLog.{Reader}
use securecrt_mcp.Execution.Note.{Note}
use securecrt_mcp.Execution.Capture.{
  Capture, Close, Reply, Turn, parse, prompt_observed, is_prompt_line, add_chunk, cut_line,
  watch_prompt, watch, judge, consume, receive, turn, loop, or_empty, chunk_of, add_note, lost,
}

-- A prompt is waited for behind output only.
abbrev pub IsFed : Capture → Type 0
IsFed c = (is_empty c.prompt_tail || c.prompt_progress) ≡ true

-- A completion with an exit code rests on the end marker of the POSIX mode; one without on output in
-- the prompt mode; no other close is one of an active or rejected job, or has a code.
abbrev pub IsEvident : ExecuteParams → Capture → State → Option ℕ → Type 0
IsEvident p c State.completed (some code) = (is_posix p.mode ≡ true) × (c.parser.done ≡ true)
IsEvident p c State.completed none = (is_prompt p.mode ≡ true) × (c.prompt_progress ≡ true)
IsEvident p c State.timed_out none = Unit
IsEvident p c State.cancelled none = Unit
IsEvident p c State.unknown none = Unit
IsEvident p c _ _ = ⊥

abbrev pub CloseIsEvident : ExecuteParams → Capture → Option Close → Type 0
CloseIsEvident p c none = IsFed c
CloseIsEvident p c (some b) = IsEvident p c b.state b.code

fed_more :
    (tail chunk : Text) (progress : Bool)
    → (is_empty tail || progress) ≡ true
    → (is_empty (tail ++ chunk) || (progress || not (is_empty chunk))) ≡ true
fed_more [] [] progress h = refl
fed_more [] (c ∷ chunk) progress h = ground arith
fed_more (t ∷ tail) chunk progress h = ground arith

add_chunk-IsFed : (chunk : Text) (c : Capture) → IsFed c → IsFed (add_chunk chunk c)
unfolding add_chunk
add_chunk-IsFed chunk c h = fed_more c.prompt_tail chunk c.prompt_progress h

fed_line :
    (tail : Text) (progress : Bool)
    → (is_empty tail || progress) ≡ true
    → (is_empty (after_last newline tail) || progress) ≡ true
unfolding after_last after_last_from
fed_line [] progress h = refl
fed_line (t ∷ tail) progress h = ground arith

-- An empty tail does not end with a prompt.
fed_prompt :
    (wait_for tail : Text) (progress line : Bool)
    → (is_empty tail || progress) ≡ true
    → (literal_prompt_observed tail wait_for || (progress && line)) ≡ true
    → progress ≡ true
unfolding literal_prompt_observed ends_with trim_end_matches eq_text
fed_prompt wait_for (t ∷ tail) progress line h e = ground arith
fed_prompt [] [] progress line h e = ground arith
fed_prompt (w ∷ wait_for) [] progress line h e = ground arith

abbrev IsWell : ExecuteParams → Capture × Option Close → Type 0
IsWell p x = CloseIsEvident p x.0 x.1

watch_prompt-IsWell :
    (p : ExecuteParams) (reply : Reply) (chunk : Text) (c : Capture)
    → is_prompt p.mode ≡ true
    → IsFed c
    → IsWell p (watch_prompt p reply chunk c)
unfolding watch_prompt cut_line prompt_observed
watch_prompt-IsWell p reply chunk c m h =
    let d = add_chunk chunk c in
    let fed = add_chunk-IsFed chunk c h in
    let line = fed_line d.prompt_tail d.prompt_progress fed in
    let wait_for = or_empty p.wait_for in
    ground (
      arith,
      m,
      line,
      fed_prompt wait_for d.prompt_tail d.prompt_progress
          (is_prompt_line wait_for reply.current_line) fed,
    )

watch-IsWell :
    (p : ExecuteParams) (settle settled : ℕ) (reply : Reply) (chunk : Text) (c : Capture)
    → IsFed c
    → IsWell p (watch p settle settled reply chunk c)
unfolding watch
watch-IsWell p settle settled reply chunk c h = ground (arith, watch_prompt-IsWell p reply chunk c)

abbrev IsParsed : ExecuteParams → MarkerParser → Option ℕ → Type 0
IsParsed p parser none = Unit
IsParsed p parser (some exit) = (is_posix p.mode ≡ true) × (parser.done ≡ true)

judge-IsWell :
    (p : ExecuteParams) (settle settled : ℕ) (reply : Reply) (chunk : Text) (exit : Option ℕ)
    (c : Capture)
    → IsParsed p c.parser exit
    → IsFed c
    → IsWell p (judge p settle settled reply chunk exit c)
unfolding judge
judge-IsWell p settle settled reply chunk (some exit) c d h = d
judge-IsWell p settle settled reply chunk none c d h =
    ground (arith, watch-IsWell p settle settled reply chunk c h)

feed-IsParsed :
    (p : ExecuteParams) (x : MarkerParser × Text × Option ℕ)
    → is_posix p.mode ≡ true
    → IsDone x
    → IsParsed p x.0 x.2
feed-IsParsed p (q, out, none) m h = tt
feed-IsParsed p (q, out, some exit) m h = (m, h)

parse-IsParsed :
    (p : ExecuteParams) (parser : MarkerParser) (chunk : Text)
    → let (q, output, exit) = parse p parser chunk in IsParsed p q exit
unfolding parse
parse-IsParsed p parser chunk =
    if_holds {A = MarkerParser × Text × Option ℕ} (λ x. IsParsed p x.0 x.2) (is_posix p.mode)
      (feed parser chunk) (parser, chunk, none)
      (λ m. feed-IsParsed p (feed parser chunk) m (feed-IsDone parser chunk)) (λ _. tt)

-- One turn, with or without a note.
abbrev TurnIsWell : ExecuteParams → Capture × Option Note × Option Close → Type 0
TurnIsWell p x = CloseIsEvident p x.0 x.2

receive-IsWell :
    (p : ExecuteParams) (settle settled : ℕ) (reply : Reply) (c : Capture)
    → IsFed c
    → TurnIsWell p (receive p settle settled reply c)
unfolding receive consume
receive-IsWell p settle settled reply c h = go (chunk_of p reply c.log_reader)
  where
    go :
        (x : Option Reader × Result Text Text)
        → TurnIsWell p (elim x.1 [
          | err e ↦ (
            record c { log_reader = x.0 },
            none,
            some (lost (codes "native log capture lost: ") e),
          )
          | ok chunk ↦ consume p settle settled reply chunk (record c { log_reader = x.0 })
        ])
    go (reader, err e) = tt
    go (reader, ok chunk) =
        let d : Capture = record c { log_reader = reader } in
        let (q, output, exit) = parse p c.parser chunk in
        judge-IsWell p settle settled reply chunk exit (record d { parser = q })
          (parse-IsParsed p c.parser chunk) h

turn-IsWell :
    (p : ExecuteParams) (timeout settle : ℕ) (t : Turn) (c : Capture)
    → IsFed c
    → TurnIsWell p (turn p timeout settle t c)
unfolding turn
turn-IsWell p timeout settle t c h = ground (arith, answered t.response)
  where
    answered :
        (r : Result Text Reply)
        → TurnIsWell p (elim r [
          | err e ↦ (c, none, some (lost (codes "capture lost: ") e))
          | ok reply ↦ receive p settle t.settled reply c
        ])
    answered (err e) = tt
    answered (ok reply) = receive-IsWell p settle t.settled reply c h

abbrev pub LoopIsEvident : ExecuteParams → Capture × List Note × Option Close → Type 0
LoopIsEvident p (c, notes, close) = CloseIsEvident p c close

add_note-IsEvident :
    (p : ExecuteParams) (entry : Option Note) (x : Capture × List Note × Option Close)
    → LoopIsEvident p x
    → LoopIsEvident p (add_note entry x)
add_note-IsEvident p none x h = h
add_note-IsEvident p (some note) x h = h

-- When the loop closes as completed, it has seen the end marker, with an exit code in the POSIX
-- mode, or output since the command was sent, in the prompt mode. No other close has an exit code,
-- and none is of an active or a rejected job.
pub loop-IsEvident :
    (p : ExecuteParams) (timeout settle : ℕ) (turns : List Turn) (c : Capture)
    → IsFed c
    → LoopIsEvident p (loop p timeout settle turns c)
unfolding loop
loop-IsEvident p timeout settle [] c h = h
loop-IsEvident p timeout settle (t ∷ ts) c h =
    go (turn p timeout settle t c) (turn-IsWell p timeout settle t c h)
      (loop-IsEvident p timeout settle ts)
  where
    go :
        (x : Capture × Option Note × Option Close)
        → TurnIsWell p x
        → ((d : Capture) → IsFed d → LoopIsEvident p (loop p timeout settle ts d))
        → LoopIsEvident p (
            add_note x.1
              (elim x.2 [ some b ↦ (x.0, [], some b) | none ↦ loop p timeout settle ts x.0 ]))
    go (d, entry, none) w rest = add_note-IsEvident p entry _ (rest d w)
    go (d, entry, some b) w rest = add_note-IsEvident p entry (d, [], some b) w
