-- ===== src/Execution/Capture/Reading.antt =====
-- The log reader of the capture loop stays settled from turn to turn.
use securecrt_mcp.Prelude.{
  ℕ, ◌≡◌, refl, sym, List, [], ◌∷◌, arith, Option, none, some, Result, ok, err, ◌>>◌, subst,
}
use securecrt_mcp.Text.{Text, codes}
use securecrt_mcp.Execution.Params.{ExecuteParams}
use securecrt_mcp.Execution.NativeLog
use securecrt_mcp.Execution.NativeLog.{
  Reader, FileAnswer, limit, next, next_batch, with_session_encoding,
}
use securecrt_mcp.Execution.NativeLog.Settled.{IsSettled, next_batch-IsSettled, new-IsSettled}
use securecrt_mcp.Execution.Note.{Note}
use securecrt_mcp.Execution.Capture.{
  Capture, Close, Reply, LogFile, Turn, reader_for, read_log, chunk_of, watch_prompt, add_chunk,
  cut_line, watch, judge, consume, receive, turn, loop, add_note, lost, parse, is_yes, or_empty,
  keep_reader, is_session_log,
}

-- The reader of the loop, if there is one.
abbrev pub ReaderIsSettled : Option Reader → Type 0
ReaderIsSettled none = Unit
ReaderIsSettled (some r) = IsSettled r

abbrev FoundIsSettled : Result Text Reader → Type 0
FoundIsSettled (err e) = Unit
FoundIsSettled (ok r) = IsSettled r

reader_for-IsSettled :
    (file : LogFile) (transport : Option Text) (reader : Option Reader)
    → ReaderIsSettled reader
    → FoundIsSettled (reader_for file transport reader)
unfolding reader_for
reader_for-IsSettled file transport (some r) h = h
reader_for-IsSettled file transport none h = go file.owned
  where
    go :
        (owned : Result Text (Unit {0}))
        → FoundIsSettled
            (owned >> ok (with_session_encoding (is_session_log transport) NativeLog.new))
    go (err e) = tt
    go (ok u) = new-IsSettled (is_session_log transport)

read_log-IsSettled :
    (p : ExecuteParams) (file : LogFile) (reply : Reply) (reader : Option Reader)
    → ReaderIsSettled reader
    → ReaderIsSettled (read_log p file reply reader).0
unfolding read_log
read_log-IsSettled p file reply reader h = ground (
  arith,
  h,
  go (reader_for file reply.transport reader) (reader_for-IsSettled file reply.transport reader h),
)
  where
    go :
        (x : Result Text Reader)
        → FoundIsSettled x
        → ReaderIsSettled
            (elim x as (λ _. Option Reader × Result Text Text) [
              | err e ↦ (reader, err e)
              | ok r ↦ keep_reader (next_batch (is_yes reply.native_log_stopped) file.answers r)
            ]).0
    go (err e) w = h
    go (ok r) w = next_batch-IsSettled (is_yes reply.native_log_stopped) file.answers r w

chunk_of-IsSettled :
    (p : ExecuteParams) (reply : Reply) (reader : Option Reader)
    → ReaderIsSettled reader
    → ReaderIsSettled (chunk_of p reply reader).0
unfolding chunk_of
chunk_of-IsSettled p reply reader h = go reply.log_file
  where
    go :
        (o : Option LogFile)
        → ReaderIsSettled
            (elim o as (λ _. Option Reader × Result Text Text) [
              | none ↦ (reader, ok (or_empty reply.text))
              | some file ↦ read_log p file reply reader
            ]).0
    go none = h
    go (some file) = read_log-IsSettled p file reply reader h

judge-reader :
    (p : ExecuteParams) (settle settled : ℕ) (reply : Reply) (chunk : Text) (exit : Option ℕ)
    (c : Capture)
    → (judge p settle settled reply chunk exit c).0.log_reader ≡ c.log_reader
unfolding judge watch watch_prompt cut_line add_chunk
judge-reader p settle settled reply chunk (some exit) c = refl
judge-reader p settle settled reply chunk none c = ground arith

abbrev TurnIsSettled : Capture × Option Note × Option Close → Type 0
TurnIsSettled x = ReaderIsSettled x.0.log_reader

receive-IsSettled :
    (p : ExecuteParams) (settle settled : ℕ) (reply : Reply) (c : Capture)
    → ReaderIsSettled c.log_reader
    → TurnIsSettled (receive p settle settled reply c)
unfolding receive consume
receive-IsSettled p settle settled reply c h =
    go (chunk_of p reply c.log_reader) (chunk_of-IsSettled p reply c.log_reader h)
  where
    go :
        (x : Option Reader × Result Text Text)
        → ReaderIsSettled x.0
        → TurnIsSettled (elim x.1 [
          | err e ↦ (
            record c { log_reader = x.0 },
            none,
            some (lost (codes "native log capture lost: ") e),
          )
          | ok chunk ↦ consume p settle settled reply chunk (record c { log_reader = x.0 })
        ])
    go (reader, err e) w = w
    go (reader, ok chunk) w =
        let (q, output, exit) = parse p c.parser chunk in
        subst ReaderIsSettled
          (sym (
            judge-reader p settle settled reply chunk exit
              (record c { log_reader = reader; parser = q })))
          w

turn-IsSettled :
    (p : ExecuteParams) (timeout settle : ℕ) (t : Turn) (c : Capture)
    → ReaderIsSettled c.log_reader
    → TurnIsSettled (turn p timeout settle t c)
unfolding turn
turn-IsSettled p timeout settle t c h = ground (arith, h, answered t.response)
  where
    answered :
        (r : Result Text Reply)
        → TurnIsSettled (elim r [
          | err e ↦ (c, none, some (lost (codes "capture lost: ") e))
          | ok reply ↦ receive p settle t.settled reply c
        ])
    answered (err e) = h
    answered (ok reply) = receive-IsSettled p settle t.settled reply c h

abbrev LoopIsSettled : Capture × List Note × Option Close → Type 0
LoopIsSettled x = ReaderIsSettled x.0.log_reader

add_note-IsSettled :
    (entry : Option Note) (x : Capture × List Note × Option Close)
    → LoopIsSettled x
    → LoopIsSettled (add_note entry x)
add_note-IsSettled none x h = h
add_note-IsSettled (some note) x h = h

pub loop-IsSettled :
    (p : ExecuteParams) (timeout settle : ℕ) (turns : List Turn) (c : Capture)
    → ReaderIsSettled c.log_reader
    → ReaderIsSettled (loop p timeout settle turns c).0.log_reader
unfolding loop
loop-IsSettled p timeout settle [] c h = h
loop-IsSettled p timeout settle (t ∷ ts) c h =
    go (turn p timeout settle t c) (turn-IsSettled p timeout settle t c h)
      (loop-IsSettled p timeout settle ts)
  where
    go :
        (x : Capture × Option Note × Option Close)
        → TurnIsSettled x
        → ((d : Capture)
            → ReaderIsSettled d.log_reader
            → LoopIsSettled (loop p timeout settle ts d))
        → LoopIsSettled (
            add_note x.1
              (elim x.2 [ some b ↦ (x.0, [], some b) | none ↦ loop p timeout settle ts x.0 ]))
    go (d, entry, none) w rest = add_note-IsSettled entry _ (rest d w)
    go (d, entry, some b) w rest = add_note-IsSettled entry (d, [], some b) w
