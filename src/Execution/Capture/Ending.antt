-- ===== src/Execution/Capture/Ending.antt =====
-- What `run` of src/execution.rs does after its loop: it asks the bridge to end the capture, flushes
-- the log reader, and finishes the job.
use securecrt_mcp.Prelude.{
  ℕ, zero, suc, ◌+◌, Bool, true, false, not, ◌&&◌, List, [], ◌∷◌, ◌++◌, if◌then◌else◌, Option, none,
  some, Result, ok, err, is_empty,
}
use securecrt_mcp.Text.{Text, codes}
use securecrt_mcp.Execution.Job.{State}
use securecrt_mcp.Execution.Params.{ExecuteParams, is_posix, is_snapshot}
use securecrt_mcp.Execution.Marker.{MarkerParser, feed, drain_partial}
use securecrt_mcp.Execution.NativeLog
use securecrt_mcp.Execution.NativeLog.{Reader, FileAnswer, next, limit}
use securecrt_mcp.Execution.Note.{Note, appended, flushed, flush_failed, screen}
use securecrt_mcp.Execution.Registry.{is_completed}
use securecrt_mcp.Execution.Capture.{Capture, Close, is_yes, or_empty}

-- The fields of a reply to `end` that are read.
pub record EndReply : Type 0 where
  pub unresolved : Option Bool
  pub restore_errors : Option (List Text)
  pub released : Option Bool
  pub native_log_stopped : Option Bool

-- What the ending finds: the stop flag, the reply to `end`, the answers of the log file and to its
-- removal, and the reply to `read_screen`.
pub record Surroundings : Type 0 where
  pub stop : Bool
  pub reply : Result Text EndReply
  pub answers : ℕ → FileAnswer
  pub removed : Result Text (Unit {0})
  pub read_screen : Result Text (Option Text)

abbrev is_timed_out : State → Bool
is_timed_out State.timed_out = true
is_timed_out _ = false

-- The test of the stop flag right behind the loop.
unfoldable pub check_stop : Bool → Close → Close
check_stop stop b = if stop then record b { state = State.cancelled; code = none } else b

abbrev nothing_to_restore : Option (List Text) → Bool
nothing_to_restore none = true
nothing_to_restore (some errors) = is_empty errors

abbrev is_no : Option Bool → Bool
is_no (some false) = true
is_no _ = false

-- `release_ok`.
unfoldable pub releases : Result Text EndReply → Bool
releases (err e) = false
releases (ok r) = is_no r.unresolved && nothing_to_restore r.restore_errors

-- The log may be flushed: the bridge has let go of it.
unfoldable pub is_flushable : Result Text EndReply → Bool
is_flushable (err e) = false
is_flushable (ok r) = is_yes r.released && is_yes r.native_log_stopped

pub record Flush : Type 0 where
  pub reader : Reader
  pub parser : MarkerParser
  pub close : Close
  pub notes : List Note
  pub result : Result Text (Unit {0})

-- An end marker in the flush completes a capture that ran out of time, and no other.
unfoldable pub upgrade : Option ℕ → Close → Close
upgrade none b = b
upgrade (some exit) b =
    if is_timed_out b.state
    then record {
      state = State.completed;
      code = some exit;
      reason = codes "POSIX end marker observed in final native log flush";
    }
    else b

abbrev pub unwrap_ok : Result Text Text → Text
unwrap_ok (ok text) = text
unwrap_ok (err e) = []

abbrev pub add_piece : Text → Option Flush → Option Flush
add_piece output none = none
add_piece output (some f) = some (record f { notes = appended output ∷ f.notes })

-- The flush loop, on fuel.
unfoldable pub drain : ℕ → (ℕ → FileAnswer) → ℕ → Reader → MarkerParser → Close → Option Flush
unfolding next feed upgrade
drain zero answers i r parser b = none
drain (suc fuel) answers i r parser b =
    let (s, result) = next true (answers i) r in
    let (q, output, exit) = feed parser (unwrap_ok result) in
    let rest = drain fuel answers (i + 1) s q (upgrade exit b) in
    elim result [
      | err e ↦ some (record { reader = s; parser = parser; close = b; notes = []; result = err e })
      | ok text ↦
          if is_empty text
          then some (record { reader = s; parser = parser; close = b; notes = []; result = ok tt })
          else add_piece output rest
    ]

-- The last piece, and the removal of the file. An end marker in this piece is noted, and changes
-- nothing else.
abbrev failed : Text → Note
failed e = flush_failed (codes "native log final drain/cleanup failed: " ++ e)

unfoldable pub complete_flush : Result Text (Unit {0}) → Flush → Flush
unfolding NativeLog.finish feed
complete_flush removed f =
    let (tail, r) = NativeLog.finish f.reader in
    let (q, output, exit) = feed f.parser tail in
    let last = flushed output q.started q.done r.incomplete in
    elim f.result [
      | err e ↦ record f { notes = f.notes ++ failed e ∷ [] }
      | ok _ ↦ record f {
        reader = r;
        parser = q;
        notes = f.notes ++ last ∷ (elim removed [ ok _ ↦ [] | err e ↦ failed e ∷ [] ]);
      }
    ]

-- A read leaves the reader within its limit or fails, and one without bytes ends the loop.
abbrev pub drain_fuel : ℕ
drain_fuel = limit + 1

abbrev pub map_option {ℓ κ} : {A : Type ℓ} {B : Type κ} → (A → B) → Option A → Option B
map_option f none = none
map_option f (some a) = some (f a)

-- The parser, the close and the notes after the flush, if there is one.
abbrev pub after_flush : Option Flush → Option (MarkerParser × Close × List Note)
after_flush none = none
after_flush (some f) = some (f.parser, f.close, f.notes)

unfoldable pub flush : Surroundings → Capture → Close → Option (MarkerParser × Close × List Note)
unfolding drain is_flushable complete_flush
flush env c b = elim c.log_reader [
  | none ↦ some (c.parser, b, [])
  | some r ↦
      if is_flushable env.reply
      then after_flush
          (map_option (complete_flush env.removed) (drain drain_fuel env.answers 0 r c.parser b))
      else some (c.parser, b, [])
]

-- What the run leaves: its notes, how it finishes the job, and what it has told the bridge.
pub record Ending : Type 0 where
  pub notes : List Note
  pub close : Close
  pub release : Bool
  pub confirmed : Bool

unfoldable pub partial_notes : ExecuteParams → MarkerParser → Close → List Note
unfolding drain_partial
partial_notes p parser b =
    if is_posix p.mode && not (is_completed b.state)
    then appended (drain_partial parser).0 ∷ []
    else []

unfoldable pub screen_notes : ExecuteParams → Result Text (Option Text) → List Note
screen_notes p (err e) = []
screen_notes p (ok text) = if is_snapshot p.mode then screen (or_empty text) ∷ [] else []

unfoldable pub explain : Bool → Close → Close
explain release_ok b =
    if not release_ok && is_completed b.state
    then record b { reason = b.reason ++ codes "; adapter cleanup requires inspection" }
    else b

unfoldable pub conclude :
    ExecuteParams → Surroundings → Bool → MarkerParser × Close × List Note → Ending
unfolding partial_notes screen_notes explain releases
conclude p env confirmed (parser, b, notes) =
    let release_ok = releases env.reply in
    record {
      notes = notes ++ (partial_notes p parser b ++ screen_notes p env.read_screen);
      close = explain release_ok b;
      release = release_ok && is_completed b.state;
      confirmed = confirmed;
    }

-- Everything behind the loop, which has ended with `b`.
unfoldable pub end_run : ExecuteParams → Surroundings → Capture → Close → Option Ending
unfolding check_stop flush conclude
end_run p env c b =
    let d = check_stop env.stop b in
    map_option (conclude p env (is_completed d.state)) (flush env c d)
