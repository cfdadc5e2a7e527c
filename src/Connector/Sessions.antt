-- ===== src/Connector/Sessions.antt =====
-- The sessions of `ConnectorManager` in src/connector.rs: opening, raw input, interrupt,
-- acknowledgement and closing. What `ssh` and the terminal answer is the argument of each operation.
use securecrt_mcp.Prelude.{
  ℕ, Bool, true, false, not, ◌&&◌, ◌||◌, [], ◌∷◌, ◌++◌, ltb, leb, ◌==◌, if◌then◌else◌, Option, none,
  some, Result, ok, err, ◌>>=◌, ◌>>◌, ensure, context, unwrap_or, is_empty, any,
}
use securecrt_mcp.Text.{Text, len, is_control, is_whitespace, starts_with, strip_prefix, codes}
use securecrt_mcp.Assoc.{Assoc, lookup, insert, remove, modify, size}
use securecrt_mcp.Policy.{PolicyEngine}
use securecrt_mcp.Config.{within}
use securecrt_mcp.Connector.Buffer
use securecrt_mcp.Connector.Buffer.{RingBuffer}
use securecrt_mcp.Connector.Guard.{GuardError, guard_raw, guard_interrupt}

-- `SessionTransport`: a shell with its interlock, or a terminal with its buffer.
pub data Transport : Type 0 where
  exec : Bool → Transport
  pty : RingBuffer → Transport

pub record Session : Type 0 where
  pub target : Text
  pub transport : Transport

pub data SessionError : Type 0 where
  wrong_backend invalid_target invalid_config_path session_limit unknown_session : SessionError
  not_pty invalid_input not_unresolved not_confirmed invalid_size : SessionError
  invalid_max_bytes invalid_wait : SessionError
  guarded : GuardError → SessionError
  failed : Text → SessionError

unfoldable pub validate_target : Text → Bool
unfolding starts_with len is_control is_whitespace
validate_target target =
    not (is_empty target)
    && not (starts_with target (codes "-"))
    && leb (len target) 512
    && not (any (λ c. is_control c || is_whitespace c) target)

unfoldable pub validate_text : Text → Bool
unfolding len
validate_text text = not (is_empty text) && leb (len text) 8192 && not (any (λ c. c == 0) text)

-- `open`; `id` is the name that it draws and `spawned` what starting the process comes to.
pub record OpenParams : Type 0 where
  pub is_openssh : Bool
  pub target : Text
  pub config_path : Option Text
  pub is_pty : Bool

abbrev is_path : Option Text → Bool
is_path none = true
is_path (some path) = not (is_empty path) && leb (len path) 4096

unfoldable pub check_open : OpenParams → Assoc Session → Result SessionError (Unit {0})
unfolding validate_target size
check_open p sessions =
    ensure p.is_openssh wrong_backend
    >> ensure (validate_target p.target) invalid_target
    >> ensure (is_path p.config_path) invalid_config_path
    >> ensure (ltb (size sessions) 128) session_limit

unfoldable pub new_session : OpenParams → Session
unfolding Buffer.new
new_session p = record {
  target = p.target;
  transport = if p.is_pty then pty Buffer.new else exec false;
}

unfoldable pub open_session :
    OpenParams
    → Text
    → Result Text (Unit {0})
    → Assoc Session
    → Assoc Session × Result SessionError Text
unfolding check_open new_session insert
open_session p id spawned sessions = elim (check_open p sessions) [
  | err e ↦ (sessions, err e)
  | ok _ ↦ elim spawned [
    | err e ↦ (sessions, err (failed e))
    | ok _ ↦ (insert id (new_session p) sessions, ok id)
  ]
]

unfoldable pub session_of : Text → Assoc Session → Result SessionError Session
unfolding lookup
session_of id sessions = context (lookup id sessions) unknown_session

abbrev from_guard : Result GuardError (Unit {0}) → Result SessionError (Unit {0})
from_guard (ok _) = ok tt
from_guard (err e) = err (guarded e)

abbrev pub pty_of : Session → Result SessionError RingBuffer
pty_of s = elim s.transport [ exec unresolved ↦ err not_pty | pty buffer ↦ ok buffer ]

-- The byte that an interrupt is.
abbrev pub interrupt_bytes : Text
interrupt_bytes = 3 ∷ []

module _ {ℓ} {Regex : Type ℓ} (regex : Text → Option Regex) (is_match : Regex → Text → Bool)
    (engine : PolicyEngine Regex) where
  -- `write` up to the terminal: the text that is written there.
  unfoldable pub write :
      Text → Text → Option Bool → Result Text (Unit {0}) → Assoc Session → Result SessionError Text
  unfolding validate_text guard_raw session_of
  write id text append_enter audit sessions =
      ensure (validate_text text) invalid_input
      >> from_guard (guard_raw regex is_match engine audit)
      >> (session_of id sessions >>= pty_of)
      >> ok (if unwrap_or append_enter false then text ++ 13 ∷ [] else text)

  -- `interrupt`: a terminal takes it at any time, a shell only while its command is unresolved.
  abbrev pub interruptible : Session → Result SessionError (Unit {0})
  interruptible s = elim s.transport [
    | pty buffer ↦ ok tt
    | exec unresolved ↦ ensure unresolved not_unresolved
  ]

  unfoldable pub interrupt :
      Text → Result Text (Unit {0}) → Assoc Session → Result SessionError Text
  unfolding guard_interrupt session_of
  interrupt id audit sessions =
      from_guard (guard_interrupt regex is_match engine audit)
      >> (session_of id sessions >>= interruptible)
      >> ok interrupt_bytes

unfoldable pub resize : Text → ℕ → ℕ → Assoc Session → Result SessionError (ℕ × ℕ)
unfolding session_of
resize id rows cols sessions =
    ensure (ltb 0 rows && ltb 0 cols) invalid_size
    >> (session_of id sessions >>= pty_of)
    >> ok (rows, cols)

abbrev pub resolve : Session → Session
resolve s = record s {
  transport = elim s.transport [ exec unresolved ↦ exec false | pty buffer ↦ pty buffer ];
}

unfoldable pub acknowledge :
    Bool → Text → Assoc Session → Assoc Session × Result SessionError (Unit {0})
unfolding session_of modify
acknowledge confirmed_idle id sessions =
    elim (ensure confirmed_idle not_confirmed >> session_of id sessions) [
      | err e ↦ (sessions, err e)
      | ok s ↦ (modify id resolve sessions, ok tt)
    ]

unfoldable pub close_session : Text → Assoc Session → Assoc Session × Result SessionError (Unit {0})
unfolding session_of remove
close_session id sessions = elim (session_of id sessions) [
  | err e ↦ (sessions, err e)
  | ok s ↦ (remove id sessions, ok tt)
]

-- One turn of `stream_read`: a page with bytes, of a closed buffer, or whatever there is in time.
unfoldable pub stream_turn : ℕ → ℕ → RingBuffer → Bool → Option Buffer.Page
unfolding Buffer.page
stream_turn cursor max_bytes buffer is_late =
    let p = Buffer.page buffer cursor max_bytes in
    if not (is_empty p.bytes) || p.completed || is_late then some p else none

-- `stream_read` up to its loop: the buffer, the cursor and the number of bytes of a page.
unfoldable pub check_stream :
    Text → Option ℕ → Option ℕ → Option ℕ → Assoc Session → Result SessionError (ℕ × ℕ)
unfolding strip_prefix session_of
check_stream command_id cursor max_bytes wait_ms sessions =
    let count = unwrap_or max_bytes 16384 in
    let id = unwrap_or (strip_prefix command_id (codes "stream:")) command_id in
    ensure (within 4 65536 count) invalid_max_bytes
    >> (session_of id sessions >>= pty_of)
    >> ensure (leb (unwrap_or wait_ms 1000) 60000) invalid_wait
    >> ok (unwrap_or cursor 0, count)
