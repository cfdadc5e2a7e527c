-- ===== src/Bridge/Frame.antt =====
-- `call_tcp` of src/bridge.rs, the loop that reads one frame, and a reference for it: the first line of
-- all bytes of the stream.
use securecrt_mcp.Prelude.{
  ℕ, suc, ◌+◌, ◌≡◌, refl, sym, ap, ◌∙◌, Bool, true, false, List, [], ◌∷◌, ◌++◌, arith, ltb, ◌==◌,
  if◌then◌else◌, Bool-cases, Option-cases, inl, inr, Option, none, some, All, append_assoc, Result,
  ok, err, is_empty, length, take, drop, length-append,
}
use securecrt_mcp.Text.{Text}
use securecrt_mcp.Bridge.{BridgeError, disconnected, oversized_frame}

abbrev pub max_frame : ℕ
max_frame = 262144

-- The bytes of a buffer up to its first line feed, that one included.
unfoldable pub count : Text → ℕ
count [] = 0
count (b ∷ bytes) = let rest = count bytes in if b == 10 then 1 else suc rest

-- `frame.last() == Some(&b'\n')`.
unfoldable pub is_terminated : Text → Bool
is_terminated [] = false
is_terminated (b ∷ []) = b == 10
is_terminated (b ∷ c ∷ bytes) = is_terminated (c ∷ bytes)

-- The buffers are those of `fill_buf` up to the end of the stream; the result has the frame and what
-- its last buffer holds behind it.
unfoldable pub read_frame : List Text → Text → Result BridgeError (Text × Text)
unfolding count is_terminated
read_frame [] frame = err disconnected
read_frame (buffer ∷ buffers) frame =
    let n = count buffer in
    let next = frame ++ take n buffer in
    let rest = read_frame buffers next in
    if is_empty buffer
    then err disconnected
    else if ltb max_frame (length frame + n)
    then err oversized_frame
    else if is_terminated next
    then ok (next, drop n buffer)
    else rest

abbrev first_line : Text → Option Text
first_line [] = none
first_line (b ∷ bytes) =
    let rest = first_line bytes in
    if b == 10 then some (b ∷ []) else elim rest [ none ↦ none | some line ↦ some (b ∷ line) ]

abbrev concat : List Text → Text
concat [] = []
concat (buffer ∷ buffers) = buffer ++ concat buffers

abbrev pub frame_of : Result BridgeError (Text × Text) → Option Text
frame_of (err _) = none
frame_of (ok (frame, _)) = some frame

-- A line behind a beginning of it, if both fit into a frame.
abbrev limited : Text → Option Text → Option Text
limited frame none = none
limited frame (some line) =
    if ltb max_frame (length frame + length line) then none else some (frame ++ line)

is_terminated-append :
    (frame : Text) (b : ℕ) (bytes : Text)
    → is_terminated (frame ++ b ∷ bytes) ≡ is_terminated (b ∷ bytes)
unfolding is_terminated
is_terminated-append [] b bytes = refl
is_terminated-append (c ∷ []) b bytes = refl
is_terminated-append (c ∷ d ∷ frame) b bytes = is_terminated-append (d ∷ frame) b bytes

is_terminated-cons : (b : ℕ) (l : Text) → is_terminated l ≡ true → is_terminated (b ∷ l) ≡ true
unfolding is_terminated
is_terminated-cons b [] h = cc
is_terminated-cons b (c ∷ l) h = h

-- A buffer with the end of the line.
line_take : (bytes line : Text) → first_line bytes ≡ some line → take (count bytes) bytes ≡ line
unfolding count
line_take [] line h = cc
line_take (b ∷ bytes) line h = elim (Option-cases (first_line bytes)) [
  | inl d ↦ ground arith
  | inr (l, d) ↦ ground (arith, line_take bytes l d)
]

line_length : (bytes line : Text) → first_line bytes ≡ some line → length line ≡ count bytes
unfolding count
line_length [] line h = cc
line_length (b ∷ bytes) line h = elim (Option-cases (first_line bytes)) [
  | inl d ↦ ground arith
  | inr (l, d) ↦ ground (arith, line_length bytes l d)
]

line_ends : (bytes line : Text) → first_line bytes ≡ some line → is_terminated line ≡ true
unfolding is_terminated
line_ends [] line h = cc
line_ends (b ∷ bytes) line h = elim (Option-cases (first_line bytes)) [
  | inl d ↦ ground arith
  | inr (l, d) ↦ ground (arith, is_terminated-cons b l (line_ends bytes l d))
]

-- A buffer without it.
open_take : (bytes : Text) → first_line bytes ≡ none → take (count bytes) bytes ≡ bytes
unfolding count
open_take [] h = refl
open_take (b ∷ bytes) h = ground (arith, open_take bytes)

open_length : (bytes : Text) → first_line bytes ≡ none → count bytes ≡ length bytes
unfolding count
open_length [] h = refl
open_length (b ∷ bytes) h = ground (arith, open_length bytes)

open_goes_on : (bytes : Text) → first_line bytes ≡ none → is_terminated bytes ≡ false
unfolding is_terminated
open_goes_on [] h = refl
open_goes_on (b ∷ []) h = ground arith
open_goes_on (b ∷ c ∷ bytes) h = open_goes_on (c ∷ bytes) (ground arith)

behind : Text → Option Text → Option Text
behind bytes none = none
behind bytes (some line) = some (bytes ++ line)

first_line-append_open :
    (bytes more : Text)
    → first_line bytes ≡ none
    → first_line (bytes ++ more) ≡ behind bytes (first_line more)
unfolding behind
first_line-append_open [] more h = elim (Option-cases (first_line more)) [
  | inl d ↦ ground arith
  | inr (l, d) ↦ ground arith
]
first_line-append_open (b ∷ bytes) more h = elim (Option-cases (first_line more)) [
  | inl d ↦ ground (arith, first_line-append_open bytes more)
  | inr (l, d) ↦ ground (arith, first_line-append_open bytes more)
]

first_line-append :
    (bytes more line : Text) → first_line bytes ≡ some line → first_line (bytes ++ more) ≡ some line
first_line-append [] more line h = cc
first_line-append (b ∷ bytes) more line h = elim (Option-cases (first_line bytes)) [
  | inl d ↦ ground arith
  | inr (l, d) ↦ ground (arith, first_line-append bytes more l d)
]

terminated_behind :
    (frame line : Text) → is_terminated line ≡ true → is_terminated (frame ++ line) ≡ true
unfolding is_terminated
terminated_behind frame [] h = cc
terminated_behind frame (b ∷ line) h = is_terminated-append frame b line ∙ h

limited-behind :
    (frame buffer : Text) (rest : Option Text)
    → limited (frame ++ buffer) rest ≡ limited frame (behind buffer rest)
unfolding behind
limited-behind frame buffer none = refl
limited-behind frame buffer (some line) =
    ground
      (arith, length-append frame buffer, length-append buffer line, append_assoc frame buffer line)

limited-long :
    (frame buffer : Text) (rest : Option Text)
    → ltb max_frame (length frame + length buffer) ≡ true
    → limited frame (behind buffer rest) ≡ none
unfolding behind
limited-long frame buffer none h = refl
limited-long frame buffer (some line) h = ground (arith, length-append buffer line)

-- What one buffer makes of the frame; `n` and `part` are its bytes up to a line feed.
frame_of-if :
    (long ends : Bool) (e : BridgeError) (next rest_bytes : Text)
    (rest : Result BridgeError (Text × Text))
    → frame_of (if long then err e else if ends then ok (next, rest_bytes) else rest)
      ≡ (if long then none else if ends then some next else frame_of rest)
frame_of-if true ends e next rest_bytes rest = refl
frame_of-if false true e next rest_bytes rest = refl
frame_of-if false false e next rest_bytes rest = refl

shown : List Text → Text → ℕ × Text → Option Text
shown buffers frame (n, part) =
    let rest = frame_of (read_frame buffers (frame ++ part)) in
    if ltb max_frame (length frame + n)
    then none
    else if is_terminated (frame ++ part)
    then some (frame ++ part)
    else rest

read_buffer :
    (b : ℕ) (bytes : Text) (buffers : List Text) (frame part : Text) (n : ℕ)
    → count (b ∷ bytes) ≡ n
    → take n (b ∷ bytes) ≡ part
    → frame_of (read_frame ((b ∷ bytes) ∷ buffers) frame) ≡ shown buffers frame (n, part)
unfolding read_frame shown
read_buffer b bytes buffers frame part n size cut =
    let k = count (b ∷ bytes) in
    let next = frame ++ take k (b ∷ bytes) in
    frame_of-if (ltb max_frame (length frame + k)) (is_terminated next) oversized_frame next
      (drop k (b ∷ bytes)) (read_frame buffers next)
    ∙ ap (shown buffers frame) (ap (λ i. (i, take i (b ∷ bytes))) size ∙ ap (λ t. (n, t)) cut)

shown_last :
    (buffers : List Text) (frame line : Text)
    → is_terminated line ≡ true
    → shown buffers frame (length line, line) ≡ limited frame (some line)
unfolding shown
shown_last buffers frame line h = ground (arith, terminated_behind frame line h)

shown_on :
    (b : ℕ) (bytes : Text) (buffers : List Text) (frame : Text) (rest : Option Text)
    → is_terminated (b ∷ bytes) ≡ false
    → frame_of (read_frame buffers (frame ++ b ∷ bytes)) ≡ limited (frame ++ b ∷ bytes) rest
    → shown buffers frame (length (b ∷ bytes), b ∷ bytes) ≡ limited frame (behind (b ∷ bytes) rest)
unfolding shown
shown_on b bytes buffers frame rest h e =
    let goes_on = is_terminated-append frame b bytes ∙ h in
    elim (Bool-cases (ltb max_frame (length frame + length (b ∷ bytes)))) [
      | inl d ↦ rw (d, limited-long frame (b ∷ bytes) rest d) refl
      | inr d ↦ rw (d, goes_on) (e ∙ limited-behind frame (b ∷ bytes) rest)
    ]

-- However the stream is cut into buffers that are not empty, the frame that is read is the first line
-- of its bytes, behind the part that is already there; and there is none exactly if the stream has no
-- line feed or the line with that part is longer than a frame.
pub read_frame-first_line :
    (buffers : List Text) (frame : Text)
    → All (λ buffer. is_empty buffer ≡ false) buffers
    → frame_of (read_frame buffers frame) ≡ limited frame (first_line (concat buffers))
unfolding read_frame
read_frame-first_line [] frame h = refl
read_frame-first_line ([] ∷ buffers) frame h = absurd (ground (arith, h.0))
read_frame-first_line ((b ∷ bytes) ∷ buffers) frame h =
    let buffer = b ∷ bytes in
    let more = concat buffers in
    elim (Option-cases (first_line buffer)) [
      | inr (line, e) ↦
          let size = line_length buffer line e in
          read_buffer b bytes buffers frame line (length line) (sym size)
            (ap (λ n. take n buffer) size ∙ line_take buffer line e)
          ∙ shown_last buffers frame line (line_ends buffer line e)
          ∙ sym (ap (limited frame) (first_line-append buffer more line e))
      | inl e ↦
          let size = open_length buffer e in
          read_buffer b bytes buffers frame buffer (length buffer) size
            (ap (λ n. take n buffer) (sym size) ∙ open_take buffer e)
          ∙ shown_on b bytes buffers frame (first_line more) (open_goes_on buffer e)
              (read_frame-first_line buffers (frame ++ buffer) h.1)
          ∙ sym (ap (limited frame) (first_line-append_open buffer more e))
    ]
