-- ===== src/Execution/NativeLog.antt =====
-- `Reader` of src/execution/native_log.rs: an owned log file read in pieces and decoded as UTF-8 or
-- UTF-16, by its byte order mark. What the file answers is the argument of each call.
pub mod Utf16
pub mod Chunks
pub mod Bounds
pub mod Settled
use securecrt_mcp.Prelude.{
  ℕ, zero, suc, ◌+◌, ◌-◌, ◌*◌, Bool, true, false, not, ◌&&◌, ◌||◌, List, [], ◌∷◌, ◌++◌, ltb, leb,
  ◌==◌, if◌then◌else◌, is_empty, Option, none, some, Result, ok, err, length, drop,
}
use securecrt_mcp.Text.{Text, codes, starts_with}
use securecrt_mcp.Bytes
use securecrt_mcp.Bytes.{
  Bytes, Front, short, char, invalid, unit, is_high, is_low, front_utf8, decode_from,
}

-- `Some(0)`, `Some(1)` and `Some(2)` of the field `encoding`.
pub data Encoding : Type 0 where
  utf8 utf16_le utf16_be : Encoding

pub record Reader : Type 0 where
  pub is_open : Bool
  pub read : ℕ
  pub pending : Bytes
  pub encoding : Option Encoding
  pub incomplete : Bool

unfoldable pub new : Reader
new = record { is_open = false; read = 0; pending = []; encoding = some utf8; incomplete = false }

unfoldable pub with_session_encoding : Bool → Reader → Reader
with_session_encoding enabled r = if enabled then record r { encoding = none } else r

-- One turn of the loop of `decode_utf16`, at a first byte and those behind it.
abbrev pub is_little : Encoding → Bool
is_little utf16_le = true
is_little _ = false

unfoldable pub front_pair : Bool → ℕ → Bytes → Front
unfolding unit
front_pair little first (c ∷ d ∷ _) =
    let second = unit little c d in
    if is_low second
    then char (0x10000 + (first - 0xd800) * 1024 + (second - 0xdc00)) 3
    else invalid 1
front_pair little first _ = short

unfoldable pub front_utf16 : Bool → ℕ → Bytes → Front
unfolding unit front_pair
front_utf16 little a [] = short
front_utf16 little a (b ∷ rest) =
    let first = unit little a b in
    if is_high first
    then front_pair little first rest
    else if is_low first
    then invalid 1
    else char first 1

unfoldable pub front_of : Encoding → ℕ → Bytes → Front
unfolding front_utf16
front_of utf8 = front_utf8
front_of e = front_utf16 (is_little e)

-- How many bytes the test for a byte order mark needs, by the first one.
unfoldable pub needed : ℕ → ℕ
needed b = if b == 0xff || b == 0xfe then 2 else if b == 0xef then 3 else 1

-- The encoding that the byte order mark tells, and the bytes behind the mark.
unfoldable pub detect : Bytes → Encoding × Bytes
unfolding starts_with
detect p =
    if starts_with p (0xff ∷ 0xfe ∷ [])
    then (utf16_le, drop 2 p)
    else if starts_with p (0xfe ∷ 0xff ∷ [])
    then (utf16_be, drop 2 p)
    else if starts_with p (0xef ∷ 0xbb ∷ 0xbf ∷ [])
    then (utf8, drop 3 p)
    else (utf8, p)

-- Both decoding loops, on the bytes that are left of `pending`.
unfoldable pub decode_as : Reader → Encoding × Bytes → Text × Reader
unfolding front_of decode_from
decode_as r (e, bytes) =
    let (text, rest, lost) = decode_from (front_of e) 0 bytes in
    (text, record r { pending = rest; encoding = some e; incomplete = r.incomplete || lost })

unfoldable pub decode_first : Reader → Bytes → Text × Reader
unfolding needed detect decode_as
decode_first r [] = ([], r)
decode_first r (b ∷ bs) =
    if ltb (length (b ∷ bs)) (needed b) then ([], r) else decode_as r (detect (b ∷ bs))

unfoldable pub decode : Reader → Text × Reader
unfolding decode_first decode_as
decode r = elim r.encoding [ none ↦ decode_first r r.pending | some e ↦ decode_as r (e, r.pending) ]

-- `finish`: what is left over is reported as lost. A rest of UTF-8 is the start of one character,
-- for which `from_utf8_lossy` gives one U+FFFD, as the other branch does.
unfoldable pub finish : Reader → Text × Reader
unfolding decode
finish r =
    let (text, s) = decode r in
    if is_empty s.pending
    then (text, s)
    else (text ++ 0xfffd ∷ [], record s { incomplete = true; pending = [] })

-- What the file system answers to one `next`: whether and how opening fails (`sharing` for the error
-- codes 32 and 33), and then the size of the file and the bytes of one read.
pub data FileAnswer : Type 0 where
  open_failed : Bool → Text → FileAnswer
  io_failed : Text → FileAnswer
  data_read : ℕ → Bytes → FileAnswer

abbrev pub limit : ℕ
limit = 16777216

unfoldable pub next_open : FileAnswer → Reader → Reader × Result Text Text
unfolding decode
next_open (open_failed sharing e) r = (r, err e)
next_open (io_failed e) r = (r, err e)
next_open (data_read size bytes) r =
    let s = record r { read = r.read + length bytes } in
    let (text, t) = decode (record s { pending = r.pending ++ bytes }) in
    if leb size limit
    then (if leb (r.read + length bytes) limit
        then (t, ok text)
        else (s, err (codes "native capture log exceeds read bound")))
    else (r, err (codes "native capture log exceeds 16 MiB bound"))

unfoldable pub next : Bool → FileAnswer → Reader → Reader × Result Text Text
unfolding next_open
next stopped answer r = if r.is_open then next_open answer r else elim answer [
  | open_failed sharing e ↦ if not stopped && sharing then (r, ok []) else (r, err e)
  | io_failed e ↦ next_open (io_failed e) (record r { is_open = true })
  | data_read size bytes ↦ next_open (data_read size bytes) (record r { is_open = true })
]

-- The loop of `next_batch`, on the pieces that are left; the answers come one after the other.
abbrev pub prepend : Text → Reader × Result Text Text → Reader × Result Text Text
prepend text (r, ok more) = (r, ok (text ++ more))
prepend text (r, err e) = (r, err e)

unfoldable pub batch_from : ℕ → Bool → (ℕ → FileAnswer) → ℕ → Reader → Reader × Result Text Text
unfolding next
batch_from zero stopped answers i r = (r, ok [])
batch_from (suc pieces) stopped answers i r =
    let (s, result) = next stopped (answers i) r in
    let rest = batch_from pieces stopped answers (i + 1) s in
    elim result [
      | err e ↦ (s, err e)
      | ok text ↦ if is_empty text then (s, ok []) else prepend text rest
    ]

unfoldable pub next_batch : Bool → (ℕ → FileAnswer) → Reader → Reader × Result Text Text
unfolding batch_from
next_batch stopped answers r = batch_from 16 stopped answers 0 r
