-- ===== src/Execution/NativeLog/Bounds.antt =====
-- The bound on what one reader takes from its file.
use securecrt_mcp.Prelude.{
  ℕ, zero, suc, ◌+◌, ◌≤◌, ◌≡◌, refl, Bool, true, arith, if◌then◌else◌, Result, ok, err, is_empty,
  length, [], ◌∷◌, ◌++◌,
}
use securecrt_mcp.Text.{Text}
use securecrt_mcp.Bytes.{Bytes}
use securecrt_mcp.Execution.NativeLog.{
  Reader, FileAnswer, open_failed, io_failed, data_read, limit, decode_as, decode_first, decode,
  next_open, next, batch_from, next_batch, prepend,
}

-- A reader that goes on has not read beyond the limit.
abbrev pub IsWithin : Reader × Result Text Text → Type 0
IsWithin (r, ok text) = r.read ≤ limit
IsWithin (r, err e) = Unit

-- Decoding reads nothing.
decode_first-read : (r : Reader) (p : Bytes) → (decode_first r p).1.read ≡ r.read
unfolding decode_first decode_as
decode_first-read r [] = refl
decode_first-read r (b ∷ bs) = ground arith

pub decode-read : (r : Reader) → (decode r).1.read ≡ r.read
unfolding decode decode_as
decode-read r = ground (arith, decode_first-read r r.pending)

next_open-IsWithin : (answer : FileAnswer) (r : Reader) → IsWithin (next_open answer r)
unfolding next_open
next_open-IsWithin (open_failed sharing e) r = tt
next_open-IsWithin (io_failed e) r = tt
next_open-IsWithin (data_read size bytes) r =
    let s = record r { read = r.read + length bytes; pending = r.pending ++ bytes } in
    ground (arith, decode-read s)

next-IsWithin :
    (stopped : Bool) (answer : FileAnswer) (r : Reader)
    → r.read ≤ limit
    → IsWithin (next stopped answer r)
unfolding next
next-IsWithin stopped (open_failed sharing e) r h = ground arith
next-IsWithin stopped (io_failed e) r h =
    ground (arith, next_open-IsWithin (io_failed e) (record r { is_open = true }))
next-IsWithin stopped (data_read size bytes) r h = ground (
  arith,
  next_open-IsWithin (data_read size bytes) r,
  next_open-IsWithin (data_read size bytes) (record r { is_open = true }),
)

prepend-IsWithin :
    (text : Text) (x : Reader × Result Text Text) → IsWithin x → IsWithin (prepend text x)
prepend-IsWithin text (r, ok more) h = h
prepend-IsWithin text (r, err e) h = h

batch_from-IsWithin :
    (pieces : ℕ) (stopped : Bool) (answers : ℕ → FileAnswer) (i : ℕ) (r : Reader)
    → r.read ≤ limit
    → IsWithin (batch_from pieces stopped answers i r)
unfolding batch_from
batch_from-IsWithin zero stopped answers i r h = h
batch_from-IsWithin (suc pieces) stopped answers i r h =
    go (next stopped (answers i) r) (next-IsWithin stopped (answers i) r h)
      (batch_from-IsWithin pieces stopped answers (i + 1))
  where
    go :
        (x : Reader × Result Text Text)
        → IsWithin x
        → ((s : Reader) → s.read ≤ limit → IsWithin (batch_from pieces stopped answers (i + 1) s))
        → IsWithin (elim x.1 [
          | err e ↦ (x.0, err e)
          | ok text ↦
              if is_empty text
              then (x.0, ok [])
              else prepend text (batch_from pieces stopped answers (i + 1) x.0)
        ])
    go (s, err e) w rest = tt
    go (s, ok []) w rest = w
    go (s, ok (c ∷ text)) w rest = prepend-IsWithin (c ∷ text) _ (rest s w)

-- A batch that is read without an error leaves the reader within the limit on its file, if it was
-- within it before.
pub next_batch-IsWithin :
    (stopped : Bool) (answers : ℕ → FileAnswer) (r : Reader)
    → r.read ≤ limit
    → IsWithin (next_batch stopped answers r)
unfolding next_batch
next_batch-IsWithin stopped answers r h = batch_from-IsWithin 16 stopped answers 0 r h
