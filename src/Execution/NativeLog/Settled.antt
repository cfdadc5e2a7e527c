-- ===== src/Execution/NativeLog/Settled.antt =====
-- A reader that has decoded what it holds has nothing more to decode before further bytes come.
use securecrt_mcp.Prelude.{
  ℕ, zero, suc, ◌+◌, ◌≤◌, ◌<◌, ◌≡◌, refl, sym, ap, ap₂, ◌∙◌, Bool, true, false, [], ◌∷◌, ◌++◌,
  arith, if◌then◌else◌, append-nil, Result, ok, err, is_empty, subst, length, length-append,
}
use securecrt_mcp.Text.{Text}
use securecrt_mcp.Bytes.{Bytes, decode_from}
use securecrt_mcp.Execution.NativeLog.{
  Reader, FileAnswer, open_failed, io_failed, data_read, limit, decode, decode_first, decode_as,
  next, next_open, batch_from, next_batch, prepend, new, with_session_encoding,
}
use securecrt_mcp.Execution.NativeLog.Bounds.{decode-read}
use securecrt_mcp.Execution.NativeLog.Chunks.{push, decode-push}

abbrev pub IsSettled : Reader → Type 0
IsSettled r = decode r ≡ ([], r)

-- Decoding neither reads nor changes what was read and whether the file is open.
abbrev pub at_place : Bool → ℕ → Reader → Reader
at_place o n r = record r { is_open = o; read = n }

decode_first-at_place :
    (o : Bool) (n : ℕ) (r : Reader) (p : Bytes)
    → decode_first (at_place o n r) p ≡ ((decode_first r p).0, at_place o n (decode_first r p).1)
unfolding decode_first decode_as
decode_first-at_place o n r [] = refl
decode_first-at_place o n r (b ∷ bs) = ground arith

decode-at_place :
    (o : Bool) (n : ℕ) (r : Reader)
    → decode (at_place o n r) ≡ ((decode r).0, at_place o n (decode r).1)
unfolding decode decode_as
decode-at_place o n r = ground (arith, decode_first-at_place o n r r.pending)

at_place-IsSettled : (o : Bool) (n : ℕ) (r : Reader) → IsSettled r → IsSettled (at_place o n r)
at_place-IsSettled o n r h = decode-at_place o n r ∙ rw h refl

rest_empty : (s t : Text) → s ≡ s ++ t → t ≡ []
rest_empty s [] e = refl
rest_empty s (c ∷ t) e = absurd (omega (arith, length-append s (c ∷ t), ap length e))

again_settled :
    (text : Text) (s : Reader) (x : Text × Reader)
    → ◌≡◌ {A = Text × Reader} (text, s) (text ++ x.0, x.1)
    → x ≡ ([], s)
again_settled text s (more, r) e =
    ap₂ (λ m q. (m, q)) (rest_empty text more (ap (λ y. y.0) e)) (sym (ap (λ y. y.1) e))

pub push-nil : (r : Reader) → push [] r ≡ r
push-nil r = ap (λ p. record r { pending = p }) (append-nil r.pending)

pub decode-IsSettled : (r : Reader) → IsSettled (decode r).1
decode-IsSettled r =
    let (text, s) = decode r in
    again_settled text s (decode s) (
      ap decode (sym (push-nil r))
      ∙ decode-push [] r
      ∙ ap (λ (x : Text × Reader). (text ++ x.0, x.1)) (ap decode (push-nil s)))

-- What one `next` leaves: a settled reader, which has read more if there is a text.
abbrev pub IsStep : ℕ → Reader × Result Text Text → Type 0
IsStep n (s, err e) = IsSettled s
IsStep n (s, ok []) = IsSettled s
IsStep n (s, ok (c ∷ text)) = IsSettled s × ((n < s.read) × (s.read ≤ limit))

ok-IsStep :
    (n : ℕ) (x : Text × Reader)
    → IsSettled x.1
    → n < x.1.read
    → x.1.read ≤ limit
    → IsStep n (x.1, ok x.0)
ok-IsStep n ([], s) h lo hi = h
ok-IsStep n (c ∷ text, s) h lo hi = (h, (lo, hi))

quiet-IsStep :
    (n : ℕ) (x : Text × Reader) (s : Reader) → IsSettled s → x ≡ ([], s) → IsStep n (x.1, ok x.0)
quiet-IsStep n x s h e = subst (λ (y : Text × Reader). IsStep n (y.1, ok y.0)) (sym e) h

data-IsStep :
    (o : Bool) (bytes : Bytes) (r : Reader)
    → IsSettled r
    → r.read + length bytes ≤ limit
    → let x = decode (push bytes (at_place o (r.read + length bytes) r)) in
      IsStep r.read (x.1, ok x.0)
data-IsStep o [] r h hi =
    let s = at_place o (r.read + 0) r in
    let settled : IsSettled s = at_place-IsSettled o (r.read + 0) r h in
    quiet-IsStep r.read (decode (push [] s)) s settled (ap decode (push-nil s) ∙ settled)
data-IsStep o (b ∷ bytes) r h hi =
    let s = push (b ∷ bytes) (at_place o (r.read + length (b ∷ bytes)) r) in
    let same : (decode s).1.read ≡ r.read + length (b ∷ bytes) = decode-read s in
    ok-IsStep r.read (decode s) (decode-IsSettled s) (omega (arith, same)) (omega (arith, same, hi))

next_open-IsStep :
    (answer : FileAnswer) (o : Bool) (r : Reader)
    → IsSettled r
    → IsStep r.read (next_open answer (at_place o r.read r))
unfolding next_open
next_open-IsStep (open_failed sharing e) o r h = at_place-IsSettled o r.read r h
next_open-IsStep (io_failed e) o r h = at_place-IsSettled o r.read r h
next_open-IsStep (data_read size bytes) o r h = ground (
  arith,
  data-IsStep o bytes r h,
  at_place-IsSettled o r.read r h,
  at_place-IsSettled o (r.read + length bytes) r h,
)

-- One `next` keeps a settled reader settled, and one that gives a text has read more, within the limit.
pub next-IsStep :
    (stopped : Bool) (answer : FileAnswer) (r : Reader)
    → IsSettled r
    → IsStep r.read (next stopped answer r)
unfolding next
next-IsStep stopped (open_failed sharing e) r h =
    ground (arith, h, next_open-IsStep (open_failed sharing e) r.is_open r h)
next-IsStep stopped (io_failed e) r h =
    ground
      (arith, next_open-IsStep (io_failed e) r.is_open r h, next_open-IsStep (io_failed e) true r h)
next-IsStep stopped (data_read size bytes) r h = ground (
  arith,
  next_open-IsStep (data_read size bytes) r.is_open r h,
  next_open-IsStep (data_read size bytes) true r h,
)

prepend-IsSettled :
    (text : Text) (x : Reader × Result Text Text) → IsSettled x.0 → IsSettled (prepend text x).0
prepend-IsSettled text (r, ok more) h = h
prepend-IsSettled text (r, err e) h = h

batch_from-IsSettled :
    (pieces : ℕ) (stopped : Bool) (answers : ℕ → FileAnswer) (i : ℕ) (r : Reader)
    → IsSettled r
    → IsSettled (batch_from pieces stopped answers i r).0
unfolding batch_from
batch_from-IsSettled zero stopped answers i r h = h
batch_from-IsSettled (suc pieces) stopped answers i r h =
    go (next stopped (answers i) r) (next-IsStep stopped (answers i) r h)
      (batch_from-IsSettled pieces stopped answers (i + 1))
  where
    go :
        (x : Reader × Result Text Text)
        → IsStep r.read x
        → ((s : Reader) → IsSettled s → IsSettled (batch_from pieces stopped answers (i + 1) s).0)
        → IsSettled
            (elim x.1 as (λ _. Reader × Result Text Text) [
              | err e ↦ (x.0, err e)
              | ok text ↦
                  if is_empty text
                  then (x.0, ok [])
                  else prepend text (batch_from pieces stopped answers (i + 1) x.0)
            ]).0
    go (s, err e) w rest = w
    go (s, ok []) w rest = w
    go (s, ok (c ∷ text)) w rest = prepend-IsSettled (c ∷ text) _ (rest s w.0)

pub next_batch-IsSettled :
    (stopped : Bool) (answers : ℕ → FileAnswer) (r : Reader)
    → IsSettled r
    → IsSettled (next_batch stopped answers r).0
unfolding next_batch
next_batch-IsSettled stopped answers r h = batch_from-IsSettled 16 stopped answers 0 r h

pub new-IsSettled : (session : Bool) → IsSettled (with_session_encoding session new)
unfolding decode decode_as decode_first with_session_encoding new decode_from
new-IsSettled true = refl
new-IsSettled false = refl
