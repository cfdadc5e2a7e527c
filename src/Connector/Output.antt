-- ===== src/Connector/Output.antt =====
-- `command_page`, `read` and `status_any` of src/connector.rs: the output of a command, page by page.
use securecrt_mcp.Prelude.{
  ℕ, zero, suc, ◌+◌, ◌-◌, ◌≤◌, min, max, ◌≡◌, refl, sym, ap, ◌∙◌, Bool, true, not, ◌||◌, [], ◌∷◌,
  arith, ltb, leb, if◌then◌else◌, Bool-cases, inl, inr, Option, none, some, Result, ok, err, ◌>>=◌,
  ◌>>◌, ensure, context, unwrap_or, subst,
}
use securecrt_mcp.Prelude.{length, take, drop, length-take, length-drop}
use securecrt_mcp.Text.{Text}
use securecrt_mcp.Assoc.{Assoc, lookup}
use securecrt_mcp.Config.{within}
use securecrt_mcp.Connector.Buffer
use securecrt_mcp.Connector.Buffer.{RingBuffer}
use securecrt_mcp.Connector.Manager.{CommandRecord}

pub data ReadError : Type 0 where
  invalid_cursor invalid_max_bytes invalid_wait unknown_command unknown_session : ReadError
  not_one_of_both : ReadError

-- The fields of a page that say where it stands.
pub record OutputPage : Type 0 where
  pub bytes : Text
  pub cursor : ℕ
  pub next_cursor : Option ℕ
  pub gap : Bool
  pub dropped_bytes : ℕ
  pub retained_bytes : ℕ

-- `output_start` of a record is always 0, and stands here for itself.
unfoldable pub page_within : ℕ → Text → ℕ → ℕ → OutputPage
page_within output_start output cursor max_bytes =
    let actual = max cursor output_start in
    let offset = actual - output_start in
    let end = min (offset + max_bytes) (length output) in
    record {
      bytes = take (end - offset) (drop offset output);
      cursor = actual;
      next_cursor = if ltb end (length output) then some (output_start + end) else none;
      gap = ltb cursor output_start;
      dropped_bytes = output_start - cursor;
      retained_bytes = length output;
    }

unfoldable pub command_page : ℕ → Text → ℕ → ℕ → Result ReadError OutputPage
unfolding page_within
command_page output_start output cursor max_bytes =
    if leb (max cursor output_start - output_start) (length output)
    then ok (page_within output_start output cursor max_bytes)
    else err invalid_cursor

unfoldable pub read_once : Assoc CommandRecord → Text → ℕ → ℕ → Result ReadError OutputPage
unfolding lookup command_page
read_once commands id cursor max_bytes = context (lookup id commands) unknown_command >>= λ r.
    command_page 0 r.outcome.output cursor max_bytes

unfoldable pub read :
    Assoc CommandRecord → Text → Option ℕ → Option ℕ → Option ℕ → Result ReadError OutputPage
unfolding read_once
read commands id cursor max_bytes wait_ms =
    let count = unwrap_or max_bytes 16384 in
    ensure (within 4 65536 count) invalid_max_bytes
    >> ensure (leb (unwrap_or wait_ms 0) 60000) invalid_wait
    >> read_once commands id (unwrap_or cursor 0) count

-- A page of a command is the page of a closed buffer that holds its output.
abbrev pub closed_buffer : ℕ → Text → RingBuffer
closed_buffer start output = record { bytes = output; start = start; closed = true; reason = none }

abbrev pub IsPageOf : OutputPage → Buffer.Page → Type 0
IsPageOf p q =
    (p.bytes ≡ q.bytes)
    × (p.cursor ≡ q.cursor)
    × (p.next_cursor ≡ q.next_cursor)
    × (p.gap ≡ q.gap)
    × (p.dropped_bytes ≡ q.dropped_bytes)
    × (p.retained_bytes ≡ q.retained_bytes)

take-min : (n : ℕ) (xs : Text) → take (min n (length xs)) xs ≡ take n xs
take-min zero xs = ap (λ k. take k xs) (zero_min (length xs))
  where
    zero_min : (m : ℕ) → min 0 m ≡ 0
    zero_min m = omega arith
take-min (suc n) [] = ap (λ k. take {A = ℕ} k []) (min_zero n)
  where
    min_zero : (m : ℕ) → min (suc m) 0 ≡ 0
    min_zero m = omega arith
take-min (suc n) (x ∷ xs) =
    ap (λ k. take k (x ∷ xs)) (min_suc n (length xs)) ∙ ap (λ ys. x ∷ ys) (take-min n xs)
  where
    min_suc : (a b : ℕ) → min (suc a) (suc b) ≡ suc (min a b)
    min_suc a b = omega arith

page_end : (o count l : ℕ) → o ≤ l → min (o + count) l - o ≡ min count (l - o)
page_end o count l h = omega arith

next_same :
    (s a o count l n : ℕ)
    → a ≡ s + o
    → o ≤ l
    → n ≡ min count (l - o)
    → (if ltb (min (o + count) l) l then some (s + min (o + count) l) else none)
      ≡ (if ltb (o + n) l || not true then some (a + n) else none)
next_same s a o count l n ea h en = ground arith

unwrap_same : (q p : OutputPage) → ◌≡◌ {A = Result ReadError OutputPage} (ok q) (ok p) → q ≡ p
unwrap_same q p h = ground (arith, h)

-- A page of a command that is not refused is the page that a closed buffer with its output gives for
-- the same cursor and size, in its bytes and its place.
pub command_page-page :
    (start : ℕ) (output : Text) (cursor max_bytes : ℕ) (p : OutputPage)
    → command_page start output cursor max_bytes ≡ ok p
    → IsPageOf p (Buffer.page (closed_buffer start output) cursor max_bytes)
unfolding command_page page_within Buffer.page
command_page-page start output cursor max_bytes p h =
    let actual = max cursor start in
    let o = actual - start in
    let l = length output in
    let rest = drop o output in
    elim (Bool-cases (leb o l)) [
      | inr e ↦ absurd (cc (rw e at h))
      | inl e ↦
          let inside : o ≤ l = ground (arith, e) in
          let size : min (o + max_bytes) l - o ≡ min max_bytes (length rest) =
            page_end o max_bytes l inside ∙ ap (min max_bytes) (sym (length-drop o output)) in
          let same_bytes : take (min (o + max_bytes) l - o) rest ≡ take max_bytes rest =
            ap (λ k. take k rest) size ∙ take-min max_bytes rest in
          let counted : length (take max_bytes rest) ≡ min max_bytes (l - o) =
            length-take max_bytes rest ∙ ap (min max_bytes) (length-drop o output) in
          let next =
            next_same start actual o max_bytes l (length (take max_bytes rest)) (omega arith) inside
              counted in
          let q = page_within start output cursor max_bytes in
          let same : q ≡ p = unwrap_same q p (rw e at h) in
          subst (λ x. IsPageOf x (Buffer.page (closed_buffer start output) cursor max_bytes)) same
            (same_bytes, refl, next, refl, refl, refl)
    ]
