-- ===== src/Execution/Job/Retention.antt =====
-- What a job retains of the output that was appended to it, and within which bound.
use securecrt_mcp.Prelude.{
  ℕ, ◌+◌, ◌-◌, ◌≤◌, ◌≡◌, sym, ap, ◌∙◌, true, false, List, [], ◌∷◌, ◌++◌, arith, ltb, if◌then◌else◌,
  Bool-cases, inl, inr, subst, append_assoc, append-nil,
}
use securecrt_mcp.Text.{Text, len, is_char_boundary, slice_to, slice_from}
use securecrt_mcp.Text.Utf8.{
  len-append, len-slice_to, len-slice_from, slice-split, slice_to-len, boundary-le,
}
use securecrt_mcp.Execution.Job.{
  Job, note_output, append, append_stream, append_bounded, prefix_len, next_boundary,
}
use securecrt_mcp.Execution.Job.Cut.{
  prefix_len-boundary, prefix_len-le, boundary_near, next_boundary_lem,
}

-- The place of the front cut: a boundary, at least the excess and at most three bytes more.
module _ (t : Text) (limit : ℕ) where
  abbrev pub cut : ℕ
  cut = next_boundary (len t) t (len t - limit)

  pub cut_lem : (is_char_boundary t cut ≡ true) × (len t - limit ≤ cut) × (cut ≤ len t - limit + 3)
  cut_lem =
      let (m, lo, hi, b) = boundary_near t (len t - limit) (omega arith) in
      let (x, y, z) =
        next_boundary_lem (len t) t (len t - limit) m lo (omega (arith, boundary-le t m b)) b in
      (x, y, omega arith)

-- A stream retains a suffix of all that was appended; what it dropped is counted.
pub record RetainsSuffix (limit : ℕ) (j : Job) (fed : Text) : Type 0 where
  pub is_stream : j.stream ≡ true
  pub dropped : Text
  pub fed_split : fed ≡ dropped ++ j.output
  pub dropped_counted : len dropped ≡ j.output_start
  pub within : len j.output ≤ limit

-- Any other job retains at most the limit, and everything unless it says otherwise.
pub record RetainsBounded (limit : ℕ) (j : Job) (fed : Text) : Type 0 where
  pub not_stream : j.stream ≡ false
  pub start_zero : j.output_start ≡ 0
  pub complete : j.truncated ≡ false → j.output ≡ fed
  pub within : len j.output ≤ limit

module _ (limit : ℕ) (j : Job) (fed text : Text) where
  append_stream-RetainsSuffix :
      RetainsSuffix limit j fed → RetainsSuffix limit (append_stream j text limit) (fed ++ text)
  unfolding append_stream
  append_stream-RetainsSuffix h =
      let t = j.output ++ text in
      let whole : fed ++ text ≡ h.dropped ++ t =
        ap (λ x. x ++ text) h.fed_split ∙ append_assoc h.dropped j.output text in
      let (b, lo, hi) = cut_lem t limit in
      elim (Bool-cases (ltb limit (len t))) [
        | inl e ↦ rw e (record {
          is_stream = h.is_stream;
          dropped = h.dropped ++ slice_to t (cut t limit);
          fed_split =
              whole
              ∙ ap (λ x. h.dropped ++ x) (sym (slice-split t (cut t limit)))
              ∙ sym
                  (append_assoc h.dropped (slice_to t (cut t limit)) (slice_from t (cut t limit)));
          dropped_counted = omega (
            arith,
            h.dropped_counted,
            len-append h.dropped (slice_to t (cut t limit)),
            len-slice_to t (cut t limit) b,
          );
          within = omega (arith, len-slice_from t (cut t limit) b);
        })
        | inr e ↦ rw e (record {
          is_stream = h.is_stream;
          dropped = h.dropped;
          fed_split = whole;
          dropped_counted = h.dropped_counted;
          within = ground arith;
        })
      ]

  append_bounded-RetainsBounded :
      RetainsBounded limit j fed → RetainsBounded limit (append_bounded j text limit) (fed ++ text)
  unfolding append_bounded
  append_bounded-RetainsBounded h =
      let room = limit - len j.output in
      let n = prefix_len text room in
      record {
        not_stream = h.not_stream;
        start_zero = h.start_zero;
        complete = λ full.
            let whole : n ≡ len text = ground arith in
            let was : j.truncated ≡ false = ground arith in
            rw whole (rw (slice_to-len text) (ap (λ x. x ++ text) (h.complete was)));
        within = omega (
          arith,
          h.within,
          len-append j.output (slice_to text n),
          len-slice_to text n (prefix_len-boundary text room),
          prefix_len-le text room,
        );
      }

-- The branch that `append` takes.
module _ (now : ℕ) (j : Job) (text : Text) (limit : ℕ) where
  pub append_of_stream :
      j.stream ≡ true → append_stream (note_output now j text) text limit ≡ append now j text limit
  unfolding append
  append_of_stream e =
      let k = note_output now j text in
      ap (λ b. if b then append_stream k text limit else append_bounded k text limit) (sym e)

  pub append_of_bounded :
      j.stream ≡ false
      → append_bounded (note_output now j text) text limit ≡ append now j text limit
  unfolding append
  append_of_bounded e =
      let k = note_output now j text in
      ap (λ b. if b then append_stream k text limit else append_bounded k text limit) (sym e)

note_output-RetainsSuffix :
    (limit now : ℕ) (j : Job) (fed text : Text)
    → RetainsSuffix limit j fed
    → RetainsSuffix limit (note_output now j text) fed
unfolding note_output
note_output-RetainsSuffix limit now j fed text h = record {
  is_stream = h.is_stream;
  dropped = h.dropped;
  fed_split = h.fed_split;
  dropped_counted = h.dropped_counted;
  within = h.within;
}

note_output-RetainsBounded :
    (limit now : ℕ) (j : Job) (fed text : Text)
    → RetainsBounded limit j fed
    → RetainsBounded limit (note_output now j text) fed
unfolding note_output
note_output-RetainsBounded limit now j fed text h = record {
  not_stream = h.not_stream;
  start_zero = h.start_zero;
  complete = h.complete;
  within = h.within;
}

-- Appending to a stream keeps a suffix of everything that was appended, within the limit; the bytes
-- before it are counted by `output_start`.
pub append-RetainsSuffix :
    (limit now : ℕ) (j : Job) (fed text : Text)
    → RetainsSuffix limit j fed
    → RetainsSuffix limit (append now j text limit) (fed ++ text)
append-RetainsSuffix limit now j fed text h =
    subst (λ k. RetainsSuffix limit k (fed ++ text)) (append_of_stream now j text limit h.is_stream)
      (append_stream-RetainsSuffix limit (note_output now j text) fed text
        (note_output-RetainsSuffix limit now j fed text h))

-- Appending to any other job keeps at most the limit, and keeps all that was appended unless the
-- job is marked as truncated.
pub append-RetainsBounded :
    (limit now : ℕ) (j : Job) (fed text : Text)
    → RetainsBounded limit j fed
    → RetainsBounded limit (append now j text limit) (fed ++ text)
append-RetainsBounded limit now j fed text h =
    subst (λ k. RetainsBounded limit k (fed ++ text))
      (append_of_bounded now j text limit h.not_stream)
      (append_bounded-RetainsBounded limit (note_output now j text) fed text
        (note_output-RetainsBounded limit now j fed text h))

-- The appends of a whole capture, in order; `now` is the clock at each.
abbrev pub append_all : ℕ → Job → List (ℕ × Text) → Job
append_all limit j [] = j
append_all limit j ((now, text) ∷ rest) = append_all limit (append now j text limit) rest

abbrev pub fed_by : List (ℕ × Text) → Text
fed_by [] = []
fed_by ((now, text) ∷ rest) = text ++ fed_by rest

stream_retention_from :
    (limit : ℕ) (j : Job) (fed : Text) (chunks : List (ℕ × Text))
    → RetainsSuffix limit j fed
    → RetainsSuffix limit (append_all limit j chunks) (fed ++ fed_by chunks)
stream_retention_from limit j fed [] h = rw append-nil h
stream_retention_from limit j fed ((now, text) ∷ rest) h =
    subst (λ t. RetainsSuffix limit (append_all limit (append now j text limit) rest) t)
      (append_assoc fed text (fed_by rest))
      (stream_retention_from limit (append now j text limit) (fed ++ text) rest
        (append-RetainsSuffix limit now j fed text h))

bounded_retention_from :
    (limit : ℕ) (j : Job) (fed : Text) (chunks : List (ℕ × Text))
    → RetainsBounded limit j fed
    → RetainsBounded limit (append_all limit j chunks) (fed ++ fed_by chunks)
bounded_retention_from limit j fed [] h = rw append-nil h
bounded_retention_from limit j fed ((now, text) ∷ rest) h =
    subst (λ t. RetainsBounded limit (append_all limit (append now j text limit) rest) t)
      (append_assoc fed text (fed_by rest))
      (bounded_retention_from limit (append now j text limit) (fed ++ text) rest
        (append-RetainsBounded limit now j fed text h))

-- A job that has seen no output yet.
pub record IsFresh (j : Job) : Type 0 where
  pub empty : j.output ≡ []
  pub at_start : j.output_start ≡ 0

-- Whatever the chunks of a streaming capture, the fresh job that they are appended to ends with a
-- suffix of their concatenation, at most `limit` bytes long, and `output_start` is the number of
-- bytes in front of it.
pub stream_retention :
    (limit : ℕ) (j : Job) (chunks : List (ℕ × Text))
    → IsFresh j
    → j.stream ≡ true
    → RetainsSuffix limit (append_all limit j chunks) (fed_by chunks)
stream_retention limit j chunks f s = stream_retention_from limit j [] chunks (record {
  is_stream = s;
  dropped = [];
  fed_split = sym f.empty;
  dropped_counted = unfold len in sym f.at_start;
  within = rw f.empty (unfold len in omega arith);
})

-- Whatever the chunks of any other capture, the fresh job that they are appended to ends with at
-- most `limit` bytes and with output_start 0, and with the whole concatenation unless it was
-- truncated.
pub bounded_retention :
    (limit : ℕ) (j : Job) (chunks : List (ℕ × Text))
    → IsFresh j
    → j.stream ≡ false
    → RetainsBounded limit (append_all limit j chunks) (fed_by chunks)
bounded_retention limit j chunks f s = bounded_retention_from limit j [] chunks (record {
  not_stream = s;
  start_zero = f.at_start;
  complete = λ _. f.empty;
  within = rw f.empty (unfold len in omega arith);
})
