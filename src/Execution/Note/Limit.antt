-- ===== src/Execution/Note/Limit.antt =====
-- What a note of src/execution.rs leaves of the limit on a job's output.
use securecrt_mcp.Prelude.{ℕ, ◌+◌, ◌-◌, ◌≤◌, ◌++◌, arith, ltb, Bool-cases, inl, inr, subst}
use securecrt_mcp.Text.{Text, len, slice_to}
use securecrt_mcp.Text.Utf8.{len-append, len-slice_to, len-slice_from}
use securecrt_mcp.Execution.Job.{
  Job, append, append_stream, append_bounded, note_output, prefix_len,
}
use securecrt_mcp.Execution.Job.Cut.{prefix_len-boundary, prefix_len-le}
use securecrt_mcp.Execution.Job.Retention.{cut, cut_lem, append_of_stream, append_of_bounded}
use securecrt_mcp.Execution.Note.{
  Note, polled, appended, flushed, flush_failed, screen, cleared, write,
}

append_stream-within :
    (j : Job) (text : Text) (limit : ℕ) → len (append_stream j text limit).output ≤ limit
unfolding append_stream
append_stream-within j text limit =
    let t = j.output ++ text in
    let (b, lo, hi) = cut_lem t limit in
    elim (Bool-cases (ltb limit (len t))) [
      | inl e ↦ rw e (omega (arith, len-slice_from t (cut t limit) b))
      | inr e ↦ rw e (ground arith)
    ]

append_bounded-within :
    (j : Job) (text : Text) (limit : ℕ)
    → len j.output ≤ limit
    → len (append_bounded j text limit).output ≤ limit
unfolding append_bounded
append_bounded-within j text limit h =
    let room = limit - len j.output in
    let n = prefix_len text room in
    omega (
      arith,
      len-append j.output (slice_to text n),
      len-slice_to text n (prefix_len-boundary text room),
      prefix_len-le text room,
    )

append-within :
    (now : ℕ) (j : Job) (text : Text) (limit : ℕ)
    → len j.output ≤ limit
    → len (append now j text limit).output ≤ limit
append-within now j text limit h = elim (Bool-cases j.stream) [
  | inl e ↦
      subst (λ k. len k.output ≤ limit) (append_of_stream now j text limit e)
        (append_stream-within (note_output now j text) text limit)
  | inr e ↦
      subst (λ k. len k.output ≤ limit) (append_of_bounded now j text limit e)
        (append_bounded-within (note_output now j text) text limit (unfold note_output in h))
]

-- A note keeps the output within the limit on it.
pub write-within :
    (limit now : ℕ) (n : Note) (j : Job)
    → len j.output ≤ limit
    → len (write limit now n j).output ≤ limit
unfolding write
write-within limit now (polled text incomplete lost begin end transport) j h =
    append-within now (record j { poll_calls = j.poll_calls + 1 }) text limit h
write-within limit now (appended text) j h = append-within now j text limit h
write-within limit now (flushed text begin end lost) j h = append-within now j text limit h
write-within limit now (flush_failed warning) j h = h
write-within limit now (screen text) j h =
    append-within now (cleared j) text limit (unfold len in omega arith)
