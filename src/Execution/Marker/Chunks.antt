-- ===== src/Execution/Marker/Chunks.antt =====
-- `MarkerParser::feed` of src/execution.rs on a text that comes in chunks.
use securecrt_mcp.Prelude.{
  ℕ, ◌+◌, ◌≤◌, max, ◌≡◌, refl, sym, ap, ap₂, ◌∙◌, true, false, List, [], ◌∷◌, ◌++◌, arith, ltb,
  if◌then◌else◌, Option, none, some, append_assoc, append-nil, is_some,
}
use securecrt_mcp.Text.{Text, len}
use securecrt_mcp.Execution.Marker.{
  MarkerParser, lines_of, take_line, take_lines, pending_bound, flush, finish_feed, feed,
}
use securecrt_mcp.Execution.Marker.Lines.{
  then_lines, lines_of-append, then_take, prefix_out, take_lines-append,
}

-- What a turn, and the whole loop, leave alone, and when they set `done`.
abbrev pub Kept : MarkerParser → MarkerParser × Text × Option ℕ → Type 0
Kept p (q, out, exit) =
    (q.begin ≡ p.begin)
    × (q.end ≡ p.end)
    × (p.pending ≡ [] → q.pending ≡ [])
    × (q.done ≡ (if is_some exit then true else p.done))

pub take_line-Kept : (p : MarkerParser) (raw : Text) → Kept p (take_line p raw)
unfolding take_line
take_line-Kept p raw = (ground arith, ground arith, λ h. ground arith, ground arith)

then-Kept :
    (p q : MarkerParser) (out : Text) (exit : Option ℕ) (t : MarkerParser × Text × Option ℕ)
    → Kept p (q, out, exit)
    → Kept q t
    → Kept p (elim exit [ some code ↦ (q, out, some code) | none ↦ prefix_out out t ])
then-Kept p q out (some code) t h k = h
then-Kept p q out none (r, more, last) h k = (k.0 ∙ h.0, k.1 ∙ h.1, λ e. k.2 (h.2 e), ground arith)

pub take_lines-Kept : (p : MarkerParser) (ls : List Text) → Kept p (take_lines p ls)
unfolding take_lines
take_lines-Kept p [] = (refl, refl, λ h. h, refl)
take_lines-Kept p (l ∷ ls) =
    then-Kept p (take_line p l).0 (take_line p l).1 (take_line p l).2
      (take_lines (take_line p l).0 ls) (take_line-Kept p l) (take_lines-Kept (take_line p l).0 ls)

-- Two feeds in a row, with the first exit code.
unfoldable pub feed_both : MarkerParser → Text → Text → MarkerParser × Text × Option ℕ
feed_both p a b =
    let (q, out, exit) = feed p a in
    let (r, more, last) = feed q b in
    (r, out ++ more, elim exit [ some code ↦ some code | none ↦ last ])

-- A parser that is done stays as it is.
pub feed_done : (p : MarkerParser) (chunk : Text) → p.done ≡ true → feed p chunk ≡ (p, [], none)
unfolding feed
feed_done p chunk h = rw h

pub feed_open :
    (p : MarkerParser) (chunk : Text)
    → p.done ≡ false
    → feed p chunk
      ≡ finish_feed
          (take_lines (record p { pending = [] }) (lines_of (p.pending ++ chunk)).0)
          (lines_of (p.pending ++ chunk)).1
unfolding feed
feed_open p chunk h = rw h

finish_feed-prefix_out :
    (out : Text) (t : MarkerParser × Text × Option ℕ) (rest : Text)
    → finish_feed (prefix_out out t) rest ≡ prefix_out out (finish_feed t rest)
unfolding finish_feed
finish_feed-prefix_out out (r, more, some code) rest = refl
finish_feed-prefix_out out (r, more, none) rest =
    let (q, flowing) = flush (record r { pending = rest }) in
    ap (λ x. (q, x, none)) (append_assoc out more flowing)

-- A short rest stays pending.
flush_short : (p : MarkerParser) → len p.pending ≤ pending_bound p → flush p ≡ (p, [])
unfolding flush
flush_short p h = let e : ltb (pending_bound p) (len p.pending) ≡ false = ground arith in rw e

pending_bound_of_markers :
    (p q : MarkerParser) → q.begin ≡ p.begin → q.end ≡ p.end → pending_bound q ≡ pending_bound p
unfolding pending_bound
pending_bound_of_markers p q h k = ap₂ (λ a b. max (len a) (len b) + 32) h k

abbrev feed_second : MarkerParser × Text × Option ℕ → Text → MarkerParser × Text × Option ℕ
feed_second (q, out, exit) b =
    let (r, more, last) = feed q b in
    (r, out ++ more, elim exit [ some code ↦ some code | none ↦ last ])

module _ (p : MarkerParser) (b rest : Text) (short : len rest ≤ pending_bound p) where
  split-open :
      (q : MarkerParser) (out : Text)
      → Kept (record p { pending = [] }) (q, out, none)
      → q.pending ≡ []
      → p.done ≡ false
      → finish_feed
          (prefix_out out (take_lines q (lines_of (rest ++ b)).0))
          (lines_of (rest ++ b)).1
        ≡ feed_second (record q { pending = rest }, out ++ [], none) b
  split-open q out k empty undone =
      let X = finish_feed (take_lines q (lines_of (rest ++ b)).0) (lines_of (rest ++ b)).1 in
      let here : feed (record q { pending = rest }) b ≡ X =
        feed_open (record q { pending = rest }) b (k.3 ∙ undone)
        ∙ ap
            (λ x.
              finish_feed (take_lines (record q { pending = x }) (lines_of (rest ++ b)).0)
                (lines_of (rest ++ b)).1)
            (sym empty) in
      finish_feed-prefix_out out (take_lines q (lines_of (rest ++ b)).0) (lines_of (rest ++ b)).1
      ∙ sym (ap (prefix_out (out ++ [])) here ∙ ap (λ x. prefix_out x X) (append-nil out))

  split-lines :
      (t : MarkerParser × Text × Option ℕ)
      → Kept (record p { pending = [] }) t
      → p.done ≡ false
      → finish_feed (then_take t (lines_of (rest ++ b)).0) (lines_of (rest ++ b)).1
        ≡ feed_second (finish_feed t rest) b
  unfolding finish_feed
  split-lines (q, out, some code) k undone =
      rw (feed_done q b k.3) (ap (λ x. (q, x, some code)) (sym (append-nil out)))
  split-lines (q, out, none) k undone =
      let fits : len rest ≤ pending_bound (record q { pending = rest }) =
        omega (arith, short, pending_bound_of_markers p (record q { pending = rest }) k.0 k.1) in
      rw (flush_short (record q { pending = rest }) fits) (split-open q out k (k.2 refl) undone)

-- Feeding two chunks one after the other gives the same parser, the same output and the same exit
-- code as feeding them at once, if the parser is not done and the unfinished line between them is
-- no longer than the parser keeps back.
pub feed-append :
    (p : MarkerParser) (a b : Text)
    → p.done ≡ false
    → len (lines_of (p.pending ++ a)).1 ≤ pending_bound p
    → feed p (a ++ b) ≡ feed_both p a b
unfolding feed_both
feed-append p a b undone short =
    let t = take_lines (record p { pending = [] }) (lines_of (p.pending ++ a)).0 in
    let rest = (lines_of (p.pending ++ a)).1 in
    let cut : lines_of (p.pending ++ (a ++ b)) ≡ then_lines (lines_of (p.pending ++ a)) b =
      ap lines_of (sym (append_assoc p.pending a b)) ∙ lines_of-append (p.pending ++ a) b in
    feed_open p (a ++ b) undone
    ∙ ap (λ d. finish_feed (take_lines (record p { pending = [] }) d.0) d.1) cut
    ∙ ap (λ x. finish_feed x (lines_of (rest ++ b)).1)
        (take_lines-append (record p { pending = [] }) (lines_of (p.pending ++ a)).0
          (lines_of (rest ++ b)).0)
    ∙ split-lines p b rest short t (take_lines-Kept (record p { pending = [] }) _) undone
    ∙ ap (λ x. feed_second x b) (sym (feed_open p a undone))
