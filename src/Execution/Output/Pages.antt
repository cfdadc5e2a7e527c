-- ===== src/Execution/Output/Pages.antt =====
-- Reading the output of a finished job page by page.
use securecrt_mcp.Prelude.{
  ℕ, zero, suc, ◌+◌, ◌-◌, ◌≤◌, ◌<◌, max, ◌≡◌, refl, sym, ap, ap₂, ◌∙◌, Bool, true, false, ◌&&◌,
  ◌||◌, ◌++◌, arith, ltb, leb, if◌then◌else◌, Bool-cases, inl, inr, Option, none, some, Result, ok,
  err,
}
use securecrt_mcp.Text.{Text, len, is_char_boundary, slice_to, slice_from}
use securecrt_mcp.Text.Utf8.{
  boundary-slice_from, slice_from-slice_from, boundary-zero, len-slice_from, slice-split,
  boundary-le, slice_to-len,
}
use securecrt_mcp.Execution.Job.{Job, active, prefix_len}
use securecrt_mcp.Execution.Job.Cut.{prefix_len-boundary, prefix_len-le, prefix_len-progress}
use securecrt_mcp.Execution.Output.{OutputError, Page, page, page_at}

abbrev prepend : Text → Result OutputError (Option Text) → Result OutputError (Option Text)
prepend t (err e) = err e
prepend t (ok none) = ok none
prepend t (ok (some s)) = ok (some (t ++ s))

abbrev follow :
    (ℕ → Result OutputError (Option Text))
    → Result OutputError Page
    → Result OutputError (Option Text)
follow k (err e) = err e
follow k (ok p) = elim p.next_cursor [
  | none ↦ ok (some p.text)
  | some next ↦ prepend p.text (k next)
]

-- The pages from a cursor on, each from the next cursor of the one before; none where fuel runs out.
unfoldable pub read_pages : ℕ → Job → ℕ → Option ℕ → Result OutputError (Option Text)
read_pages zero j count cursor = ok none
read_pages (suc fuel) j count cursor =
    follow (λ next. read_pages fuel j count (some next)) (page j cursor count)

-- The page at a boundary of the output is there.
page-eq_ok :
    (j : Job) (count offset : ℕ)
    → is_char_boundary j.output offset ≡ true
    → page j (some (offset + j.output_start)) count
      ≡ ok (page_at j (offset + j.output_start) count offset)
unfolding page
page-eq_ok j count offset h =
    let requested = offset + j.output_start in
    let same : max requested j.output_start - j.output_start ≡ offset = omega arith in
    let passes : (leb offset (len j.output) && is_char_boundary j.output offset) ≡ true =
      ground (arith, boundary-le j.output offset h) in
    ap
      (λ o.
        if leb o (len j.output) && is_char_boundary j.output o
        then ok (page_at j requested count o)
        else err OutputError.invalid_cursor)
      same
    ∙ ap (λ x. if x then ok (page_at j requested count offset) else err OutputError.invalid_cursor)
        passes

-- The next cursor of a finished job, by whether the page ends before the output does.
next_page :
    (j : Job) (requested count offset : ℕ) (more : Bool)
    → active j.state ≡ false
    → ltb (offset + prefix_len (slice_from j.output offset) count) (len j.output) ≡ more
    → (page_at j requested count offset).next_cursor ≡ (
        if more
        then some (offset + prefix_len (slice_from j.output offset) count + j.output_start)
        else none)
unfolding page_at
next_page j requested count offset more a e =
    ap
      (λ x.
        if x
        then some (offset + prefix_len (slice_from j.output offset) count + j.output_start)
        else none)
      (ap₂ ◌||◌ e a ∙ or_false more)
  where
    or_false : (x : Bool) → (x || false) ≡ x
    or_false true = refl
    or_false false = refl

abbrev with_next :
    (ℕ → Result OutputError (Option Text)) → Text → Option ℕ → Result OutputError (Option Text)
with_next k text next = elim next [ none ↦ ok (some text) | some n ↦ prepend text (k n) ]

read_from :
    (fuel : ℕ) (j : Job) (count offset : ℕ)
    → active j.state ≡ false
    → 4 ≤ count
    → is_char_boundary j.output offset ≡ true
    → len j.output - offset < fuel
    → read_pages fuel j count (some (offset + j.output_start))
      ≡ ok (some (slice_from j.output offset))
unfolding read_pages
read_from zero j count offset a h b f = absurd (omega (arith, f))
read_from (suc fuel) j count offset a h b f =
    let rest = slice_from j.output offset in
    let size = prefix_len rest count in
    let k : ℕ → Result OutputError (Option Text) = λ next. read_pages fuel j count (some next) in
    let total : offset + len rest ≡ len j.output = len-slice_from j.output offset b in
    let bounds = prefix_len-le rest count in
    let text : (page_at j (offset + j.output_start) count offset).text ≡ slice_to rest size =
      unfold page_at in refl in
    let first : read_pages (suc fuel) j count (some (offset + j.output_start))
        ≡ with_next k (slice_to rest size)
            (page_at j (offset + j.output_start) count offset).next_cursor =
      ap (follow k) (page-eq_ok j count offset b)
      ∙ ap (λ t. with_next k t (page_at j (offset + j.output_start) count offset).next_cursor)
          text in
    first ∙ elim (Bool-cases (ltb (offset + size) (len j.output))) [
      | inl e ↦
          let some_left : 0 < len rest = ground arith in
          let step : 0 < size = prefix_len-progress rest count h some_left in
          let bound : is_char_boundary j.output (offset + size) ≡ true =
            sym (boundary-slice_from j.output offset size b) ∙ prefix_len-boundary rest count in
          ap (with_next k (slice_to rest size))
            (next_page j (offset + j.output_start) count offset true a e)
          ∙ ap (prepend (slice_to rest size))
              (read_from fuel j count (offset + size) a h bound (omega (arith, f, step, total)))
          ∙ ap (λ r. ok (some (slice_to rest size ++ r)))
              (sym (slice_from-slice_from j.output offset size b))
          ∙ ap (λ r. ok (some r)) (slice-split rest size)
      | inr e ↦
          let whole : size ≡ len rest = ground arith in
          ap (with_next k (slice_to rest size))
            (next_page j (offset + j.output_start) count offset false a e)
          ∙ ap (λ n. ok (some (slice_to rest n))) whole
          ∙ ap (λ r. ok (some r)) (slice_to-len rest)
    ]

-- Reading the output of a finished job page by page, from the start and with pages of at least four
-- bytes, meets no error, ends within as many pages as there are bytes, plus one, and gives the whole
-- retained output.
pub read_pages_lem :
    (j : Job) (count : ℕ)
    → active j.state ≡ false
    → 4 ≤ count
    → read_pages (suc (len j.output)) j count (some j.output_start) ≡ ok (some j.output)
read_pages_lem j count a h =
    let at_start : j.output_start ≡ 0 + j.output_start = omega arith in
    ap (λ c. read_pages (suc (len j.output)) j count (some c)) at_start
    ∙ read_from (suc (len j.output)) j count 0 a h (boundary-zero j.output) (omega arith)
    ∙ unfold slice_from in refl
