-- ===== src/Connector/Buffer/Pages.antt =====
-- Reading a closed buffer page by page.
use securecrt_mcp.Prelude.{
  ℕ, zero, suc, ◌+◌, ◌-◌, ◌≤◌, ◌<◌, max, ◌≡◌, refl, sym, ap, ap₂, ◌∙◌, Bool, true, false, not, ◌||◌,
  [], ◌∷◌, ◌++◌, arith, ltb, if◌then◌else◌, Bool-cases, inl, inr, Option, none, some,
}
use securecrt_mcp.Prelude.{length, take, drop, length-take, length-drop, take-append-drop}
use securecrt_mcp.Text.{Text}
use securecrt_mcp.Connector.Buffer.{RingBuffer, page}

abbrev prepend : Text → Option Text → Option Text
prepend t none = none
prepend t (some s) = some (t ++ s)

abbrev follow : (ℕ → Option Text) → Text → Option ℕ → Option Text
follow k bytes none = some bytes
follow k bytes (some next) = prepend bytes (k next)

-- The pages from a cursor on, each from the next cursor of the one before; none where fuel runs out.
unfoldable pub read_buffer : ℕ → RingBuffer → ℕ → ℕ → Option Text
unfolding page
read_buffer zero b cursor count = none
read_buffer (suc fuel) b cursor count =
    follow (λ next. read_buffer fuel b next count) (page b cursor count).bytes
      (page b cursor count).next_cursor

drop_nil : (n : ℕ) → drop {A = ℕ} n [] ≡ []
drop_nil zero = refl
drop_nil (suc n) = refl

drop-drop : (m n : ℕ) (s : Text) → drop (m + n) s ≡ drop n (drop m s)
drop-drop zero n s = ap (λ k. drop k s) (omega arith)
drop-drop (suc m) n [] = drop_nil (suc m + n) ∙ sym (drop_nil n)
drop-drop (suc m) n (c ∷ s) =
    let sum : suc m + n ≡ suc (m + n) = omega arith in
    ap (λ k. drop k (c ∷ s)) sum ∙ drop-drop m n s

take_enough : (n : ℕ) (s : Text) → length s ≤ n → take n s ≡ s
take_enough zero [] h = refl
take_enough (suc n) [] h = refl
take_enough zero (c ∷ s) h = absurd (omega (arith, h))
take_enough (suc n) (c ∷ s) h = ap (λ r. c ∷ r) (take_enough n s (omega (arith, h)))

-- The bytes from a cursor on.
abbrev pub rest_from : RingBuffer → ℕ → Text
rest_from b cursor = drop (max cursor b.start - b.start) b.bytes

-- The next cursor of a closed buffer, by whether the page ends before the buffer does.
next_page :
    (b : RingBuffer) (cursor count : ℕ) (more : Bool)
    → b.closed ≡ true
    → ltb (max cursor b.start - b.start + length (take count (rest_from b cursor))) (length b.bytes)
      ≡ more
    → (page b cursor count).next_cursor ≡ (
        if more then some (max cursor b.start + length (take count (rest_from b cursor))) else none)
unfolding page
next_page b cursor count more c e =
    ap
      (λ x.
        if x then some (max cursor b.start + length (take count (rest_from b cursor))) else none)
      (ap₂ (λ x y. x || not y) e c ∙ or_false more)
  where
    or_false : (x : Bool) → (x || false) ≡ x
    or_false true = refl
    or_false false = refl

read_from :
    (fuel : ℕ) (b : RingBuffer) (cursor count : ℕ)
    → b.closed ≡ true
    → 1 ≤ count
    → length (rest_from b cursor) < fuel
    → read_buffer fuel b cursor count ≡ some (rest_from b cursor)
unfolding read_buffer page
read_from zero b cursor count c h f = absurd (omega (arith, f))
read_from (suc fuel) b cursor count c h f =
    let s = rest_from b cursor in
    let offset = max cursor b.start - b.start in
    let n = length (take count s) in
    let next = max cursor b.start + n in
    elim (Bool-cases (ltb (offset + n) (length b.bytes))) [
      | inl e ↦
          let short : n ≡ count = ground (arith, length-take count s, length-drop offset b.bytes) in
          let same : max next b.start - b.start ≡ offset + n = omega arith in
          let rest : rest_from b next ≡ drop n s =
            ap (λ k. drop k b.bytes) same ∙ drop-drop offset n b.bytes in
          let less : length (rest_from b next) < fuel =
            omega (arith, f, h, short, ap length rest, length-drop n s, length-take count s) in
          ap (follow (λ m. read_buffer fuel b m count) (take count s))
            (next_page b cursor count true c e)
          ∙ (ap (prepend (take count s)) (read_from fuel b next count c h less)
              ∙ ap (λ r. some (take count s ++ r)) (rest ∙ ap (λ k. drop k s) short)
              ∙ ap (λ r. some r) (take-append-drop count s))
      | inr e ↦
          let all_left : length s ≤ count =
            ground (arith, length-take count s, length-drop offset b.bytes) in
          ap (follow (λ m. read_buffer fuel b m count) (take count s))
            (next_page b cursor count false c e)
          ∙ (ap (λ r. some r) (take_enough count s all_left))
    ]

-- Reading a closed buffer page by page, from any cursor and with pages of at least one byte, ends
-- within as many pages as there are bytes, plus one, and gives all the bytes from the cursor on.
pub read_buffer_lem :
    (b : RingBuffer) (cursor count : ℕ)
    → b.closed ≡ true
    → 1 ≤ count
    → read_buffer (suc (length b.bytes)) b cursor count ≡ some (rest_from b cursor)
read_buffer_lem b cursor count c h =
    read_from (suc (length b.bytes)) b cursor count c h
      (omega (arith, length-drop (max cursor b.start - b.start) b.bytes))
