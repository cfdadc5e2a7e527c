-- ===== src/Execution/Job/Cut.antt =====
-- Where `prefix_len` and the front cut of a stream stop.
use securecrt_mcp.Prelude.{
  ℕ, zero, suc, ◌+◌, ◌-◌, ◌≤◌, ◌<◌, min, ◌≡◌, refl, sym, ap, ◌∙◌, true, [], ◌∷◌, arith, ltb,
  Bool-cases, inl, inr,
}
use securecrt_mcp.Text.{Text, len, len_utf8, is_char_boundary}
use securecrt_mcp.Text.Utf8.{
  boundary-zero, boundary-le, boundary-len, boundary_step, boundary-cons, len_utf8_bounds,
}
use securecrt_mcp.Execution.Job.{back_to_boundary, prefix_len, next_boundary}

back_to_boundary-boundary : (t : Text) (n : ℕ) → is_char_boundary t (back_to_boundary t n) ≡ true
unfolding back_to_boundary
back_to_boundary-boundary t zero = boundary-zero t
back_to_boundary-boundary t (suc n) = elim (Bool-cases (is_char_boundary t (suc n))) [
  | inl e ↦ rw e e
  | inr e ↦ rw e (back_to_boundary-boundary t n)
]

back_to_boundary-le : (t : Text) (n : ℕ) → back_to_boundary t n ≤ n
unfolding back_to_boundary
back_to_boundary-le t zero = omega arith
back_to_boundary-le t (suc n) = ground (arith, back_to_boundary-le t n)

back_to_boundary-greatest :
    (t : Text) (n b : ℕ) → b ≤ n → is_char_boundary t b ≡ true → b ≤ back_to_boundary t n
unfolding back_to_boundary
back_to_boundary-greatest t zero b h k = h
back_to_boundary-greatest t (suc n) b h k = elim (Bool-cases (is_char_boundary t (suc n))) [
  | inl e ↦ rw e h
  | inr e ↦ rw e (back_to_boundary-greatest t n b (ground (arith, ap (is_char_boundary t))) k)
]

module _ (t : Text) (max : ℕ) where
  pub prefix_len-boundary : is_char_boundary t (prefix_len t max) ≡ true
  unfolding prefix_len
  prefix_len-boundary = back_to_boundary-boundary t (min max (len t))

  pub prefix_len-le : (prefix_len t max ≤ max) × (prefix_len t max ≤ len t)
  unfolding prefix_len
  prefix_len-le = omega (arith, back_to_boundary-le t (min max (len t)))

  -- No boundary within the budget lies further on.
  pub prefix_len-greatest : (b : ℕ) → b ≤ max → is_char_boundary t b ≡ true → b ≤ prefix_len t max
  unfolding prefix_len
  prefix_len-greatest b h k =
      back_to_boundary-greatest t (min max (len t)) b (omega (arith, boundary-le t b k)) k

-- `prefix_len` is a boundary of the text within the budget, and no boundary within the budget is
-- greater.
pub prefix_len_lem :
    (t : Text) (max b : ℕ)
    → b ≤ max
    → is_char_boundary t b ≡ true
    → (is_char_boundary t (prefix_len t max) ≡ true)
      × (prefix_len t max ≤ max)
      × (prefix_len t max ≤ len t)
      × (b ≤ prefix_len t max)
prefix_len_lem t max b h k = (
  prefix_len-boundary t max,
  (prefix_len-le t max).0,
  (prefix_len-le t max).1,
  prefix_len-greatest t max b h k,
)

-- A budget of four bytes always takes a character of a nonempty text.
pub prefix_len-progress : (t : Text) (max : ℕ) → 4 ≤ max → 0 < len t → 0 < prefix_len t max
prefix_len-progress t max h lt =
    let (w, lo, hi, b) = boundary_step t 0 (boundary-zero t) lt in
    omega (arith, prefix_len-greatest t max (0 + w) (omega arith) b)

-- Enough room takes the whole text.
pub prefix_len-all : (t : Text) (max : ℕ) → len t ≤ max → prefix_len t max ≡ len t
prefix_len-all t max h =
    omega (arith, prefix_len-le t max, prefix_len-greatest t max (len t) h (boundary-len t))

-- From any offset of the text the next boundary is at most three bytes away.
pub boundary_near :
    (t : Text) (n : ℕ) → n ≤ len t → (m : ℕ) × (n ≤ m) × (m ≤ n + 3) × (is_char_boundary t m ≡ true)
unfolding len
boundary_near [] n h = (0, omega arith, omega arith, boundary-zero [])
boundary_near (c ∷ t) zero h = (0, omega arith, omega arith, boundary-zero (c ∷ t))
boundary_near (c ∷ t) (suc n) h = elim (Bool-cases (ltb (suc n) (len_utf8 c))) [
  | inl e ↦ (
    len_utf8 c,
    ground arith,
    ground (arith, len_utf8_bounds c),
    boundary-cons c 0 t (len_utf8 c) (omega arith) ∙ boundary-zero t,
  )
  | inr e ↦
      let (m, lo, hi, b) = boundary_near t (suc n - len_utf8 c) (ground arith) in
      (len_utf8 c + m, ground arith, ground arith, boundary-cons c m t (len_utf8 c + m) refl ∙ b)
]

-- The search upward stops at the next boundary, if its fuel reaches one.
pub next_boundary_lem :
    (fuel : ℕ) (t : Text) (n m : ℕ)
    → n ≤ m
    → m ≤ n + fuel
    → is_char_boundary t m ≡ true
    → (is_char_boundary t (next_boundary fuel t n) ≡ true)
      × (n ≤ next_boundary fuel t n)
      × (next_boundary fuel t n ≤ m)
unfolding next_boundary
next_boundary_lem zero t n m lo hi b =
    let e : m ≡ n = omega arith in
    (rw (ap (is_char_boundary t) (sym e)) b, omega arith, omega arith)
next_boundary_lem (suc fuel) t n m lo hi b = elim (Bool-cases (is_char_boundary t n)) [
  | inl e ↦ rw e (e, omega arith, lo)
  | inr e ↦
      let further : n + 1 ≤ m = ground (arith, ap (is_char_boundary t)) in
      let (x, y, z) = next_boundary_lem fuel t (n + 1) m further (omega arith) b in
      rw e (x, omega (arith, y), z)
]
