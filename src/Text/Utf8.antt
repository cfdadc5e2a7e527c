-- ===== src/Text/Utf8.antt =====
-- Laws of byte lengths, boundaries and slices.
use securecrt_mcp.Prelude.{
  ℕ, zero, suc, ◌+◌, ◌-◌, ◌≤◌, ◌<◌, ◌≡◌, refl, sym, ap, ◌∙◌, true, [], ◌∷◌, ◌++◌, arith, ltb,
  Bool-cases, inl, inr,
}
use securecrt_mcp.Text.{Text, len_utf8, len, is_char_boundary, slice_to, slice_from}

pub len_utf8_bounds : (c : ℕ) → (1 ≤ len_utf8 c) × (len_utf8 c ≤ 4)
unfolding len_utf8
len_utf8_bounds c = ground arith

pub len-append : (s t : Text) → len (s ++ t) ≡ len s + len t
unfolding len
len-append [] t = omega arith
len-append (c ∷ s) t = omega (arith, len-append s t)

pub boundary-zero : (s : Text) → is_char_boundary s 0 ≡ true
unfolding is_char_boundary
boundary-zero [] = refl
boundary-zero (c ∷ s) = refl

-- One character further: the three recursions, at an offset that lies behind `c`.
module _ (c n : ℕ) (s : Text) where
  pub boundary-cons :
      (m : ℕ) → m ≡ len_utf8 c + n → is_char_boundary (c ∷ s) m ≡ is_char_boundary s n
  unfolding is_char_boundary
  boundary-cons zero e = absurd (omega (arith, len_utf8_bounds c))
  boundary-cons (suc m) e =
      let d : suc m - len_utf8 c ≡ n = omega arith in ground (arith, ap (is_char_boundary s) d)

  pub slice_to-cons : (m : ℕ) → m ≡ len_utf8 c + n → slice_to (c ∷ s) m ≡ c ∷ slice_to s n
  unfolding slice_to
  slice_to-cons zero e = absurd (omega (arith, len_utf8_bounds c))
  slice_to-cons (suc m) e =
      let d : suc m - len_utf8 c ≡ n = omega arith in ground (arith, ap (slice_to s) d)

  pub slice_from-cons : (m : ℕ) → m ≡ len_utf8 c + n → slice_from (c ∷ s) m ≡ slice_from s n
  unfolding slice_from
  slice_from-cons zero e = absurd (omega (arith, len_utf8_bounds c))
  slice_from-cons (suc m) e =
      let d : suc m - len_utf8 c ≡ n = omega arith in ground (arith, ap (slice_from s) d)

-- A positive boundary lies behind the first character.
pub boundary-suc :
    (c m : ℕ) (s : Text)
    → is_char_boundary (c ∷ s) (suc m) ≡ true
    → (len_utf8 c ≤ suc m) × (is_char_boundary s (suc m - len_utf8 c) ≡ true)
unfolding is_char_boundary
boundary-suc c m s h = ground arith

pub boundary-le : (s : Text) (n : ℕ) → is_char_boundary s n ≡ true → n ≤ len s
unfolding len
boundary-le s zero h = omega arith
boundary-le [] (suc n) h = unfold is_char_boundary in cc h
boundary-le (c ∷ s) (suc n) h =
    let (w, r) = boundary-suc c n s h in omega (arith, boundary-le s (suc n - len_utf8 c) r)

pub boundary-len : (s : Text) → is_char_boundary s (len s) ≡ true
unfolding len
boundary-len [] = boundary-zero []
boundary-len (c ∷ s) = boundary-cons c (len s) s (len_utf8 c + len s) refl ∙ boundary-len s

pub len-slice_to : (s : Text) (n : ℕ) → is_char_boundary s n ≡ true → len (slice_to s n) ≡ n
unfolding len
len-slice_to [] zero h = unfold slice_to in refl
len-slice_to (c ∷ s) zero h = unfold slice_to in refl
len-slice_to [] (suc n) h = unfold is_char_boundary in cc h
len-slice_to (c ∷ s) (suc n) h =
    let (w, r) = boundary-suc c n s h in
    rw (slice_to-cons c (suc n - len_utf8 c) s (suc n) (omega arith))
      (omega (arith, len-slice_to s (suc n - len_utf8 c) r))

pub slice-split : (s : Text) (n : ℕ) → slice_to s n ++ slice_from s n ≡ s
unfolding slice_to slice_from
slice-split [] zero = refl
slice-split (c ∷ s) zero = refl
slice-split [] (suc n) = refl
slice-split (c ∷ s) (suc n) = elim (Bool-cases (ltb (suc n) (len_utf8 c))) [
  | inl e ↦ rw e
  | inr e ↦ rw e (ap (λ t. c ∷ t) (slice-split s (suc n - len_utf8 c)))
]

pub len-slice_from :
    (s : Text) (n : ℕ) → is_char_boundary s n ≡ true → n + len (slice_from s n) ≡ len s
len-slice_from s n h =
    let e = ap len (slice-split s n) in
    omega (arith, e, len-append (slice_to s n) (slice_from s n), len-slice_to s n h)

pub slice_to-len : (s : Text) → slice_to s (len s) ≡ s
unfolding len
slice_to-len [] = unfold slice_to in refl
slice_to-len (c ∷ s) =
    slice_to-cons c (len s) s (len_utf8 c + len s) refl ∙ ap (λ t. c ∷ t) (slice_to-len s)

-- Offsets into a slice are offsets into the whole, from its start.
pub boundary-slice_from :
    (s : Text) (a b : ℕ)
    → is_char_boundary s a ≡ true
    → is_char_boundary (slice_from s a) b ≡ is_char_boundary s (a + b)
boundary-slice_from [] zero b h = unfold slice_from in ap (is_char_boundary []) (omega arith)
boundary-slice_from (c ∷ s) zero b h =
    unfold slice_from in ap (is_char_boundary (c ∷ s)) (omega arith)
boundary-slice_from [] (suc a) b h = unfold is_char_boundary in cc h
boundary-slice_from (c ∷ s) (suc a) b h =
    let (w, r) = boundary-suc c a s h in
    let k = suc a - len_utf8 c in
    rw (slice_from-cons c k s (suc a) (omega arith))
      (boundary-slice_from s k b r ∙ sym (boundary-cons c (k + b) s (suc a + b) (omega arith)))

pub slice_from-slice_from :
    (s : Text) (a b : ℕ)
    → is_char_boundary s a ≡ true
    → slice_from (slice_from s a) b ≡ slice_from s (a + b)
slice_from-slice_from [] zero b h = unfold slice_from in ap (slice_from []) (omega arith)
slice_from-slice_from (c ∷ s) zero b h = unfold slice_from in ap (slice_from (c ∷ s)) (omega arith)
slice_from-slice_from [] (suc a) b h = unfold is_char_boundary in cc h
slice_from-slice_from (c ∷ s) (suc a) b h =
    let (w, r) = boundary-suc c a s h in
    let k = suc a - len_utf8 c in
    rw (slice_from-cons c k s (suc a) (omega arith))
      (slice_from-slice_from s k b r ∙ sym (slice_from-cons c (k + b) s (suc a + b) (omega arith)))

-- Below the end of the text the next boundary is at most four bytes away.
pub boundary_step :
    (s : Text) (n : ℕ)
    → is_char_boundary s n ≡ true
    → n < len s
    → (w : ℕ) × (1 ≤ w) × (w ≤ 4) × (is_char_boundary s (n + w) ≡ true)
unfolding len
boundary_step [] n h lt = absurd (omega arith)
boundary_step (c ∷ s) zero h lt =
    let (lo, hi) = len_utf8_bounds c in
    (len_utf8 c, lo, hi, boundary-cons c 0 s (0 + len_utf8 c) (omega arith) ∙ boundary-zero s)
boundary_step (c ∷ s) (suc n) h lt =
    let (w, r) = boundary-suc c n s h in
    let (v, lo, hi, b) = boundary_step s (suc n - len_utf8 c) r (omega arith) in
    (v, lo, hi, boundary-cons c (suc n - len_utf8 c + v) s (suc n + v) (omega arith) ∙ b)
