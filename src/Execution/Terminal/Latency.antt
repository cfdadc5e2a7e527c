-- ===== src/Execution/Terminal/Latency.antt =====
-- The percentiles of `latency` in src/execution/persistent.rs are there and in order.
use securecrt_mcp.Prelude.{
  ℕ, zero, suc, ◌-◌, ◌≤◌, ◌<◌, min, ◌≡◌, refl, List, [], ◌∷◌, arith, Bool-cases, inl, inr, some, ok,
  ◌*◌, subst,
}
use securecrt_mcp.Prelude.{length, get_elem?, ◌/◌}
use securecrt_mcp.Config.{within}
use securecrt_mcp.Execution.Terminal.{insert_sorted, sort, Percentiles, percentiles, latency}

-- Each element is at most the next one.
abbrev pub Sorted : List ℕ → Type 0
Sorted [] = Unit
Sorted (a ∷ []) = Unit
Sorted (a ∷ b ∷ bs) = (a ≤ b) × Sorted (b ∷ bs)

length-insert_sorted : (a : ℕ) (bs : List ℕ) → length (insert_sorted a bs) ≡ suc (length bs)
length-insert_sorted a [] = refl
length-insert_sorted a (b ∷ bs) = ground (arith, length-insert_sorted a bs)

length-sort : (times : List ℕ) → length (sort times) ≡ length times
unfolding sort
length-sort [] = refl
length-sort (a ∷ times) = omega (arith, length-insert_sorted a (sort times), length-sort times)

insert_sorted-Sorted : (a : ℕ) (bs : List ℕ) → Sorted bs → Sorted (insert_sorted a bs)
insert_sorted-Sorted a [] h = tt
insert_sorted-Sorted a (b ∷ []) h = ground arith
insert_sorted-Sorted a (b ∷ c ∷ bs) h = ground (arith, insert_sorted-Sorted a (c ∷ bs) h.1)

sort-Sorted : (times : List ℕ) → Sorted (sort times)
unfolding sort
sort-Sorted [] = tt
sort-Sorted (a ∷ times) = insert_sorted-Sorted a (sort times) (sort-Sorted times)

get_some : (xs : List ℕ) (i : ℕ) → i < length xs → (x : ℕ) × (get_elem? xs i ≡ some x)
get_some [] i h = absurd (omega arith)
get_some (x ∷ xs) zero h = (x, refl)
get_some (x ∷ xs) (suc i) h = get_some xs i (omega arith)

-- An element is at most one behind it.
get_head_le :
    (x : ℕ) (xs : List ℕ) (j y : ℕ) → Sorted (x ∷ xs) → get_elem? (x ∷ xs) j ≡ some y → x ≤ y
get_head_le x xs zero y s e = ground arith
get_head_le x [] (suc j) y s e = absurd (cc e)
get_head_le x (z ∷ xs) (suc j) y s e = omega (arith, s.0, get_head_le z xs j y s.1 e)

get_le :
    (xs : List ℕ) (i j x y : ℕ)
    → Sorted xs
    → i ≤ j
    → get_elem? xs i ≡ some x
    → get_elem? xs j ≡ some y
    → x ≤ y
get_le [] i j x y s h a b = absurd (cc a)
get_le (z ∷ xs) zero j x y s h a b =
    let first : z ≡ x = ground (arith, a) in omega (arith, first, get_head_le z xs j y s b)
get_le (z ∷ xs) (suc i) zero x y s h a b = absurd (omega arith)
get_le (z ∷ []) (suc i) (suc j) x y s h a b = absurd (cc a)
get_le (z ∷ w ∷ xs) (suc i) (suc j) x y s h a b = get_le (w ∷ xs) i j x y s.1 (omega arith) a b

-- All four are there, in ascending order.
abbrev pub InOrder : Percentiles → Type 0
InOrder r =
    (a : ℕ) × ((b : ℕ) × ((c : ℕ) × ((d : ℕ) × (((r.min_us ≡ some a)
              × (r.p50_us ≡ some b)
              × (r.p95_us ≡ some c)
              × (r.max_us ≡ some d))
            × ((a ≤ b) × (b ≤ c) × (c ≤ d))))))

percentile_bounds :
    (n : ℕ)
    → 1 ≤ n
    → let q = min (n * 95 / 100) (n - 1) in
      (n / 2 < n) × (q < n) × (n / 2 ≤ q) × (q ≤ n - 1) × (n - 1 < n)
percentile_bounds n h = (omega arith, omega arith, omega arith, omega arith, omega arith)

percentiles-InOrder : (times : List ℕ) → 1 ≤ length times → InOrder (percentiles times)
unfolding percentiles
percentiles-InOrder times h =
    let values = sort times in
    let n = length values in
    let q = min (n * 95 / 100) (n - 1) in
    let some_times : 1 ≤ n = omega (arith, length-sort times) in
    let (half, high, mid, top, last) = percentile_bounds n some_times in
    let (a, ea) = get_some values 0 (omega arith) in
    let (b, eb) = get_some values (n / 2) half in
    let (c, ec) = get_some values q high in
    let (d, ed) = get_some values (n - 1) last in
    let s = sort-Sorted times in
    (
      a,
      (
        b,
        (
          c,
          (
            d,
            (
              (ea, eb, ec, ed),
              (
                get_le values 0 (n / 2) a b s (omega arith) ea eb,
                get_le values (n / 2) q b c s mid eb ec,
                get_le values q (n - 1) c d s top ec ed,
              ),
            ),
          ),
        ),
      ),
    )

-- For 1 to 100 samples every index of `latency` is in range, so that it does not panic, and the
-- percentiles are in ascending order.
pub latency-InOrder : (times : List ℕ) (r : Percentiles) → latency times ≡ ok r → InOrder r
unfolding latency
latency-InOrder times r h = elim (Bool-cases (within 1 100 (length times))) [
  | inl e ↦
      let same : percentiles times ≡ r = ground (arith, rw e at h) in
      subst InOrder same (percentiles-InOrder times (ground (arith, e)))
  | inr e ↦ absurd (cc (rw e at h))
]
