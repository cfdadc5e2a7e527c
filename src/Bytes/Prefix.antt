-- ===== src/Bytes/Prefix.antt =====
-- What is decoded of the first bytes stays decoded when more bytes follow.
use securecrt_mcp.Prelude.{
  ℕ, zero, suc, ◌≤◌, ◌≡◌, refl, Bool, false, ◌||◌, [], ◌∷◌, ◌++◌, arith, length,
}
use securecrt_mcp.Text.{Text}
use securecrt_mcp.Bytes.{
  Bytes, Front, char, invalid, short, front_two, front_three, front_four, front_utf8, decode_from,
  push_char, push_error,
}

-- `later` is the same front, and does not reach beyond `n` bytes.
abbrev pub IsKept : Front → Front → ℕ → Type 0
IsKept short later n = Unit
IsKept (char c k) later n = (later ≡ char c k) × (k ≤ n)
IsKept (invalid k) later n = (later ≡ invalid k) × (k ≤ n)

abbrev pub Keeps : (ℕ → Bytes → Front) → Type 0
Keeps front =
    (a : ℕ) (rest more : Bytes) → IsKept (front a rest) (front a (rest ++ more)) (length rest)

front_two-Keeps : Keeps front_two
unfolding front_two
front_two-Keeps a [] more = tt
front_two-Keeps a (b ∷ rest) more = ground arith

front_three-Keeps : Keeps front_three
unfolding front_three
front_three-Keeps a [] more = tt
front_three-Keeps a (b ∷ []) [] = ground arith
front_three-Keeps a (b ∷ []) (c ∷ more) = ground arith
front_three-Keeps a (b ∷ c ∷ rest) more = ground arith

front_four-Keeps : Keeps front_four
unfolding front_four
front_four-Keeps a [] more = tt
front_four-Keeps a (b ∷ []) [] = ground arith
front_four-Keeps a (b ∷ []) (c ∷ []) = ground arith
front_four-Keeps a (b ∷ []) (c ∷ d ∷ more) = ground arith
front_four-Keeps a (b ∷ c ∷ []) [] = ground arith
front_four-Keeps a (b ∷ c ∷ []) (d ∷ more) = ground arith
front_four-Keeps a (b ∷ c ∷ d ∷ rest) more = ground arith

pub front_utf8-Keeps : Keeps front_utf8
unfolding front_utf8
front_utf8-Keeps a rest more = ground (
  arith,
  front_two-Keeps a rest more,
  front_three-Keeps a rest more,
  front_four-Keeps a rest more,
)

-- One turn, by what stands at the front.
module _ (front : ℕ → Bytes → Front) (b : ℕ) (bs : Bytes) where
  pub decode_char :
      (c n : ℕ)
      → front b bs ≡ char c n
      → decode_from front 0 (b ∷ bs) ≡ push_char front c (decode_from front n bs)
  unfolding decode_from
  decode_char c n e = rw (e, decode_from) refl

  decode_error :
      (n : ℕ)
      → front b bs ≡ invalid n
      → decode_from front 0 (b ∷ bs) ≡ push_error front (decode_from front n bs)
  unfolding decode_from
  decode_error n e = rw (e, decode_from) refl

  decode_short : front b bs ≡ short → decode_from front 0 (b ∷ bs) ≡ ([], b ∷ bs, false)
  unfolding decode_from
  decode_short e = rw (e, decode_from) refl

-- The rest of one decoding, followed by more bytes, is decoded next.
abbrev pub resume : (ℕ → Bytes → Front) → Bytes → Text × Bytes × Bool → Text × Bytes × Bool
resume front more (text, rest, lost) =
    let (text', rest', lost') = decode_from front 0 (rest ++ more) in
    (text ++ text', rest', lost || lost')

module _ (front : ℕ → Bytes → Front) (keeps : Keeps front) where
  decode_front :
      (b : ℕ) (bytes more : Bytes) (f : Front)
      → front b bytes ≡ f
      → IsKept f (front b (bytes ++ more)) (length bytes)
      → ((skip : ℕ)
          → skip ≤ length bytes
          → decode_from front skip (bytes ++ more)
            ≡ resume front more (decode_from front skip bytes))
      → decode_from front 0 (b ∷ (bytes ++ more))
        ≡ resume front more (decode_from front 0 (b ∷ bytes))
  decode_front b bytes more (char c k) e kept next =
      rw
        (
          decode_char front b (bytes ++ more) c k kept.0,
          decode_char front b bytes c k e,
          next k kept.1,
        )
        refl
  decode_front b bytes more (invalid k) e kept next =
      rw
        (
          decode_error front b (bytes ++ more) k kept.0,
          decode_error front b bytes k e,
          next k kept.1,
        )
        refl
  decode_front b bytes more short e kept next = rw (decode_short front b bytes e) refl

  pub decode_from-append :
      (skip : ℕ) (bytes more : Bytes)
      → skip ≤ length bytes
      → decode_from front skip (bytes ++ more) ≡ resume front more (decode_from front skip bytes)
  unfolding decode_from
  decode_from-append zero [] more h = refl
  decode_from-append (suc skip) [] more h = absurd (omega arith)
  decode_from-append (suc skip) (b ∷ bytes) more h =
      decode_from-append skip bytes more (omega arith)
  decode_from-append zero (b ∷ bytes) more h =
      decode_front b bytes more (front b bytes) refl (keeps b bytes more)
        (λ skip le. decode_from-append skip bytes more le)
