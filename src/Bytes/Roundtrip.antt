-- ===== src/Bytes/Roundtrip.antt =====
-- Decoding what is encoded.
use securecrt_mcp.Prelude.{ℕ, ◌≡◌, refl, false, [], ◌∷◌, ◌++◌, arith, length, All}
use securecrt_mcp.Text.{Text}
use securecrt_mcp.Bytes.{
  Bytes, Front, char, front_two, front_three, front_four, front_utf8, is_second, is_continuation,
  decode_from, push_char,
}
use securecrt_mcp.Bytes.Encode.{IsScalar, encode_utf8, encode_all}
use securecrt_mcp.Bytes.Prefix.{decode_char}

-- `front` reads back what `encode` writes, whatever bytes follow.
abbrev pub Reads : (ℕ → Bytes → Front) → Bytes → ℕ → Type 0
Reads front [] c = ⊥
Reads front (b ∷ bs) c = (more : Bytes) → front b (bs ++ more) ≡ char c (length bs)

pub utf8-Reads : (c : ℕ) → IsScalar c → Reads front_utf8 (encode_utf8 c) c
unfolding encode_utf8 front_utf8 front_two front_three front_four is_second is_continuation
utf8-Reads c h = ground arith

-- A whole text is read back, and nothing is left over or lost.
module _ (front : ℕ → Bytes → Front) (encode : ℕ → Bytes)
    (reads : (c : ℕ) → IsScalar c → Reads front (encode c) c) where
  decode-skip :
      (bs more : Bytes) → decode_from front (length bs) (bs ++ more) ≡ decode_from front 0 more
  unfolding decode_from
  decode-skip [] more = refl
  decode-skip (b ∷ bs) more = decode-skip bs more

  decode-one :
      (bs : Bytes) (c : ℕ) (more : Bytes)
      → Reads front bs c
      → decode_from front 0 (bs ++ more) ≡ push_char front c (decode_from front 0 more)
  decode-one [] c more h = absurd h
  decode-one (b ∷ bs) c more h =
      rw (decode_char front b (bs ++ more) c (length bs) (h more), decode-skip bs more) refl

  pub decode-encode_all :
      (text : Text)
      → All IsScalar text
      → decode_from front 0 (encode_all encode text) ≡ (text, [], false)
  unfolding decode_from encode_all
  decode-encode_all [] h = refl
  decode-encode_all (c ∷ text) h =
      rw
        (decode-one (encode c) c (encode_all encode text) (reads c h.0), decode-encode_all text h.1)
        refl
