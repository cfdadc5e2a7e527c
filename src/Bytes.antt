-- ===== src/Bytes.antt =====
-- What src/execution/native_log.rs uses of Rust's `str::from_utf8` and of the code units of UTF-16:
-- the first character of a list of bytes, the error in its place, or the lack of further bytes.
pub mod Encode
pub mod Prefix
pub mod Roundtrip
use securecrt_mcp.Prelude.{
  ℕ, zero, suc, ◌+◌, ◌-◌, ◌*◌, Bool, true, false, ◌&&◌, ◌||◌, List, [], ◌∷◌, ltb, leb, ◌==◌,
  if◌then◌else◌,
}
use securecrt_mcp.Text.{Text}

abbrev pub Bytes : Type 0
Bytes = List ℕ

-- What stands at the front: a character or an error, with the number of its bytes behind the first
-- one, or the start of a character whose end is not there yet (`error_len()` is `None`).
pub data Front : Type 0 where
  char : ℕ → ℕ → Front
  invalid : ℕ → Front
  short : Front

unfoldable pub is_continuation : ℕ → Bool
is_continuation b = leb 0x80 b && leb b 0xbf

-- The second byte that may follow the first byte of a longer character: no overlong form, no
-- surrogate, nothing beyond U+10FFFF.
unfoldable pub is_second : ℕ → ℕ → Bool
is_second a b =
    leb (if a == 0xe0 then 0xa0 else if a == 0xf0 then 0x90 else 0x80) b
    && leb b (if a == 0xed then 0x9f else if a == 0xf4 then 0x8f else 0xbf)

unfoldable pub front_two : ℕ → Bytes → Front
unfolding is_continuation
front_two a [] = short
front_two a (b ∷ _) = if is_continuation b then char ((a - 0xc0) * 64 + (b - 0x80)) 1 else invalid 0

unfoldable pub front_three : ℕ → Bytes → Front
unfolding is_continuation is_second
front_three a [] = short
front_three a (b ∷ []) = if is_second a b then short else invalid 0
front_three a (b ∷ c ∷ _) =
    if is_second a b
    then (if is_continuation c
        then char ((a - 0xe0) * 4096 + (b - 0x80) * 64 + (c - 0x80)) 2
        else invalid 1)
    else invalid 0

unfoldable pub front_four : ℕ → Bytes → Front
unfolding is_continuation is_second
front_four a [] = short
front_four a (b ∷ []) = if is_second a b then short else invalid 0
front_four a (b ∷ c ∷ []) =
    if is_second a b then (if is_continuation c then short else invalid 1) else invalid 0
front_four a (b ∷ c ∷ d ∷ _) =
    if is_second a b
    then (if is_continuation c
        then (if is_continuation d
            then char ((a - 0xf0) * 262144 + (b - 0x80) * 4096 + (c - 0x80) * 64 + (d - 0x80)) 3
            else invalid 2)
        else invalid 1)
    else invalid 0

unfoldable pub front_utf8 : ℕ → Bytes → Front
unfolding front_two front_three front_four
front_utf8 a rest =
    if ltb a 0x80
    then char a 0
    else if leb 0xc2 a && leb a 0xdf
    then front_two a rest
    else if leb 0xe0 a && leb a 0xef
    then front_three a rest
    else if leb 0xf0 a && leb a 0xf4
    then front_four a rest
    else invalid 0

-- `u16::from_le_bytes` and `u16::from_be_bytes`.
unfoldable pub unit : Bool → ℕ → ℕ → ℕ
unit true a b = a + 256 * b
unit false a b = 256 * a + b

abbrev pub is_high : ℕ → Bool
is_high u = leb 0xd800 u && leb u 0xdbff

abbrev pub is_low : ℕ → Bool
is_low u = leb 0xdc00 u && leb u 0xdfff

-- All characters and errors at the front, what is left over, and whether there was an error, which
-- is replaced by U+FFFD; `skip` counts the bytes of the last one that are still to be dropped.
module _ (front : ℕ → Bytes → Front) where
  abbrev pub push_char : ℕ → Text × Bytes × Bool → Text × Bytes × Bool
  push_char c (text, rest, lost) = (c ∷ text, rest, lost)

  abbrev pub push_error : Text × Bytes × Bool → Text × Bytes × Bool
  push_error (text, rest, lost) = (0xfffd ∷ text, rest, true)

  unfoldable pub decode_from : ℕ → Bytes → Text × Bytes × Bool
  decode_from skip [] = ([], [], false)
  decode_from (suc skip) (b ∷ bs) = decode_from skip bs
  decode_from zero (b ∷ bs) = elim (front b bs) [
    | char c n ↦ push_char c (decode_from n bs)
    | invalid n ↦ push_error (decode_from n bs)
    | short ↦ ([], b ∷ bs, false)
  ]
