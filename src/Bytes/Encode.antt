-- ===== src/Bytes/Encode.antt =====
-- The encoders that the decoders of Bytes are measured by: `char::encode_utf8` and
-- `char::encode_utf16` with the bytes of each unit.
use securecrt_mcp.Prelude.{
  ℕ, ◌+◌, ◌-◌, ◌<◌, ◌≤◌, ◌⊎◌, Bool, true, false, [], ◌∷◌, ◌++◌, ltb, if◌then◌else◌,
}
use Prim.Native.Nat.{◌/◌, ◌%◌}
use securecrt_mcp.Text.{Text}
use securecrt_mcp.Bytes.{Bytes}

-- A Unicode scalar value, as every `char` is.
abbrev pub IsScalar : ℕ → Type 0
IsScalar c = (c < 0xd800) ⊎ ((0xe000 ≤ c) × (c < 0x110000))

unfoldable pub encode_utf8 : ℕ → Bytes
encode_utf8 c =
    if ltb c 0x80
    then c ∷ []
    else if ltb c 0x800
    then (0xc0 + c / 64) ∷ (0x80 + c % 64) ∷ []
    else if ltb c 0x10000
    then (0xe0 + c / 4096) ∷ (0x80 + (c / 64) % 64) ∷ (0x80 + c % 64) ∷ []
    else (0xf0 + c / 262144)
      ∷ (0x80 + (c / 4096) % 64)
      ∷ (0x80 + (c / 64) % 64)
      ∷ (0x80 + c % 64)
      ∷ []

-- `to_le_bytes` and `to_be_bytes`.
unfoldable pub unit_bytes : Bool → ℕ → Bytes
unit_bytes true u = (u % 256) ∷ (u / 256) ∷ []
unit_bytes false u = (u / 256) ∷ (u % 256) ∷ []

unfoldable pub encode_utf16 : Bool → ℕ → Bytes
unfolding unit_bytes
encode_utf16 little c =
    if ltb c 0x10000
    then unit_bytes little c
    else unit_bytes little (0xd800 + (c - 0x10000) / 1024)
      ++ unit_bytes little (0xdc00 + (c - 0x10000) % 1024)

-- `str::as_bytes` and its counterpart: the characters one behind the other.
unfoldable pub encode_all : (ℕ → Bytes) → Text → Bytes
encode_all encode [] = []
encode_all encode (c ∷ text) = encode c ++ encode_all encode text
