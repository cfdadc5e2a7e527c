-- ===== src/Execution/NativeLog/Utf16.antt =====
-- `decode_utf16` keeps what it has decoded when more bytes follow, and reads back both encodings.
use securecrt_mcp.Prelude.{ℕ, suc, ◌≡◌, refl, Bool, true, false, [], ◌∷◌, ◌++◌, arith, length}
use securecrt_mcp.Bytes.{Bytes, unit}
use securecrt_mcp.Bytes.Encode.{IsScalar, encode_utf16, unit_bytes}
use securecrt_mcp.Bytes.Prefix.{IsKept, Keeps}
use securecrt_mcp.Bytes.Roundtrip.{Reads}
use securecrt_mcp.Execution.NativeLog.{front_utf16, front_pair}

front_pair-IsKept :
    (little : Bool) (first n : ℕ) (rest more : Bytes)
    → n ≡ suc (length rest)
    → IsKept (front_pair little first rest) (front_pair little first (rest ++ more)) n
unfolding front_pair
front_pair-IsKept little first n [] more e = tt
front_pair-IsKept little first n (c ∷ []) more e = tt
front_pair-IsKept little first n (c ∷ d ∷ rest) more e = ground arith

pub front_utf16-Keeps : (little : Bool) → Keeps (front_utf16 little)
unfolding front_utf16
front_utf16-Keeps little a [] more = tt
front_utf16-Keeps little a (b ∷ rest) more =
    ground (arith, front_pair-IsKept little (unit little a b) (suc (length rest)) rest more refl)

pub utf16-Reads :
    (little : Bool) (c : ℕ) → IsScalar c → Reads (front_utf16 little) (encode_utf16 little c) c
unfolding encode_utf16 unit_bytes front_utf16 front_pair unit
utf16-Reads true c h = ground arith
utf16-Reads false c h = ground arith
