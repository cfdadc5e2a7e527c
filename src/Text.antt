-- ===== src/Text.antt =====
-- Rust's `str` and `String`: a text is the list of its code points, and its length, its offsets
-- and its boundaries count the bytes of their UTF-8 encoding, as in the source.
pub mod Utf8
pub mod Equality
pub mod Trim
pub mod Words
use Prim.Native.Char.{code}
use Prim.Native.String.{[] as empty_string, ◌∷◌ as cons_string}
use securecrt_mcp.Prelude.{
  ℕ, zero, suc, ◌+◌, ◌-◌, String, Bool, true, false, not, ◌&&◌, ◌||◌, Option, none, some, List, [],
  ◌∷◌, ◌++◌, ltb, leb, ◌==◌, if◌then◌else◌, min, any,
}

abbrev pub Text : Type 0
Text = List ℕ

-- The code points of a literal.
abbrev pub codes : String → Text
codes empty_string = []
codes (cons_string c s) = code c ∷ codes s

-- `char::len_utf8`.
unfoldable pub len_utf8 : ℕ → ℕ
len_utf8 c = if ltb c 0x80 then 1 else if ltb c 0x800 then 2 else if ltb c 0x10000 then 3 else 4

-- `str::len`, in bytes.
unfoldable pub len : Text → ℕ
len [] = 0
len (c ∷ s) = len_utf8 c + len s

-- `str::is_char_boundary`.
unfoldable pub is_char_boundary : Text → ℕ → Bool
is_char_boundary s zero = true
is_char_boundary [] (suc n) = false
is_char_boundary (c ∷ s) (suc n) =
    let rest = is_char_boundary s (suc n - len_utf8 c) in
    if ltb (suc n) (len_utf8 c) then false else rest

-- `&s[..n]` and `&s[n..]`, which the source takes at boundaries only.
unfoldable pub slice_to : Text → ℕ → Text
slice_to s zero = []
slice_to [] (suc n) = []
slice_to (c ∷ s) (suc n) =
    let rest = slice_to s (suc n - len_utf8 c) in if ltb (suc n) (len_utf8 c) then [] else c ∷ rest

unfoldable pub slice_from : Text → ℕ → Text
slice_from s zero = s
slice_from [] (suc n) = []
slice_from (c ∷ s) (suc n) =
    let rest = slice_from s (suc n - len_utf8 c) in if ltb (suc n) (len_utf8 c) then c ∷ s else rest

-- `==` of texts.
unfoldable pub eq_text : Text → Text → Bool
eq_text [] [] = true
eq_text [] (_ ∷ _) = false
eq_text (_ ∷ _) [] = false
eq_text (a ∷ s) (b ∷ t) = a == b && eq_text s t

-- `[…].contains(&s)` on an array of texts.
unfoldable pub contains : List Text → Text → Bool
contains [] s = false
contains (t ∷ ts) s = eq_text t s || contains ts s

-- `str::contains(char)`.
unfoldable pub has_char : Text → ℕ → Bool
has_char [] c = false
has_char (d ∷ s) c = d == c || has_char s c

unfoldable pub strip_prefix : Text → Text → Option Text
strip_prefix s [] = some s
strip_prefix [] (_ ∷ _) = none
strip_prefix (a ∷ s) (b ∷ p) = let rest = strip_prefix s p in if a == b then rest else none

unfoldable pub starts_with : Text → Text → Bool
starts_with s [] = true
starts_with [] (_ ∷ _) = false
starts_with (a ∷ s) (b ∷ p) = a == b && starts_with s p

unfoldable pub ends_with : Text → Text → Bool
unfolding eq_text
ends_with [] p = eq_text [] p
ends_with (c ∷ s) p = eq_text (c ∷ s) p || ends_with s p

-- `str::contains(&str)`.
unfoldable pub contains_text : Text → Text → Bool
unfolding starts_with
contains_text [] p = starts_with [] p
contains_text (c ∷ s) p = starts_with (c ∷ s) p || contains_text s p

-- `str::trim_end_matches` and `trim_start_matches`, by a test on characters.
unfoldable pub trim_end_matches : (ℕ → Bool) → Text → Text
trim_end_matches p [] = []
trim_end_matches p (c ∷ s) = elim (trim_end_matches p s) [
  | [] ↦ if p c then [] else c ∷ []
  | d ∷ r ↦ c ∷ d ∷ r
]

unfoldable pub trim_start_matches : (ℕ → Bool) → Text → Text
trim_start_matches p [] = []
trim_start_matches p (c ∷ s) = let rest = trim_start_matches p s in if p c then rest else c ∷ s

-- `char::is_whitespace`: White_Space of Unicode.
unfoldable pub is_whitespace : ℕ → Bool
is_whitespace c =
    (leb 9 c && leb c 13)
    || c == 0x20
    || c == 0x85
    || c == 0xa0
    || c == 0x1680
    || (leb 0x2000 c && leb c 0x200a)
    || c == 0x2028
    || c == 0x2029
    || c == 0x202f
    || c == 0x205f
    || c == 0x3000

-- `u8::is_ascii_whitespace`: space, tab, line feed, form feed, carriage return.
unfoldable pub is_ascii_whitespace : ℕ → Bool
is_ascii_whitespace c = c == 0x20 || c == 9 || c == 10 || c == 12 || c == 13

-- `char::is_control`: category Cc.
unfoldable pub is_control : ℕ → Bool
is_control c = ltb c 0x20 || (leb 0x7f c && leb c 0x9f)

unfoldable pub is_ascii_alphanumeric : ℕ → Bool
is_ascii_alphanumeric c =
    (leb b'0' c && leb c b'9') || (leb b'A' c && leb c b'Z') || (leb b'a' c && leb c b'z')

-- `to_ascii_lowercase`.
unfoldable pub to_ascii_lowercase : Text → Text
to_ascii_lowercase [] = []
to_ascii_lowercase (c ∷ s) = (if leb b'A' c && leb c b'Z' then c + 32 else c) ∷ to_ascii_lowercase s

unfoldable pub trim : Text → Text
unfolding is_whitespace trim_end_matches trim_start_matches
trim s = trim_end_matches is_whitespace (trim_start_matches is_whitespace s)

unfoldable pub trim_end : Text → Text
unfolding is_whitespace trim_end_matches
trim_end s = trim_end_matches is_whitespace s

-- `str::split(char)`: the pieces between the separators, empty ones included.
abbrev pub push_front : ℕ → List Text → List Text
push_front c [] = (c ∷ []) ∷ []
push_front c (w ∷ ws) = (c ∷ w) ∷ ws

unfoldable pub split : ℕ → Text → List Text
split sep [] = [] ∷ []
split sep (c ∷ s) = let rest = split sep s in if c == sep then [] ∷ rest else push_front c rest

-- The last piece of `rsplit(char)`, that is the text behind the last separator.
unfoldable pub after_last_from : ℕ → Text → Text → Text
after_last_from sep best [] = best
after_last_from sep best (c ∷ r) = after_last_from sep (if c == sep then r else best) r

unfoldable pub after_last : ℕ → Text → Text
unfolding after_last_from
after_last sep s = after_last_from sep s s

-- `str::split_ascii_whitespace`: the nonempty words.
abbrev add_word : Text → List Text → List Text
add_word [] ws = ws
add_word (c ∷ w) ws = (c ∷ w) ∷ ws

abbrev first_word : List Text × Text → List Text
first_word (ws, w) = add_word w ws

split_words : Text → List Text × Text
split_words [] = ([], [])
split_words (c ∷ s) =
    let (ws, w) = split_words s in
    if is_ascii_whitespace c then (add_word w ws, []) else (ws, c ∷ w)

unfoldable pub split_ascii_whitespace : Text → List Text
unfolding split_words is_ascii_whitespace
split_ascii_whitespace s = first_word (split_words s)
