-- ===== src/Execution/NativeLog/Chunks.antt =====
-- How a log is cut into pieces does not change what is decoded of it.
use securecrt_mcp.Prelude.{
  ℕ, inl, inr, ◌≡◌, refl, sym, ap, ◌∙◌, Bool, true, false, List, [], ◌∷◌, ◌++◌, arith, length, ltb,
  Bool-cases, Option, none, some, All, append_assoc, append-nil, length-append,
}
use securecrt_mcp.Text.{Text, starts_with}
use securecrt_mcp.Bytes.{Bytes}
use securecrt_mcp.Bytes.Encode.{IsScalar, encode_utf8, encode_utf16, encode_all}
use securecrt_mcp.Bytes.Prefix.{Keeps, front_utf8-Keeps, decode_from-append}
use securecrt_mcp.Bytes.Roundtrip.{Reads, utf8-Reads, decode-encode_all}
use securecrt_mcp.Execution.NativeLog
use securecrt_mcp.Execution.NativeLog.{
  Encoding, utf8, utf16_le, utf16_be, Reader, with_session_encoding, front_of, is_little, needed,
  detect, decode_as, decode_first, decode,
}
use securecrt_mcp.Execution.NativeLog.Utf16.{front_utf16-Keeps, utf16-Reads}

-- More bytes of the file, and the decoding of one piece after the other.
abbrev pub push : Bytes → Reader → Reader
push bytes r = record r { pending = r.pending ++ bytes }

abbrev pub before : Text → Text × Reader → Text × Reader
before text (more, r) = (text ++ more, r)

unfoldable pub read_all : List Bytes → Reader → Text × Reader
unfolding decode
read_all [] r = ([], r)
read_all (bytes ∷ rest) r = let (text, s) = decode (push bytes r) in before text (read_all rest s)

unfoldable pub concat : List Bytes → Bytes
concat [] = []
concat (bytes ∷ rest) = bytes ++ concat rest

abbrev pub again : Bytes → Text × Reader → Text × Reader
again more (text, r) = before text (decode (push more r))

front_of-Keeps : (e : Encoding) → Keeps (front_of e)
unfolding front_of
front_of-Keeps utf8 = front_utf8-Keeps
front_of-Keeps utf16_le = front_utf16-Keeps true
front_of-Keeps utf16_be = front_utf16-Keeps false

decode_as-append :
    (r : Reader) (e : Encoding) (p more : Bytes)
    → decode_as r (e, p ++ more) ≡ again more (decode_as r (e, p))
unfolding decode_as decode
decode_as-append r e p more =
    rw (decode_from-append (front_of e) (front_of-Keeps e) 0 p more (omega arith)) (ground arith)

detect-append :
    (b : ℕ) (bs more : Bytes)
    → ltb (length (b ∷ bs)) (needed b) ≡ false
    → detect ((b ∷ bs) ++ more) ≡ ((detect (b ∷ bs)).0, (detect (b ∷ bs)).1 ++ more)
unfolding detect starts_with needed
detect-append b [] more h = ground arith
detect-append b (c ∷ []) more h = ground arith
detect-append b (c ∷ d ∷ bs) more h = ground arith

-- The reader before its byte order mark is known.
abbrev undecided : Bool → ℕ → Bool → Bytes → Reader
undecided is_open read lost p = record {
  is_open = is_open;
  read = read;
  pending = p;
  encoding = none;
  incomplete = lost;
}

decode-undecided :
    (o : Bool) (n : ℕ) (lost : Bool) (p more : Bytes)
    → decode (undecided o n lost (p ++ more)) ≡ again more (decode (undecided o n lost p))
unfolding decode decode_first
decode-undecided o n lost [] more = refl
decode-undecided o n lost (b ∷ bs) more = elim (Bool-cases (ltb (length (b ∷ bs)) (needed b))) [
  | inl few ↦ rw few refl
  | inr enough ↦
      let further : ltb (length (b ∷ (bs ++ more))) (needed b) ≡ false =
        ground (arith, length-append bs more) in
      rw (enough, further, detect-append b bs more enough)
        (decode_as-append (undecided o n lost []) (detect (b ∷ bs)).0 (detect (b ∷ bs)).1 more)
]

decode_fields :
    (o : Bool) (n : ℕ) (lost : Bool) (p : Bytes) (encoding : Option Encoding) (more : Bytes)
    → let r : Reader = record (undecided o n lost p) { encoding = encoding } in
      decode (push more r) ≡ again more (decode r)
unfolding decode
decode_fields o n lost p none more = decode-undecided o n lost p more
decode_fields o n lost p (some e) more =
    decode_as-append (record (undecided o n lost p) { encoding = some e }) e p more

-- Decoding, reading more and decoding again gives what decoding all at once gives, the state and the
-- text.
pub decode-push : (more : Bytes) (r : Reader) → decode (push more r) ≡ again more (decode r)
decode-push more r = decode_fields r.is_open r.read r.incomplete r.pending r.encoding more

-- A log that is read in pieces is decoded as it is in one piece.
pub read_all-concat :
    (bytes : Bytes) (rest : List Bytes) (r : Reader)
    → read_all (bytes ∷ rest) r ≡ decode (push (concat (bytes ∷ rest)) r)
unfolding read_all concat
read_all-concat bytes [] r = rw (append-nil bytes, append-nil (decode (push bytes r)).0) refl
read_all-concat bytes (next ∷ rest) r =
    let (text, s) = decode (push bytes r) in
    let more = concat (next ∷ rest) in
    ap (before text) (read_all-concat next rest s)
    ∙ sym (decode-push more (push bytes r))
    ∙ ap (λ p. decode (record r { pending = p })) (append_assoc r.pending bytes more)

unfoldable pub mark : Encoding → Bytes
mark utf8 = 0xef ∷ 0xbb ∷ 0xbf ∷ []
mark utf16_le = 0xff ∷ 0xfe ∷ []
mark utf16_be = 0xfe ∷ 0xff ∷ []

unfoldable pub encode_of : Encoding → ℕ → Bytes
encode_of utf8 = encode_utf8
encode_of e = encode_utf16 (is_little e)

encode_of-Reads : (e : Encoding) (c : ℕ) → IsScalar c → Reads (front_of e) (encode_of e c) c
unfolding front_of encode_of
encode_of-Reads utf8 = utf8-Reads
encode_of-Reads utf16_le = utf16-Reads true
encode_of-Reads utf16_be = utf16-Reads false

abbrev pub session_reader : Reader
session_reader = with_session_encoding true NativeLog.new

decode-mark :
    (e : Encoding) (bytes : Bytes)
    → decode (push (mark e ++ bytes) session_reader) ≡ decode_as session_reader (e, bytes)
unfolding decode decode_first mark needed detect starts_with with_session_encoding NativeLog.new
decode-mark utf8 bytes = ground arith
decode-mark utf16_le bytes = ground arith
decode-mark utf16_be bytes = ground arith

-- A session log that starts with the byte order mark of its encoding and holds the text, is read
-- back as that text, however it is cut into pieces; nothing is left over and nothing is marked as
-- incomplete. Its characters are Unicode scalar values.
pub read_all-encode :
    (e : Encoding) (text : Text) (bytes : Bytes) (rest : List Bytes)
    → All IsScalar text
    → concat (bytes ∷ rest) ≡ mark e ++ encode_all (encode_of e) text
    → read_all (bytes ∷ rest) session_reader
      ≡ (text, record session_reader { pending = []; encoding = some e; incomplete = false })
unfolding decode_as decode concat with_session_encoding NativeLog.new
read_all-encode e text bytes rest scalar cut =
    read_all-concat bytes rest session_reader
    ∙ ap (λ p. decode (record session_reader { pending = p })) cut
    ∙ decode-mark e (encode_all (encode_of e) text)
    ∙ rw (decode-encode_all (front_of e) (encode_of e) (encode_of-Reads e) text scalar) refl
