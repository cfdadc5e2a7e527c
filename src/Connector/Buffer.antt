-- ===== src/Connector/Buffer.antt =====
-- `RingBuffer` of src/connector.rs: the bytes of a terminal that are kept, and their pages.
pub mod Pages
use securecrt_mcp.Prelude.{
  ℕ, zero, suc, ◌+◌, ◌-◌, ◌≤◌, ◌<◌, min, max, ◌≡◌, refl, sym, ap, ap₂, ◌∙◌, Bool, true, false, not,
  ◌&&◌, ◌||◌, List, [], ◌∷◌, ◌++◌, arith, ltb, leb, ◌==◌, if◌then◌else◌, Bool-cases, Option-cases,
  inl, inr, Option, none, some, All, append_assoc, append-nil, Result, ok, err, ◌>>=◌, ◌>>◌, ensure,
  context, is_some, unwrap_or, is_empty, all, any, ◌*◌, ◌≢◌, ◌⊎◌, ◌↔◌, subst,
}
use securecrt_mcp.Prelude.{length, take, drop, length-append}
use securecrt_mcp.Text.{Text}
use securecrt_mcp.Connector.Exec.{max_output}

pub record RingBuffer : Type 0 where
  pub bytes : Text
  pub start : ℕ
  pub closed : Bool
  pub reason : Option Text

unfoldable pub new : RingBuffer
new = record { bytes = []; start = 0; closed = false; reason = none }

-- `while self.bytes.len() > MAX_OUTPUT { pop_front; start += 1 }`.
unfoldable pub shrink : Text → ℕ → Text × ℕ
shrink [] start = ([], start)
shrink (c ∷ s) start =
    let rest = shrink s (start + 1) in
    if ltb max_output (length (c ∷ s)) then rest else (c ∷ s, start)

unfoldable pub append : RingBuffer → Text → RingBuffer
unfolding shrink
append b data' =
    let (bytes, start) = shrink (b.bytes ++ data') b.start in
    record b { bytes = bytes; start = start }

unfoldable pub close : RingBuffer → Text → RingBuffer
close b reason = record b { closed = true; reason = some reason }

pub record Page : Type 0 where
  pub bytes : Text
  pub cursor : ℕ
  pub next_cursor : Option ℕ
  pub gap : Bool
  pub dropped_bytes : ℕ
  pub retained_bytes : ℕ
  pub completed : Bool
  pub reason : Option Text

unfoldable pub page : RingBuffer → ℕ → ℕ → Page
page b cursor count =
    let actual = max cursor b.start in
    let offset = actual - b.start in
    let bytes = take count (drop offset b.bytes) in
    record {
      bytes = bytes;
      cursor = actual;
      next_cursor =
          if ltb (offset + length bytes) (length b.bytes) || not b.closed
          then some (actual + length bytes)
          else none;
      gap = ltb cursor b.start;
      dropped_bytes = b.start - cursor;
      retained_bytes = length b.bytes;
      completed = b.closed;
      reason = b.reason;
    }

-- The buffer holds the end of all bytes that it was given, within the limit, and counts those before.
pub record Holds (b : RingBuffer) (fed : Text) : Type 0 where
  pub dropped : Text
  pub fed_split : fed ≡ dropped ++ b.bytes
  pub dropped_counted : length dropped ≡ b.start
  pub within : length b.bytes ≤ max_output

-- What is taken off the front, and what stays.
shrink_lem :
    (s : Text) (start : ℕ)
    → (front : Text) × (s ≡ front ++ (shrink s start).0)
      × ((shrink s start).1 ≡ start + length front)
      × (length (shrink s start).0 ≤ max_output)
unfolding shrink
shrink_lem [] start = ([], refl, omega arith, omega arith)
shrink_lem (c ∷ s) start = elim (Bool-cases (ltb max_output (length (c ∷ s)))) [
  | inl e ↦
      let (front, whole, at, small) = shrink_lem s (start + 1) in
      rw e (c ∷ front, ap (λ r. c ∷ r) whole, omega (arith, at), small)
  | inr e ↦ rw e ([], refl, omega arith, ground arith)
]

append-Holds :
    (b : RingBuffer) (fed data' : Text) → Holds b fed → Holds (append b data') (fed ++ data')
unfolding append
append-Holds b fed data' h =
    let (front, whole, at, small) = shrink_lem (b.bytes ++ data') b.start in
    record {
      dropped = h.dropped ++ front;
      fed_split =
          ap (λ x. x ++ data') h.fed_split
          ∙ append_assoc h.dropped b.bytes data'
          ∙ ap (λ x. h.dropped ++ x) whole
          ∙ sym (append_assoc h.dropped front (shrink (b.bytes ++ data') b.start).0);
      dropped_counted = omega (arith, h.dropped_counted, at, length-append h.dropped front);
      within = small;
    }

abbrev pub append_all : RingBuffer → List Text → RingBuffer
append_all b [] = b
append_all b (d ∷ ds) = append_all (append b d) ds

abbrev pub fed_by : List Text → Text
fed_by [] = []
fed_by (d ∷ ds) = d ++ fed_by ds

append_all-Holds_from :
    (b : RingBuffer) (fed : Text) (ds : List Text)
    → Holds b fed
    → Holds (append_all b ds) (fed ++ fed_by ds)
append_all-Holds_from b fed [] h = rw append-nil h
append_all-Holds_from b fed (d ∷ ds) h =
    subst (λ t. Holds (append_all (append b d) ds) t) (append_assoc fed d (fed_by ds))
      (append_all-Holds_from (append b d) (fed ++ d) ds (append-Holds b fed d h))

-- Whatever was appended to a new buffer, it holds the end of it, at most 1 MiB, and `start` is the
-- number of bytes in front.
pub append_all-Holds : (ds : List Text) → Holds (append_all new ds) (fed_by ds)
append_all-Holds ds = append_all-Holds_from new [] ds (record {
  dropped = [];
  fed_split = unfold new in refl;
  dropped_counted = unfold new in refl;
  within = unfold new in omega arith;
})
