-- ===== src/Execution/Capture/Progress.antt =====
-- The capture loop ends by its deadline, and its log reader can always be flushed.
use securecrt_mcp.Prelude.{
  ℕ, ◌≡◌, refl, Bool, true, false, ◌||◌, List, [], ◌∷◌, arith, leb, Bool-cases, inl, inr, Option,
  none, some, is_some, any, ◌*◌,
}
use securecrt_mcp.Execution.Params.{ExecuteParams}
use securecrt_mcp.Execution.Note.{Note}
use securecrt_mcp.Execution.Capture.{Capture, Close, Turn, turn, loop, add_note}

-- The stop flag is set at the head of the turn, or the deadline has passed.
abbrev pub is_due : ℕ → Turn → Bool
is_due timeout t = t.stop || leb (timeout * 1000) t.elapsed

abbrev Ends : Capture × List Note × Option Close → Type 0
Ends x = is_some x.2 ≡ true

add_note-Ends :
    (entry : Option Note) (x : Capture × List Note × Option Close)
    → Ends x
    → Ends (add_note entry x)
add_note-Ends none x h = h
add_note-Ends (some note) x h = h

turn_due :
    (p : ExecuteParams) (timeout settle : ℕ) (t : Turn) (c : Capture)
    → is_due timeout t ≡ true
    → is_some (turn p timeout settle t c).2 ≡ true
unfolding turn
turn_due p timeout settle t c h = ground arith

-- The loop has ended at the latest with the first turn at whose head the stop flag is set or the
-- deadline has passed, whatever the bridge answers.
pub loop-Ends :
    (p : ExecuteParams) (timeout settle : ℕ) (turns : List Turn) (c : Capture)
    → any (is_due timeout) turns ≡ true
    → is_some (loop p timeout settle turns c).2 ≡ true
unfolding loop
loop-Ends p timeout settle [] c h = absurd (cc h)
loop-Ends p timeout settle (t ∷ ts) c h =
    go (turn p timeout settle t c) (turn_due p timeout settle t c)
      (λ k d. loop-Ends p timeout settle ts d (ground arith))
  where
    go :
        (x : Capture × Option Note × Option Close)
        → (is_due timeout t ≡ true → is_some x.2 ≡ true)
        → (is_due timeout t ≡ false → (d : Capture) → Ends (loop p timeout settle ts d))
        → Ends (
            add_note x.1
              (elim x.2 [ some b ↦ (x.0, [], some b) | none ↦ loop p timeout settle ts x.0 ]))
    go (d, entry, some b) w rest = add_note-Ends entry (d, [], some b) refl
    go (d, entry, none) w rest =
        add_note-Ends entry (loop p timeout settle ts d) (elim (Bool-cases (is_due timeout t)) [
          | inl due ↦ absurd (ground (arith, w due))
          | inr later ↦ rest later d
        ])
