-- ===== src/Critical/Levels.antt =====
-- The depth of nested scripts in `check` of src/critical.rs.
use securecrt_mcp.Prelude.{
  ℕ, zero, suc, ◌≡◌, Bool, true, false, ◌&&◌, ◌||◌, List, [], ◌∷◌, arith, Option, none, some, any,
}
use securecrt_mcp.Text.{Text, codes, contains}
use securecrt_mcp.Critical.{
  on_some, script_argument, runs_script, is_catastrophic, dangerous, program, strip_wrappers,
  strip_assignments, base_name, critical_words, segments, check,
}

abbrev Includes : (Text → Bool) → (Text → Bool) → Type 0
Includes f g = (t : Text) → f t ≡ true → g t ≡ true

on_some_mono :
    (f g : Text → Bool) (o : Option Text) → Includes f g → on_some f o ≡ true → on_some g o ≡ true
on_some_mono f g none m h = h
on_some_mono f g (some t) m h = m t h

or_mono : (a x y r : Bool) → (x ≡ true → y ≡ true) → ((a && x) || r) ≡ true → ((a && y) || r) ≡ true
or_mono a x y r m h = ground (arith, m)

dangerous_mono :
    (f g : Text → Bool) (cmd : Text) (a : List Text)
    → Includes f g
    → dangerous f cmd a ≡ true
    → dangerous g cmd a ≡ true
unfolding dangerous runs_script
dangerous_mono f g cmd a m h =
    or_mono (contains (codes "sh" ∷ codes "bash" ∷ codes "dash" ∷ codes "zsh" ∷ []) cmd)
      (on_some f (script_argument a)) (on_some g (script_argument a)) (is_catastrophic cmd a)
      (on_some_mono f g (script_argument a) m) h

program_mono :
    (f g : Text → Bool) (ws : List Text) → Includes f g → program f ws ≡ true → program g ws ≡ true
program_mono f g [] m h = h
program_mono f g (w ∷ ws) m h = dangerous_mono f g (base_name w) ws m h

any_mono :
    (f g : List Text → Bool) (ls : List (List Text))
    → ((l : List Text) → f l ≡ true → g l ≡ true)
    → any f ls ≡ true
    → any g ls ≡ true
any_mono f g [] m h = h
any_mono f g (l ∷ ls) m h = ground (arith, m l, any_mono f g ls m)

-- What is found critical within some levels of nested scripts is found critical with one more.
pub check-suc :
    (levels : ℕ) (input : Text) → check levels input ≡ true → check (suc levels) input ≡ true
unfolding check critical_words
check-suc zero input h = cc
check-suc (suc levels) input h =
    any_mono (critical_words (check levels)) (critical_words (check (suc levels))) (segments input)
      (λ l k.
        program_mono (check levels) (check (suc levels))
          (strip_wrappers false (strip_assignments l)) (check-suc levels) k)
      h
