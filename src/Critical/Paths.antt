-- ===== src/Critical/Paths.antt =====
-- The paths that `normalized` of src/critical.rs gives, by their parts.
use securecrt_mcp.Prelude.{
  ℕ, ◌≡◌, refl, sym, ap, ap₂, ◌∙◌, true, false, ◌||◌, List, [], ◌∷◌, ◌++◌, arith, ◌==◌, Bool-cases,
  inl, inr, All, is_empty,
}
use securecrt_mcp.Text.{Text, codes, eq_text, has_char, split, starts_with, push_front}
use securecrt_mcp.Critical.{slash, pop, push_part, resolve, join_reversed, absolute, normalized}

-- A part that `resolve` keeps: not empty, `.` or `..`, and without a slash.
abbrev pub IsPart : Text → Type 0
IsPart p =
    (has_char p slash ≡ false)
    × (is_empty p ≡ false)
    × (eq_text p (codes ".") ≡ false)
    × (eq_text p (codes "..") ≡ false)

abbrev IsSlashFree : Text → Type 0
IsSlashFree p = has_char p slash ≡ false

push_front-IsSlashFree :
    (c : ℕ) (ws : List Text)
    → (c == slash) ≡ false
    → All IsSlashFree ws
    → All IsSlashFree (push_front c ws)
unfolding has_char
push_front-IsSlashFree c [] n h = (ground arith, tt)
push_front-IsSlashFree c (w ∷ ws) n h = (ground (arith, h.0), h.1)

split-IsSlashFree : (s : Text) → All IsSlashFree (split slash s)
unfolding split has_char
split-IsSlashFree [] = (refl, tt)
split-IsSlashFree (c ∷ s) = elim (Bool-cases (c == slash)) [
  | inl e ↦ rw e (refl, split-IsSlashFree s)
  | inr e ↦ rw e (push_front-IsSlashFree c (split slash s) e (split-IsSlashFree s))
]

pop-IsPart : (ps : List Text) → All IsPart ps → All IsPart (pop ps)
pop-IsPart [] h = tt
pop-IsPart (p ∷ ps) h = h.1

push_part-IsPart :
    (ps : List Text) (p : Text) → All IsPart ps → IsSlashFree p → All IsPart (push_part ps p)
unfolding push_part
push_part-IsPart ps p h n = elim (Bool-cases (is_empty p || eq_text p (codes "."))) [
  | inl e ↦ rw e h
  | inr e ↦ elim (Bool-cases (eq_text p (codes ".."))) [
    | inl d ↦ rw e (rw d (pop-IsPart ps h))
    | inr d ↦ rw e (rw d ((n, ground arith, ground arith, d), h))
  ]
]

pub resolve-IsPart :
    (ps ws : List Text) → All IsPart ps → All IsSlashFree ws → All IsPart (resolve ps ws)
unfolding resolve
resolve-IsPart ps [] h n = h
resolve-IsPart ps (w ∷ ws) h n =
    resolve-IsPart (push_part ps w) ws (push_part-IsPart ps w h n.0) n.1

resolve-append : (ps us ws : List Text) → resolve ps (us ++ ws) ≡ resolve (resolve ps us) ws
unfolding resolve
resolve-append ps [] ws = refl
resolve-append ps (u ∷ us) ws = resolve-append (push_part ps u) us ws

push_part-kept : (ps : List Text) (p : Text) → IsPart p → push_part ps p ≡ p ∷ ps
unfolding push_part
push_part-kept ps p (n, e, d, dd) = rw (e, d, dd) refl

split-part : (p : Text) → IsSlashFree p → split slash p ≡ p ∷ []
unfolding split has_char
split-part [] n = refl
split-part (c ∷ p) n =
    let (l, r) : ((c == slash) ≡ false) × (has_char p slash ≡ false) =
      (ground arith, ground arith) in
    rw (l, split-part p r) refl

push_front-front :
    (c d : ℕ) (vs ws : List Text)
    → push_front c (push_front d vs ++ ws) ≡ push_front c (push_front d vs) ++ ws
push_front-front c d [] ws = refl
push_front-front c d (v ∷ vs) ws = refl

push_front-append :
    (c : ℕ) (s : Text) (ws : List Text)
    → push_front c (split slash s ++ ws) ≡ push_front c (split slash s) ++ ws
unfolding split
push_front-append c [] ws = refl
push_front-append c (d ∷ s) ws = elim (Bool-cases (d == slash)) [
  | inl e ↦ rw e refl
  | inr e ↦ rw e (push_front-front c d (split slash s) ws)
]

split-append : (s t : Text) → split slash (s ++ slash ∷ t) ≡ split slash s ++ split slash t
unfolding split
split-append [] t = refl
split-append (c ∷ s) t = elim (Bool-cases (c == slash)) [
  | inl e ↦ rw e (ap (◌∷◌ []) (split-append s t))
  | inr e ↦ rw e (ap (push_front c) (split-append s t) ∙ push_front-append c s (split slash t))
]

resolve-root : resolve [] (split slash (slash ∷ [])) ≡ []
unfolding resolve split push_part eq_text
resolve-root = refl

resolve-parts :
    (s p : Text) (ps : List Text)
    → resolve [] (split slash s) ≡ ps
    → IsPart p
    → resolve [] (split slash (s ++ slash ∷ p)) ≡ p ∷ ps
unfolding resolve
resolve-parts s p ps h n =
    ap (resolve []) (split-append s p ∙ ap (λ ws. split slash s ++ ws) (split-part p n.0))
    ∙ resolve-append [] (split slash s) (p ∷ [])
    ∙ ap (λ r. push_part r p) h
    ∙ push_part-kept ps p n

resolve-join :
    (p : Text) (ps : List Text)
    → IsPart p
    → All IsPart ps
    → resolve [] (split slash (join_reversed (p ∷ ps))) ≡ p ∷ ps
unfolding join_reversed
resolve-join p [] n h =
    resolve-parts [] p [] (unfold resolve in unfold split in unfold push_part in refl) n
resolve-join p (q ∷ ps) n h =
    resolve-parts (join_reversed (q ∷ ps)) p (q ∷ ps) (resolve-join q ps h.0 h.1) n

resolve-absolute : (ps : List Text) → All IsPart ps → resolve [] (split slash (absolute ps)) ≡ ps
unfolding absolute
resolve-absolute [] h = resolve-root
resolve-absolute (p ∷ ps) h = resolve-join p ps h.0 h.1

starts_with-more : (s t p : Text) → starts_with s p ≡ true → starts_with (s ++ t) p ≡ true
unfolding starts_with
starts_with-more s t [] h = refl
starts_with-more [] t (b ∷ p) h = cc
starts_with-more (a ∷ s) t (b ∷ p) h = ground (arith, starts_with-more s t p)

starts_with-join :
    (p : Text) (ps : List Text) → starts_with (join_reversed (p ∷ ps)) (slash ∷ []) ≡ true
unfolding join_reversed
starts_with-join p [] = unfold starts_with in refl
starts_with-join p (q ∷ ps) =
    starts_with-more (join_reversed (q ∷ ps)) (slash ∷ p) (slash ∷ []) (starts_with-join q ps)

pub starts_with-absolute : (ps : List Text) → starts_with (absolute ps) (slash ∷ []) ≡ true
unfolding absolute
starts_with-absolute [] = unfold starts_with in refl
starts_with-absolute (p ∷ ps) = starts_with-join p ps

pub normalized-absolute : (ps : List Text) → All IsPart ps → normalized (absolute ps) ≡ absolute ps
unfolding normalized
normalized-absolute ps h = rw (starts_with-absolute ps) (ap absolute (resolve-absolute ps h))

-- Normalizing a path twice is normalizing it once.
pub normalized-idempotent : (path : Text) → normalized (normalized path) ≡ normalized path
normalized-idempotent path = elim (Bool-cases (starts_with path (slash ∷ []))) [
  | inr e ↦ ap normalized (unfold normalized in rw e refl)
  | inl e ↦
      let by : normalized path ≡ absolute (resolve [] (split slash path)) =
        unfold normalized in rw e refl in
      ap normalized by
      ∙ normalized-absolute (resolve [] (split slash path))
          (resolve-IsPart [] (split slash path) tt (split-IsSlashFree path))
      ∙ sym by
]

-- The path `a/x/../b`.
abbrev pub detour : Text → Text → Text → Text
detour a x b = a ++ slash ∷ (x ++ slash ∷ (codes ".." ++ slash ∷ b))

split-detour :
    (a x b : Text)
    → IsSlashFree x
    → split slash (detour a x b) ≡ split slash a ++ x ∷ codes ".." ∷ split slash b
unfolding has_char
split-detour a x b n =
    split-append a (x ++ slash ∷ (codes ".." ++ slash ∷ b))
    ∙ ap (λ ws. split slash a ++ ws)
        (split-append x (codes ".." ++ slash ∷ b)
          ∙ ap₂ ◌++◌ (split-part x n) (
              split-append (codes "..") b
              ∙ ap (λ ws. ws ++ split slash b) (split-part (codes "..") refl)))

push_part-back : (ps : List Text) (x : Text) → push_part (x ∷ ps) (codes "..") ≡ ps
unfolding push_part eq_text
push_part-back ps x = refl

resolve-detour :
    (a x b : Text)
    → IsPart x
    → resolve [] (split slash (detour a x b)) ≡ resolve [] (split slash (a ++ slash ∷ b))
unfolding resolve
resolve-detour a x b n =
    let ps = resolve [] (split slash a) in
    ap (resolve []) (split-detour a x b n.0)
    ∙ resolve-append [] (split slash a) (x ∷ codes ".." ∷ split slash b)
    ∙ ap (λ r. resolve r (split slash b))
        (ap (λ r. push_part r (codes "..")) (push_part-kept ps x n) ∙ push_part-back ps x)
    ∙ sym (ap (resolve []) (split-append a b) ∙ resolve-append [] (split slash a) (split slash b))

-- From an absolute path, a step into a directory and back by `..` leads nowhere else.
pub normalized-detour :
    (a x b : Text)
    → starts_with a (slash ∷ []) ≡ true
    → IsPart x
    → normalized (detour a x b) ≡ normalized (a ++ slash ∷ b)
unfolding normalized
normalized-detour a x b h n =
    rw (starts_with-more a (slash ∷ (x ++ slash ∷ (codes ".." ++ slash ∷ b))) (slash ∷ []) h)
      (rw (starts_with-more a (slash ∷ b) (slash ∷ []) h) (ap absolute (resolve-detour a x b n)))
