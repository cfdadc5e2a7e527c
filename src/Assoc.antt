-- ===== src/Assoc.antt =====
-- `HashMap<String, V>` as a list of entries. An insertion replaces the value of a key that is there.
-- The order of the entries stands for the unspecified order of the map's iteration.
pub mod Laws
pub mod Distinct
pub mod Values
use securecrt_mcp.Prelude.{
  ℕ, zero, suc, ◌+◌, ◌-◌, ◌≤◌, ◌<◌, min, ◌≡◌, refl, sym, ap, ◌∙◌, Bool, true, false, not, ◌&&◌,
  ◌||◌, List, [], ◌∷◌, ◌++◌, arith, ltb, leb, ◌==◌, if◌then◌else◌, Bool-cases, Option-cases, inl,
  inr, Option, none, some, All, append_assoc, append-nil, Result, ok, err, ◌>>=◌, ◌>>◌, ensure,
  context, is_some, unwrap_or, is_empty, ◌≢◌, ◌⊎◌, ◌↔◌, subst,
}
use securecrt_mcp.Text.{Text, eq_text}

abbrev pub Assoc {ℓ} : Type ℓ → Type ℓ
Assoc V = List (Text × V)

module _ {ℓ} {V : Type ℓ} where
  unfoldable pub lookup : Text → Assoc V → Option V
  lookup k [] = none
  lookup k ((j, v) ∷ m) = if eq_text j k then some v else lookup k m

  unfoldable pub insert : Text → V → Assoc V → Assoc V
  insert k v [] = (k, v) ∷ []
  insert k v ((j, w) ∷ m) = if eq_text j k then (k, v) ∷ m else (j, w) ∷ insert k v m

  unfoldable pub remove : Text → Assoc V → Assoc V
  remove k [] = []
  remove k ((j, w) ∷ m) = let rest = remove k m in if eq_text j k then rest else (j, w) ∷ rest

  -- `if let Some(v) = map.get_mut(k) { *v = f(v) }`.
  unfoldable pub modify : Text → (V → V) → Assoc V → Assoc V
  modify k f [] = []
  modify k f ((j, w) ∷ m) = if eq_text j k then (j, f w) ∷ m else (j, w) ∷ modify k f m

  -- The key of a value that fails the test is gone from the map.
  unfoldable pub retain : (V → Bool) → Assoc V → Assoc V
  unfolding remove
  retain p [] = []
  retain p ((j, w) ∷ m) = let rest = retain p m in if p w then (j, w) ∷ rest else remove j rest

  unfoldable pub contains_key : Text → Assoc V → Bool
  unfolding lookup
  contains_key k m = is_some (lookup k m)

  unfoldable pub size : Assoc V → ℕ
  size [] = 0
  size (e ∷ m) = suc (size m)

  unfoldable pub any_value : (V → Bool) → Assoc V → Bool
  any_value p [] = false
  any_value p ((j, w) ∷ m) = p w || any_value p m

  -- No key has two entries.
  abbrev pub IsDistinct : Assoc V → Type ℓ
  IsDistinct [] = Unit
  IsDistinct ((j, w) ∷ m) = (lookup j m ≡ none) × IsDistinct m
