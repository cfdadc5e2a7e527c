-- ===== src/Assoc/Values.antt =====
-- A property of all the values of a map, and the operations that keep it.
use securecrt_mcp.Prelude.{Bool, [], ◌∷◌, Bool-cases, inl, inr}
use securecrt_mcp.Text.{Text, eq_text}
use securecrt_mcp.Assoc.{Assoc, insert, remove, modify, retain}

abbrev pub AllValues {ℓ κ} : {V : Type ℓ} → (V → Type κ) → Assoc V → Type κ
AllValues P [] = Unit
AllValues P ((k, v) ∷ m) = P v × AllValues P m

module _ {ℓ κ} {V : Type ℓ} (P : V → Type κ) where
  pub AllValues-insert :
      (k : Text) (v : V) (m : Assoc V) → P v → AllValues P m → AllValues P (insert k v m)
  unfolding insert
  AllValues-insert k v [] p h = (p, tt)
  AllValues-insert k v ((j, w) ∷ m) p h = elim (Bool-cases (eq_text j k)) [
    | inl e ↦ rw e (p, h.1)
    | inr e ↦ rw e (h.0, AllValues-insert k v m p h.1)
  ]

  pub AllValues-remove : (k : Text) (m : Assoc V) → AllValues P m → AllValues P (remove k m)
  unfolding remove
  AllValues-remove k [] h = tt
  AllValues-remove k ((j, w) ∷ m) h = elim (Bool-cases (eq_text j k)) [
    | inl e ↦ rw e (AllValues-remove k m h.1)
    | inr e ↦ rw e (h.0, AllValues-remove k m h.1)
  ]

  pub AllValues-retain : (p : V → Bool) (m : Assoc V) → AllValues P m → AllValues P (retain p m)
  unfolding retain
  AllValues-retain p [] h = tt
  AllValues-retain p ((j, w) ∷ m) h = elim (Bool-cases (p w)) [
    | inl e ↦ rw e (h.0, AllValues-retain p m h.1)
    | inr e ↦ rw e (AllValues-remove j (retain p m) (AllValues-retain p m h.1))
  ]

  pub AllValues-modify :
      (k : Text) (f : V → V) (m : Assoc V)
      → ((v : V) → P v → P (f v))
      → AllValues P m
      → AllValues P (modify k f m)
  unfolding modify
  AllValues-modify k f [] c h = tt
  AllValues-modify k f ((j, w) ∷ m) c h = elim (Bool-cases (eq_text j k)) [
    | inl e ↦ rw e (c w h.0, h.1)
    | inr e ↦ rw e (h.0, AllValues-modify k f m c h.1)
  ]
