-- ===== src/Assoc/Distinct.antt =====
-- The operations keep the keys of a map distinct.
use securecrt_mcp.Prelude.{◌≡◌, refl, ◌∙◌, Bool, [], ◌∷◌, arith, Bool-cases, inl, inr, none, subst}
use securecrt_mcp.Text.{Text, eq_text}
use securecrt_mcp.Text.Equality.{eq_text→eq}
use securecrt_mcp.Assoc.{Assoc, lookup, insert, remove, modify, retain, IsDistinct}
use securecrt_mcp.Assoc.Laws.{
  lookup-insert, lookup-remove, lookup-modify, lookup-retain, eq_text-comm_true,
}

module _ {ℓ} {V : Type ℓ} where
  pub insert-IsDistinct :
      (k : Text) (v : V) (m : Assoc V) → IsDistinct m → IsDistinct (insert k v m)
  unfolding insert
  insert-IsDistinct k v [] h = (unfold lookup in refl, tt)
  insert-IsDistinct k v ((i, w) ∷ m) h = elim (Bool-cases (eq_text i k)) [
    | inl e ↦ rw e (subst (λ t. lookup t m ≡ none) (eq_text→eq i k e) h.0, h.1)
    | inr e ↦ rw e (
      lookup-insert k i v m ∙ ground (arith, eq_text-comm_true k i, h.0),
      insert-IsDistinct k v m h.1,
    )
  ]

  pub remove-IsDistinct : (k : Text) (m : Assoc V) → IsDistinct m → IsDistinct (remove k m)
  unfolding remove
  remove-IsDistinct k [] h = tt
  remove-IsDistinct k ((i, w) ∷ m) h = elim (Bool-cases (eq_text i k)) [
    | inl e ↦ rw e (remove-IsDistinct k m h.1)
    | inr e ↦ rw e (lookup-remove k i m ∙ ground (arith, h.0), remove-IsDistinct k m h.1)
  ]

  pub modify-IsDistinct :
      (k : Text) (f : V → V) (m : Assoc V) → IsDistinct m → IsDistinct (modify k f m)
  unfolding modify
  modify-IsDistinct k f [] h = tt
  modify-IsDistinct k f ((i, w) ∷ m) h = elim (Bool-cases (eq_text i k)) [
    | inl e ↦ rw e h
    | inr e ↦ rw e (lookup-modify k i f m ∙ ground (arith, h.0), modify-IsDistinct k f m h.1)
  ]

  pub retain-IsDistinct : (p : V → Bool) (m : Assoc V) → IsDistinct m → IsDistinct (retain p m)
  unfolding retain
  retain-IsDistinct p [] h = tt
  retain-IsDistinct p ((i, w) ∷ m) h = elim (Bool-cases (p w)) [
    | inl e ↦ rw e (lookup-retain p i m ∙ ground (arith, h.0), retain-IsDistinct p m h.1)
    | inr e ↦ rw e (remove-IsDistinct i (retain p m) (retain-IsDistinct p m h.1))
  ]
