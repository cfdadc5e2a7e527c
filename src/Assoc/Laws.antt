-- ===== src/Assoc/Laws.antt =====
-- The laws of the map operations, in the form of the test that decides them.
use securecrt_mcp.Prelude.{
  ◌+◌, ◌≤◌, ◌<◌, ◌≡◌, refl, sym, Bool, true, false, [], ◌∷◌, arith, if◌then◌else◌, Bool-cases,
  Option-cases, inl, inr, none, some, subst,
}
use securecrt_mcp.Text.{Text, eq_text}
use securecrt_mcp.Text.Equality.{eq_text_iff, eq_text_refl, eq_text→eq}
use securecrt_mcp.Assoc.{Assoc, lookup, insert, remove, modify, retain, size}

-- What the comparisons of three keys say of each other.
pub eq_text-trans_false :
    (i k j : Text) → eq_text i k ≡ true → eq_text k j ≡ false → eq_text i j ≡ false
eq_text-trans_false i k j h d = subst (λ t. eq_text t j ≡ false) (sym (eq_text→eq i k h)) d

pub eq_text-comm_true : (k j : Text) → eq_text k j ≡ true → eq_text j k ≡ true
eq_text-comm_true k j h = subst (λ t. eq_text t k ≡ true) (eq_text→eq k j h) (eq_text_refl k)

module _ {ℓ} {V : Type ℓ} where
  pub lookup-insert :
      (k j : Text) (v : V) (m : Assoc V)
      → lookup j (insert k v m) ≡ (if eq_text k j then some v else lookup j m)
  unfolding lookup insert
  lookup-insert k j v [] = refl
  lookup-insert k j v ((i, w) ∷ m) =
      ground (arith, eq_text_iff k j, eq_text_iff i k, eq_text_iff i j, lookup-insert k j v m)

  pub lookup-remove :
      (k j : Text) (m : Assoc V)
      → lookup j (remove k m) ≡ (if eq_text k j then none else lookup j m)
  unfolding lookup remove
  lookup-remove k j [] = ground arith
  lookup-remove k j ((i, w) ∷ m) =
      ground (arith, eq_text_iff k j, eq_text_iff i k, eq_text_iff i j, lookup-remove k j m)

  pub lookup-modify :
      (k j : Text) (f : V → V) (m : Assoc V)
      → lookup j (modify k f m) ≡ (
          if eq_text k j
          then elim (lookup j m) [ none ↦ none | some v ↦ some (f v) ]
          else lookup j m)
  unfolding lookup modify
  lookup-modify k j f [] = ground arith
  lookup-modify k j f ((i, w) ∷ m) =
      ground (arith, eq_text_iff k j, eq_text_iff i k, eq_text_iff i j, lookup-modify k j f m)

  pub size-insert-le : (k : Text) (v : V) (m : Assoc V) → size (insert k v m) ≤ size m + 1
  unfolding size insert
  size-insert-le k v [] = omega arith
  size-insert-le k v ((i, w) ∷ m) = ground (arith, size-insert-le k v m)

  pub size-remove-le : (k : Text) (m : Assoc V) → size (remove k m) ≤ size m
  unfolding size remove
  size-remove-le k [] = omega arith
  size-remove-le k ((i, w) ∷ m) = ground (arith, size-remove-le k m)

  pub size-retain-le : (p : V → Bool) (m : Assoc V) → size (retain p m) ≤ size m
  unfolding size retain
  size-retain-le p [] = omega arith
  size-retain-le p ((i, w) ∷ m) = ground (arith, size-retain-le p m, size-remove-le i (retain p m))

  pub size-modify : (k : Text) (f : V → V) (m : Assoc V) → size (modify k f m) ≡ size m
  unfolding size modify
  size-modify k f [] = refl
  size-modify k f ((i, w) ∷ m) = ground (arith, size-modify k f m)

  pub lookup-retain :
      (p : V → Bool) (k : Text) (m : Assoc V)
      → lookup k (retain p m)
        ≡ elim (lookup k m) [ none ↦ none | some v ↦ if p v then some v else none ]
  unfolding lookup retain
  lookup-retain p k [] = refl
  lookup-retain p k ((i, w) ∷ m) = elim (Bool-cases (p w)) [
    | inl e ↦ ground (arith, lookup-retain p k m)
    | inr e ↦ ground (arith, lookup-retain p k m, lookup-remove i k (retain p m))
  ]

  -- A removal of a key that is there makes the map smaller.
  pub size-remove-lt :
      (k : Text) (v : V) (m : Assoc V) → lookup k m ≡ some v → size (remove k m) < size m
  unfolding lookup size remove
  size-remove-lt k v [] h = cc
  size-remove-lt k v ((i, w) ∷ m) h = ground (arith, size-remove-lt k v m, size-remove-le k m)

  -- What is found after a modification comes from what was there.
  pub lookup-modify_inv :
      (k j : Text) (f : V → V) (m : Assoc V) (w : V)
      → lookup j (modify k f m) ≡ some w
      → (v : V) × (lookup j m ≡ some v) × (w ≡ (if eq_text k j then f v else v))
  lookup-modify_inv k j f m w h = elim (Option-cases (lookup j m)) [
    | inl e ↦ absurd (ground (arith, lookup-modify k j f m))
    | inr (v, e) ↦ (v, e, ground (arith, lookup-modify k j f m))
  ]
