-- ===== src/Manager/Maps.antt =====
-- The maps of the manager after an insertion or a removal.
use vquasar.Base.{
  ℕ, none, some, [], ◌∷◌, ◌≡◌, ◌≢◌, refl, sym, ap, ◌∙◌, subst, Bool-cases, inl, inr, ◌==◌, arith,
}
use vquasar.Manager.{Dict, lookup, remove, insert}

module _ {A : Type 0} where
  pub lookup-remove_self : (k : ℕ) (d : Dict A) → lookup k (remove k d) ≡ none
  lookup-remove_self k [] = refl
  lookup-remove_self k ((j, a) ∷ d) = ground (arith, lookup-remove_self k d)

  pub lookup-remove_ne : (k j : ℕ) (d : Dict A) → k ≢ j → lookup j (remove k d) ≡ lookup j d
  lookup-remove_ne k j [] h = refl
  lookup-remove_ne k j ((i, a) ∷ d) h = ground (arith, lookup-remove_ne k j d h)

  pub lookup-insert_self : (k : ℕ) (a : A) (d : Dict A) → lookup k (insert k a d) ≡ some a
  lookup-insert_self k a d = ground arith

  pub lookup-insert_ne :
      (k j : ℕ) (a : A) (d : Dict A) → k ≢ j → lookup j (insert k a d) ≡ lookup j d
  lookup-insert_ne k j a d h = ground (arith, lookup-remove_ne k j d h)

  some-inj : (a b : A) → some a ≡ some b → a ≡ b
  some-inj a b e = cc

  -- What is found after a removal was there before it.
  pub remove_finds :
      (k j : ℕ) (b : A) (d : Dict A) → lookup j (remove k d) ≡ some b → lookup j d ≡ some b
  remove_finds k j b [] e = e
  remove_finds k j b ((i, a) ∷ d) e = ground (arith, remove_finds k j b d, lookup-remove_self k d)

  pub remove_misses : (k j : ℕ) (b : A) (d : Dict A) → lookup j (remove k d) ≡ some b → k ≢ j
  remove_misses k j b d e same =
      none-some b (sym (lookup-remove_self k d) ∙ (ap (λ i. lookup i (remove k d)) same ∙ e))
    where
      none-some : (b : A) → none ≢ some b
      none-some b h = cc

  -- What is found after an insertion was inserted or was there before it.
  pub insert_finds :
      (P : A → Type 0) (k : ℕ) (a : A) (d : Dict A)
      → P a
      → ((j : ℕ) (b : A) → lookup j d ≡ some b → P b)
      → (j : ℕ) (b : A) → lookup j (insert k a d) ≡ some b
      → P b
  insert_finds P k a d h old j b e = elim (Bool-cases (j == k)) [
    | inl same ↦ subst P (some-inj a b (rw same at e)) h
    | inr other ↦ old j b (remove_finds k j b d (rw other at e))
  ]
