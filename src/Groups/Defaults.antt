-- ===== src/Groups/Defaults.antt =====
-- Which groups are a NIC's: its own, and the defaults of its network and its project.
use vquasar.Firewall.Rules.{or_false}
use vquasar.Base.{
  Bool, Option, ℕ, List, false, elem, some, ◌++◌, ◌==◌, ◌||◌, ◌≡◌, none, sym, ◌&&◌, ◌∷◌, [], true,
  ◌∙◌, ap, refl, ◌⊎◌, inl, inr, Bool-cases, ==_iff,
}
use vquasar.Groups.Binding.{effective_groups, add_default}

abbrev pub is_default : Option ℕ → ℕ → Bool
is_default none g = false
is_default (some d) g = g == d

-- The NIC's own groups, and where policy is enforced the two defaults.
abbrev pub is_group : Bool → Option ℕ → Option ℕ → List ℕ → ℕ → Bool
is_group enforced network_default project_default nic g =
    elem g nic || (enforced && (is_default network_default g || is_default project_default g))

elem_append : (g d : ℕ) (gs : List ℕ) → elem g (gs ++ d ∷ []) ≡ (elem g gs || (g == d))
elem_append g d [] = or_false (g == d)
elem_append g d (x ∷ xs) = rw (elem_append g d xs) (assoc (g == x) (elem g xs) (g == d))
  where
    assoc : (a b c : Bool) → (a || (b || c)) ≡ ((a || b) || c)
    assoc true b c = refl
    assoc false b c = refl

add_default_lem :
    (o : Option ℕ) (gs : List ℕ) (g : ℕ) → elem g (add_default o gs) ≡ (elem g gs || is_default o g)
add_default_lem none gs g = flip (or_false (elem g gs))
  where
    flip : {a b : Bool} → a ≡ b → b ≡ a
    flip e = sym e
add_default_lem (some d) gs g = elim (Bool-cases (elem d gs)) [
  | inl there ↦ rw there (absorb there (Bool-cases (g == d)))
  | inr new ↦ rw new (elem_append g d gs)
]
  where
    absorb :
        elem d gs ≡ true
        → ((g == d) ≡ true) ⊎ ((g == d) ≡ false)
        → elem g gs ≡ (elem g gs || (g == d))
    absorb there (inl same) =
        let q = (==_iff g d).0 same in rw (same, ap (λ x. elem x gs) q, there) refl
    absorb there (inr other) = rw other (sym (or_false (elem g gs)))

pub elem-effective_groups :
    (enforced : Bool) (network_default project_default : Option ℕ) (nic : List ℕ) (g : ℕ)
    → elem g (effective_groups enforced network_default project_default nic)
      ≡ is_group enforced network_default project_default nic g
unfolding effective_groups
elem-effective_groups false network project nic g = sym (or_false (elem g nic))
elem-effective_groups true network project nic g =
    add_default_lem project (add_default network nic) g
    ∙ (ap (λ b. b || is_default project g) (add_default_lem network nic g)
        ∙ assoc (elem g nic) (is_default network g) (is_default project g))
  where
    assoc : (a b c : Bool) → ((a || b) || c) ≡ (a || (b || c))
    assoc true b c = refl
    assoc false b c = refl
