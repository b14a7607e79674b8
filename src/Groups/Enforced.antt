-- ===== src/Groups/Enforced.antt =====
-- Which NICs are filtered where policy is enforced.
use vquasar.Base.{
  [], ◌∷◌, none, some, true, false, refl, Option, ◌++◌, ◌≢◌, List, ℕ, Bool, if◌then◌else◌, is_empty,
  ◌≡◌, ◌⊎◌, elem, inl, inr,
}
use vquasar.Groups.Binding.{add_default, effective_groups, resolve_policy}
use vquasar.Groups.{SecurityGroupRule, GroupMembers}

added_lem : (g : ℕ) (gs : List ℕ) → is_empty (add_default (some g) gs) ≡ false
added_lem g [] = refl
added_lem g (x ∷ xs) = either (elem g (x ∷ xs))
  where
    either : (b : Bool) → is_empty (if b then x ∷ xs else x ∷ xs ++ g ∷ []) ≡ false
    either true = refl
    either false = refl

kept_lem : (o : Option ℕ) (gs : List ℕ) → is_empty gs ≡ false → is_empty (add_default o gs) ≡ false
kept_lem none gs h = h
kept_lem (some g) gs h = added_lem g gs

filtered_lem :
    (egress_enforced : Bool) (rules : List SecurityGroupRule) (rows : GroupMembers) (gs : List ℕ)
    → is_empty gs ≡ false
    → (resolve_policy egress_enforced rules rows gs).filtered ≡ true
unfolding resolve_policy
filtered_lem egress_enforced rules rows [] h = cc
filtered_lem egress_enforced rules rows (g ∷ gs) h = refl

-- Where policy is enforced, a NIC whose network or project has a default group is filtered, whatever
-- groups the NIC itself names.
pub enforced-is_filtered :
    (egress_enforced : Bool) (rules : List SecurityGroupRule) (rows : GroupMembers)
    (network_default project_default : Option ℕ) (nic : List ℕ)
    → (network_default ≢ none) ⊎ (project_default ≢ none)
    → (resolve_policy egress_enforced rules rows
        (effective_groups true network_default project_default nic)).filtered
      ≡ true
unfolding effective_groups
enforced-is_filtered e rules rows (some g) project nic h =
    filtered_lem e rules rows _ (kept_lem project (add_default (some g) nic) (added_lem g nic))
enforced-is_filtered e rules rows none (some g) nic h =
    filtered_lem e rules rows _ (added_lem g nic)
enforced-is_filtered e rules rows none none nic (inl h) = absurd (h refl)
enforced-is_filtered e rules rows none none nic (inr h) = absurd (h refl)
