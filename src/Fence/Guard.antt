-- ===== src/Fence/Guard.antt =====
-- An agent's guard over runs of requests.
use vquasar.Base.{Bool, List, [], ◌∷◌, ◌≡◌, ◌⊎◌, arith}
use vquasar.Base.Int.{ℤ, ◌≤ℤ◌, ◌<ℤ◌, eq_of_parts}
use vquasar.Fence.{
  EpochGuard, Header, absent, unparsable, epoch, superseded, admitted, refused, check,
}

-- An epoch is admitted exactly when it is not behind the highest one seen, and a refusal names both.
pub check_epoch :
    (written : Bool) (e : ℤ) (g : EpochGuard)
    → (g.highest ≤ℤ e × ((check written (epoch e) g).0 ≡ admitted))
      ⊎ (e <ℤ g.highest × ((check written (epoch e) g).0 ≡ refused (superseded e g.highest)))
unfolding check
check_epoch written e g = ground arith

-- No request lowers the highest epoch.
check-mono :
    (written : Bool) (h : Header) (g : EpochGuard) → g.highest ≤ℤ (check written h g).1.highest
unfolding check
check-mono written absent g = ground arith
check-mono written unparsable g = ground arith
check-mono written (epoch e) g = ground arith

-- An admitted epoch is the highest one from then on.
pub admitted_highest :
    (written : Bool) (e : ℤ) (g : EpochGuard)
    → (check written (epoch e) g).0 ≡ admitted
    → (check written (epoch e) g).1.highest ≡ e
unfolding check
admitted_highest written e g h = ground (arith, eq_of_parts g.highest e)

-- The guard after a run of requests, each with the outcome of its write.
abbrev pub serve : List (Bool × Header) → EpochGuard → EpochGuard
serve [] g = g
serve ((written, h) ∷ rest) g = serve rest (check written h g).1

pub serve-mono : (rs : List (Bool × Header)) (g : EpochGuard) → g.highest ≤ℤ (serve rs g).highest
serve-mono [] g = omega arith
serve-mono ((w, h) ∷ rest) g = omega (arith, check-mono w h g, serve-mono rest (check w h g).1)

-- Once an epoch is admitted, each later request with a lower one is refused, whatever came between.
pub fenced :
    (w w' : Bool) (e e' : ℤ) (rs : List (Bool × Header)) (g : EpochGuard)
    → (check w (epoch e) g).0 ≡ admitted
    → e' <ℤ e
    → let g' = serve rs (check w (epoch e) g).1 in
      (check w' (epoch e') g').0 ≡ refused (superseded e' g'.highest)
fenced w w' e e' rs g h lt =
    let g₁ = (check w (epoch e) g).1 in
    let g₂ = serve rs g₁ in
    ground (arith, check_epoch w' e' g₂, serve-mono rs g₁, admitted_highest w e g h)
