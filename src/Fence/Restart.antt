-- ===== src/Fence/Restart.antt =====
-- What the guard remembers over a restart of the agent, which reads its file again.
use vquasar.Base.{Bool, true, List, [], ◌∷◌, ◌≡◌, refl, arith}
use vquasar.Base.Int.{ℤ, ◌<ℤ◌, eq_of_parts}
use vquasar.Fence.{
  EpochFile, EpochGuard, load, Header, absent, unparsable, epoch, superseded, admitted, refused,
  admit, persist_opt, check,
}
use vquasar.Fence.Guard.{serve, check_epoch, serve-mono, admitted_highest}

-- The file holds the highest epoch seen.
pub record IsStored (g : EpochGuard) : Type 0 where
  pub kept : (load g.file g.strict).highest ≡ g.highest

-- `serve` where each write succeeds.
abbrev pub written : List Header → List (Bool × Header)
written [] = []
written (h ∷ hs) = (true, h) ∷ written hs

pub load-IsStored : (file : EpochFile) (strict : Bool) → IsStored (load file strict)
unfolding load
load-IsStored file strict = record { kept = refl }

pub check-IsStored : (h : Header) (g : EpochGuard) → IsStored g → IsStored (check true h g).1
unfolding check load
check-IsStored absent g s = ground arith
check-IsStored unparsable g s = ground arith
check-IsStored (epoch e) g s = ground (arith, eq_of_parts g.highest e)

-- If the file holds the highest epoch, it does so after any requests whose writes succeed, so that a
-- restart brings it back.
pub serve-IsStored :
    (hs : List Header) (g : EpochGuard) → IsStored g → IsStored (serve (written hs) g)
serve-IsStored [] g s = s
serve-IsStored (h ∷ hs) g s = serve-IsStored hs (check true h g).1 (check-IsStored h g s)

-- If the file held the highest epoch, requests are served one after another, and the writes since
-- then succeeded, a controller that was superseded before a restart of the agent is refused after
-- it.
pub fenced_over_restart :
    (e e' : ℤ) (w : Bool) (hs : List Header) (g : EpochGuard)
    → IsStored g
    → (check true (epoch e) g).0 ≡ admitted
    → e' <ℤ e
    → let g' = serve (written hs) (check true (epoch e) g).1 in
      (check w (epoch e') (load g'.file g'.strict)).0 ≡ refused (superseded e' g'.highest)
fenced_over_restart e e' w hs g s h lt =
    let g₁ = (check true (epoch e) g).1 in
    let g₂ = serve (written hs) g₁ in
    ground (
      arith,
      check_epoch w e' (load g₂.file g₂.strict),
      serve-mono (written hs) g₁,
      admitted_highest true e g h,
      (serve-IsStored hs g₁ (check-IsStored (epoch e) g s)).kept,
    )

-- Two requests whose `check` calls overlap: both update `highest`, the lower epoch first, and then the
-- writes happen in the other order.
pub race : ℤ → ℤ → EpochGuard → EpochGuard
unfolding check
race a b g =
    let (_, write_a, g₁) = admit a g in
    let (_, write_b, g₂) = admit b g₁ in persist_opt true write_a (persist_opt true write_b g₂)

-- After two overlapping admissions whose writes are swapped, the guard refuses the lower epoch, and a
-- restarted guard admits it again.
pub race_forgets :
    (a b : ℤ) (g : EpochGuard)
    → g.highest <ℤ a
    → a <ℤ b
    → ((check true (epoch a) (race a b g)).0 ≡ refused (superseded a b))
      × ((check true (epoch a) (load (race a b g).file g.strict)).0 ≡ admitted)
unfolding race load
race_forgets a b g p q = ground arith
