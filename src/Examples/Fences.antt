-- ===== src/Examples/Fences.antt =====
-- Requests at an agent's guard.
use vquasar.Fence.Guard.{serve, fenced}
use vquasar.Fence.Restart.{IsStored, race, written, fenced_over_restart, race_forgets}
use vquasar.Base.{refl, true, false, [], ◌∷◌, ◌≡◌, arith}
use vquasar.Base.Int.{pos}
use vquasar.Fence.{
  check, number, admitted, EpochGuard, admit, epoch, load, absent, refused, superseded,
}

abbrev guard : EpochGuard
guard = record { file = number (pos 3); highest = pos 3; strict = true; warned_absent = false }

fenced_example :
    let g' = serve ((true, absent) ∷ []) (check false (epoch (pos 5)) guard).1 in
    (check true (epoch (pos 4)) g').0 ≡ refused (superseded (pos 4) g'.highest)
unfolding check admit
fenced_example = fenced false true (pos 5) (pos 4) ((true, absent) ∷ []) guard refl (omega arith)

guard-IsStored : IsStored guard
unfolding load
guard-IsStored = record { kept = refl }

fenced_over_restart_example :
    let g' = serve (written (absent ∷ [])) (check true (epoch (pos 5)) guard).1 in
    (check true (epoch (pos 4)) (load g'.file g'.strict)).0
    ≡ refused (superseded (pos 4) g'.highest)
unfolding check admit
fenced_over_restart_example =
    fenced_over_restart (pos 5) (pos 4) true (absent ∷ []) guard guard-IsStored refl (omega arith)

race_forgets_example :
    ((check true (epoch (pos 4)) (race (pos 4) (pos 5) guard)).0
      ≡ refused (superseded (pos 4) (pos 5)))
    × ((check true (epoch (pos 4)) (load (race (pos 4) (pos 5) guard).file true)).0 ≡ admitted)
race_forgets_example = race_forgets (pos 4) (pos 5) guard (omega arith) (omega arith)
