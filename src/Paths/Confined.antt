-- ===== src/Paths/Confined.antt =====
-- What the confinement of paths gives.
use vquasar.Base.{any-Memᴰ}
use vquasar.Paths.{
  Component, root_dir, cur_dir, parent_dir, normal, components, starts_with, same_component,
  is_dots, ensure_within, ensure_spec_within, ensure_disks, ensure_boot, What,
}
use vquasar.Base.{
  [], ◌∷◌, none, some, true, false, refl, ◌++◌, List, String, ◌≡◌, Memᴰ, any, ap, eq_iff, ◌∙◌, sym,
  All, Bool, not, subst, ℕ, ◌&&◌, ◌||◌, ◌+◌, any-Memᴰ,
}
use vquasar.Paths.{dots, outside, disk_path, boot_kernel, boot_initramfs, boot_firmware}
use vquasar.Base.Result.{ok, ◌>>◌, >>_ok_iff, refuse_if}
use vquasar.Model.{direct_kernel, firmware, BootSpec, DiskSpec, VirtualMachineSpec}

abbrev parent : List String → List String
parent [] = []
parent (d ∷ ds) = ds

-- One component: from a directory, named by its path with the last name first, to the next.
abbrev pub step : List String → Component → List String
step at root_dir = at
step at cur_dir = at
step at parent_dir = parent at
step at (normal s) = s ∷ at

-- Following a path.
abbrev pub follow : List String → List Component → List String
follow at [] = at
follow at (c ∷ cs) = follow (step at c) cs

-- The path leads to a root's directory, or below it.
abbrev pub IsBelow : String → String → Type 0
IsBelow path root =
    (below : List String) × (follow [] (components path) ≡ below ++ follow [] (components root))

abbrev pub IsConfined : List String → String → Type 0
IsConfined roots path = (root : String) × Memᴰ root roots × IsBelow path root

abbrev pub boot_paths : BootSpec → List String
boot_paths (direct_kernel kernel none cmdline) = kernel ∷ []
boot_paths (direct_kernel kernel (some initramfs) cmdline) = kernel ∷ initramfs ∷ []
boot_paths (firmware path) = path ∷ []

or_lem : (a b : Bool) → (a || b) ≡ false → (a ≡ false) × (b ≡ false)
or_lem true b e = absurd cc
or_lem false b e = (refl, e)

and_lem : (a b : Bool) → (a && b) ≡ true → (a ≡ true) × (b ≡ true)
and_lem true b e = (refl, e)
and_lem false b e = absurd cc

append_one :
    (xs : List String) (s : String) (at : List String) → (xs ++ s ∷ []) ++ at ≡ xs ++ (s ∷ at)
append_one [] s at = refl
append_one (x ∷ xs) s at = ap (λ r. x ∷ r) (append_one xs s at)

IsDeeper : List String → List String → Type 0
IsDeeper at there = (below : List String) × (there ≡ below ++ at)

step_lem :
    (at there : List String) (c : Component)
    → is_dots c ≡ false
    → IsDeeper (step at c) there
    → IsDeeper at there
unfolding IsDeeper
step_lem at there root_dir h d = d
step_lem at there (normal s) h (below, e) = (below ++ s ∷ [], e ∙ sym (append_one below s at))
step_lem at there cur_dir h d = absurd cc
step_lem at there parent_dir h d = absurd cc

deeper :
    (at : List String) (cs : List Component) → any is_dots cs ≡ false → IsDeeper at (follow at cs)
unfolding IsDeeper
deeper at [] h = ([], refl)
deeper at (c ∷ cs) h =
    let (plain, rest) = or_lem (is_dots c) (any is_dots cs) h in
    step_lem at (follow (step at c) cs) c plain (deeper (step at c) cs rest)

same_lem : (c r : Component) → same_component c r ≡ true → c ≡ r
same_lem root_dir root_dir e = refl
same_lem root_dir cur_dir e = cc
same_lem root_dir parent_dir e = cc
same_lem root_dir (normal t) e = cc
same_lem cur_dir root_dir e = cc
same_lem cur_dir cur_dir e = refl
same_lem cur_dir parent_dir e = cc
same_lem cur_dir (normal t) e = cc
same_lem parent_dir root_dir e = cc
same_lem parent_dir cur_dir e = cc
same_lem parent_dir parent_dir e = refl
same_lem parent_dir (normal t) e = cc
same_lem (normal s) root_dir e = cc
same_lem (normal s) cur_dir e = cc
same_lem (normal s) parent_dir e = cc
same_lem (normal s) (normal t) e = ap normal ((eq_iff s t).0 e)

-- A path without dots that starts with a root's components leads below what the root leads to.
under_lem :
    (at : List String) (cs rs : List Component)
    → any is_dots cs ≡ false
    → starts_with cs rs ≡ true
    → IsDeeper (follow at rs) (follow at cs)
under_lem at cs [] plain e = deeper at cs plain
under_lem at [] (r ∷ rs) plain e = absurd cc
under_lem at (c ∷ cs) (r ∷ rs) plain e =
    let (same, rest) = and_lem (same_component c r) (starts_with cs rs) e in
    subst (λ k. IsDeeper (follow (step at r) rs) (follow (step at k) cs)) (sym (same_lem c r same))
      (under_lem (step at r) cs rs (or_lem (is_dots c) (any is_dots cs) plain).1 rest)

refused_lem : {E : Type 0} (b : Bool) (e : E) → refuse_if b e ≡ ok tt → b ≡ false
refused_lem true e h = cc
refused_lem false e h = refl

not_lem : (b : Bool) → not b ≡ false → b ≡ true
not_lem true h = refl
not_lem false h = sym h

within_lem :
    (path : String) (roots : List String) (what : What)
    → ensure_within path roots what ≡ ok tt
    → IsConfined roots path
unfolding ensure_within IsDeeper
within_lem path roots what h =
    let (_, rest) =
      (>>_ok_iff _ (
          refuse_if (any is_dots (components path)) (dots what)
          >> refuse_if (not (any (λ r. starts_with (components path) (components r)) roots))
              (outside what))).0
        h in
    let (plain, under) =
      (>>_ok_iff (refuse_if (any is_dots (components path)) (dots what)) (
          refuse_if (not (any (λ r. starts_with (components path) (components r)) roots))
            (outside what))).0
        rest in
    let some_root = not_lem _ (
      refused_lem (not (any (λ r. starts_with (components path) (components r)) roots))
        (outside what) under) in
    let (root, m, e) =
      any-Memᴰ (λ r. starts_with (components path) (components r)) roots some_root in
    (root, m, under_lem [] (components path) (components root) (refused_lem _ (dots what) plain) e)

disks_lem :
    (disks : List DiskSpec) (roots : List String) (i : ℕ)
    → ensure_disks disks roots i ≡ ok tt
    → All (λ d. IsConfined roots d.path) disks
disks_lem [] roots i h = tt
disks_lem (d ∷ ds) roots i h =
    let (here, rest) =
      (>>_ok_iff (ensure_within d.path roots (disk_path i)) (ensure_disks ds roots (i + 1))).0 h in
    (within_lem d.path roots (disk_path i) here, disks_lem ds roots (i + 1) rest)

boot_lem :
    (boot : BootSpec) (roots : List String)
    → ensure_boot boot roots ≡ ok tt
    → All (IsConfined roots) (boot_paths boot)
boot_lem (direct_kernel kernel none cmdline) roots h =
    let (here, _) = (>>_ok_iff (ensure_within kernel roots boot_kernel) (ok tt)).0 h in
    (within_lem kernel roots boot_kernel here, tt)
boot_lem (direct_kernel kernel (some initramfs) cmdline) roots h =
    let (here, rest) =
      (>>_ok_iff (ensure_within kernel roots boot_kernel)
          (ensure_within initramfs roots boot_initramfs)).0
        h in
    (within_lem kernel roots boot_kernel here, (within_lem initramfs roots boot_initramfs rest, tt))
boot_lem (firmware path) roots h = (within_lem path roots boot_firmware h, tt)

-- The paths that a specification accepted by ensure_spec_within boots from, and those of its disks,
-- lead to a permitted root or below it, also when each '..' is followed from the file system's
-- root.
pub ensure_spec_within-IsConfined :
    (spec : VirtualMachineSpec) (roots : List String)
    → ensure_spec_within spec roots ≡ ok tt
    → All (IsConfined roots) (boot_paths spec.boot) × All (λ d. IsConfined roots d.path) spec.disks
unfolding ensure_spec_within
ensure_spec_within-IsConfined spec roots h =
    let (boot, disks) =
      (>>_ok_iff (ensure_boot spec.boot roots) (ensure_disks spec.disks roots 0)).0 h in
    (boot_lem spec.boot roots boot, disks_lem spec.disks roots 0 disks)
