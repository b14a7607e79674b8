-- ===== src/CpuCompat.antt =====
-- services/control/src/cpucompat.rs: whether a guest of one host can run on another.
pub mod Cases
use vquasar.Base.{
  none, some, true, false, [], ◌∷◌, Option, List, String, Bool, if◌then◌else◌, keep, any, is_empty,
  not, str_eq, ◌||◌,
}
use text.Mathlib.Text.{is_le}
use Prim.Native.String.{compare, String}

pub data CpuCompat : Type 0 where
  compatible : CpuCompat
  vendor_mismatch : (source target : String) → CpuCompat
  missing_features : List String → CpuCompat
  unknown : CpuCompat

-- `Vec::sort` on strings.
unfoldable pub insert : String → List String → List String
insert s [] = s ∷ []
insert s (t ∷ ts) = let rest = insert s ts in if is_le (compare s t) then s ∷ t ∷ ts else t ∷ rest

unfoldable pub sort : List String → List String
sort [] = []
sort (s ∷ ss) = insert s (sort ss)

abbrev pub contains : List String → String → Bool
contains target f = any (str_eq f) target

abbrev pub missing : List String → List String → List String
missing source target = keep (λ f. not (contains target f)) source

abbrev pub verdict : List String → CpuCompat
verdict [] = compatible
verdict (f ∷ fs) = missing_features (sort (f ∷ fs))

abbrev pub check_features : List String → List String → CpuCompat
check_features source target =
    if is_empty source || is_empty target then unknown else verdict (missing source target)

unfoldable pub check : Option String → List String → Option String → List String → CpuCompat
check (some s) source (some t) target =
    if str_eq s t then check_features source target else vendor_mismatch s t
check none source target_vendor target = unknown
check (some s) source none target = unknown
