-- ===== src/Fence.antt =====
-- services/agent/src/epoch.rs: the agent refuses a superseded controller.
pub mod Guard
pub mod Restart
use vquasar.Base.{Bool, true, false, Option, none, some, if◌then◌else◌}
use vquasar.Base.Int.{ℤ, pos, ltb_ℤ}

-- What `load` finds at the path: no file, one that cannot be read or parsed, or a number.
pub data EpochFile : Type 0 where
  not_found unreadable not_a_number : EpochFile
  number : ℤ → EpochFile

pub record EpochGuard : Type 0 where
  pub file : EpochFile
  pub highest : ℤ
  pub strict : Bool
  pub warned_absent : Bool

abbrev pub stored : EpochFile → ℤ
stored (number n) = n
stored not_found = pos 0
stored unreadable = pos 0
stored not_a_number = pos 0

unfoldable pub load : EpochFile → Bool → EpochGuard
load file strict = record {
  file = file;
  highest = stored file;
  strict = strict;
  warned_absent = false;
}

-- The metadata of a request: no epoch, one that is no `i64`, or an epoch.
pub data Header : Type 0 where
  absent unparsable : Header
  epoch : ℤ → Header

pub data Refusal : Type 0 where
  epoch_required unparsable_epoch : Refusal
  superseded : ℤ → ℤ → Refusal

pub data Verdict : Type 0 where
  admitted : Verdict
  refused : Refusal → Verdict

abbrev pub max_ℤ : ℤ → ℤ → ℤ
max_ℤ a b = if ltb_ℤ a b then b else a

-- `highest.fetch_max`, which is one atomic step, and the comparison with the value before it. The
-- second part is the epoch that `check` then persists.
unfoldable pub admit : ℤ → EpochGuard → Verdict × Option ℤ × EpochGuard
admit e g =
    let previous = g.highest in
    let g' = record g { highest = max_ℤ previous e } in
    if ltb_ℤ e previous
    then (refused (superseded e previous), none, g')
    else if ltb_ℤ previous e
    then (admitted, some e, g')
    else (admitted, none, g')

-- `write_atomically` replaces the file as a whole, or fails and leaves it.
unfoldable pub persist : Bool → ℤ → EpochGuard → EpochGuard
persist written e g = if written then record g { file = number e } else g

abbrev pub persist_opt : Bool → Option ℤ → EpochGuard → EpochGuard
persist_opt written none g = g
persist_opt written (some e) g = persist written e g

unfoldable pub check_absent : EpochGuard → Verdict × EpochGuard
check_absent g =
    if g.strict then (refused epoch_required, g) else (admitted, record g { warned_absent = true })

-- `written` says whether the write succeeds, if there is one.
unfoldable pub check : Bool → Header → EpochGuard → Verdict × EpochGuard
unfolding admit persist check_absent
check written absent g = check_absent g
check written unparsable g = (refused unparsable_epoch, g)
check written (epoch e) g =
    let (verdict, write, g') = admit e g in (verdict, persist_opt written write g')
