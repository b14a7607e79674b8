-- ===== src/Lease.antt =====
-- services/control/src/lease.rs, and the epoch stamp of services/control/src/agent.rs: which control
-- plane runs the loops. Each function is one statement on the row of `controller_lease`, at the time
-- `now` of PostgreSQL's clock, in microseconds.
pub mod Row
pub mod Cluster
use vquasar.Base.{
  ℕ, ◌+◌, ◌-◌, ◌*◌, ◌/◌, String, Bool, true, false, not, ◌&&◌, ◌||◌, Option, none, some, ltb,
  str_eq, if◌then◌else◌,
}

-- `Duration::from_secs(15)` and `Duration::from_secs(5)`.
abbrev pub ttl : ℕ
ttl = 15000000

abbrev pub renew_every : ℕ
renew_every = 5000000

pub record LeaseRow : Type 0 where
  pub holder : String
  pub epoch : ℕ
  pub acquired_at : ℕ
  pub expires_at : ℕ
  pub last_pass_at : Option ℕ

pub record Held : Type 0 where
  pub epoch : ℕ
  pub took_over : Bool

-- The columns that the `SET` of the statement writes, all computed from the row before it.
unfoldable pub taken_by : String → ℕ → LeaseRow → LeaseRow
taken_by identity now row = record row {
  holder = identity;
  epoch = if str_eq row.holder identity then row.epoch else row.epoch + 1;
  acquired_at = if str_eq row.holder identity then row.acquired_at else now;
  expires_at = now + ttl;
}

-- What `RETURNING` reads, which is the row after the `SET`.
abbrev returning : String → LeaseRow → Held
returning identity row = record { epoch = row.epoch; took_over = not (str_eq row.holder identity) }

unfoldable pub acquire_or_renew : String → ℕ → LeaseRow → Option Held × LeaseRow
unfolding taken_by
acquire_or_renew identity now row =
    if ltb row.expires_at now || str_eq row.holder identity
    then (some (returning identity (taken_by identity now row)), taken_by identity now row)
    else (none, row)

-- `reachable` is false where the query returns an error.
unfoldable pub confirm : String → ℕ → Bool → LeaseRow → Bool
confirm identity now reachable row =
    reachable && (str_eq row.holder identity && ltb (now + ttl / 2) row.expires_at)

unfoldable pub release : String → ℕ → LeaseRow → LeaseRow
release identity now row =
    if str_eq row.holder identity then record row { expires_at = now - 1000000 } else row

unfoldable pub mark_pass : String → ℕ → LeaseRow → LeaseRow
mark_pass holder now row =
    if str_eq row.holder holder then record row { last_pass_at = some now } else row

pub record LeaseStatus : Type 0 where
  pub holder : String
  pub epoch : ℕ
  pub acquired_at : ℕ
  pub expires_at : ℕ
  pub valid : Bool

unfoldable pub status : ℕ → LeaseRow → LeaseStatus
status now row = record {
  holder = row.holder;
  epoch = row.epoch;
  acquired_at = row.acquired_at;
  expires_at = row.expires_at;
  valid = ltb now row.expires_at;
}

-- What a process keeps: the `fresh` flag, the local `leading` of `run`, and the process-wide
-- `CURRENT_EPOCH` of agent.rs, where 0 is "not leading".
pub record Instance : Type 0 where
  pub fresh : Bool
  pub leading : Bool
  pub current_epoch : ℕ

abbrev pub started : Instance
started = record { fresh = false; leading = false; current_epoch = 0 }

unfoldable pub set_current_epoch : ℕ → Instance → Instance
set_current_epoch epoch i = record i { current_epoch = epoch }

-- How a renewal ends: the statement's answer, or an error in its place.
pub data Renewal : Type 0 where
  answered : Option Held → Renewal
  failed : Renewal

-- One round of the loop in `run`, after the statement.
unfoldable pub run_round : Renewal → Instance → Instance
unfolding set_current_epoch
run_round (answered (some held)) i =
    record (set_current_epoch held.epoch (record i { fresh = true })) { leading = true }
run_round (answered none) i = record (set_current_epoch 0 (record i { fresh = false })) {
  leading = false;
}
run_round failed i = set_current_epoch 0 (record i { fresh = false })

-- `is_fresh`: the flag alone, whatever the time.
unfoldable pub is_fresh : Instance → Bool
is_fresh i = i.fresh

-- The epoch header that `StampEpoch` puts on a request.
unfoldable pub stamp : Instance → Option ℕ
stamp i = if ltb 0 i.current_epoch then some i.current_epoch else none
