-- ===== src/Lib.antt =====
-- vquasar: a control plane that places virtual machines on hosts, and an agent on each host.
--
-- Several control planes share one PostgreSQL database. A lease row decides which of them runs the
-- loops; each request to an agent carries the epoch of the lease, and the agent's guard refuses an epoch
-- that is behind the highest it has seen. A VM's specification is validated, charged to its
-- project's quota and stored; the scheduler names a host for it; its NICs get addresses from IPAM, and
-- its networks get VXLAN identifiers from a table of segments. The rules of a NIC's security groups
-- become flows that its host's agent installs on the bridge. The agent's manager launches a process of
-- Cloud Hypervisor for each VM, and receives the VMs that move to its host.
--
-- The files, by the part that they model (paths from the repository's root):
--   Lease        services/control/src/lease.rs: `taken_by`, `acquire_or_renew`, `confirm`, `release`,
--                `mark_pass`, `status` are its statements, `run_round` one round of `Lease::run`;
--                services/control/src/agent.rs: `set_current_epoch` and `StampEpoch` (`stamp`).
--                Lease/Cluster is the step relation of several processes, one row and one agent.
--   CpuCompat    services/control/src/cpucompat.rs: `check`.
--   Fence        services/agent/src/epoch.rs: `EpochGuard` with `load`, `check`, `absent`, `persist`.
--   Model        crates/model/src/vm.rs and meta.rs; Model/Validation is validation.rs beside them.
--   Ipam         services/control/src/ipam.rs: `Subnet::bounds`, `next_free`, `validate`.
--   Segments     services/control/src/segments.rs and the segment types of crates/model/src/network.rs,
--                on the table of migrations/0016_network_kinds.sql.
--   Quota        services/control/src/quota.rs, with `insert_vm_with_id` and `write_spec` of
--                services/control/src/store.rs.
--   Scheduler    services/control/src/scheduler.rs; Scheduler/Placing is the placement step of
--                `reconcile_ensure` with `committed_by_host` (services/control/src/reconcile.rs).
--   Migration    the live migration of services/control/src/reconcile.rs: `reconcile_migrations`,
--                `advance_migration` and `release_receiver`, for one VM.
--   Retry        the backoff of a failing VM in services/control/src/reconcile.rs: `due`, `backoff`,
--                `note_reconcile_failure`, for passes in which the reconciliation itself fails and
--                leaves the row as it is.
--   Overlay      services/control/src/overlay.rs: `guest_mtu` and the modes of encryption.
--   Firewall     services/agent/src/firewall.rs: the flows of `build_flows` and `build_port_security_flows`,
--                with `port_masks` (Firewall/Ports) and `rule_matches`; `clear` and `apply_firewall`
--                (Firewall/Install). Firewall/Switch is the reading of the flows by the switch, and
--                Firewall/Entry the way of a packet from table 0 through conntrack, for the packets that
--                conntrack takes for the first of a connection.
--   Groups       the rules of security groups: services/control/src/api/security_groups.rs, `expand_rule` and
--                the policy of `resolve_bindings` in services/control/src/reconcile.rs (Groups/Binding), and
--                `sec_rule` of services/agent/src/grpc.rs. Groups/Connections composes them with Firewall.
--   Paths        services/control/src/api/pathsafe.rs and `provision_disk` of services/agent/src/storage.rs.
--   Manager      services/agent/src/manager.rs: `VmManager`, with its maps, directories and processes as the
--                record `Agent`. Manager/Hypervisor is crates/client/src/cloud_hypervisor.rs and process.rs
--                with `launch` of services/agent/src/backend.rs; Manager/Files is
--                services/agent/src/runtime.rs and `prepare` of services/agent/src/storage.rs;
--                Manager/Ensure has `ensure` and `reconfigure`, Manager/Receive the other operations, and
--                Manager/Requests the requests as data. Its other files are proofs: Local, Entries, Kept
--                and Served say what each request keeps of an invariant.
--   Access       services/control/src/authz.rs: `resolve_scope`, `AuthUser` and `require`, with
--                `effective_permissions` of services/control/src/store.rs, crates/model/src/project.rs, and `list`
--                of services/control/src/api/vms.rs on services/control/src/scoped.rs. Access/Roles and
--                Access/Seeding are services/control/src/rbac.rs with the handlers of roles in
--                services/control/src/api/iam.rs.
--   Examples     the theorems at concrete inputs.
--   Base         shared names, lists, `i64`, `Result`, the operations of `str`, and actions on a state that
--                may fail, with the rules for their invariants.
--
-- Conventions. Identifiers (UUIDs) are natural numbers, paths and names are strings, times are
-- microseconds. `u64` and `i64` arithmetic wraps around, as in a release build; a sum that PostgreSQL
-- computes is exact. A SQL statement is a function on the rows of its table, and a transaction that
-- holds a lock is one function; where the source reads before it takes the lock, the two parts are
-- separate. A failing write or call is an argument that says how it ends.
--
-- A request to an agent runs to its end before the next: what `detach` and the locks of the two maps
-- ensure of the steps that change them. The first steps of `ensure`, before its lock, are taken with it.
--
-- Two loops are on fuel. That of `next_free`: the fuel is one more than the size of the pool, and each
-- round takes one number of the pool. That of `port_masks`: the fuel is 65537, and each round takes at
-- least one port; its inner loop halves a size of at most 2^16 and has 16 rounds.
--
-- Parameters: the validation of a token and the parsing of a UUID (`Outer`), `IpNet` of the ipnet crate (`NetOps`, with what it documents in `NetLaws`), `f64`
-- (`Floats`, with `FloatLaws`), the conversion of a duration to chrono,
-- the outcome of each call that an agent makes (`Outside`, which may depend on all calls before it; no
-- hypothesis on it but where a theorem names one), which processes the API shutdown of a VMM ends (its
-- `exits`), and Open vSwitch (`Switch`, with what its manuals document of masked ports and of priorities in
-- `SwitchLaws`; when two matches are the same is a parameter of `add_flows`).
--
-- Not modelled: the other HTTP handlers, the validation of tokens, encryption, configuration, most of the agent's calls of
-- system programs, the socket of Cloud Hypervisor, and the user interface: these are input and output, or glue
-- to other programs.
pub mod Base
pub mod Lease
pub mod CpuCompat
pub mod Fence
pub mod Model
pub mod Ipam
pub mod Segments
pub mod Paths
pub mod Quota
pub mod Scheduler
pub mod Migration
pub mod Retry
pub mod Overlay
pub mod Firewall
pub mod Groups
pub mod Manager
pub mod Access
pub mod Examples
