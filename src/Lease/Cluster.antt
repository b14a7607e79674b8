-- ===== src/Lease/Cluster.antt =====
-- Several control planes, one lease row, and one agent, in any interleaving. A renewal is two steps,
-- the statement and the answer's arrival, so an instance may be paused between them for any time; a
-- stamped request may arrive late, twice or never. The SQL of lease.rs, the loop of `run`, the stamp
-- of agent.rs and the agent's guard are those of `Lease` and `Fence`.
pub mod Terms
use vquasar.Base.{
  ℕ, ◌+◌, ◌≤◌, ◌<◌, String, Bool, true, false, Option, none, some, List, [], ◌∷◌, ◌≡◌, ◌≢◌, ◌⊎◌,
  Memᴰ, inl, inr, refl, arith, str_eq, eq_iff, eq_refl, if◌then◌else◌,
}
use vquasar.Base.Int.{pos}
use vquasar.Lease.{
  LeaseRow, Held, acquire_or_renew, release, Instance, started, Renewal, answered, failed,
  run_round, stamp,
}
use vquasar.Fence.{EpochFile, not_found, EpochGuard, load, Header, absent, epoch, check}

-- One process: its own state, and the answer to its last statement if that is still on the way.
pub record Node : Type 0 where
  pub inst : Instance
  pub pending : Option (Option Held)

pub record Cluster : Type 0 where
  pub row : LeaseRow
  pub now : ℕ
  pub nodes : String → Node
  pub sent : List (String × ℕ)  -- stamped requests to the agent, by sender
  pub agent : EpochGuard
  pub term : ℕ → String  -- who took each term; no step reads it

abbrev pub put {ℓ} : {A : Type ℓ} → (String → A) → String → A → String → A
put f id a = λ j. if str_eq id j then a else f j

abbrev pub put_term : (ℕ → String) → LeaseRow → ℕ → String
put_term term row = λ e. if vquasar.Base.◌==◌ row.epoch e then row.holder else term e

-- The row that migration 0025 seeds, and an agent that has not been called.
abbrev pub initial : Bool → Cluster
initial strict = record {
  row = record { holder = ""; epoch = 0; acquired_at = 0; expires_at = 0; last_pass_at = none };
  now = 1000000;
  nodes = λ id. record { inst = started; pending = none };
  sent = [];
  agent = record { file = not_found; highest = pos 0; strict = strict; warned_absent = false };
  term = λ e. "";
}

abbrev pub set_node : Cluster → String → Node → Cluster
set_node c id n = record c { nodes = put c.nodes id n }

-- The statement runs; its answer is on the way.
abbrev pub after_renew : String → Cluster → Cluster
after_renew id c =
    let (reply, row') = acquire_or_renew id c.now c.row in
    record c {
      row = row';
      term = put_term c.term row';
      nodes = put c.nodes id (record { inst = (c.nodes id).inst; pending = some reply });
    }

pub data Step (c : Cluster) : Cluster → Type 0 where
  elapse : (d : ℕ) → Step c (record c { now = c.now + d })
  renew : (id : String) → Step c (after_renew id c)
  answer :
      (id : String) (reply : Option Held)
      → (c.nodes id).pending ≡ some reply
      → Step c (
          set_node c id
            (record { inst = run_round (answered reply) (c.nodes id).inst; pending = none }))
  -- The statement, or its answer, is lost.
  fail :
      (id : String)
      → Step c
          (set_node c id (record { inst = run_round failed (c.nodes id).inst; pending = none }))
  crash : (id : String) → Step c (set_node c id (record { inst = started; pending = none }))
  stop : (id : String) → Step c (record c { row = release id c.now c.row })
  send :
      (id : String) (e : ℕ)
      → stamp (c.nodes id).inst ≡ some e
      → Step c (record c { sent = (id, e) ∷ c.sent })
  arrive :
      (id : String) (e : ℕ) (written : Bool)
      → Memᴰ (id, e) c.sent
      → Step c (record c { agent = (check written (epoch (pos e)) c.agent).1 })
  -- A request of an instance that does not lead carries no epoch.
  arrive_absent : (written : Bool) → Step c (record c { agent = (check written absent c.agent).1 })
  restart_agent : Step c (record c { agent = load c.agent.file c.agent.strict })

pub data Reach (s : Cluster) : Cluster → Type 0 where
  here : Reach s s
  next : {c d : Cluster} → Reach s c → Step c d → Reach s d
