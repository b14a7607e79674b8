-- ===== src/Manager/Requests.antt =====
-- The requests that an agent serves on its VMs, and runs of them.
use vquasar.Base.{ℕ, String, List, [], ◌∷◌}
use vquasar.Base.Action.{◌>>◌, pure}
use vquasar.Model.{VirtualMachineSpec}
use vquasar.Manager.{Outside, Agent, Manage, ⊤, NicBinding, MigrationSettings}
use vquasar.Manager.Ensure
use vquasar.Manager.Receive

pub data Request : Type 0 where
  ensure : ℕ → String → VirtualMachineSpec → List NicBinding → Request
  start stop get delete finalize_receive discard : ℕ → Request
  prepare_receive : ℕ → String → VirtualMachineSpec → Request
  send_migration : ℕ → String → Request

abbrev pub vm_of : Request → ℕ
vm_of (ensure id name spec bindings) = id
vm_of (start id) = id
vm_of (stop id) = id
vm_of (get id) = id
vm_of (delete id) = id
vm_of (finalize_receive id) = id
vm_of (discard id) = id
vm_of (prepare_receive id name spec) = id
vm_of (send_migration id url) = id

-- Without the answer.
unfoldable pub serve : MigrationSettings → Outside → Request → Manage ⊤
serve m o (ensure id name spec bindings) = Ensure.ensure m o id name spec bindings >> pure tt
serve m o (start id) = Receive.start o id >> pure tt
serve m o (stop id) = Receive.stop o id >> pure tt
serve m o (get id) = Receive.get o id >> pure tt
serve m o (delete id) = Receive.delete o id
serve m o (finalize_receive id) = Receive.finalize_receive o id >> pure tt
serve m o (discard id) = Receive.discard o id
serve m o (prepare_receive id name spec) = Receive.prepare_receive m o id name spec >> pure tt
serve m o (send_migration id url) = Receive.send_migration o id url

-- Each request is served whether the one before failed or not.
abbrev pub serve_all : MigrationSettings → Outside → List Request → Agent → Agent
serve_all m o [] s = s
serve_all m o (q ∷ qs) s = serve_all m o qs (serve m o q s).1
