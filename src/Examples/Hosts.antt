-- ===== src/Examples/Hosts.antt =====
-- A host with the VM 7: it is managed, or its receiver is prepared, or the agent was restarted.
use vquasar.Base.{
  ℕ, false, true, none, some, List, [], ◌∷◌, ◌≡◌, ◌≢◌, ◌⊎◌, inl, refl, keep, arith, sym, ◌∙◌, Memᴰ,
}
use vquasar.Base.Result.{ok, err}
use vquasar.Base.Action.{◌>>=◌}
use vquasar.Model.{VirtualMachineSpec}
use vquasar.Manager.{
  Outside, MigrationSettings, Agent, VmRecord, ManagedVm, PendingReceive, ObservedVm,
  HypervisorState, hypervisor, lookup, must, must_then, ask, made, vm_info, on_pending, on_dirs,
}
use vquasar.Manager.Hypervisor.{launch}
use vquasar.Manager.Files.{store_record}
use vquasar.Manager.Receive.{
  prepare_receive, receive_as, new_receiver, receiver_urls, unix_urls, finalize_receive, recover,
  adopted, poll, attached, discard,
}
use vquasar.Manager.Ensure.{ensure, reconfigure}
use vquasar.Manager.Requests.{Request, serve_all}
use vquasar.Manager.Once.{prepare_receive_once}
use vquasar.Manager.Spares.{IsSpared, ensure_spares}
use vquasar.Manager.Leak.{IsReceivers, receiver_leaks}
use vquasar.Manager.Orphans.{IsUnowned}
use vquasar.Manager.Finalize.{finalize-cases}
use vquasar.Manager.Recovery.{recover-IsExact}
use vquasar.Manager.Frame.{Shows, others_untouched}
use vquasar.Manager.Seeds.{seed_removals, seed_kept}
use vquasar.Manager.Resizing.{exceeds, reconfigure_within}
use vquasar.Examples.Specs.{spec}

-- Each call succeeds, and each VMM runs a guest.
abbrev world : Outside
world = record {
  accepts = λ calls c. true;
  info = λ calls id. some HypervisorState.running;
  not_empty = λ calls id. false;
  seed_exists = λ calls id. true;
  exits = λ calls socket p. true;
  address_of = λ mac. none;
  tap_name = λ id index. "tap0";
  uuid = λ id. "7f";
  decimal = λ n. "49152";
  hostname = "node1";
}

abbrev settings : MigrationSettings
settings = record {
  shared_dir = "/shared";
  transport = "unix";
  advertise_host = "";
  port_min = 49152;
  port_max = 49160;
  socket_dir = "/run/vq";
}

abbrev idle : Agent
idle = record { vms = []; pending = []; dirs = []; children = []; spawned = 0; calls = [] }

abbrev seven : VmRecord
seven = record { id = 7; name = "web"; spec = spec }

abbrev vm : ManagedVm
vm = record { record_of = seven; vmm = record { socket = 7; process = some 0 } }

abbrev busy : Agent
busy = record idle {
  vms = (7, vm) ∷ [];
  dirs = (7, some seven) ∷ [];
  children = 0 ∷ [];
  spawned = 1;
}

abbrev receiver : PendingReceive
receiver = record {
  record_of = seven;
  vmm = record { socket = 7; process = some 0 };
  polled = false;
  recv_url = "unix:/run/vq/7f.sock";
  return_url = "unix:/run/vq/7f.sock";
}

abbrev waiting : Agent
waiting = record idle { pending = (7, receiver) ∷ []; children = 0 ∷ []; spawned = 1 }

abbrev restarted : Agent
restarted = record busy { vms = [] }

abbrev larger : VirtualMachineSpec
larger = record spec { cpu = record { boot_vcpus = 8; max_vcpus = 8 } }

abbrev between : List Request
between = Request.ensure 7 "web" spec [] ∷ Request.get 7 ∷ Request.discard 9 ∷ []

prepared : (prepare_receive settings world 7 "web" spec idle).0 ≡ ok "unix:/run/vq/7f.sock"
unfolding prepare_receive receive_as new_receiver store_record must_then must ask launch
    receiver_urls unix_urls ◌>>=◌
prepared = refl

prepare_receive_once_example :
    prepare_receive settings world 7 "web" larger
      (serve_all settings world between (prepare_receive settings world 7 "web" spec idle).1)
    ≡ (
      ok "unix:/run/vq/7f.sock",
      serve_all settings world between (prepare_receive settings world 7 "web" spec idle).1,
    )
prepare_receive_once_example =
    prepare_receive_once settings world 7 "web" "web" spec larger between idle
      "unix:/run/vq/7f.sock" prepared (refl, (refl, (refl, tt)))

ensure_spares_example : IsSpared 7 vm.vmm busy (ensure settings world 7 "web" larger [] busy).1
ensure_spares_example =
    ensure_spares settings world 7 "web" larger [] busy vm refl refl λ calls later e. absurd cc

owned_by_none : IsReceivers 7 0 idle
owned_by_none = record {
  spawned_alive = inl refl;
  unhosted = refl;
  unmanaged = λ j m e. absurd cc;
  unreceived = λ j r ne e. absurd cc;
}

spawned_is : (prepare_receive settings world 7 "web" spec idle).1.spawned ≡ 1
unfolding prepare_receive receive_as new_receiver store_record must_then must ask launch
    receiver_urls unix_urls on_pending on_dirs made ◌>>=◌
spawned_is = refl

one_zero : ◌≢◌ {A = ℕ} 1 0
one_zero e = absurd (omega (arith, e))

nine_seven : ◌≢◌ {A = ℕ} 9 7
nine_seven e = absurd (omega (arith, e))

spawned_one : (prepare_receive settings world 7 "web" spec idle).1.spawned ≢ 0
spawned_one e = one_zero (sym spawned_is ∙ e)

receiver_leaks_example :
    Memᴰ 0 (discard world 7 (prepare_receive settings world 7 "web" spec idle).1).1.children
    × ((discard world 7 (prepare_receive settings world 7 "web" spec idle).1).1.calls
        ≡ (prepare_receive settings world 7 "web" spec idle).1.calls)
    × IsUnowned 0 (
        serve_all settings world
          (Request.discard 7 ∷ between)
          (prepare_receive settings world 7 "web" spec idle).1)
receiver_leaks_example =
    receiver_leaks settings world 7 "web" spec between idle owned_by_none spawned_one

finalize-cases_example :
    ((seen : ObservedVm) × ((finalize_receive world 7 waiting).0 ≡ ok seen)
      × (lookup 7 (finalize_receive world 7 waiting).1.vms ≡ some (adopted receiver))
      × (lookup 7 (finalize_receive world 7 waiting).1.pending ≡ none)
      × ((again : ObservedVm) × (finalize_receive world 7 (finalize_receive world 7 waiting).1
            ≡ (ok again, made (vm_info 7) (finalize_receive world 7 waiting).1))))
    ⊎ (((finalize_receive world 7 waiting).0 ≡ err hypervisor)
        × (lookup 7 (finalize_receive world 7 waiting).1.vms ≡ none)
        × (lookup 7 (finalize_receive world 7 waiting).1.pending ≡ some (poll receiver))
        × (finalize_receive world 7 (finalize_receive world 7 waiting).1
            ≡ (err hypervisor, (finalize_receive world 7 waiting).1)))
finalize-cases_example = finalize-cases world 7 receiver waiting refl refl

recover-IsExact_example :
    lookup 7 (recover world restarted).1.vms ≡ some (record { record_of = seven; vmm = attached 7 })
recover-IsExact_example =
    recover-IsExact world (λ id. some HypervisorState.running) restarted 7 (λ calls id. refl) refl

others_untouched_example : Shows 7 (some vm) none (some (some seven)) (
    serve_all settings world
      (Request.delete 9 ∷ Request.ensure 9 "db" spec [] ∷ Request.prepare_receive 9 "db" spec ∷ [])
      busy)
others_untouched_example =
    others_untouched settings world 7
      (Request.delete 9 ∷ Request.ensure 9 "db" spec [] ∷ Request.prepare_receive 9 "db" spec ∷ [])
      busy (nine_seven, (nine_seven, (nine_seven, tt)))

seed_kept_example :
    seed_removals 7 (serve_all settings world (Request.discard 7 ∷ Request.delete 9 ∷ []) busy) ≡ []
seed_kept_example =
    seed_kept settings world 7 (Request.discard 7 ∷ Request.delete 9 ∷ []) busy (refl, (refl, tt))

reconfigure_within_example :
    keep (exceeds spec) (reconfigure world 7 vm larger [] busy).1.calls ≡ []
reconfigure_within_example = reconfigure_within world 7 vm larger [] busy
