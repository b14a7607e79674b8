-- ===== src/Examples/Leases.antt =====
-- A controller "a" that takes the lease and calls the agent.
use vquasar.Lease.Cluster.Terms.{only_the_holder_is_admitted, one_leader_per_term}
use vquasar.Fence.{number, check, admit, persist, load}
use vquasar.Lease.Cluster.{
  Cluster, after_renew, set_node, initial, Reach, next, here, renew, answer, send, arrive,
}
use vquasar.Lease.{acquire_or_renew, stamp, taken_by, run_round, set_current_epoch, LeaseRow}
use vquasar.Base.{
  refl, none, some, [], ◌∷◌, true, false, ◌≡◌, ◌≢◌, ◌<◌, Memᴰ, ◌⊎◌, String, str_eq, eq_iff,
}
use vquasar.Base.Int.{pos}

abbrev first : String
first = "a"

abbrev second : String
second = "b"

abbrev led : Cluster
led = after_renew "a" (initial false)

abbrev leading : Cluster
leading =
    set_node led "a"
      (record { inst = record { fresh = true; leading = true; current_epoch = 1 }; pending = none })

abbrev called : Cluster
called = record leading { sent = ("a", 1) ∷ [] }

abbrev seen : Cluster
seen = record called {
  agent = record { file = number (pos 1); highest = pos 1; strict = false; warned_absent = false };
}

leading_run : Reach (initial false) leading
unfolding acquire_or_renew taken_by run_round set_current_epoch
leading_run =
    next (next here (renew "a")) (answer "a" (some (record { epoch = 1; took_over = false })) refl)

seen_run : Reach (initial false) seen
unfolding stamp check admit persist load
seen_run = next (next leading_run (send "a" 1 refl)) (arrive "a" 1 true (Memᴰ.head refl))

abbrev row : LeaseRow
row = record {
  holder = "a";
  epoch = 7;
  acquired_at = 0;
  expires_at = 15000000;
  last_pass_at = none;
}

only_the_holder_example : "a" ≡ seen.row.holder
unfolding acquire_or_renew taken_by check admit
only_the_holder_example =
    only_the_holder_is_admitted {c = seen} "a" 1 true seen_run (Memᴰ.head refl) refl refl

one_leader_example : (first ≡ first) × ((1 < seen.row.epoch) ⊎ (first ≡ seen.row.holder))
unfolding stamp
one_leader_example = one_leader_per_term {c = seen} "a" "a" 1 seen_run refl refl

a_is_not_b : first ≢ second
a_is_not_b = λ e. unequal ((eq_iff first second).1 e)
  where
    unequal : str_eq first second ≡ true → ⊥
    unequal h = cc
