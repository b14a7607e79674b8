-- ===== src/Lease/Cluster/Terms.antt =====
-- Each term has one holder, whatever the interleaving.
use vquasar.Base.{
  ℕ, ◌≤◌, ◌<◌, String, Bool, none, some, ◌≡◌, ◌≢◌, ◌⊎◌, Memᴰ, inl, inr, refl, arith, eq_iff, sym,
  ◌∙◌, ap, Option, ◌∷◌,
}
use vquasar.Base.Int.{pos, ◌≤ℤ◌}
use vquasar.Lease.{
  Held, acquire_or_renew, Instance, started, stamp, release, run_round, LeaseRow, answered, failed,
}
use vquasar.Lease.Row.{acquire_or_renew_cases}
use vquasar.Fence.Guard.{check_epoch}
use vquasar.Fence.{stored, EpochGuard, check, load, EpochFile, absent, epoch, admitted}
use vquasar.Lease.Cluster.{
  elapse, renew, answer, fail, crash, stop, send, arrive, arrive_absent, restart_agent, here, next,
}
use vquasar.Lease.Cluster.{
  Node, Cluster, initial, put, set_node, after_renew, Reach, Step, elapse, next, renew, answer,
}

-- A term that `id` may claim: it is not ahead of the row, and `id` took it.
abbrev pub Took : Cluster → String → ℕ → Type 0
Took c id e = (e ≤ c.row.epoch) × (c.term e ≡ id)

pub record IsSound (c : Cluster) : Type 0 where
  pub row_term : c.term c.row.epoch ≡ c.row.holder
  pub pending :
      (id : String) (held : Held) → (c.nodes id).pending ≡ some (some held) → Took c id held.epoch
  pub current : (id : String) (e : ℕ) → stamp (c.nodes id).inst ≡ some e → Took c id e
  pub sent : (id : String) (e : ℕ) → Memᴰ (id, e) c.sent → Took c id e
  pub highest : c.agent.highest ≤ℤ pos c.row.epoch
  pub file : stored c.agent.file ≤ℤ pos c.row.epoch

not-stamp-started : (e : ℕ) → stamp started ≢ some e
unfolding stamp
not-stamp-started e h = cc

stamp-some : (i : Instance) (e : ℕ) → stamp i ≡ some e → (i.current_epoch ≡ e) × (0 < e)
unfolding stamp
stamp-some i e h = ground arith

initial-IsSound : (strict : Bool) → IsSound (initial strict)
initial-IsSound strict = record {
  row_term = refl;
  pending = λ id held h. cc;
  current = λ id e h. absurd (not-stamp-started e h);
  sent = λ id e m. elim m [ ];
  highest = omega arith;
  file = omega arith;
}

some_eq {ℓ} : {A : Type ℓ} {a b : A} → some a ≡ some b → a ≡ b
some_eq h = cc

put_cases {ℓ} :
    {A : Type ℓ} (f : String → A) (id : String) (a : A) (j : String)
    → ((id ≡ j) × (put f id a j ≡ a)) ⊎ (put f id a j ≡ f j)
put_cases f id a j = ground (arith, eq_iff id j)

module _ (c : Cluster) (id : String) (s : IsSound c) where
  -- Taking the lease keeps what was taken before.
  Took-renew : (j : String) (e : ℕ) → Took c j e → Took (after_renew id c) j e
  Took-renew j e t = ground (arith, acquire_or_renew_cases id c.now c.row, s.row_term)

  renewed :
      (held : Held)
      → (acquire_or_renew id c.now c.row).0 ≡ some held
      → Took (after_renew id c) id held.epoch
  renewed held h = ground (arith, acquire_or_renew_cases id c.now c.row, s.row_term)

  epoch-renew : c.row.epoch ≤ (acquire_or_renew id c.now c.row).1.epoch
  epoch-renew = ground (arith, acquire_or_renew_cases id c.now c.row)

  waiting : Node
  waiting = record { inst = (c.nodes id).inst; pending = some (acquire_or_renew id c.now c.row).0 }

  pending-renew :
      (j : String) (held : Held)
      → ((after_renew id c).nodes j).pending ≡ some (some held)
      → Took (after_renew id c) j held.epoch
  unfolding waiting
  pending-renew j held h = elim (put_cases c.nodes id waiting j) [
    | inl (e, q) ↦ rw (← e) (renewed held (some_eq (sym (ap (λ (n : Node). n.pending) q) ∙ h)))
    | inr q ↦ Took-renew j held.epoch (s.pending j held (sym (ap (λ (n : Node). n.pending) q) ∙ h))
  ]

  stamp-renew : (j : String) → stamp ((after_renew id c).nodes j).inst ≡ stamp (c.nodes j).inst
  unfolding waiting
  stamp-renew j = elim (put_cases c.nodes id waiting j) [
    | inl (e, q) ↦ ap (λ (n : Node). stamp n.inst) q ∙ (ap (λ k. stamp (c.nodes k).inst) e)
    | inr q ↦ ap (λ (n : Node). stamp n.inst) q
  ]

  after_renew-IsSound : IsSound (after_renew id c)
  after_renew-IsSound = record {
    row_term = ground arith;
    pending = λ j held h. pending-renew j held h;
    current = λ j e h. Took-renew j e (s.current j e (sym (stamp-renew j) ∙ h));
    sent = λ j e m. Took-renew j e (s.sent j e m);
    highest = omega (arith, s.highest, epoch-renew);
    file = omega (arith, s.file, epoch-renew);
  }

module _ (c : Cluster) (id : String) (i : Instance) (s : IsSound c) where
  ended : Node
  ended = record { inst = i; pending = none }

  -- A step that ends the round of one instance.
  set_node-IsSound :
      ((e : ℕ) → stamp i ≡ some e → Took c id e)
      → IsSound (set_node c id (record { inst = i; pending = none }))
  unfolding ended
  set_node-IsSound fresh = record {
    row_term = s.row_term;
    pending = λ j held h. elim (put_cases c.nodes id ended j) [
      | inl (e, q) ↦ cc (ap (λ (n : Node). n.pending) q)
      | inr q ↦ s.pending j held (sym (ap (λ (n : Node). n.pending) q) ∙ h)
    ];
    current = λ j e h. elim (put_cases c.nodes id ended j) [
      | inl (p, q) ↦ rw (← p) (fresh e (sym (ap (λ (n : Node). stamp n.inst) q) ∙ h))
      | inr q ↦ s.current j e (sym (ap (λ (n : Node). stamp n.inst) q) ∙ h)
    ];
    sent = s.sent;
    highest = s.highest;
    file = s.file;
  }

stamp-answered :
    (i : Instance) (held : Held) (e : ℕ)
    → stamp (run_round (answered (some held)) i) ≡ some e
    → held.epoch ≡ e
unfolding stamp run_round
stamp-answered i held e h = ground arith

not-stamp-refused : (i : Instance) (e : ℕ) → stamp (run_round (answered none) i) ≢ some e
unfolding stamp run_round
not-stamp-refused i e h = cc

not-stamp-failed : (i : Instance) (e : ℕ) → stamp (run_round failed i) ≢ some e
unfolding stamp run_round
not-stamp-failed i e h = cc

check-bounded :
    (w : Bool) (e n : ℕ) (g : EpochGuard)
    → e ≤ n
    → g.highest ≤ℤ pos n
    → stored g.file ≤ℤ pos n
    → let g' = (check w (epoch (pos e)) g).1 in (g'.highest ≤ℤ pos n) × (stored g'.file ≤ℤ pos n)
unfolding check
check-bounded w e n g le h f = ground arith

check_absent-same :
    (w : Bool) (g : EpochGuard)
    → let g' = (check w absent g).1 in (g'.highest ≡ g.highest) × (g'.file ≡ g.file)
unfolding check
check_absent-same w g = ground arith

answer-Took :
    (c : Cluster) (id : String) (reply : Option Held) (e : ℕ)
    → IsSound c
    → (c.nodes id).pending ≡ some reply
    → stamp (run_round (answered reply) (c.nodes id).inst) ≡ some e
    → Took c id e
answer-Took c id none e s p h = absurd (not-stamp-refused _ e h)
answer-Took c id (some held) e s p h =
    rw (← stamp-answered (c.nodes id).inst held e h) (s.pending id held p)

release-same :
    (id : String) (now : ℕ) (row : LeaseRow)
    → let row' = release id now row in (row'.epoch ≡ row.epoch) × (row'.holder ≡ row.holder)
unfolding release
release-same id now row = ground arith

stop-IsSound :
    (c : Cluster) (id : String) → IsSound c → IsSound (record c { row = release id c.now c.row })
stop-IsSound c id s =
    let (same_epoch, same_holder) = release-same id c.now c.row in
    record {
      row_term = rw (same_epoch, same_holder) s.row_term;
      pending = λ j held h. rw same_epoch (s.pending j held h);
      current = λ j e h. rw same_epoch (s.current j e h);
      sent = λ j e m. rw same_epoch (s.sent j e m);
      highest = omega (arith, s.highest);
      file = omega (arith, s.file);
    }

send-IsSound :
    (c : Cluster) (id : String) (e : ℕ)
    → IsSound c
    → stamp (c.nodes id).inst ≡ some e
    → IsSound (record c { sent = (id, e) ∷ c.sent })
send-IsSound c id e s h = record {
  row_term = s.row_term;
  pending = s.pending;
  current = s.current;
  sent = λ j k m. now_or_before j k m;
  highest = s.highest;
  file = s.file;
}
  where
    now_or_before : (j : String) (k : ℕ) → Memᴰ (j, k) ((id, e) ∷ c.sent) → Took c j k
    now_or_before j k (Memᴰ.head q) =
        rw (ap (λ (m : String × ℕ). m.0) q, ap (λ (m : String × ℕ). m.1) q) (s.current id e h)
    now_or_before j k (Memᴰ.tail m) = s.sent j k m

guard-IsSound :
    (c : Cluster) (g : EpochGuard)
    → IsSound c
    → g.highest ≤ℤ pos c.row.epoch
    → stored g.file ≤ℤ pos c.row.epoch
    → IsSound (record c { agent = g })
guard-IsSound c g s h f = record {
  row_term = s.row_term;
  pending = s.pending;
  current = s.current;
  sent = s.sent;
  highest = h;
  file = f;
}

load-highest : (file : EpochFile) (strict : Bool) → (load file strict).highest ≡ stored file
unfolding load
load-highest file strict = refl

load-file : (file : EpochFile) (strict : Bool) → (load file strict).file ≡ file
unfolding load
load-file file strict = refl

Step-IsSound : {c d : Cluster} → Step c d → IsSound c → IsSound d
Step-IsSound (elapse n) s = record {
  row_term = s.row_term;
  pending = s.pending;
  current = s.current;
  sent = s.sent;
  highest = s.highest;
  file = s.file;
}
Step-IsSound {c} (renew id) s = after_renew-IsSound c id s
Step-IsSound {c} (answer id reply p) s =
    set_node-IsSound c id _ s (λ e h. answer-Took c id reply e s p h)
Step-IsSound {c} (fail id) s = set_node-IsSound c id _ s (λ e h. absurd (not-stamp-failed _ e h))
Step-IsSound {c} (crash id) s = set_node-IsSound c id _ s (λ e h. absurd (not-stamp-started e h))
Step-IsSound {c} (stop id) s = stop-IsSound c id s
Step-IsSound {c} (send id e h) s = send-IsSound c id e s h
Step-IsSound {c} (arrive id e w m) s =
    let (h, f) = check-bounded w e c.row.epoch c.agent (s.sent id e m).0 s.highest s.file in
    guard-IsSound c _ s h f
Step-IsSound {c} (arrive_absent w) s =
    let (h, f) = check_absent-same w c.agent in guard-IsSound c _ s (rw h s.highest) (rw f s.file)
Step-IsSound {c} restart_agent s =
    guard-IsSound c _ s (rw load-highest s.file) (rw load-file s.file)

Reach-IsSound : {s c : Cluster} → IsSound s → Reach s c → IsSound c
Reach-IsSound h here = h
Reach-IsSound h (next r st) = Step-IsSound st (Reach-IsSound h r)

-- In a reachable state the sender of a stamped request is the one that took its term, so two requests
-- with one epoch have one sender; and no stamp is ahead of the row.
pub one_sender_per_term :
    {strict : Bool} {c : Cluster} (i j : String) (e : ℕ)
    → Reach (initial strict) c
    → Memᴰ (i, e) c.sent
    → Memᴰ (j, e) c.sent
    → (i ≡ j) × (e ≤ c.row.epoch)
one_sender_per_term {strict} i j e r m n =
    let s = Reach-IsSound (initial-IsSound strict) r in
    (sym (s.sent i e m).1 ∙ (s.sent j e n).1, (s.sent i e m).0)

-- In a reachable state, two instances that stamp requests with one epoch are one instance, and one that
-- stamps the row's epoch is the row's holder.
pub one_leader_per_term :
    {strict : Bool} {c : Cluster} (i j : String) (e : ℕ)
    → Reach (initial strict) c
    → stamp (c.nodes i).inst ≡ some e
    → stamp (c.nodes j).inst ≡ some e
    → (i ≡ j) × ((e < c.row.epoch) ⊎ (i ≡ c.row.holder))
one_leader_per_term {strict} {c} i j e r p q =
    let s = Reach-IsSound (initial-IsSound strict) r in
    (
      sym (s.current i e p).1 ∙ (s.current j e q).1,
      ground (arith, s.current i e p, s.row_term, ap c.term),
    )

-- In a reachable state where the agent has seen the row's term, it admits a stamped request only if the
-- lease's holder sent it.
pub only_the_holder_is_admitted :
    {strict : Bool} {c : Cluster} (i : String) (e : ℕ) (w : Bool)
    → Reach (initial strict) c
    → Memᴰ (i, e) c.sent
    → c.agent.highest ≡ pos c.row.epoch
    → (check w (epoch (pos e)) c.agent).0 ≡ admitted
    → i ≡ c.row.holder
only_the_holder_is_admitted {strict} {c} i e w r m seen ok =
    let s = Reach-IsSound (initial-IsSound strict) r in
    let now : e ≡ c.row.epoch = ground (arith, check_epoch w (pos e) c.agent, s.sent i e m) in
    sym (s.sent i e m).1 ∙ ap c.term now ∙ s.row_term

-- In a reachable state the agent admits a request that is stamped with the row's term.
pub newest_term_is_admitted :
    {strict : Bool} {c : Cluster} (w : Bool)
    → Reach (initial strict) c
    → (check w (epoch (pos c.row.epoch)) c.agent).0 ≡ admitted
newest_term_is_admitted {strict} {c} w r =
    let s = Reach-IsSound (initial-IsSound strict) r in
    ground (arith, check_epoch w (pos c.row.epoch) c.agent, s.highest)
