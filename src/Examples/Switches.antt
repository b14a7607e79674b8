-- ===== src/Examples/Switches.antt =====
-- A switch that satisfies the laws: masks as divisions, and the flow of the highest priority.
use vquasar.Firewall.Switch.{Packet, Switch, SwitchLaws, field_holds, Beaten, matches}
use mathlib.Core.Path.{ap₂, sym}
use Prim.Native.String.{◌++◌ as ◌<>◌, String}
use vquasar.Base.{
  inl, inr, [], ◌∷◌, true, false, refl, ==_iff, List, String, ℕ, All, Bool, Memᴰ, if◌then◌else◌,
  keep, ◌/◌, ◌≡◌, ◌≤◌, arith, keep-Memᴰ, leb, str_eq, ◌-◌, ◌<◌, ◌==◌, ◌^◌, Bool-cases, ◌&&◌, ◌||◌,
  ◌⊎◌, All-Memᴰ, All-mono, sym, ◌∙◌,
}
use vquasar.Firewall.{
  in_port, dl_src, dl_dst, arp_sha, nw_src, nw_dst, ipv6_src, ipv6_dst, keyword, tp_src, tp_dst,
  tp_dst_mask, ct_zone, ct_state, drop, Action, Flow, Field,
}
use vquasar.Firewall.Ports.Cover.{MaskLaw}
use vquasar.Firewall.Ports.{mask_of}
use native.Mathlib.Nat.{one-le-pow, pow-le-pow_right}

abbrev pub masked : ℕ → ℕ → ℕ → Bool
masked port value mask = port / (65536 - mask) == value / (65536 - mask)

two_power : (k : ℕ) → k ≤ 16 → 2 ^ k ≤ 2 ^ 16
two_power k small = pow-le-pow_right (omega arith) small

size_lem : (k : ℕ) → k ≤ 16 → 65536 - mask_of (2 ^ k) ≡ 2 ^ k
size_lem k small =
    let small_power = two_power k small in omega (arith, one-le-pow k 2 (omega arith))

pub mask_law : MaskLaw masked
mask_law = record {
  block = λ port value k small. rw (size_lem k small) (==_iff (port / 2 ^ k) (value / 2 ^ k));
}

pub better : Flow → Flow → Flow
better f g = if leb g.priority f.priority then f else g

better_lem :
    (f g : Flow)
    → ((better f g ≡ f) ⊎ (better f g ≡ g))
      × (f.priority ≤ (better f g).priority)
      × (g.priority ≤ (better f g).priority)
unfolding better
better_lem f g = elim (Bool-cases (leb g.priority f.priority)) [
  | inl first ↦ rw first (inl refl, omega arith, ground arith)
  | inr later ↦ rw later (inr refl, ground arith, omega arith)
]

abbrev best : Flow → List Flow → Flow
best f [] = f
best f (x ∷ xs) = better f (best x xs)

abbrev pub in_cidr : String → String → Bool
in_cidr addr cidr = str_eq cidr "0.0.0.0/0" || str_eq (addr <> "/32") cidr

-- The fields as the switch below reads them.
abbrev reader : Switch
reader = record { in_cidr = in_cidr; masked = masked; decide = λ t flows p. drop }

abbrev action_of : List Flow → Action
action_of [] = drop
action_of (f ∷ fs) = (best f fs).action

abbrev applies : ℕ → Packet → Flow → Bool
applies t p f = (f.table == t) && matches reader p f.fields

abbrev pub switch : Switch
switch = record {
  in_cidr = in_cidr;
  masked = masked;
  decide = λ t flows p. action_of (keep (applies t p) flows);
}

best_lem :
    (f : Flow) (fs : List Flow)
    → Memᴰ (best f fs) (f ∷ fs) × All (λ h. h.priority ≤ (best f fs).priority) (f ∷ fs)
best_lem f [] = (Memᴰ.head refl, (omega arith, tt))
best_lem f (x ∷ xs) =
    let (m, h) = best_lem x xs in
    let (which, over_f, over_g) = better_lem f (best x xs) in
    (
      elim which [ inl first ↦ Memᴰ.head first | inr later ↦ Memᴰ.tail (rw later m) ],
      (over_f, All-mono (x ∷ xs) (λ g le. omega arith) h),
    )

field_lem : (p : Packet) (f : Field) → field_holds reader p f ≡ field_holds switch p f
unfolding field_holds
field_lem p (in_port s) = refl
field_lem p (dl_src s) = refl
field_lem p (dl_dst s) = refl
field_lem p (arp_sha s) = refl
field_lem p (nw_src c) = refl
field_lem p (nw_dst c) = refl
field_lem p (ipv6_src c) = refl
field_lem p (ipv6_dst c) = refl
field_lem p (keyword k) = refl
field_lem p (tp_src n) = refl
field_lem p (tp_dst n) = refl
field_lem p (tp_dst_mask v m) = refl
field_lem p (ct_zone z) = refl
field_lem p (ct_state f) = refl

fields_lem : (p : Packet) (fs : List Field) → matches reader p fs ≡ matches switch p fs
fields_lem p [] = refl
fields_lem p (f ∷ fs) = ap₂ ◌&&◌ (field_lem p f) (fields_lem p fs)

applies_lem :
    (t : ℕ) (p : Packet) (f : Flow)
    → f.table ≡ t
    → matches switch p f.fields ≡ true
    → applies t p f ≡ true
applies_lem t p f table m = rw ((==_iff f.table t).1 table, fields_lem p f.fields, m) refl

applies_only :
    (t : ℕ) (p : Packet) (f : Flow)
    → applies t p f ≡ true
    → (f.table ≡ t) × (matches switch p f.fields ≡ true)
applies_only t p f e =
    let (table, m) = both (f.table == t) (matches reader p f.fields) e in
    ((==_iff f.table t).0 table, sym (fields_lem p f.fields) ∙ m)
  where
    both : (a b : Bool) → (a && b) ≡ true → (a ≡ true) × (b ≡ true)
    both true b e = (refl, e)
    both false b e = absurd cc

action_lem :
    (t : ℕ) (p : Packet) (f : Flow) (cs : List Flow)
    → Memᴰ f cs
    → All (λ g. (g.priority < f.priority) ⊎ (g.action ≡ f.action)) cs
    → action_of cs ≡ f.action
action_lem t p f [] m h = elim m [ ]
action_lem t p f (c ∷ cs) m h =
    let (here, top) = best_lem c cs in
    elim (All-Memᴰ (λ g. (g.priority < f.priority) ⊎ (g.action ≡ f.action)) (best c cs) (c ∷ cs)
      here h) [
        | inr same ↦ same
        | inl under ↦
            let over = All-Memᴰ (λ h. h.priority ≤ (best c cs).priority) f (c ∷ cs) m top in
            absurd (omega arith)
      ]

kept_lem :
    (t : ℕ) (p : Packet) (f : Flow) (gs : List Flow)
    → All (Beaten switch t p f) gs
    → All (λ g. (g.priority < f.priority) ⊎ (g.action ≡ f.action)) (keep (applies t p) gs)
kept_lem t p f [] h = tt
kept_lem t p f (g ∷ gs) h = elim (Bool-cases (applies t p g)) [
  | inr out ↦ rw out (kept_lem t p f gs h.1)
  | inl within ↦
      let (table, m) = applies_only t p g within in rw within (h.0 table m, kept_lem t p f gs h.1)
]

pub laws : SwitchLaws switch
laws = record {
  masks = mask_law;
  highest = λ t flows p f m table hit beaten.
      action_lem t p f (keep (applies t p) flows)
        (keep-Memᴰ (applies t p) f flows m (applies_lem t p f table hit))
        (kept_lem t p f flows beaten);
}
