-- ===== src/Groups/Ports.antt =====
-- The ports of a rule, from the request to the agent.
use vquasar.Firewall.Switch.{Switch}
use vquasar.Base.Result.{ok, Result}
use vquasar.Groups.{ok}
use vquasar.Base.{
  none, some, true, Bool, Option, ℕ, ◌≡◌, leb, ◌≤◌, not, ◌||◌, ◌==◌, ◌&&◌, if◌then◌else◌,
}
use vquasar.Base.Int.{ℤ, pos_part, neg_part}

-- The ports that the agent opens for the two bounds of a request. A bound that is missing is 0.
abbrev pub opened : Option ℤ → Option ℤ → ℕ → Bool
opened none none p = true
opened (some n) none p = leb p (pos_part n) || (pos_part n == 0)
opened none (some n) p = leb p (pos_part n) || (pos_part n == 0)
opened (some lo) (some hi) p = (leb (pos_part lo) p && leb p (pos_part hi)) || (pos_part hi == 0)

abbrev InPorts : Option ℤ → Type 0
InPorts none = Unit
InPorts (some p) = (neg_part p ≡ 0) × (pos_part p ≤ 65535)

abbrev InOrder : Option ℤ → Option ℤ → Type 0
InOrder (some lo) (some hi) = pos_part lo ≤ pos_part hi
InOrder _ _ = Unit

-- `in_ports` of a tcp or udp rule with two numbers.
abbrev within : ℕ → ℕ → ℕ → Bool
within a b p =
    not (true && (not ((a == 0) && (b == 0)) && not ((a == 0) && (b == 0xFFFF))))
    || (leb (if leb a b then a else b) p && leb p (if leb a b then b else a))
