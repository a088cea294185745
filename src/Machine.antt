-- ===== src/Machine.antt =====
-- The phases of an instance as a state machine: what the instance controller and the lifecycle
-- controller, which share the stored instance, may write over a phase that they have read.
pub mod Writes
pub mod Expiry
pub mod Store
pub mod Deadline
pub mod Grace
use kimo.Prelude.{◌≡◌, ◌≢◌, ◌↔◌, refl, Bool, true, false, arith}
use kimo.Types.{
  InstancePhase, unset, pending, creating, running, unhealthy, expiring, expired, terminating,
  failed,
}
use kimo.Instance.Phase.{terminal}

-- The phases that the instance controller writes.
abbrev pub observed : InstancePhase → Bool
observed pending = true
observed creating = true
observed running = true
observed unhealthy = true
observed failed = true
observed _ = false

pub data Next : InstancePhase → InstancePhase → Type 0 where
  by_instance_controller : {p q : InstancePhase} → terminal p ≡ false → observed q ≡ true → Next p q
  into_grace : {p : InstancePhase} → terminal p ≡ false → p ≢ expiring → Next p expiring
  at_expiry : {p : InstancePhase} → terminal p ≡ false → Next p expired

pub data Reaches (start : InstancePhase) : InstancePhase → Type 0 where
  here : Reaches start start
  after : {p q : InstancePhase} → Reaches start p → Next p q → Reaches start q

Next-live : {p q : InstancePhase} → Next p q → (terminal p ≡ false) × (q ≢ terminating)
Next-live (by_instance_controller live seen) = (live, ground arith)
Next-live (into_grace live fresh) = (live, ground arith)
Next-live (at_expiry live) = (live, ground arith)

-- What is reached from a final phase is that phase.
pub Reaches-terminal : {p q : InstancePhase} → terminal p ≡ true → Reaches p q → q ≡ p
Reaches-terminal final here = refl
Reaches-terminal final (after before step) =
    let same = Reaches-terminal final before in
    let (live, _) = Next-live step in absurd (ground arith)

-- No step leads to Terminating.
pub Reaches-avoids : {p q : InstancePhase} → Reaches p q → p ≢ terminating → q ≢ terminating
Reaches-avoids here h = h
Reaches-avoids (after before step) h = (Next-live step).1

reaches : (q : InstancePhase) → q ≢ terminating → Reaches unset q
unfolding terminal
reaches unset h = here
reaches pending h = after here (by_instance_controller refl refl)
reaches creating h = after here (by_instance_controller refl refl)
reaches running h = after here (by_instance_controller refl refl)
reaches unhealthy h = after here (by_instance_controller refl refl)
reaches failed h = after here (by_instance_controller refl refl)
reaches expiring h = after here (into_grace refl (ground arith))
reaches expired h = after here (at_expiry refl)
reaches terminating h = absurd (h refl)

-- A new instance can come into every phase but Terminating, and never into that one.
pub Reaches-unset_iff : (q : InstancePhase) → Reaches unset q ↔ (q ≢ terminating)
Reaches-unset_iff q = (λ path. Reaches-avoids path (ground arith), reaches q)
