-- ===== src/Lifecycle/Timing.antt =====
-- When the lifecycle controller expires an instance, warns of it, and comes back.
use kimo.Prelude.{◌+◌, ap, ◌∙◌, ◌^◌, ◌-◌, ◌≡◌, ◌≢◌, ◌↔◌, arith}
use native.Mathlib.Decide.{dec_lt}
use kimo.Prelude.Int.{pos_part, neg_part, pos, ◌+ℤ◌, ◌-ℤ◌, ◌≤ℤ◌, ◌<ℤ◌, +ℤ_parts, -ℤ_parts, int_laws}
use kimo.Types.{Time, Duration, InstancePhase, expiring, same_phase_iff}
use kimo.Lifecycle.{time_sub, expiring_grace_window, expire, enter_grace, wait, step_at}

-- An instance is expired by the runs at or after its expiry time, and by no others.
pub step_at-expire_iff :
    (phase : InstancePhase) (expires_at now : Time)
    → (step_at phase (time_sub expires_at now) ≡ expire) ↔ (expires_at ≤ℤ now)
unfolding step_at time_sub
step_at-expire_iff phase expires_at now = ground arith

-- Within the range of an int64 the difference is exact.
pub time_sub-eq : (t u : Time) → u ≤ℤ t → t ≤ℤ u +ℤ pos (2 ^ 63 - 1) → time_sub t u ≡ t -ℤ u
time_sub-eq t u later near =
    let p = -ℤ_parts t u in let q = +ℤ_parts u (pos (2 ^ 63 - 1)) in unfold time_sub in ground arith

pub add_sub : (t u : Time) → u +ℤ (t -ℤ u) ≡ t
add_sub t u = omega int_laws

pub step_at-far :
    (phase : InstancePhase) (r : Duration)
    → expiring_grace_window <ℤ r
    → step_at phase r ≡ wait (r -ℤ expiring_grace_window)
step_at-far phase r far = unfold step_at in ground arith

pub step_at-near :
    (phase : InstancePhase) (r : Duration)
    → phase ≢ expiring
    → pos 0 <ℤ r
    → r ≤ℤ expiring_grace_window
    → step_at phase r ≡ enter_grace r
step_at-near phase r fresh left near =
    unfold step_at in ground (arith, same_phase_iff phase expiring)

pub step_at-over : (phase : InstancePhase) (r : Duration) → r ≤ℤ pos 0 → step_at phase r ≡ expire
step_at-over phase r over = unfold step_at in ground arith

step_at-wait_eq :
    (phase : InstancePhase) (r : Duration) {d : Duration}
    → step_at phase r ≡ wait d
    → d ≡ r -ℤ expiring_grace_window
step_at-wait_eq phase r e = unfold step_at in ground arith

waits_early :
    (phase : InstancePhase) (expires_at now : Time) {d : Duration}
    → step_at phase (time_sub expires_at now) ≡ wait d
    → now <ℤ expires_at
waits_early phase expires_at now e =
    elim (dec_lt (pos_part now + neg_part expires_at) (pos_part expires_at + neg_part now)) [
      | yes p ↦ p
      | no n ↦ absurd (never ((step_at-expire_iff phase expires_at now).1 (omega arith)))
    ]
  where
    never : step_at phase (time_sub expires_at now) ≡ expire → ⊥
    never h = cc

-- A wait ends where the grace window begins: a run at that time finds exactly the window left.
-- The wait is a delay, and no time past, exactly if the instance is not in the window already.
pub step_at-wait :
    (phase : InstancePhase) (expires_at now : Time) {d : Duration}
    → expires_at ≤ℤ now +ℤ pos (2 ^ 63 - 1)
    → step_at phase (time_sub expires_at now) ≡ wait d
    → ((now +ℤ d) +ℤ expiring_grace_window ≡ expires_at)
      × ((pos 0 <ℤ d) ↔ (now +ℤ expiring_grace_window <ℤ expires_at))
step_at-wait phase expires_at now {d} near e =
    let early = waits_early phase expires_at now e in
    let exact : time_sub expires_at now ≡ expires_at -ℤ now =
      time_sub-eq expires_at now (omega arith) near in
    let eq : d ≡ expires_at -ℤ now -ℤ expiring_grace_window =
      step_at-wait_eq phase _ e ∙ ap (λ r. r -ℤ expiring_grace_window) exact in
    rw eq (omega int_laws, (omega int_laws, omega int_laws))
