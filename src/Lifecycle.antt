-- ===== src/Lifecycle.antt =====
-- The lifecycle controller: internal/controller/lifecycle_controller.go.
pub mod Timing
pub mod Report
pub mod Visits
pub mod Chain
use kimo.Prelude.{ℕ, ◌^◌, ◌-◌, String, Bool, ◌&&◌, Option, none, some, not, if◌then◌else◌}
use kimo.Prelude.Int.{ℤ, pos, negsuc, ◌-ℤ◌, leb_ℤ, ltb_ℤ}
use kimo.Types.{
  Time, Duration, NamespacedName, InstancePhase, expiring, expired, same_phase, ChallengeInstance,
}
use kimo.Cluster.{
  Api, get_instance, update_instance_status, M, Sys, pure, raise, call, attempt, ◌>>=◌, ◌>>◌,
  is_not_found,
}
use kimo.Integrations.Event.{EventType, event_expiring, event_expired, event_of}
use kimo.Integrations.Backend.{Backend, announce}
use kimo.Instance.Phase.{terminal}
use kimo.Instance.Reconcile.{seconds, with_phase}

-- `t.Sub(u)`: the difference, held within an int64.
unfoldable pub time_sub : Time → Time → Duration
unfolding ◌-ℤ◌
time_sub t u =
    let d = t -ℤ u in
    if ltb_ℤ d (negsuc (2 ^ 63 - 1))
    then negsuc (2 ^ 63 - 1)
    else if ltb_ℤ (pos (2 ^ 63 - 1)) d
    then pos (2 ^ 63 - 1)
    else d

abbrev pub expiring_grace_window : Duration
expiring_grace_window = seconds 60

-- What a run does at a time: expire, enter the grace window, or wait.
pub data Step : Type 0 where
  expire : Step
  enter_grace : Duration → Step
  wait : Duration → Step

-- The `switch` on the time that remains.
unfoldable pub step_at : InstancePhase → Duration → Step
unfolding ◌-ℤ◌
step_at phase remaining =
    if leb_ℤ remaining (pos 0)
    then expire
    else if leb_ℤ remaining expiring_grace_window && not (same_phase phase expiring)
    then enter_grace remaining
    else wait (remaining -ℤ expiring_grace_window)

module _ {W E : Type 0} (api : Api W E) (backend : Option (Backend W E)) where
  unfoldable pub notify_and_set_phase :
      ChallengeInstance → InstancePhase → String → EventType → Duration → M W E Duration
  notify_and_set_phase i phase reason event requeue_after = do
    let i' = with_phase i phase reason
    updated ← call (update_instance_status i') (api.update_instance_status i')
    announce backend (event_of updated event reason)
    pure requeue_after

  unfoldable pub take_step : ChallengeInstance → Step → M W E Duration
  take_step i expire = notify_and_set_phase i expired "TTL expired" event_expired (seconds 60)
  take_step i (enter_grace remaining) =
      notify_and_set_phase i expiring "entering expiry grace window" event_expiring remaining
  take_step i (wait d) = pure d

  -- With the instance in hand, and its expiry.
  unfoldable pub advance : ChallengeInstance → Option Time → M W E Duration
  advance i none = pure (seconds 30)
  advance i (some expires_at) = if terminal i.status.phase then pure (seconds 30) else λ s.
      take_step i (step_at i.status.phase (time_sub expires_at (api.clock s.world))) s

  unfoldable pub reconcile : NamespacedName → M W E Duration
  reconcile key =
      attempt (call (get_instance key) (api.get_instance key)) (λ i. advance i i.status.expires_at)
        (λ e. if is_not_found api e then pure (pos 0) else raise e)
