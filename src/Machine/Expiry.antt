-- ===== src/Machine/Expiry.antt =====
-- The lifecycle controller keeps to the state machine:
-- internal/controller/lifecycle_controller.go.
use kimo.Prelude.{String, ◌≡◌, ◌≢◌, refl, false, Option, none, some, ok, arith}
use kimo.Types.{
  Time, Duration, NamespacedName, InstancePhase, expiring, expired, ChallengeInstance,
  same_phase_iff,
}
use kimo.Prelude.Int.{pos}
use kimo.Cluster.{Api, get_instance, Sys, is_not_found}
use kimo.Cluster.Log.{
  only_rules, Extends, Only, Only-if, Only-if_cases, Only-pure, Only-call, Only-raise, Only-bind,
  Only-then,
}
use kimo.Cluster.Follows.{Extends-read}
use kimo.Integrations.Event.{Event, EventType, event_of}
use kimo.Integrations.Backend.{Backend, announce}
use kimo.Instance.Phase.{terminal}
use kimo.Instance.Reconcile.{seconds}
use kimo.Lifecycle
use kimo.Lifecycle.{
  time_sub, Step, expire, enter_grace, wait, step_at, notify_and_set_phase, take_step,
}
use kimo.Machine.{Next, into_grace, at_expiry}
use kimo.Machine.Writes.{IsNext}

grace_fresh : (p : InstancePhase) (r d : Duration) → step_at p r ≡ enter_grace d → p ≢ expiring
grace_fresh p r d e = unfold step_at in ground (arith, same_phase_iff p expiring)

module _ {W E : Type 0} (api : Api W E) (backend : Option (Backend W E))
    (i : ChallengeInstance) where
  announce-IsNext : (b : Option (Backend W E)) (e : Event) → Only (IsNext i) (announce b e)
  announce-IsNext none e = unfold announce in Only-pure tt
  announce-IsNext (some b) e = unfold announce in search only_rules

  module _ (live : terminal i.status.phase ≡ false) where
    set_phase-IsNext :
        (q : InstancePhase) (reason : String) (t : EventType) (d : Duration)
        → Next i.status.phase q
        → Only (IsNext i) (notify_and_set_phase api backend i q reason t d)
    set_phase-IsNext q reason t d step =
        unfold notify_and_set_phase in
        Only-bind _ _ (Only-call _ _ (λ b. (step, refl, λ at e. e, refl)))
          (λ u. Only-then _ _ (announce-IsNext backend (event_of u t reason)) (Only-pure d))

    take_step-IsNext :
        (todo : Step)
        → ((d : Duration) → todo ≡ enter_grace d → i.status.phase ≢ expiring)
        → Only (IsNext i) (take_step api backend i todo)
    take_step-IsNext expire fresh =
        unfold take_step in set_phase-IsNext expired _ _ _ (at_expiry live)
    take_step-IsNext (enter_grace d) fresh =
        unfold take_step in set_phase-IsNext expiring _ _ _ (into_grace live (fresh d refl))
    take_step-IsNext (wait d) fresh = unfold take_step in Only-pure d

  lifecycle_advance-IsNext : (o : Option Time) → Only (IsNext i) (Lifecycle.advance api backend i o)
  lifecycle_advance-IsNext none = unfold Lifecycle.advance in Only-pure (seconds 30)
  lifecycle_advance-IsNext (some t) =
      unfold Lifecycle.advance in
      Only-if_cases (terminal i.status.phase) _ _ (λ final. Only-pure (seconds 30))
        (λ live. record {
          at = λ s.
              let todo = step_at i.status.phase (time_sub t (api.clock s.world)) in
              (take_step-IsNext live todo (grace_fresh i.status.phase _)).at s;
        })

-- A run of the lifecycle controller that reads an instance writes over its phase only what the
-- state machine allows as a step from it, with the metadata that it read, the version of the object
-- included, with the expiry that it read if one was set, and with the endpoint that it read.
pub lifecycle-IsNext :
    {W E : Type 0} (api : Api W E) (backend : Option (Backend W E)) (key : NamespacedName)
    (s : Sys W) {i : ChallengeInstance}
    → (api.get_instance key s.world).0 ≡ ok i
    → Extends (IsNext i) s.log (Lifecycle.reconcile api backend key s).1.log
lifecycle-IsNext api backend key s found =
    unfold Lifecycle.reconcile in
    Extends-read IsNext (get_instance key) (api.get_instance key) _ _ (λ j b. tt)
      (λ j. lifecycle_advance-IsNext api backend j j.status.expires_at)
      (λ j e. Only-if (is_not_found api e) _ _ (Only-pure (pos 0)) (Only-raise e)) s found
