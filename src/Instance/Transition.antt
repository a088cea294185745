-- ===== src/Instance/Transition.antt =====
-- What `transition` sends: the status update, then the event.
use kimo.Prelude.{
  String, ◌≡◌, refl, ◌∷◌, Bool, true, false, Option, none, some, List, if◌then◌else◌,
}
use kimo.Types.{InstancePhase, ChallengeInstance}
use kimo.Cluster.{Api, Exchange, update_instance_status, notify, Sys, pure}
use kimo.Cluster.Returns.{
  Returns, done, Returns-call, Returns-attempt, Returns-bind, Returns-then, Returns-map,
}
use kimo.Integrations.Event.{Event, EventType, event_of}
use kimo.Integrations.Backend.{Backend, announce}
use kimo.Instance.Phase.{event_for_phase}
use kimo.Instance.Reconcile.{with_phase, differs, announce_phase, transition}

-- What stands in the log once the backend was told of an event, if there are both.
abbrev pub Told :
    {W E : Type 0} → Option Event → Option (Backend W E) → List Exchange → List Exchange → Type 0
Told none b old new = new ≡ old
Told (some e) none old new = new ≡ old
Told (some e) (some b) old new =
    (r : Bool) × (new ≡ record { request = notify e; succeeded = r } ∷ old)

abbrev pub event_from : ChallengeInstance → String → Option EventType → Option Event
event_from u reason none = none
event_from u reason (some t) = some (event_of u t reason)

-- The status update that reports a phase succeeded; `u` is the instance as the server returned
-- it. The backend is told exactly if the phase is another than before and has an event.
pub record Reported {W E : Type 0} (backend : Option (Backend W E)) (before now : InstancePhase)
    (old new : List Exchange) : Type 0 where
  pub sent : ChallengeInstance
  pub returned : ChallengeInstance
  pub phase : sent.status.phase ≡ now
  pub told :
      Told
        (if differs before now
          then event_from returned sent.status.reason (event_for_phase now)
          else none)
        backend
        (record { request = update_instance_status sent; succeeded = true } ∷ old)
        new

-- The status update failed, and nothing follows it.
pub record Refused (now : InstancePhase) (old new : List Exchange) : Type 0 where
  pub sent : ChallengeInstance
  pub phase : sent.status.phase ≡ now
  pub last : new ≡ record { request = update_instance_status sent; succeeded = false } ∷ old

module _ {W E : Type 0} (backend : Option (Backend W E)) where
  announce-Told :
      (b : Option (Backend W E)) (e : Event) (s : Sys W)
      → Returns (λ _ s'. Told (some e) b s.log s'.log) (λ _ s'. ⊥) (announce b e s)
  announce-Told none e s = unfold announce in done refl
  announce-Told (some b) e s =
      unfold announce in
      Returns-attempt _ _ _ s (Returns-call (notify e) _ s) (λ a s' h. done (true, h))
        (λ x s' h. done (false, h))

  announce_phase-Told :
      (api : Api W E) (u : ChallengeInstance) (t : Option EventType) (reason : String) (s : Sys W)
      → Returns
          (λ _ s'. Told (event_from u reason t) backend s.log s'.log)
          (λ _ s'. ⊥)
          (announce_phase api backend u t reason s)
  announce_phase-Told api u none reason s = unfold announce_phase in done refl
  announce_phase-Told api u (some t) reason s =
      unfold announce_phase in announce-Told backend (event_of u t reason) s

module _ {W E : Type 0} (api : Api W E) (backend : Option (Backend W E)) where
  tell-Told :
      (b : Bool) (u : ChallengeInstance) (t : Option EventType) (reason : String) (s : Sys W)
      → Returns
          (λ _ s'. Told (if b then event_from u reason t else none) backend s.log s'.log)
          (λ _ s'. ⊥)
          ((if b then announce_phase api backend u t reason else pure tt) s)
  tell-Told true u t reason s = announce_phase-Told backend api u t reason s
  tell-Told false u t reason s = done refl

  pub transition-Returns :
      (i : ChallengeInstance) (now : InstancePhase) (reason : String) (s : Sys W)
      → Returns
          (λ d s'. Reported backend i.status.phase now s.log s'.log)
          (λ e s'. Refused now s.log s'.log)
          (transition api backend i now reason s)
  transition-Returns i now reason s =
      unfold transition in
      Returns-bind _ _ s
        (Returns-map (λ a s₁ h. h)
          (λ e s₁ h. record { sent = with_phase i now reason; phase = refl; last = h })
          (Returns-call (update_instance_status (with_phase i now reason)) _ s))
        (λ u s₁ h.
          Returns-then _ _ s₁
            (Returns-map (λ a s₂ told. told) (λ e s₂ never. absurd never)
              (tell-Told (differs i.status.phase now) u (event_for_phase now) reason s₁))
            (λ a s₂ told. done (record {
              sent = with_phase i now reason;
              returned = u;
              phase = refl;
              told = rw (← h) told;
            })))
