-- ===== src/Lifecycle/Visits.antt =====
-- Runs of the lifecycle controller that follow one another on one instance.
use kimo.Prelude.{
  String, if◌then◌else◌, ◌≡◌, refl, sym, ap, ◌∙◌, subst, Bool, true, false, Option, none, some,
  List, [], ◌∷◌, Result, ok, err, same_answer, arith,
}
use kimo.Types.{
  Time, Duration, NamespacedName, InstancePhase, expiring, expired, ChallengeInstance,
  InstanceStatus,
}
use kimo.Cluster.{
  Api, Request, Exchange, get_instance, update_instance_status, notify, Sys, GoError, M, lift_error,
}
use kimo.Cluster.Returns.{
  Returns, done, Returns-ok, Returns-answer, Returns-attempt, Returns-bind, Returns-then,
  Returns-map,
}
use kimo.Integrations.Event.{Event, EventType, event_of}
use kimo.Integrations.Backend.{Backend, announce}
use kimo.Instance.Phase.{terminal}
use kimo.Instance.Reconcile.{with_phase}
use kimo.Lifecycle.{
  time_sub, Step, expire, enter_grace, wait, step_at, notify_and_set_phase, take_step, advance,
  reconcile,
}

-- The instance that a run leaves: what its last successful status update has sent, and what it has
-- read if there is none. The last call stands first in the log.
after_call : ChallengeInstance → Request → Bool → ChallengeInstance → ChallengeInstance
after_call i (update_instance_status x) true before = x
after_call i (get_instance k) b before = i
after_call i _ _ before = before

unfoldable pub left_by : ChallengeInstance → List Exchange → ChallengeInstance
unfolding after_call
left_by i [] = i
left_by i (x ∷ calls) = after_call i x.request x.succeeded (left_by i calls)

-- What a step makes of an instance that it was decided on.
abbrev pub Made : ChallengeInstance → Step → Duration → ChallengeInstance → Type 0
Made i expire d j = j.status.phase ≡ expired
Made i (enter_grace r) d j =
    (j.status.phase ≡ expiring) × (j.status.expires_at ≡ i.status.expires_at) × (d ≡ r)
Made i (wait r) d j =
    (j.status.phase ≡ i.status.phase) × (j.status.expires_at ≡ i.status.expires_at) × (d ≡ r)

module _ {W E : Type 0} (api : Api W E) (backend : Option (Backend W E))
    (i : ChallengeInstance) where
  announce-left :
      (b : Option (Backend W E)) (e : Event) (s : Sys W)
      → Returns (λ _ s'. left_by i s'.log ≡ left_by i s.log) (λ e s'. Unit {0}) (announce b e s)
  unfolding left_by
  announce-left none e s = unfold announce in done refl
  announce-left (some b) e s =
      unfold announce in
      Returns-attempt _ _ _ s (Returns-answer (notify e) (b.notify e) s)
        (λ a s' h. done (ap (left_by i) h.2)) (λ x s' h. done (ap (left_by i) h.2))

  set_phase-left :
      (q : InstancePhase) (reason : String) (t : EventType) (d : Duration) (s : Sys W)
      → Returns
          (λ d' s'. (d' ≡ d) × (left_by i s'.log ≡ with_phase i q reason))
          (λ e s'. Unit {0})
          (notify_and_set_phase api backend i q reason t d s)
  unfolding left_by
  set_phase-left q reason t d s =
      unfold notify_and_set_phase in
      Returns-bind _ _ s
        (Returns-map (λ a s' h. h.2) (λ e s' h. tt)
          (Returns-answer (update_instance_status (with_phase i q reason)) _ s))
        (λ u s₁ h.
          Returns-then _ _ s₁ (announce-left backend (event_of u t reason) s₁)
            (λ _ s₂ k. done (refl, k ∙ ap (left_by i) h)))

  take_step-Made :
      (todo : Step) (s : Sys W)
      → left_by i s.log ≡ i
      → Returns
          (λ d s'. Made i todo d (left_by i s'.log))
          (λ e s'. Unit {0})
          (take_step api backend i todo s)
  take_step-Made expire s h =
      unfold take_step in
      Returns-map (λ d s' k. ap (λ (x : ChallengeInstance). x.status.phase) k.1) (λ e s' k. tt)
        (set_phase-left expired _ _ _ s)
  take_step-Made (enter_grace r) s h =
      unfold take_step in
      Returns-map
        (λ d s' k. (
          ap (λ (x : ChallengeInstance). x.status.phase) k.1,
          ap (λ (x : ChallengeInstance). x.status.expires_at) k.1,
          k.0,
        ))
        (λ e s' k. tt) (set_phase-left expiring _ _ _ s)
  take_step-Made (wait r) s h =
      unfold take_step in
      done (
        ap (λ (x : ChallengeInstance). x.status.phase) h,
        ap (λ (x : ChallengeInstance). x.status.expires_at) h,
        refl,
      )

  advance-Made :
      (t : Time) (s : Sys W)
      → terminal i.status.phase ≡ false
      → left_by i s.log ≡ i
      → Returns
          (λ d s'.
            Made i (step_at i.status.phase (time_sub t (api.clock s.world))) d (left_by i s'.log))
          (λ e s'. Unit {0})
          (advance api backend i (some t) s)
  advance-Made t s live h =
      let todo = step_at i.status.phase (time_sub t (api.clock s.world)) in
      unfold advance in when_live (terminal i.status.phase) _ _ live (take_step-Made todo s h)
    where
      when_live :
          (b : Bool) {Q : Duration → Sys W → Type 0} (m n : M W E Duration)
          → b ≡ false
          → Returns Q (λ e s'. Unit {0}) (n s)
          → Returns Q (λ e s'. Unit {0}) ((if b then m else n) s)
      when_live false m n e h = h
      when_live true m n e h = absurd (ground arith)

-- A run of the controller that reads an instance at a time, asks for the next run after a delay, and
-- leaves the instance with the status of another, which the next run will read.
module _ {W E : Type 0} (api : Api W E) (backend : Option (Backend W E))
    (key : NamespacedName) where
  pub record Visit (i : ChallengeInstance) (now : Time) (d : Duration) (j : ChallengeInstance)
      : Type 0 where
    pub state : Sys W
    pub read : (api.get_instance key state.world).0 ≡ ok i
    pub clock : api.clock (api.get_instance key state.world).1 ≡ now
    pub asked : (reconcile api backend key state).0 ≡ ok d
    pub left : j.status ≡ (left_by i (reconcile api backend key state).1.log).status

  reconcile-Made :
      (i : ChallengeInstance) (t : Time) (s : Sys W)
      → (api.get_instance key s.world).0 ≡ ok i
      → terminal i.status.phase ≡ false
      → i.status.expires_at ≡ some t
      → let now = api.clock (api.get_instance key s.world).1 in
        Returns
          (λ d s'. Made i (step_at i.status.phase (time_sub t now)) d (left_by i s'.log))
          (λ e s'. Unit {0})
          (reconcile api backend key s)
  unfolding left_by
  reconcile-Made i t s found live expires =
      let now = api.clock (api.get_instance key s.world).1 in
      unfold reconcile in
      Returns-attempt _ _ _ s (Returns-answer (get_instance key) (api.get_instance key) s)
        (λ j s' h.
          subst
            (λ x.
              Returns
                (λ d s''. Made i (step_at i.status.phase (time_sub t now)) d (left_by i s''.log))
                (λ e s''. Unit {0}) (advance api backend x x.status.expires_at s'))
            (same_answer found h.0)
            (subst
              (λ w.
                Returns
                  (λ d s''.
                    Made i (step_at i.status.phase (time_sub t (api.clock w))) d
                      (left_by i s''.log))
                  (λ e s''. Unit {0}) (advance api backend i i.status.expires_at s'))
              h.1
              (subst
                (λ o.
                  Returns
                    (λ d s''.
                      Made i (step_at i.status.phase (time_sub t (api.clock s'.world))) d
                        (left_by i s''.log))
                    (λ e s''. Unit {0}) (advance api backend i o s'))
                (sym expires) (advance-Made api backend i t s' live (ap (left_by i) h.2)))))
        (λ e s' h. absurd (not_both h.0 found))
    where
      not_both :
          {A : Type 0} {r : Result E A} {a : A} {x : GoError E}
          → lift_error r ≡ err x
          → r ≡ ok a
          → ⊥
      not_both e e' = ground arith

  pub Visit-Made :
      {i j : ChallengeInstance} {now t : Time} {d : Duration}
      → Visit i now d j
      → terminal i.status.phase ≡ false
      → i.status.expires_at ≡ some t
      → Made i (step_at i.status.phase (time_sub t now)) d j
  Visit-Made {i} {j} {now} {t} {d} v live expires =
      let made = Returns-ok (reconcile-Made i t v.state v.read live expires) v.asked in
      let log = (reconcile api backend key v.state).1.log in
      subst (λ n. Made i (step_at i.status.phase (time_sub t n)) d j) v.clock
        (same_status (step_at i.status.phase (time_sub t _)) (left_by i log) j (sym v.left) made)
    where
      same_status :
          (todo : Step) (x y : ChallengeInstance)
          → x.status ≡ y.status
          → Made i todo d x
          → Made i todo d y
      same_status expire x y e h = ap (λ (q : InstanceStatus). q.phase) (sym e) ∙ h
      same_status (enter_grace r) x y e h = (
        ap (λ (q : InstanceStatus). q.phase) (sym e) ∙ h.0,
        ap (λ (q : InstanceStatus). q.expires_at) (sym e) ∙ h.1,
        h.2,
      )
      same_status (wait r) x y e h = (
        ap (λ (q : InstanceStatus). q.phase) (sym e) ∙ h.0,
        ap (λ (q : InstanceStatus). q.expires_at) (sym e) ∙ h.1,
        h.2,
      )
