-- ===== src/Machine/Writes.antt =====
-- The instance controller keeps to the state machine:
-- internal/controller/challengeinstance_controller.go.
use kimo.Prelude.{
  String, ◌≡◌, refl, ◌∷◌, [], Bool, true, false, Option, none, some, List, ok, arith,
}
use kimo.Types.{
  NamespacedName, InstancePhase, failed, pending, ChallengeInstance, ChallengeTemplate, Pod,
}
use kimo.Prelude.Int.{pos}
use kimo.Cluster.{
  Api, Request, Exchange, get_instance, update_instance_status, Sys, M, is_not_found,
}
use kimo.Cluster.Log.{
  Extends, Extends-map, Only, Only-if, Only-if_cases, Only-pure, Only-call, Only-raise,
  Only-attempt, Only-bind, Only-then, only_rules,
}
use kimo.Cluster.Returns.{Returns, done, Returns-bind, Returns-trivial}
use kimo.Cluster.Follows.{Extends-read, Only-attempt_of, Only-bind_of}
use kimo.Integrations.Event.{EventType, Event, event_of}
use kimo.Integrations.Backend.{Backend, announce}
use kimo.Instance.Phase.{terminal, event_for_phase, phase_of_pods}
use kimo.Instance.Reconcile.{
  announce_phase, transition, determine_phase, observe, conclude, provision, advance, reconcile,
}
use kimo.Instance.Quiet.{
  IsQuiet, ensure_workload-IsQuiet, ensure_network_fence-IsQuiet, ensure_expiry-IsQuiet,
  determine_phase-IsQuiet,
}
use kimo.Instance.Alike.{
  KeepsExpiry, Alike, Alike-refl, Alike-trans, phase_of_pods-Alike, ensure_workload-Alike,
  ensure_expiry-Alike,
}
use kimo.Machine.{observed, Next, by_instance_controller}

-- A status update is sent for the object that was read, at the version that was read, and is a step
-- of the machine from the phase that was read. It keeps an expiry that was set, and the endpoint.
abbrev pub UpdateCall : Type 0 → ChallengeInstance → ChallengeInstance → Type 0
UpdateCall Step i x =
    Step × (x.metadata ≡ i.metadata) × KeepsExpiry i x × (x.status.endpoint ≡ i.status.endpoint)

abbrev pub NextCall : ChallengeInstance → Request → Type 0
NextCall i (update_instance_status x) = UpdateCall (Next i.status.phase x.status.phase) i x
NextCall i _ = Unit

abbrev pub IsNext : ChallengeInstance → Exchange → Type 0
IsNext i x = NextCall i x.request

-- The steps of the instance controller.
abbrev pub SeenCall : ChallengeInstance → Request → Type 0
SeenCall i (update_instance_status x) =
    UpdateCall ((terminal i.status.phase ≡ false) × (observed x.status.phase ≡ true)) i x
SeenCall i _ = Unit

abbrev pub IsSeen : ChallengeInstance → Exchange → Type 0
IsSeen i x = SeenCall i x.request

SeenCall-NextCall : (i : ChallengeInstance) (q : Request) → SeenCall i q → NextCall i q
SeenCall-NextCall i (update_instance_status x) ((live, seen), held, kept, url) =
    (by_instance_controller live seen, held, kept, url)
SeenCall-NextCall i _ h = tt

IsQuiet-SeenCall :
    (i : ChallengeInstance) (q : Request) (b : Bool)
    → IsQuiet (record { request = q; succeeded = b })
    → SeenCall i q
IsQuiet-SeenCall i (update_instance_status x) b h = cc
IsQuiet-SeenCall i _ b h = tt

pub phase_of_pods-observed :
    (pods : List Pod) (i : ChallengeInstance) (tmpl : ChallengeTemplate)
    → observed (phase_of_pods pods i tmpl).phase ≡ true
phase_of_pods-observed [] i tmpl = unfold phase_of_pods in refl
phase_of_pods-observed (p ∷ ps) i tmpl = unfold phase_of_pods in ground arith

-- `i` is the instance that was read, and `j` the one in hand.
module _ {W E : Type 0} (api : Api W E) (backend : Option (Backend W E))
    (i : ChallengeInstance) where
  quiet_Only : {A : Type 0} (m : M W E A) → Only IsQuiet m → Only (IsSeen i) m
  quiet_Only m h = record {
    at = λ s. Extends-map (λ x. IsQuiet-SeenCall i x.request x.succeeded) (h.at s);
  }

  pub announce-IsSeen : (b : Option (Backend W E)) (e : Event) → Only (IsSeen i) (announce b e)
  announce-IsSeen none e = unfold announce in Only-pure tt
  announce-IsSeen (some b) e = unfold announce in search only_rules

  announce_phase-IsSeen :
      (j : ChallengeInstance) (t : Option EventType) (reason : String)
      → Only (IsSeen i) (announce_phase api backend j t reason)
  announce_phase-IsSeen j none reason = unfold announce_phase in Only-pure tt
  announce_phase-IsSeen j (some t) reason =
      unfold announce_phase in announce-IsSeen backend (event_of j t reason)

  transition-IsSeen :
      (j : ChallengeInstance) (q : InstancePhase) (reason : String)
      → Alike i j
      → (terminal i.status.phase ≡ false) × (observed q ≡ true)
      → Only (IsSeen i) (transition api backend j q reason)
  transition-IsSeen j q reason held step =
      unfold transition in
      Only-bind _ _ (Only-call _ _ (λ b. (step, held.0, held.2, held.3))) (λ u.
        Only-then _ _
          (Only-if _ _ _ (announce_phase-IsSeen u (event_for_phase q) reason) (Only-pure tt))
          (Only-pure _))

  determine_phase-Returns :
      (j : ChallengeInstance) (tmpl : ChallengeTemplate) (s : Sys W)
      → Returns
          (λ v s'. (observed v.phase ≡ true) × Alike j v.instance')
          (λ e s'. Unit {0})
          (determine_phase api backend j tmpl s)
  determine_phase-Returns j tmpl s =
      unfold determine_phase in
      Returns-bind _ _ s (Returns-trivial _)
        (λ pods s' _. done (phase_of_pods-observed pods j tmpl, phase_of_pods-Alike pods j tmpl))

  module _ (live : terminal i.status.phase ≡ false) where
    observe-IsSeen :
        (j : ChallengeInstance) (tmpl : ChallengeTemplate)
        → Alike i j
        → Only (IsSeen i) (observe api backend j tmpl)
    observe-IsSeen j tmpl held =
        unfold observe in
        Only-bind_of (λ v. (observed v.phase ≡ true) × Alike j v.instance') _ _
          (determine_phase-Returns j tmpl)
          (quiet_Only _ (determine_phase-IsQuiet api backend j tmpl))
          (λ v (seen, alike).
            transition-IsSeen v.instance' v.phase v.reason (Alike-trans i j v.instance' held alike)
              (live, seen))

    conclude-IsSeen :
        (j : ChallengeInstance) (tmpl : ChallengeTemplate)
        → Alike i j
        → Only (IsSeen i) (conclude api backend j tmpl)
    conclude-IsSeen j tmpl held =
        unfold conclude in
        Only-attempt_of (Alike j) _ _ _ (ensure_expiry-Alike api j tmpl)
          (quiet_Only _ (ensure_expiry-IsQuiet api j tmpl))
          (λ k alike. observe-IsSeen k tmpl (Alike-trans i j k held alike))
          (λ e. transition-IsSeen j failed _ held (live, refl))

    provision-IsSeen :
        (j : ChallengeInstance) (tmpl : ChallengeTemplate)
        → Alike i j
        → Only (IsSeen i) (provision api backend j tmpl)
    provision-IsSeen j tmpl held =
        unfold provision in
        Only-if _ _ _
          (Only-then _ _ (transition-IsSeen j pending _ held (live, refl)) (Only-pure _))
          (Only-bind_of (Alike j) _ _ (ensure_workload-Alike api j tmpl)
            (quiet_Only _ (ensure_workload-IsQuiet api j tmpl))
            (λ k alike.
              Only-then _ _ (quiet_Only _ (ensure_network_fence-IsQuiet api k tmpl))
                (conclude-IsSeen k tmpl (Alike-trans i j k held alike))))

  pub advance-IsSeen : Only (IsSeen i) (advance api backend i)
  advance-IsSeen =
      unfold advance in
      Only-if_cases (terminal i.status.phase) _ _ (λ final. Only-pure _)
        (λ live.
          Only-attempt _ _ _ (Only-call _ _ (λ b. tt))
            (λ tmpl. provision-IsSeen live i tmpl (Alike-refl i))
            (λ x.
              Only-if _ _ _ (transition-IsSeen i failed _ (Alike-refl i) (live, refl))
                (Only-raise x)))

pub reconcile-IsSeen :
    {W E : Type 0} (api : Api W E) (backend : Option (Backend W E)) (key : NamespacedName)
    (s : Sys W) {i : ChallengeInstance}
    → (api.get_instance key s.world).0 ≡ ok i
    → Extends (IsSeen i) s.log (reconcile api backend key s).1.log
reconcile-IsSeen api backend key s found =
    unfold reconcile in
    Extends-read IsSeen (get_instance key) (api.get_instance key) _ _ (λ j b. tt)
      (advance-IsSeen api backend)
      (λ j e. Only-if (is_not_found api e) _ _ (Only-pure (pos 0)) (Only-raise e)) s found

-- A run of the instance controller that reads an instance writes over its phase only what the
-- state machine allows as a step from it, with the metadata that it read, the version of the object
-- included, with the expiry that it read if one was set, and with the endpoint that it read.
pub reconcile-IsNext :
    {W E : Type 0} (api : Api W E) (backend : Option (Backend W E)) (key : NamespacedName)
    (s : Sys W) {i : ChallengeInstance}
    → (api.get_instance key s.world).0 ≡ ok i
    → Extends (IsNext i) s.log (reconcile api backend key s).1.log
reconcile-IsNext api backend key s {i} found =
    Extends-map (λ x. SeenCall-NextCall i x.request) (reconcile-IsSeen api backend key s found)
