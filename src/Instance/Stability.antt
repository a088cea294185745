-- ===== src/Instance/Stability.antt =====
-- A reconcile creates no object a second time.
use kimo.Prelude.{
  ◌≡◌, refl, Bool, true, false, Option, none, some, Result, err, is_ok, arith, String,
}
use kimo.Types.{
  Time, Duration, NamespacedName, ObjectMeta, InstancePhase, ChallengeInstance, ChallengeTemplate,
  Service,
}
use kimo.Cluster.{
  Api, Request, Exchange, create_instance, create_deployment, create_service, create_fence,
  create_policy, GoError, M, call, lift_error,
}
use kimo.Cluster.Log.{
  Extends, same, more, Only, Only-pure, Only-raise, Only-bind, Only-then, only_rules,
}
use kimo.Cluster.Returns.{done, Returns-answer, Returns-attempt, Returns-any}
use kimo.Integrations.Event.{Event, EventType, event_of}
use kimo.Integrations.Backend.{Backend, announce}
use kimo.Instance.Ensure.{
  wrapping, owned_by, create_if_missing, ensure_deployment, ensure_service, ensure_workload,
  ensure_network_fence, ensure_expiry, started, expiry_of,
}
use kimo.Instance.Reconcile.{
  announce_phase, transition, determine_phase, observe, conclude, provision, advance, reconcile,
}

abbrev is_create : Request → Bool
is_create (create_instance i) = true
is_create (create_deployment d) = true
is_create (create_service s) = true
is_create (create_fence f) = true
is_create (create_policy p) = true
is_create _ = false

abbrev pub IsNoCreate : Exchange → Type 0
IsNoCreate x = is_create x.request ≡ false

not_failed :
    {E A : Type 0} (r : Result E A) {x : GoError E} → is_ok r ≡ true → lift_error r ≡ err x → ⊥
not_failed r e e' = ground arith

module _ {W E : Type 0} (api : Api W E) where
  -- Every read of a Deployment, a Service or a fence finds one.
  pub record AllThere : Type 0 where
    pub deployments : (k : NamespacedName) (w : W) → is_ok (api.get_deployment k w).0 ≡ true
    pub services : (k : NamespacedName) (w : W) → is_ok (api.get_service k w).0 ≡ true
    pub fences : (k : NamespacedName) (w : W) → is_ok (api.get_fence k w).0 ≡ true

  create_if_missing-IsNoCreate :
      {A : Type 0} (q : Request) (f : W → Result E A × W) (built : A) (create : M W E A)
      → is_create q ≡ false
      → ((w : W) → is_ok (f w).0 ≡ true)
      → Only IsNoCreate (create_if_missing api (call q f) built create)
  create_if_missing-IsNoCreate q f built create read there = record {
    at = λ s.
        unfold create_if_missing in
        Returns-any {Q = λ a s'. Extends IsNoCreate s.log s'.log}
          {R = λ e s'. Extends IsNoCreate s.log s'.log} (λ a s' h. h) (λ e s' h. h)
          (Returns-attempt _ _ _ s (Returns-answer q f s) (λ a s' h. done (rw h.2 (more read same)))
            (λ e s' h. absurd (not_failed (f s.world).0 (there s.world) h.0)));
  }

  wrapping-IsNoCreate :
      {A : Type 0} (t : String) (m : M W E A)
      → Only IsNoCreate m
      → Only IsNoCreate (wrapping api t m)
  wrapping-IsNoCreate t m h = unfold wrapping in search only_rules

  owned_by-IsNoCreate : (o m : ObjectMeta) → Only IsNoCreate (owned_by api o m)
  owned_by-IsNoCreate o m = unfold owned_by in record { at = λ s. same }

  module _ (there : AllThere) where
    ensure_service-IsNoCreate :
        (i : ChallengeInstance) (d : Option Service) → Only IsNoCreate (ensure_service api i d)
    ensure_service-IsNoCreate i none = unfold ensure_service in Only-pure none
    ensure_service-IsNoCreate i (some d) =
        unfold ensure_service in
        Only-bind _ _ (owned_by-IsNoCreate _ _) (λ m.
          Only-bind _ _ (create_if_missing-IsNoCreate _ _ _ _ refl (there.services _))
            (λ d'. Only-pure _))

    ensure_workload-IsNoCreate :
        (i : ChallengeInstance) (tmpl : ChallengeTemplate)
        → Only IsNoCreate (ensure_workload api i tmpl)
    ensure_workload-IsNoCreate i tmpl =
        unfold ensure_workload ensure_deployment in
        Only-bind _ _ (wrapping-IsNoCreate _ _ (owned_by-IsNoCreate _ _)) (λ m.
          Only-bind _ _ (create_if_missing-IsNoCreate _ _ _ _ refl (there.deployments _))
            (λ d. Only-then _ _ (ensure_service-IsNoCreate i _) (Only-pure _)))

    ensure_network_fence-IsNoCreate :
        (i : ChallengeInstance) (tmpl : ChallengeTemplate)
        → Only IsNoCreate (ensure_network_fence api i tmpl)
    ensure_network_fence-IsNoCreate i tmpl =
        unfold ensure_network_fence in
        Only-bind _ _ (wrapping-IsNoCreate _ _ (owned_by-IsNoCreate _ _))
          (λ m. create_if_missing-IsNoCreate _ _ _ _ refl (there.fences _))

    expiry_of-IsNoCreate :
        (o : Option Time) (i : ChallengeInstance) (ttl : String)
        → Only IsNoCreate (expiry_of api o i ttl)
    expiry_of-IsNoCreate none i ttl = started-IsNoCreate (api.parse_duration ttl)
      where
        started-IsNoCreate : (d : Option Duration) → Only IsNoCreate (started api i ttl d)
        started-IsNoCreate none = Only-raise _
        started-IsNoCreate (some d) = record { at = λ s. same }
    expiry_of-IsNoCreate (some t) i ttl = Only-pure i

  module _ (backend : Option (Backend W E)) where
    announce-IsNoCreate : (b : Option (Backend W E)) (e : Event) → Only IsNoCreate (announce b e)
    announce-IsNoCreate none e = unfold announce in Only-pure tt
    announce-IsNoCreate (some b) e = unfold announce in search only_rules

    announce_phase-IsNoCreate :
        (i : ChallengeInstance) (t : Option EventType) (reason : String)
        → Only IsNoCreate (announce_phase api backend i t reason)
    announce_phase-IsNoCreate i none reason = unfold announce_phase in Only-pure tt
    announce_phase-IsNoCreate i (some t) reason =
        unfold announce_phase in announce-IsNoCreate backend (event_of i t reason)

    transition-IsNoCreate :
        (i : ChallengeInstance) (q : InstancePhase) (reason : String)
        → Only IsNoCreate (transition api backend i q reason)
    transition-IsNoCreate i q reason =
        unfold transition in search (only_rules, announce_phase-IsNoCreate) depth 8

    conclude-IsNoCreate :
        (there : AllThere) (i : ChallengeInstance) (tmpl : ChallengeTemplate)
        → Only IsNoCreate (conclude api backend i tmpl)
    conclude-IsNoCreate there i tmpl =
        unfold conclude ensure_expiry observe determine_phase in
        search (only_rules, expiry_of-IsNoCreate there, transition-IsNoCreate) depth 8

-- If every read of a Deployment, a Service or a fence finds one, a reconcile of an instance
-- creates nothing, whatever else the cluster answers.
reconcile-IsNoCreate :
    {W E : Type 0} (api : Api W E) (backend : Option (Backend W E)) (key : NamespacedName)
    → AllThere api
    → Only IsNoCreate (reconcile api backend key)
reconcile-IsNoCreate api backend key there =
    unfold reconcile advance provision in
    search
      (
        only_rules,
        transition-IsNoCreate api backend,
        conclude-IsNoCreate api backend there,
        ensure_workload-IsNoCreate api there,
        ensure_network_fence-IsNoCreate api there,
      )
      depth 12
