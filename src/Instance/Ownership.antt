-- ===== src/Instance/Ownership.antt =====
-- Whom the objects belong to that the instance controller creates:
-- internal/controller/challengeinstance_controller.go.
use kimo.Prelude.{◌≡◌, refl, sym, ap, ◌∙◌, Option, none, some, ok, String, arith}
use kimo.Types.{
  Duration, Time, ObjectMeta, key_of, InstancePhase, ChallengeInstance, ChallengeTemplate, Service,
}
use kimo.Cluster.{
  Api, Request, Exchange, create_instance, create_deployment, create_service, create_fence,
  create_policy, delete_instance, M,
}
use kimo.Cluster.Log.{
  same, Only, Only-pure, Only-raise, Only-call, Only-if, Only-bind, Only-then, only_rules,
}
use kimo.Cluster.Follows.{Only-bind_of}
use kimo.Integrations.Event.{Event, EventType, event_of}
use kimo.Integrations.Backend.{Backend, announce}
use kimo.Instance.Build.{build_deployment, build_service, build_network_fence}
use kimo.Instance.Ensure.{
  wrapping, owned_by, create_if_missing, ensure_deployment, ensure_service, ensure_workload,
  ensure_network_fence, ensure_expiry, started, expiry_of,
}
use kimo.Instance.Reconcile.{
  announce_phase, transition, determine_phase, observe, conclude, provision, advance,
}
use kimo.Instance.Quiet.{KeepsKey, owned_by-Returns, wrapping-Returns}
use kimo.Instance.Alike.{Alike, ensure_workload-Alike}

module _ {W E : Type 0} (api : Api W E) where
  -- The metadata is what `SetControllerReference` has made for an owner.
  abbrev pub BelongsTo : ObjectMeta → ObjectMeta → Type 0
  BelongsTo owner m = (built : ObjectMeta) × (api.set_controller_reference owner built ≡ ok m)

  -- What is created belongs to the owner and lies in its namespace; a workload and a fence have its
  -- name as well. No instance is created or deleted.
  abbrev pub OwnedCall : ObjectMeta → Request → Type 0
  OwnedCall owner (create_deployment d) =
      BelongsTo owner d.metadata × (key_of d.metadata ≡ key_of owner)
  OwnedCall owner (create_service v) =
      BelongsTo owner v.metadata × (key_of v.metadata ≡ key_of owner)
  OwnedCall owner (create_fence f) = BelongsTo owner f.metadata × (key_of f.metadata ≡ key_of owner)
  OwnedCall owner (create_policy p) =
      BelongsTo owner p.metadata × (p.metadata.namespace ≡ owner.namespace)
  OwnedCall owner (create_instance i) = ⊥
  OwnedCall owner (delete_instance k) = ⊥
  OwnedCall owner _ = Unit

  abbrev pub IsOwned : ObjectMeta → Exchange → Type 0
  IsOwned owner x = OwnedCall owner x.request

  module _ (owner : ObjectMeta) where
    pub wrapping-IsOwned :
        {A : Type 0} (t : String) (m : M W E A)
        → Only (IsOwned owner) m
        → Only (IsOwned owner) (wrapping api t m)
    wrapping-IsOwned t m h = unfold wrapping in search only_rules

    pub owned_by-IsOwned : (o m : ObjectMeta) → Only (IsOwned owner) (owned_by api o m)
    owned_by-IsOwned o m = unfold owned_by in record { at = λ s. same }

    create_if_missing-IsOwned :
        {A : Type 0} (get : M W E A) (a : A) (create : M W E A)
        → Only (IsOwned owner) get
        → Only (IsOwned owner) create
        → Only (IsOwned owner) (create_if_missing api get a create)
    create_if_missing-IsOwned get a create h k = unfold create_if_missing in search only_rules

    expiry_of-IsOwned :
        (o : Option Time) (i : ChallengeInstance) (ttl : String)
        → Only (IsOwned owner) (expiry_of api o i ttl)
    expiry_of-IsOwned none i ttl = started-IsOwned (api.parse_duration ttl)
      where
        started-IsOwned : (d : Option Duration) → Only (IsOwned owner) (started api i ttl d)
        started-IsOwned none = Only-raise _
        started-IsOwned (some d) = record { at = λ s. same }
    expiry_of-IsOwned (some t) i ttl = Only-pure i

    module _ (keeps : KeepsKey api) where
      ensure_service-IsOwned :
          (i : ChallengeInstance) (o : Option Service)
          → i.metadata ≡ owner
          → ((v : Service) → o ≡ some v → key_of v.metadata ≡ key_of owner)
          → Only (IsOwned owner) (ensure_service api i o)
      ensure_service-IsOwned i none e named = unfold ensure_service in Only-pure none
      ensure_service-IsOwned i (some v) e named =
          unfold ensure_service in
          Only-bind_of (λ m. api.set_controller_reference i.metadata v.metadata ≡ ok m) _ _
            (owned_by-Returns api i.metadata v.metadata) (owned_by-IsOwned _ _)
            (λ m q.
              Only-bind _ _
                (create_if_missing-IsOwned _ _ _ (Only-call _ _ (λ b. tt)) (
                  wrapping-IsOwned _ _ (
                    Only-call _ _ (λ b. (
                      (v.metadata, ap (λ o. api.set_controller_reference o v.metadata) (sym e) ∙ q),
                      keeps i.metadata v.metadata m q ∙ named v refl,
                    )))))
                (λ v'. Only-pure _))

      service_key :
          (i : ChallengeInstance) (tmpl : ChallengeTemplate) (v : Service)
          → build_service i tmpl ≡ some v
          → key_of v.metadata ≡ key_of i.metadata
      unfolding build_service
      service_key i tmpl v e = ground arith

      ensure_workload-IsOwned :
          (i : ChallengeInstance) (tmpl : ChallengeTemplate)
          → i.metadata ≡ owner
          → Only (IsOwned owner) (ensure_workload api i tmpl)
      ensure_workload-IsOwned i tmpl e =
          let built = (build_deployment i tmpl).metadata in
          let named : key_of built ≡ key_of i.metadata = unfold build_deployment in refl in
          unfold ensure_workload ensure_deployment in
          Only-bind_of (λ m. api.set_controller_reference i.metadata built ≡ ok m) _ _
            (λ s. wrapping-Returns api _ _ s (owned_by-Returns api i.metadata built s))
            (wrapping-IsOwned _ _ (owned_by-IsOwned _ _))
            (λ m q.
              Only-bind _ _
                (create_if_missing-IsOwned _ _ _ (Only-call _ _ (λ b. tt)) (
                  wrapping-IsOwned _ _ (
                    Only-call _ _ (λ b. (
                      (built, ap (λ o. api.set_controller_reference o built) (sym e) ∙ q),
                      keeps i.metadata built m q ∙ named ∙ ap key_of e,
                    )))))
                (λ d.
                  Only-then _ _
                    (ensure_service-IsOwned i (build_service i tmpl) e
                      (λ v h. service_key i tmpl v h ∙ ap key_of e))
                    (Only-pure _)))

      ensure_network_fence-IsOwned :
          (i : ChallengeInstance) (tmpl : ChallengeTemplate)
          → i.metadata ≡ owner
          → Only (IsOwned owner) (ensure_network_fence api i tmpl)
      ensure_network_fence-IsOwned i tmpl e =
          let built = (build_network_fence i tmpl).metadata in
          let named : key_of built ≡ key_of i.metadata = unfold build_network_fence in refl in
          unfold ensure_network_fence in
          Only-bind_of (λ m. api.set_controller_reference i.metadata built ≡ ok m) _ _
            (λ s. wrapping-Returns api _ _ s (owned_by-Returns api i.metadata built s))
            (wrapping-IsOwned _ _ (owned_by-IsOwned _ _))
            (λ m q. create_if_missing-IsOwned _ _ _ (Only-call _ _ (λ b. tt)) (
              wrapping-IsOwned _ _ (
                Only-call _ _ (λ b. (
                  (built, ap (λ o. api.set_controller_reference o built) (sym e) ∙ q),
                  keeps i.metadata built m q ∙ named ∙ ap key_of e,
                )))))

  module _ (backend : Option (Backend W E)) (owner : ObjectMeta) where
    announce-IsOwned : (b : Option (Backend W E)) (e : Event) → Only (IsOwned owner) (announce b e)
    announce-IsOwned none e = unfold announce in Only-pure tt
    announce-IsOwned (some b) e = unfold announce in search only_rules

    announce_phase-IsOwned :
        (i : ChallengeInstance) (t : Option EventType) (reason : String)
        → Only (IsOwned owner) (announce_phase api backend i t reason)
    announce_phase-IsOwned i none reason = unfold announce_phase in Only-pure tt
    announce_phase-IsOwned i (some t) reason =
        unfold announce_phase in announce-IsOwned backend (event_of i t reason)

    transition-IsOwned :
        (i : ChallengeInstance) (q : InstancePhase) (reason : String)
        → Only (IsOwned owner) (transition api backend i q reason)
    transition-IsOwned i q reason =
        unfold transition in search (only_rules, announce_phase-IsOwned) depth 8

    conclude-IsOwned :
        (i : ChallengeInstance) (tmpl : ChallengeTemplate)
        → Only (IsOwned owner) (conclude api backend i tmpl)
    conclude-IsOwned i tmpl =
        unfold conclude ensure_expiry observe determine_phase in
        search (only_rules, expiry_of-IsOwned owner, transition-IsOwned) depth 8

  provision-IsOwned :
      (backend : Option (Backend W E))
      → KeepsKey api
      → (i : ChallengeInstance) (tmpl : ChallengeTemplate)
      → Only (IsOwned i.metadata) (provision api backend i tmpl)
  provision-IsOwned backend keeps i tmpl =
      unfold provision in
      Only-if _ _ _ (Only-then _ _ (transition-IsOwned backend i.metadata i _ _) (Only-pure _)) (
        Only-bind_of (Alike i) _ _ (ensure_workload-Alike api i tmpl)
          (ensure_workload-IsOwned i.metadata keeps i tmpl refl)
          (λ j alike.
            Only-then _ _ (ensure_network_fence-IsOwned i.metadata keeps j tmpl alike.0)
              (conclude-IsOwned backend i.metadata j tmpl)))

  pub advance-IsOwned :
      (backend : Option (Backend W E))
      → KeepsKey api
      → (i : ChallengeInstance) → Only (IsOwned i.metadata) (advance api backend i)
  advance-IsOwned backend keeps i =
      unfold advance in
      search (only_rules, provision-IsOwned backend keeps, transition-IsOwned backend i.metadata)
        depth 10
