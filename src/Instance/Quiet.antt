-- ===== src/Instance/Quiet.antt =====
-- The steps of a reconcile that report nothing, and what the log shows once the fence is ensured.
use kimo.Prelude.{
  String, ◌<>◌, ◌≡◌, refl, inl, Bool, true, false, Option, none, some, Result, ok, err, Any,
}
use kimo.Types.{
  Time, Duration, NamespacedName, key_of, ObjectMeta, ChallengeInstance, ChallengeTemplate,
  Deployment, Service,
}
use kimo.Cluster.{
  Api, Request, Exchange, get_fence, create_fence, update_instance_status, notify, GoError, text,
  is_not_found, Sys, M, lift_error,
}
use kimo.Cluster.Log.{same, Only, Only-pure, Only-raise, only_rules}
use kimo.Cluster.Returns.{
  Returns, done, fail, Returns-call, Returns-attempt, Returns-bind, Returns-map, Returns-if,
}
use kimo.Integrations.Backend.{Backend}
use kimo.Instance.Build.{build_network_fence}
use kimo.Instance.Ensure.{
  wrapping, owned_by, create_if_missing, ensure_deployment, ensure_service, ensure_workload,
  ensure_network_fence, ensure_expiry, effective_ttl, started, expiry_of,
}
use kimo.Instance.Reconcile.{determine_phase}

-- The calls by which a controller reports the phase of an instance.
abbrev is_report : Request → Bool
is_report (update_instance_status i) = true
is_report (notify e) = true
is_report _ = false

abbrev pub IsQuiet : Exchange → Type 0
IsQuiet x = is_report x.request ≡ false

-- A call that shows that the fence named by a key is there.
abbrev FenceCall : NamespacedName → Request → Type 0
FenceCall key (get_fence k) = k ≡ key
FenceCall key (create_fence f) = key_of f.metadata ≡ key
FenceCall key _ = ⊥

abbrev pub IsFence : NamespacedName → Exchange → Type 0
IsFence key x = FenceCall key x.request × (x.succeeded ≡ true)

module _ {W E : Type 0} (api : Api W E) where
  -- Documented: the reference is added to the object, whose name and namespace stay.
  abbrev pub KeepsKey : Type 0
  KeepsKey =
      (owner m m' : ObjectMeta)
      → api.set_controller_reference owner m ≡ ok m'
      → key_of m' ≡ key_of m

  pub wrapping-IsQuiet :
      {A : Type 0} (t : String) (m : M W E A) → Only IsQuiet m → Only IsQuiet (wrapping api t m)
  wrapping-IsQuiet t m h = unfold wrapping in search only_rules

  pub owned_by-IsQuiet : (o m : ObjectMeta) → Only IsQuiet (owned_by api o m)
  owned_by-IsQuiet o m = unfold owned_by in record { at = λ s. same }

  pub create_if_missing-IsQuiet :
      {A : Type 0} (get : M W E A) (a : A) (create : M W E A)
      → Only IsQuiet get
      → Only IsQuiet create
      → Only IsQuiet (create_if_missing api get a create)
  create_if_missing-IsQuiet get a create h k = unfold create_if_missing in search only_rules

  pub ensure_deployment-IsQuiet : (d : Deployment) → Only IsQuiet (ensure_deployment api d)
  ensure_deployment-IsQuiet d =
      unfold ensure_deployment in search (only_rules, wrapping-IsQuiet, create_if_missing-IsQuiet)

  pub ensure_service-IsQuiet :
      (i : ChallengeInstance) (d : Option Service) → Only IsQuiet (ensure_service api i d)
  ensure_service-IsQuiet i none = unfold ensure_service in search only_rules
  ensure_service-IsQuiet i (some d) =
      unfold ensure_service in
      search (only_rules, owned_by-IsQuiet, wrapping-IsQuiet, create_if_missing-IsQuiet) depth 8

  pub ensure_workload-IsQuiet :
      (i : ChallengeInstance) (tmpl : ChallengeTemplate) → Only IsQuiet (ensure_workload api i tmpl)
  ensure_workload-IsQuiet i tmpl =
      unfold ensure_workload in
      search
        (
          only_rules, owned_by-IsQuiet, wrapping-IsQuiet, ensure_deployment-IsQuiet,
          ensure_service-IsQuiet,
        )
        depth 8

  pub ensure_network_fence-IsQuiet :
      (i : ChallengeInstance) (tmpl : ChallengeTemplate)
      → Only IsQuiet (ensure_network_fence api i tmpl)
  ensure_network_fence-IsQuiet i tmpl =
      unfold ensure_network_fence in
      search (only_rules, owned_by-IsQuiet, wrapping-IsQuiet, create_if_missing-IsQuiet) depth 8

  pub started-IsQuiet :
      (i : ChallengeInstance) (ttl : String) (d : Option Duration)
      → Only IsQuiet (started api i ttl d)
  started-IsQuiet i ttl none = Only-raise (text ("invalid TTL: " <> ttl))
  started-IsQuiet i ttl (some d) = record { at = λ s. same }

  pub expiry_of-IsQuiet :
      (o : Option Time) (i : ChallengeInstance) (ttl : String)
      → Only IsQuiet (expiry_of api o i ttl)
  expiry_of-IsQuiet none i ttl = started-IsQuiet i ttl (api.parse_duration ttl)
  expiry_of-IsQuiet (some t) i ttl = Only-pure i

  pub ensure_expiry-IsQuiet :
      (i : ChallengeInstance) (tmpl : ChallengeTemplate) → Only IsQuiet (ensure_expiry api i tmpl)
  ensure_expiry-IsQuiet i tmpl =
      unfold ensure_expiry in expiry_of-IsQuiet i.status.expires_at i (effective_ttl api i tmpl)

  pub owned_by-Returns :
      (o m : ObjectMeta) (s : Sys W)
      → Returns
          (λ m' s'. api.set_controller_reference o m ≡ ok m')
          (λ e s'. Unit {0})
          (owned_by api o m s)
  owned_by-Returns o m s = unfold owned_by in answer (api.set_controller_reference o m)
    where
      answer :
          (r : Result E ObjectMeta)
          → Returns (λ m' s'. r ≡ ok m') (λ e s'. Unit {0}) (lift_error r, s)
      answer (ok m') = done refl
      answer (err e) = fail tt

  pub wrapping-Returns :
      {A : Type 0} {Q : A → Sys W → Type 0} {R : GoError E → Sys W → Type 0} (t : String)
      (m : M W E A) (s : Sys W)
      → Returns Q R (m s)
      → Returns Q (λ e s'. Unit {0}) (wrapping api t m s)
  wrapping-Returns t m s h =
      unfold wrapping in Returns-attempt m _ _ s h (λ a s' q. done q) (λ e s' r. fail tt)

  -- With the fence ensured, the log shows it.
  pub ensure_network_fence-IsFence :
      KeepsKey
      → (i : ChallengeInstance) (tmpl : ChallengeTemplate) (s : Sys W)
      → Returns
          (λ f s'. Any (IsFence (key_of i.metadata)) s'.log)
          (λ e s'. Unit {0})
          (ensure_network_fence api i tmpl s)
  ensure_network_fence-IsFence keeps i tmpl s =
      let built = build_network_fence i tmpl in
      unfold ensure_network_fence create_if_missing build_network_fence in
      Returns-bind _ _ s
        (wrapping-Returns "setting owner reference" _ s
          (owned_by-Returns i.metadata built.metadata s))
        (λ m s₁ q.
          Returns-attempt _ _ _ s₁ (Returns-call (get_fence (key_of m)) _ s₁)
            (λ f s₂ found. done (rw found (inl (keeps i.metadata built.metadata m q, refl))))
            (λ e s₂ missing.
              Returns-if (is_not_found api e) _ _ s₂
                (wrapping-Returns "creating network fence" _ s₂ (
                  Returns-map
                    (λ f s₃ created. rw created (inl (keeps i.metadata built.metadata m q, refl)))
                    (λ e' s₃ r. tt) (Returns-call (create_fence _) _ s₂)))
                (fail tt)))

module _ {W E : Type 0} (api : Api W E) (backend : Option (Backend W E)) where
  pub determine_phase-IsQuiet :
      (i : ChallengeInstance) (tmpl : ChallengeTemplate)
      → Only IsQuiet (determine_phase api backend i tmpl)
  determine_phase-IsQuiet i tmpl = unfold determine_phase in search only_rules depth 8
