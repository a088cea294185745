-- ===== src/Instance/Ensure.antt =====
-- The steps of a reconcile that bring objects about: workload, fence and expiry.
use kimo.Prelude.{String, ◌<>◌, Option, none, some, ◌==◌, if◌then◌else◌}
use kimo.Prelude.Int.{◌+ℤ◌}
use kimo.Types.{
  Duration, ObjectMeta, key_of, ChallengeInstance, ChallengeTemplate, NetworkFence, Deployment,
  Service,
}
use kimo.Cluster.{
  Api, get_deployment, get_service, get_fence, create_deployment, create_service, create_fence,
  wrapped, text, M, pure, raise, lift_error, call, attempt, ◌>>=◌, ◌>>◌, is_not_found,
}
use kimo.Instance.Build.{build_network_fence, build_service, build_deployment}

abbrev pub with_pod_name : ChallengeInstance → String → ChallengeInstance
with_pod_name i name = record i { status = record i.status { pod_name = name } }

module _ {W E : Type 0} (api : Api W E) where
  -- `return fmt.Errorf("…: %w", err)`
  unfoldable pub wrapping : {A : Type 0} → String → M W E A → M W E A
  wrapping t m = attempt m pure (λ e. raise (wrapped t e))

  -- `SetControllerReference`, as an action that calls nothing.
  unfoldable pub owned_by : ObjectMeta → ObjectMeta → M W E ObjectMeta
  owned_by owner m s = (lift_error (api.set_controller_reference owner m), s)

  -- Look an object up, and create it if it is not found. What is left is the object in hand.
  unfoldable pub create_if_missing : {A : Type 0} → M W E A → A → M W E A → M W E A
  create_if_missing get built create =
      attempt get (λ _. pure built) (λ e. if is_not_found api e then create else raise e)

  unfoldable pub ensure_deployment : Deployment → M W E Deployment
  ensure_deployment dep =
      let key = key_of dep.metadata in
      create_if_missing (call (get_deployment key) (api.get_deployment key)) dep
        (wrapping "creating deployment" (call (create_deployment dep) (api.create_deployment dep)))

  unfoldable pub ensure_service : ChallengeInstance → Option Service → M W E (Option Service)
  ensure_service owner none = pure none
  ensure_service owner (some svc) = do
    m ← owned_by owner.metadata svc.metadata
    let owned = record svc { metadata = m }
    let key = key_of m
    svc' ←
        create_if_missing (call (get_service key) (api.get_service key)) owned
          (wrapping "creating service" (call (create_service owned) (api.create_service owned)))
    pure (some svc')

  unfoldable pub ensure_workload : ChallengeInstance → ChallengeTemplate → M W E ChallengeInstance
  ensure_workload instance' tmpl = do
    let dep = build_deployment instance' tmpl
    m ← wrapping "setting owner reference" (owned_by instance'.metadata dep.metadata)
    dep' ← ensure_deployment (record dep { metadata = m })
    ensure_service instance' (build_service instance' tmpl)
    pure (with_pod_name instance' dep'.metadata.name)

  unfoldable pub ensure_network_fence : ChallengeInstance → ChallengeTemplate → M W E NetworkFence
  ensure_network_fence instance' tmpl = do
    let fence = build_network_fence instance' tmpl
    m ← wrapping "setting owner reference" (owned_by instance'.metadata fence.metadata)
    let owned = record fence { metadata = m }
    let key = key_of m
    create_if_missing (call (get_fence key) (api.get_fence key)) owned
        (wrapping "creating network fence" (call (create_fence owned) (api.create_fence owned)))

  -- The template's TTL, or the instance's override.
  unfoldable pub effective_ttl : ChallengeInstance → ChallengeTemplate → String
  effective_ttl i tmpl = if i.spec.ttl_override == "" then tmpl.spec.ttl else i.spec.ttl_override

  abbrev pub started : ChallengeInstance → String → Option Duration → M W E ChallengeInstance
  started i ttl none = raise (text ("invalid TTL: " <> ttl))
  started i ttl (some d) = λ s.
      let now = api.clock s.world in
      pure
        (record i {
          status = record i.status { started_at = some now; expires_at = some (now +ℤ d) };
        })
        s

  abbrev pub expiry_of : Option Duration → ChallengeInstance → String → M W E ChallengeInstance
  expiry_of (some t) i ttl = pure i
  expiry_of none i ttl = started i ttl (api.parse_duration ttl)

  unfoldable pub ensure_expiry : ChallengeInstance → ChallengeTemplate → M W E ChallengeInstance
  unfolding effective_ttl
  ensure_expiry i tmpl = expiry_of i.status.expires_at i (effective_ttl i tmpl)
