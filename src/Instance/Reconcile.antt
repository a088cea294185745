-- ===== src/Instance/Reconcile.antt =====
-- `transition`, `determinePhase` and `Reconcile` of the instance controller.
use kimo.Prelude.{ℕ, ◌*◌, String, ◌<>◌, Bool, not, Option, none, some, [], ◌∷◌, if◌then◌else◌}
use kimo.Prelude.Int.{pos}
use kimo.Types.{
  Duration, NamespacedName, label_instance, InstancePhase, same_phase, pending, failed,
  ChallengeInstance, ChallengeTemplate,
}
use kimo.Cluster.{
  Api, get_instance, get_template, list_pods, update_instance_status, M, pure, raise, call, attempt,
  ◌>>=◌, ◌>>◌, is_not_found, error_string,
}
use kimo.Integrations.Event.{EventType, event_of}
use kimo.Integrations.Backend.{Backend, announce}
use kimo.Instance.Phase.{terminal, event_for_phase, Verdict, phase_of_pods}
use kimo.Instance.Ensure.{ensure_workload, ensure_network_fence, ensure_expiry}

abbrev pub seconds : ℕ → Duration
seconds n = pos (n * 1000000000)

-- `instance.Status.Phase != phase`
abbrev pub differs : InstancePhase → InstancePhase → Bool
differs p q = not (same_phase p q)

abbrev pub with_phase : ChallengeInstance → InstancePhase → String → ChallengeInstance
with_phase i phase reason = record i { status = record i.status { phase = phase; reason = reason } }

module _ {W E : Type 0} (api : Api W E) (backend : Option (Backend W E)) where
  unfoldable pub announce_phase : ChallengeInstance → Option EventType → String → M W E Unit
  announce_phase i none reason = pure tt
  announce_phase i (some type) reason = announce backend (event_of i type reason)

  unfoldable pub transition : ChallengeInstance → InstancePhase → String → M W E Duration
  transition i phase reason = do
    let changed = differs i.status.phase phase
    let i' = with_phase i phase reason
    updated ← call (update_instance_status i') (api.update_instance_status i')
    if changed then announce_phase updated (event_for_phase phase) reason else pure tt
    pure (seconds 15)

  unfoldable pub determine_phase : ChallengeInstance → ChallengeTemplate → M W E Verdict
  determine_phase i tmpl = do
    let selector = (label_instance, i.metadata.name) ∷ []
    pods ←
        call (list_pods i.metadata.namespace selector) (api.list_pods i.metadata.namespace selector)
    pure (phase_of_pods pods i tmpl)

  -- From the pods on.
  unfoldable pub observe : ChallengeInstance → ChallengeTemplate → M W E Duration
  observe i tmpl = do v ← determine_phase i tmpl; transition v.instance' v.phase v.reason

  -- From the expiry on; an error of `ensureExpiry` ends in the phase Failed.
  unfoldable pub conclude : ChallengeInstance → ChallengeTemplate → M W E Duration
  conclude i tmpl =
      attempt (ensure_expiry api i tmpl) (λ i'. observe i' tmpl)
        (λ e. transition i failed (error_string api e))

  -- With the template in hand.
  unfoldable pub provision : ChallengeInstance → ChallengeTemplate → M W E Duration
  provision i tmpl =
      if not tmpl.status.ready
      then (do transition i pending "waiting for template to be ready"; pure (seconds 10))
      else (do i' ← ensure_workload api i tmpl; ensure_network_fence api i' tmpl; conclude i' tmpl)

  -- With the instance in hand.
  unfoldable pub advance : ChallengeInstance → M W E Duration
  advance i =
      let key : NamespacedName = record {
        name = i.spec.template_ref;
        namespace = i.metadata.namespace;
      } in
      if terminal i.status.phase
      then pure (pos 0)
      else attempt (call (get_template key) (api.get_template key)) (provision i) (λ e.
        if is_not_found api e
        then transition i failed ("template not found: " <> i.spec.template_ref)
        else raise e)

  unfoldable pub reconcile : NamespacedName → M W E Duration
  reconcile key =
      attempt (call (get_instance key) (api.get_instance key)) advance
        (λ e. if is_not_found api e then pure (pos 0) else raise e)
