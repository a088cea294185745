-- ===== src/Template.antt =====
-- The template controller: internal/controller/challengetemplate_controller.go.
pub mod Readiness
use kimo.Prelude.{
  ℕ, String, ◌<>◌, Bool, true, false, ◌||◌, Option, none, some, List, [], ◌∷◌, ◌==◌, length,
  if◌then◌else◌,
}
use kimo.Prelude.Int.{pos}
use kimo.Types.{
  Duration, NamespacedName, label_challenge, restart_always, ChallengeInstance, ChallengeTemplate,
}
use kimo.Cluster.{
  Api, get_template, get_secret, list_instances, update_template_status, M, pure, raise, call,
  attempt, ◌>>=◌, ◌>>◌, is_not_found, wrapped,
}
use kimo.Instance.Reconcile.{seconds}

abbrev pub restart_message : String
restart_message =
    "container.restartPolicy: only \"Always\" (or omitted) is supported — instances are Deployment-managed and Kubernetes requires Always for those; OnFailure/Never would need bare-Pod support"

abbrev pub ready_with : ChallengeTemplate → ℕ → ChallengeTemplate
ready_with tmpl n = record tmpl {
  status = record { ready = true; instance_count = pos n; message = "" };
}

module _ {W E : Type 0} (api : Api W E) where
  unfoldable pub set_status : ChallengeTemplate → Bool → String → M W E Duration
  set_status tmpl ready msg =
      let tmpl' = record tmpl { status = record tmpl.status { ready = ready; message = msg } } in
      attempt (call (update_template_status tmpl') (api.update_template_status tmpl'))
        (λ _. pure (seconds 30)) (λ e. raise (wrapped "updating status" e))

  unfoldable pub count_instances : ChallengeTemplate → M W E Duration
  count_instances tmpl = do
    let selector = (label_challenge, tmpl.metadata.name) ∷ []
    items ← call (list_instances none selector) (api.list_instances none selector)
    let tmpl' = ready_with tmpl (length items)
    call (update_template_status tmpl') (api.update_template_status tmpl')
    pure (seconds 30)

  -- The checks of the container, once the flag secret is there.
  unfoldable pub check_container : ChallengeTemplate → M W E Duration
  check_container tmpl =
      let container = tmpl.spec.container in
      if container.image == ""
      then set_status tmpl false "container image is required"
      else if container.restart_policy == "" || container.restart_policy == restart_always
      then count_instances tmpl
      else set_status tmpl false restart_message

  -- With the template in hand.
  unfoldable pub validate : ChallengeTemplate → M W E Duration
  validate tmpl =
      let key : NamespacedName = record {
        name = tmpl.spec.flag_secret_ref;
        namespace = tmpl.metadata.namespace;
      } in
      attempt (call (get_secret key) (api.get_secret key)) (λ _. check_container tmpl)
        (λ e.
          if is_not_found api e
          then set_status tmpl false ("flag secret not found: " <> tmpl.spec.flag_secret_ref)
          else raise e)

  unfoldable pub reconcile : NamespacedName → M W E Duration
  reconcile key =
      attempt (call (get_template key) (api.get_template key)) validate
        (λ e. if is_not_found api e then pure (pos 0) else raise e)
