-- ===== src/Template/Readiness.antt =====
-- Which templates are reported ready.
use kimo.Prelude.{String, ◌≡◌, refl, ◌≢◌, ◌⊎◌, true, false, arith, ◌==◌, ◌||◌, eq_iff}
use kimo.Types.{restart_always, ContainerSpec, ChallengeTemplate}
use kimo.Cluster.{
  Api, Request, Exchange, get_secret, list_instances, update_template_status, is_not_found,
}
use kimo.Cluster.Log.{
  Only, Only-if, Only-if_cases, Only-pure, Only-call, Only-raise, Only-attempt, Only-bind,
  Only-then,
}
use kimo.Instance.Reconcile.{seconds}
use kimo.Template.{set_status, count_instances, check_container, validate}

-- What Kubernetes can run as a Deployment of this program.
abbrev pub IsDeployable : ContainerSpec → Type 0
IsDeployable c = (c.image ≢ "") × ((c.restart_policy ≡ "") ⊎ (c.restart_policy ≡ restart_always))

-- The calls of the controller on one template: a status that it writes belongs to that template,
-- and says ready only of a container that can be deployed.
abbrev TemplateCall : ChallengeTemplate → Request → Type 0
TemplateCall tmpl (update_template_status t) =
    (t.metadata ≡ tmpl.metadata)
    × (t.spec ≡ tmpl.spec)
    × (t.status.ready ≡ true → IsDeployable tmpl.spec.container)
TemplateCall tmpl (get_secret k) = Unit
TemplateCall tmpl (list_instances n l) = Unit
TemplateCall tmpl _ = ⊥

abbrev pub IsTemplateCall : ChallengeTemplate → Exchange → Type 0
IsTemplateCall tmpl x = TemplateCall tmpl x.request

module _ {W E : Type 0} (api : Api W E) (tmpl : ChallengeTemplate) where
  set_status-calls : (msg : String) → Only (IsTemplateCall tmpl) (set_status api tmpl false msg)
  set_status-calls msg =
      unfold set_status in
      Only-attempt _ _ _ (Only-call _ _ (λ b. (refl, refl, λ e. cc))) (λ t. Only-pure (seconds 30))
        (λ e. Only-raise _)

  count_instances-calls :
      IsDeployable tmpl.spec.container → Only (IsTemplateCall tmpl) (count_instances api tmpl)
  count_instances-calls fit =
      unfold count_instances in
      Only-bind _ _ (Only-call _ _ (λ b. tt)) (λ items.
        Only-then _ _ (Only-call _ _ (λ b. (refl, refl, λ e. fit))) (Only-pure (seconds 30)))

  check_container-calls : Only (IsTemplateCall tmpl) (check_container api tmpl)
  check_container-calls =
      unfold check_container in
      Only-if_cases (tmpl.spec.container.image == "") _ _ (λ e. set_status-calls _)
        (λ image.
          Only-if_cases
            (tmpl.spec.container.restart_policy == ""
              || tmpl.spec.container.restart_policy == restart_always)
            _ _
            (λ policy. count_instances-calls (
              ground (
                arith,
                eq_iff tmpl.spec.container.image "",
                eq_iff tmpl.spec.container.restart_policy "",
                eq_iff tmpl.spec.container.restart_policy restart_always,
              )))
            (λ e. set_status-calls _))

-- For a template that it has read, a run of the controller reads the flag secret and the instances
-- and writes only a status, of that template with its metadata and spec as they were read. It
-- writes ready only if the container has an image and a restart policy that is omitted or Always.
pub validate-calls :
    {W E : Type 0} (api : Api W E) (tmpl : ChallengeTemplate)
    → Only (IsTemplateCall tmpl) (validate api tmpl)
validate-calls api tmpl =
    unfold validate in
    Only-attempt _ _ _ (Only-call _ _ (λ b. tt)) (λ _. check_container-calls api tmpl)
      (λ e. Only-if (is_not_found api e) _ _ (set_status-calls api tmpl _) (Only-raise e))
