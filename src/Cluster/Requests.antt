-- ===== src/Cluster/Requests.antt =====
-- The calls that leave the program, and the record of a call that was made.
use kimo.Prelude.{String, Bool, Option, Map}
use kimo.Types.{
  NamespacedName, ChallengeInstance, ChallengeTemplate, ChallengeSet, NetworkFence, Deployment,
  Service, NetworkPolicy,
}
use kimo.Integrations.Event.{Event}

pub data Request : Type 0 where
  get_instance get_template get_set get_fence get_deployment get_service get_policy get_secret :
      NamespacedName → Request
  list_pods : String → Map String → Request
  list_instances : Option String → Map String → Request
  list_templates : String → Request
  create_instance : ChallengeInstance → Request
  create_deployment : Deployment → Request
  create_service : Service → Request
  create_fence : NetworkFence → Request
  create_policy : NetworkPolicy → Request
  update_instance : ChallengeInstance → Request
  update_policy : NetworkPolicy → Request
  update_instance_status : ChallengeInstance → Request
  update_template_status : ChallengeTemplate → Request
  update_set_status : ChallengeSet → Request
  update_fence_status : NetworkFence → Request
  delete_instance : NamespacedName → Request
  notify : Event → Request

pub record Exchange : Type 0 where
  pub request : Request
  pub succeeded : Bool
