-- ===== src/Cluster/Client.antt =====
-- What the controllers and the server use of controller-runtime, of apimachinery and of Go's clock
-- and duration parser: none of it is code of the repository, so it is a parameter of the model.
-- `W` is the world outside the program, `E` the errors of the client. A call answers and leaves
-- another world, in which other actors may have acted too.
use kimo.Prelude.{ℕ, String, Bool, Option, List, Map, Result}
use kimo.Types.{
  Time, Duration, ObjectMeta, NamespacedName, ChallengeInstance, ChallengeTemplate, ChallengeSet,
  NetworkFence, Deployment, Service, NetworkPolicy, Pod,
}

pub record Api (W E : Type 0) : Type 0 where
  pub is_not_found : E → Bool
  pub is_already_exists : E → Bool
  pub error_text : E → String
  pub clock : W → Time
  -- `rand.Read` of 32 bytes.
  pub random : W → List ℕ × W
  pub parse_duration : String → Option Duration
  -- What the error says of a text that `parse_duration` refuses.
  pub duration_error : String → String
  -- `controllerutil.SetControllerReference`: the owner, then the object that it will own.
  pub set_controller_reference : ObjectMeta → ObjectMeta → Result E ObjectMeta
  pub get_instance : NamespacedName → W → Result E ChallengeInstance × W
  pub get_template : NamespacedName → W → Result E ChallengeTemplate × W
  pub get_set : NamespacedName → W → Result E ChallengeSet × W
  pub get_fence : NamespacedName → W → Result E NetworkFence × W
  pub get_deployment : NamespacedName → W → Result E Deployment × W
  pub get_service : NamespacedName → W → Result E Service × W
  pub get_policy : NamespacedName → W → Result E NetworkPolicy × W
  pub get_secret : NamespacedName → W → Result E Unit × W
  pub list_pods : String → Map String → W → Result E (List Pod) × W
  pub list_instances : Option String → Map String → W → Result E (List ChallengeInstance) × W
  pub list_templates : String → W → Result E (List ChallengeTemplate) × W
  -- A write decodes the server's answer into the object that it was given.
  pub create_instance : ChallengeInstance → W → Result E ChallengeInstance × W
  pub create_deployment : Deployment → W → Result E Deployment × W
  pub create_service : Service → W → Result E Service × W
  pub create_fence : NetworkFence → W → Result E NetworkFence × W
  pub create_policy : NetworkPolicy → W → Result E NetworkPolicy × W
  pub update_instance : ChallengeInstance → W → Result E ChallengeInstance × W
  pub update_policy : NetworkPolicy → W → Result E NetworkPolicy × W
  pub update_instance_status : ChallengeInstance → W → Result E ChallengeInstance × W
  pub update_template_status : ChallengeTemplate → W → Result E ChallengeTemplate × W
  pub update_set_status : ChallengeSet → W → Result E ChallengeSet × W
  pub update_fence_status : NetworkFence → W → Result E NetworkFence × W
  pub delete_instance : NamespacedName → W → Result E Unit × W
