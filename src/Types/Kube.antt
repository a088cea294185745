-- ===== src/Types/Kube.antt =====
-- The fields that the controllers set or read of the Kubernetes objects they own.
use kimo.Prelude.{String, Bool, Option, List, Map}
use kimo.Prelude.Int.{ℤ}
use kimo.Types.Meta.{ObjectMeta}

pub record EnvVar : Type 0 where
  pub name : String
  pub value : String

pub record SecurityContext : Type 0 where
  pub run_as_non_root : Bool
  pub read_only_root_filesystem : Bool
  pub allow_privilege_escalation : Bool

pub record VolumeMount : Type 0 where
  pub name : String
  pub mount_path : String

-- A port of a container in a pod.
pub record PodPort : Type 0 where
  pub name : String
  pub container_port : ℤ

pub data ProbeHandler : Type 0 where
  http_get : String → ℤ → ProbeHandler
  tcp_socket : ℤ → ProbeHandler

pub record Container : Type 0 where
  pub name : String
  pub image : String
  pub env : List EnvVar
  pub security_context : SecurityContext
  pub volume_mounts : List VolumeMount
  pub ports : List PodPort
  pub readiness_probe : Option ProbeHandler

pub record PodTemplate : Type 0 where
  pub labels : Map String
  pub containers : List Container
  pub restart_policy : String
  pub automount_service_account_token : Bool
  pub empty_dir_volumes : List String

pub record Deployment : Type 0 where
  pub metadata : ObjectMeta
  pub replicas : ℤ
  pub selector : Map String
  pub template : PodTemplate

pub record ServicePort : Type 0 where
  pub name : String
  pub port : ℤ
  pub target_port : ℤ

pub record Service : Type 0 where
  pub metadata : ObjectMeta
  pub selector : Map String
  pub ports : List ServicePort

pub record PolicyPort : Type 0 where
  pub port : ℤ
  pub protocol : String

pub record IngressRule : Type 0 where
  pub ports : List PolicyPort
  pub from : List String  -- CIDR blocks

-- The only egress rule that the fence controller writes is the empty one.
pub data EgressRule : Type 0 where
  everything : EgressRule

pub data PolicyType : Type 0 where
  ingress egress : PolicyType

pub record PolicySpec : Type 0 where
  pub pod_selector : Map String
  pub ingress : List IngressRule
  pub egress : List EgressRule
  pub policy_types : List PolicyType

pub record NetworkPolicy : Type 0 where
  pub metadata : ObjectMeta
  pub spec : PolicySpec

pub data PodPhase : Type 0 where
  pod_pending pod_running pod_succeeded pod_failed pod_unknown : PodPhase

pub data ConditionStatus : Type 0 where
  condition_true condition_false condition_unknown : ConditionStatus

pub record PodCondition : Type 0 where
  pub type : String
  pub status : ConditionStatus

pub record Pod : Type 0 where
  pub metadata : ObjectMeta
  pub phase : PodPhase
  pub reason : String
  pub conditions : List PodCondition
