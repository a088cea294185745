-- ===== src/Types/Template.antt =====
-- api/v1alpha1/challengetemplate_types.go
use kimo.Prelude.{String, Bool, Option, List, Map}
use kimo.Prelude.Int.{ℤ}
use kimo.Types.Meta.{ObjectMeta}
use kimo.Types.Kube.{EnvVar}

pub record PowSpec : Type 0 where
  pub enabled : Bool
  pub difficulty : ℤ
  pub algorithm : String
  pub ttl : String

pub record ContainerPort : Type 0 where
  pub name : String
  pub container_port : ℤ  -- int32
  pub expose : Bool

-- Quantities by resource name, as texts.
pub record ResourceRequirements : Type 0 where
  pub requests : Map String
  pub limits : Map String

abbrev pub readiness_tcp : String
readiness_tcp = "tcp"

abbrev pub readiness_http : String
readiness_http = "http"

abbrev pub readiness_none : String
readiness_none = "none"

pub record ReadinessCheck : Type 0 where
  pub type : String
  pub port : ℤ  -- int32
  pub path : String

abbrev pub restart_on_failure : String
restart_on_failure = "OnFailure"

abbrev pub restart_always : String
restart_always = "Always"

abbrev pub restart_never : String
restart_never = "Never"

pub record ContainerSpec : Type 0 where
  pub image : String
  pub ports : List ContainerPort
  pub resources : ResourceRequirements
  pub env : List EnvVar
  pub readiness : Option ReadinessCheck
  pub restart_policy : String
  pub unhealthy_threshold : ℤ  -- int32

pub record TemplateSpec : Type 0 where
  pub category : String
  pub difficulty : String
  pub points : ℤ
  pub flag_secret_ref : String
  pub instance_mode : String
  pub ttl : String
  pub max_instances : ℤ
  pub pow : Option PowSpec
  pub container : ContainerSpec

pub record TemplateStatus : Type 0 where
  pub ready : Bool
  pub instance_count : ℤ
  pub message : String

pub record ChallengeTemplate : Type 0 where
  pub metadata : ObjectMeta
  pub spec : TemplateSpec
  pub status : TemplateStatus
