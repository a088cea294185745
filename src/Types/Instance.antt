-- ===== src/Types/Instance.antt =====
-- api/v1alpha1/challengeinstance_types.go
use kimo.Prelude.{
  String, Option, ◌≡◌, refl, sym, ap, ◌∙◌, ◌↔◌, Bool, true, ◌==◌, eq_iff, if◌then◌else◌,
}
use kimo.Prelude.Int.{ℤ}
use kimo.Types.Meta.{ObjectMeta, Time}

-- `unset` is the empty text of an instance that no controller has seen.
pub data InstancePhase : Type 0 where
  unset pending creating running unhealthy expiring expired terminating failed : InstancePhase

unfoldable pub phase_text : InstancePhase → String
phase_text unset = ""
phase_text pending = "Pending"
phase_text creating = "Creating"
phase_text running = "Running"
phase_text unhealthy = "Unhealthy"
phase_text expiring = "Expiring"
phase_text expired = "Expired"
phase_text terminating = "Terminating"
phase_text failed = "Failed"

phase_of_text : String → InstancePhase
phase_of_text t =
    if t == "Pending"
    then pending
    else if t == "Creating"
    then creating
    else if t == "Running"
    then running
    else if t == "Unhealthy"
    then unhealthy
    else if t == "Expiring"
    then expiring
    else if t == "Expired"
    then expired
    else if t == "Terminating"
    then terminating
    else if t == "Failed"
    then failed
    else unset

phase_of_text-phase_text : (p : InstancePhase) → phase_of_text (phase_text p) ≡ p
unfolding phase_of_text phase_text
phase_of_text-phase_text unset = refl
phase_of_text-phase_text _ = refl

-- Phases are compared as the texts that they are.
abbrev pub same_phase : InstancePhase → InstancePhase → Bool
same_phase p q = phase_text p == phase_text q

pub same_phase_iff : (p q : InstancePhase) → (same_phase p q ≡ true) ↔ (p ≡ q)
same_phase_iff p q = (
  λ e.
      sym (phase_of_text-phase_text p)
      ∙ ap phase_of_text ((eq_iff (phase_text p) (phase_text q)).0 e)
      ∙ phase_of_text-phase_text q,
  λ e. (eq_iff (phase_text p) (phase_text q)).1 (ap phase_text e),
)

pub record InstanceSpec : Type 0 where
  pub template_ref : String
  pub team : String
  pub player : String
  pub ttl_override : String

pub record InstanceStatus : Type 0 where
  pub phase : InstancePhase
  pub reason : String
  pub endpoint : String
  pub started_at : Option Time
  pub expires_at : Option Time
  pub pod_name : String
  pub unhealthy_count : ℤ  -- int32
  pub message : String

pub record ChallengeInstance : Type 0 where
  pub metadata : ObjectMeta
  pub spec : InstanceSpec
  pub status : InstanceStatus
