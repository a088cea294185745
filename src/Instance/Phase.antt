-- ===== src/Instance/Phase.antt =====
-- The phases of an instance: which are final, which event announces one, and the one that the
-- state of the pod calls for.
use kimo.Prelude.{
  String, ◌<>◌, Bool, true, false, Option, none, some, List, [], ◌∷◌, ◌==◌, if◌then◌else◌,
}
use kimo.Prelude.Int.{ℤ, pos, ◌+ℤ◌, leb_ℤ, eqb_ℤ, int32}
use kimo.Types.{
  InstancePhase, creating, running, unhealthy, expired, failed, ChallengeInstance,
  ChallengeTemplate, Pod, PodPhase, pod_failed, pod_running, PodCondition, ConditionStatus,
  condition_true,
}
use kimo.Integrations.Event.{
  EventType, event_creating, event_running, event_unhealthy, event_failed,
}

unfoldable pub terminal : InstancePhase → Bool
terminal expired = true
terminal failed = true
terminal _ = false

unfoldable pub event_for_phase : InstancePhase → Option EventType
event_for_phase creating = some event_creating
event_for_phase running = some event_running
event_for_phase unhealthy = some event_unhealthy
event_for_phase failed = some event_failed
event_for_phase _ = none

abbrev is_true : ConditionStatus → Bool
is_true condition_true = true
is_true _ = false

-- The loop of `podReady`: the first condition of type Ready decides.
unfoldable pub pod_ready : List PodCondition → Bool
pod_ready [] = false
pod_ready (c ∷ cs) = if c.type == "Ready" then is_true c.status else pod_ready cs

-- What `determinePhase` returns, with the instance whose count it changes.
pub record Verdict : Type 0 where
  pub instance' : ChallengeInstance
  pub phase : InstancePhase
  pub reason : String

abbrev with_count : ChallengeInstance → ℤ → ChallengeInstance
with_count i n = record i { status = record i.status { unhealthy_count = n } }

-- The template's threshold, 3 if it is 0.
unfoldable pub threshold_of : ChallengeTemplate → ℤ
threshold_of tmpl =
    let t = tmpl.spec.container.unhealthy_threshold in if eqb_ℤ t (pos 0) then pos 3 else t

-- A running pod that is not ready: `UnhealthyCount++` is an int32 operation.
not_ready : ChallengeInstance → ChallengeTemplate → Verdict
unfolding threshold_of ◌+ℤ◌
not_ready i tmpl =
    let n = int32 (i.status.unhealthy_count +ℤ pos 1) in
    if leb_ℤ (threshold_of tmpl) n
    then record {
      instance' = with_count i n;
      phase = unhealthy;
      reason = "pod failing readiness checks";
    }
    else record {
      instance' = with_count i n;
      phase = creating;
      reason = "waiting for pod to become ready";
    }

-- The `switch` on the phase of the pod.
phase_of_pod : PodPhase → Pod → ChallengeInstance → ChallengeTemplate → Verdict
unfolding not_ready pod_ready
phase_of_pod pod_failed pod i tmpl = record {
  instance' = i;
  phase = failed;
  reason = "pod failed: " <> pod.reason;
}
phase_of_pod pod_running pod i tmpl =
    if pod_ready pod.conditions
    then record { instance' = with_count i (pos 0); phase = running; reason = "" }
    else not_ready i tmpl
phase_of_pod _ pod i tmpl = record {
  instance' = i;
  phase = creating;
  reason = "waiting for pod to start";
}

-- `determinePhase` once the pods are listed.
unfoldable pub phase_of_pods : List Pod → ChallengeInstance → ChallengeTemplate → Verdict
unfolding phase_of_pod
phase_of_pods [] i tmpl = record {
  instance' = i;
  phase = creating;
  reason = "waiting for pod to be scheduled";
}
phase_of_pods (pod ∷ pods) i tmpl = phase_of_pod pod.phase pod i tmpl
