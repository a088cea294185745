-- ===== src/Tests/Rules.antt =====
-- The theorems on what the controllers build and decide, at concrete inputs.
use kimo.Prelude.{
  ℕ, String, ◌==◌, true, none, some, List, [], ◌∷◌, ok, err, ◌≡◌, ◌≢◌, ◌↔◌, refl, arith, Any, ◌<◌,
  ◌≤◌, ◌^◌, ◌*◌, ◌-◌, Result, if◌then◌else◌,
}
use kimo.Prelude.Int.{ℤ, pos, ◌+ℤ◌, ◌-ℤ◌, ◌<ℤ◌, ◌≤ℤ◌}
use kimo.Types.{
  Time, object_meta, ObjectMeta, running, unhealthy, expiring, ChallengeInstance, ChallengeTemplate,
  condition_true, condition_false, PolicySpec, label_instance, label_team, label_challenge, Service,
}
use kimo.Instance.Reconcile.{seconds}
use kimo.Instance.Phase.{phase_of_pods, pod_ready, threshold_of}
use kimo.Instance.Health.{checks, checks-unhealthy_iff}
use kimo.Fence.Policy.{RuleAdmits}
use kimo.Lifecycle.{time_sub, step_at, expiring_grace_window}
use kimo.Lifecycle.Timing.{step_at-wait}
use kimo.Schedule.{decide, decide_at}
use kimo.Schedule.Window.{decide-active_iff, decide_at-flips}
use kimo.Pow.{count_leading_zero_bits}
use kimo.Pow.Zeros.{value, count_leading_zero_bits-value_iff}
use kimo.Tests.World.{web_port, web_template, red_instance, pod_with}

abbrev red : ChallengeInstance
red = red_instance expiring (some (pos 5000))

abbrev web : ChallengeTemplate
web = web_template (web_port ∷ []) none

-- A cluster that enforces policies as documented.
abbrev pub Admitted : String → ℤ → PolicySpec → Type 0
Admitted source port policy = Any (RuleAdmits (λ block s. block ≡ s) source port) policy.ingress

step_at-wait_example :
    ((seconds 10 +ℤ seconds 30) +ℤ expiring_grace_window ≡ seconds 100)
    × ((pos 0 <ℤ seconds 30) ↔ (seconds 10 +ℤ expiring_grace_window <ℤ seconds 100))
unfolding step_at time_sub ◌+ℤ◌ ◌-ℤ◌
step_at-wait_example =
    step_at-wait running (seconds 100) (seconds 10) {d = seconds 30} (omega arith) refl

checks-unhealthy_iff_example :
    let v =
      checks 2
        (pod_with condition_false)
        (phase_of_pods (pod_with condition_true ∷ []) red web).instance'
        web in
    (v.instance'.status.unhealthy_count ≡ pos 3)
    × ((v.phase ≡ unhealthy) ↔ (threshold_of web ≤ℤ pos 3))
unfolding pod_ready
checks-unhealthy_iff_example =
    checks-unhealthy_iff 2 (pod_with condition_true) (pod_with condition_false) red web refl refl
      (record { runs = refl; fails = refl }) (omega arith)

abbrev red_service : Service
red_service = record {
  metadata = object_meta "web-red" "default" [];
  selector = (label_instance, "web-red") ∷ [];
  ports = record { name = "web"; port = pos 8080; target_port = pos 8080 } ∷ [];
}

abbrev red_pod : ObjectMeta
red_pod = object_meta "web-red-1" "default" (
    (label_challenge, "web")
    ∷ (label_team, "red")
    ∷ (label_instance, "web-red")
    ∷ ("pod-template-hash", "5f6")
    ∷ [])

-- A parser that knows two texts.
abbrev parse_time : String → Result String Time
parse_time t = if t == "start" then ok (pos 10) else if t == "end" then ok (pos 20) else err "bad"

decide-active_iff_example :
    ((decide parse_time (some (record { start_at = "start"; end_at = "end" })) (pos 10)).active
      ≡ true)
    ↔ ((pos 10 ≤ℤ pos 10) × (pos 10 <ℤ pos 20))
decide-active_iff_example =
    decide-active_iff parse_time (record { start_at = "start"; end_at = "end" }) (pos 10) (pos 20)
      (pos 10) refl refl

decide_at-flips_example :
    (pos 0 <ℤ (decide_at (pos 10) (pos 20) (pos 3)).requeue_after)
    × (((decide_at (pos 10) (pos 20) (pos 9)).active ≢ (decide_at (pos 10) (pos 20) (pos 3)).active)
        ↔ (pos 9 ≡ pos 3 +ℤ (decide_at (pos 10) (pos 20) (pos 3)).requeue_after))
unfolding decide_at time_sub ◌+ℤ◌ ◌-ℤ◌
decide_at-flips_example =
    decide_at-flips (pos 10) (pos 20) (pos 3) (pos 9) (omega arith) (omega arith) (omega arith)
      (omega arith) (omega arith)

count_leading_zero_bits-value_iff_example :
    (11 ≤ count_leading_zero_bits (0 ∷ 19 ∷ 255 ∷ []))
    ↔ (value (0 ∷ 19 ∷ 255 ∷ []) < 2 ^ (8 * 3 - 11))
count_leading_zero_bits-value_iff_example =
    count_leading_zero_bits-value_iff (0 ∷ 19 ∷ 255 ∷ []) 11
      (omega arith, (omega arith, (omega arith, tt))) (omega arith)

-- A hash that two texts have zero bits in.
abbrev hash : String → List ℕ
hash t = if t == "abc:2" then 1 ∷ [] else 255 ∷ []
