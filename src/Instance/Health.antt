-- ===== src/Instance/Health.antt =====
-- How many failed readiness checks make an instance unhealthy.
use kimo.Prelude.{ℕ, zero, suc, ◌+◌, ◌^◌, ◌<◌, ◌≡◌, ◌↔◌, ◌∷◌, [], true, false, arith}
use kimo.Prelude.Int.{pos, ◌≤ℤ◌, ◌+ℤ◌, int32, wrap}
use kimo.Types.{unhealthy, ChallengeInstance, ChallengeTemplate, Pod, pod_running}
use kimo.Instance.Phase.{Verdict, pod_ready, threshold_of, phase_of_pods}

-- A pod that runs and is not ready.
pub record IsFailing (pod : Pod) : Type 0 where
  pub runs : pod.phase ≡ pod_running
  pub fails : pod_ready pod.conditions ≡ false

int32-suc : (n : ℕ) → suc n < 2 ^ 31 → int32 (pos n +ℤ pos 1) ≡ pos (suc n)
unfolding ◌+ℤ◌ wrap
int32-suc n h = ground arith

one_check :
    (c : ℕ) (pod : Pod) (i : ChallengeInstance) (tmpl : ChallengeTemplate)
    → IsFailing pod
    → i.status.unhealthy_count ≡ pos c
    → suc c < 2 ^ 31
    → ((phase_of_pods (pod ∷ []) i tmpl).instance'.status.unhealthy_count ≡ pos (suc c))
      × (((phase_of_pods (pod ∷ []) i tmpl).phase ≡ unhealthy) ↔ (threshold_of tmpl ≤ℤ pos (suc c)))
one_check c pod i tmpl failing start fits =
    let e : int32 (i.status.unhealthy_count +ℤ pos 1) ≡ pos (suc c) = rw start (int32-suc c fits) in
    unfold phase_of_pods in ground (arith, e)

-- The verdict after `suc n` checks in a row, each on the instance that the check before left.
pub checks : ℕ → Pod → ChallengeInstance → ChallengeTemplate → Verdict
checks zero pod i tmpl = phase_of_pods (pod ∷ []) i tmpl
checks (suc n) pod i tmpl = checks n pod (phase_of_pods (pod ∷ []) i tmpl).instance' tmpl

checks_from :
    (n c : ℕ) (pod : Pod) (i : ChallengeInstance) (tmpl : ChallengeTemplate)
    → IsFailing pod
    → i.status.unhealthy_count ≡ pos c
    → suc (n + c) < 2 ^ 31
    → ((checks n pod i tmpl).instance'.status.unhealthy_count ≡ pos (suc (n + c)))
      × (((checks n pod i tmpl).phase ≡ unhealthy) ↔ (threshold_of tmpl ≤ℤ pos (suc (n + c))))
unfolding checks
checks_from zero c pod i tmpl failing start fits =
    let add : suc (0 + c) ≡ suc c = omega arith in
    rw add (one_check c pod i tmpl failing start (omega arith))
checks_from (suc n) c pod i tmpl failing start fits =
    let (next, _) = one_check c pod i tmpl failing start (omega arith) in
    let shift : suc (suc n + c) ≡ suc (n + suc c) = omega arith in
    rw shift (
      checks_from n (suc c) pod (phase_of_pods (pod ∷ []) i tmpl).instance' tmpl failing next
        (omega arith))

-- From a pod that was last seen ready on, `suc n` failed readiness checks in a row make the
-- instance unhealthy exactly if the template's threshold is at most that many, as long as the
-- count fits an int32; and the count is that number.
pub checks-unhealthy_iff :
    (n : ℕ) (ready pod : Pod) (i : ChallengeInstance) (tmpl : ChallengeTemplate)
    → ready.phase ≡ pod_running
    → pod_ready ready.conditions ≡ true
    → IsFailing pod
    → suc n < 2 ^ 31
    → let v = checks n pod (phase_of_pods (ready ∷ []) i tmpl).instance' tmpl in
      (v.instance'.status.unhealthy_count ≡ pos (suc n))
      × ((v.phase ≡ unhealthy) ↔ (threshold_of tmpl ≤ℤ pos (suc n)))
checks-unhealthy_iff n ready pod i tmpl running_ ready_ failing fits =
    let reset : (phase_of_pods (ready ∷ []) i tmpl).instance'.status.unhealthy_count ≡ pos 0 =
      unfold phase_of_pods in ground arith in
    let none_yet : suc (n + 0) ≡ suc n = omega arith in
    rw (← none_yet) (
      checks_from n 0 pod (phase_of_pods (ready ∷ []) i tmpl).instance' tmpl failing reset
        (omega arith))
