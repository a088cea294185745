-- ===== src/Lifecycle/Chain.antt =====
-- When the runs of the lifecycle controller expire an instance.
use kimo.Prelude.{
  ◌≡◌, ◌≢◌, refl, sym, ap, ◌∙◌, subst, ◌⊎◌, inl, inr, false, Option, some, arith, ◌^◌, ◌-◌, ◌+◌,
}
use native.Mathlib.Decide.{dec_lt}
use kimo.Prelude.Int.{pos, ◌+ℤ◌, ◌-ℤ◌, ◌≤ℤ◌, ◌<ℤ◌, int_laws, pos_part, neg_part}
use kimo.Types.{Time, Duration, NamespacedName, expiring, expired, ChallengeInstance}
use kimo.Cluster.{Api}
use kimo.Integrations.Backend.{Backend}
use kimo.Instance.Phase.{terminal}
use kimo.Lifecycle.{expiring_grace_window, step_at}
use kimo.Lifecycle.Timing.{time_sub-eq, step_at-far, step_at-near, step_at-expire_iff, add_sub}
use kimo.Lifecycle.Visits.{Made, Visit, Visit-Made}

before_window :
    (u t : Time) → u +ℤ expiring_grace_window ≡ t → (u <ℤ t) × (t ≤ℤ u +ℤ expiring_grace_window)
before_window u t e =
    subst (λ x. (u <ℤ x) × (x ≤ℤ u +ℤ expiring_grace_window)) e (omega int_laws, omega arith)

module _ {W E : Type 0} (api : Api W E) (backend : Option (Backend W E))
    (key : NamespacedName) where
  still_live : (j : ChallengeInstance) → j.status.phase ≡ expiring → terminal j.status.phase ≡ false
  still_live j e = ap terminal e ∙ (unfold terminal in refl)

  far_run :
      {i j : ChallengeInstance} {now t : Time} {d : Duration}
      → terminal i.status.phase ≡ false
      → i.status.expires_at ≡ some t
      → now +ℤ expiring_grace_window <ℤ t
      → t ≤ℤ now +ℤ pos (2 ^ 63 - 1)
      → Visit api backend key i now d j
      → (j.status.phase ≡ i.status.phase)
        × (j.status.expires_at ≡ some t)
        × ((now +ℤ d) +ℤ expiring_grace_window ≡ t)
  far_run {i} {j} {now} {t} {d} live expires far near v =
      let exact = time_sub-eq t now (omega int_laws) near in
      let (phase, kept, delay) =
        subst (λ todo. Made i todo d j)
          (ap (step_at i.status.phase) exact
            ∙ step_at-far i.status.phase (t -ℤ now) (omega int_laws))
          (Visit-Made api backend key v live expires) in
      (phase, kept ∙ expires, rw delay (omega int_laws))

  pub near_run :
      {i j : ChallengeInstance} {now t : Time} {d : Duration}
      → terminal i.status.phase ≡ false
      → i.status.phase ≢ expiring
      → i.status.expires_at ≡ some t
      → now <ℤ t
      → t ≤ℤ now +ℤ expiring_grace_window
      → Visit api backend key i now d j
      → (j.status.phase ≡ expiring) × (j.status.expires_at ≡ some t) × (now +ℤ d ≡ t)
  near_run {i} {j} {now} {t} {d} live fresh expires early near v =
      let exact = time_sub-eq t now (omega arith) (omega int_laws) in
      let (phase, kept, delay) =
        subst (λ todo. Made i todo d j)
          (ap (step_at i.status.phase) exact
            ∙ step_at-near i.status.phase (t -ℤ now) fresh (omega int_laws) (omega int_laws))
          (Visit-Made api backend key v live expires) in
      (phase, kept ∙ expires, ap (λ x. now +ℤ x) delay ∙ add_sub t now)

  last_run :
      {i j : ChallengeInstance} {now t : Time} {d : Duration}
      → terminal i.status.phase ≡ false
      → i.status.expires_at ≡ some t
      → now ≡ t
      → Visit api backend key i now d j
      → j.status.phase ≡ expired
  last_run {i} {j} {now} {t} {d} live expires e v =
      subst (λ todo. Made i todo d j)
        ((step_at-expire_iff i.status.phase t now).1 (rw e (omega arith)))
        (Visit-Made api backend key v live expires)

-- Runs of the lifecycle controller on an instance in no final phase that is not Expiring yet, each
-- without an error, at the time that the run before has asked for, and on the status that the run
-- before has left: the third run at the latest sets Expired, at the expiry time and neither before
-- nor after, and the run before has set Expiring. The expiry lies within an int64 of the first run.
pub runs-expire :
    {W E : Type 0} (api : Api W E) (backend : Option (Backend W E)) (key : NamespacedName)
    {i j k l : ChallengeInstance} {now t : Time} {d d' d'' : Duration}
    → terminal i.status.phase ≡ false
    → i.status.phase ≢ expiring
    → i.status.expires_at ≡ some t
    → now <ℤ t
    → t ≤ℤ now +ℤ pos (2 ^ 63 - 1)
    → Visit api backend key i now d j
    → Visit api backend key j (now +ℤ d) d' k
    → Visit api backend key k ((now +ℤ d) +ℤ d') d'' l
    → ((j.status.phase ≡ expiring) × (now +ℤ d ≡ t) × (k.status.phase ≡ expired))
      ⊎ ((j.status.phase ≡ i.status.phase)
          × (k.status.phase ≡ expiring)
          × ((now +ℤ d) +ℤ d' ≡ t)
          × (l.status.phase ≡ expired))
runs-expire api backend key {i} {j} {k} {l} {now} {t} {d} {d'} live fresh expires early near v v'
      v'' =
    elim (dec_lt (pos_part (now +ℤ expiring_grace_window) + neg_part t)
      (pos_part t + neg_part (now +ℤ expiring_grace_window))) [
        | yes far ↦
            let (phase, kept, delay) = far_run api backend key live expires far near v in
            let (early', near') = before_window (now +ℤ d) t delay in
            let (phase', kept', delay') =
              near_run api backend key (ap terminal phase ∙ live) (λ e. fresh (sym phase ∙ e)) kept
                early' near' v' in
            inr (
              phase,
              phase',
              delay',
              last_run api backend key (still_live api backend key k phase') kept' delay' v'',
            )
        | no close ↦
            let (phase, kept, delay) =
              near_run api backend key live fresh expires early (omega arith) v in
            inl (
              phase,
              delay,
              last_run api backend key (still_live api backend key j phase) kept delay v',
            )
      ]
