-- ===== src/Instance/Alike.antt =====
-- The steps of a reconcile before its report keep the metadata and the phase of the instance, and an
-- expiry that is set:
-- internal/controller/challengeinstance_controller.go.
use kimo.Prelude.{String, ◌≡◌, ◌≢◌, refl, sym, ◌∙◌, ◌∷◌, Option, none, some, List, [], arith}
use kimo.Types.{Time, Duration, ChallengeInstance, ChallengeTemplate, Pod}
use kimo.Cluster.{Api, Sys}
use kimo.Cluster.Returns.{Returns, done, fail, Returns-bind, Returns-then, Returns-trivial}
use kimo.Integrations.Backend.{Backend}
use kimo.Instance.Phase.{phase_of_pods}
use kimo.Instance.Ensure.{expiry_of, started, ensure_workload, ensure_expiry, effective_ttl}
use kimo.Instance.Reconcile.{determine_phase}

-- An expiry that is set stays.
abbrev pub KeepsExpiry : ChallengeInstance → ChallengeInstance → Type 0
KeepsExpiry i j = (t : Time) → i.status.expires_at ≡ some t → j.status.expires_at ≡ some t

abbrev pub Alike : ChallengeInstance → ChallengeInstance → Type 0
Alike i j =
    (j.metadata ≡ i.metadata)
    × (j.status.phase ≡ i.status.phase)
    × KeepsExpiry i j
    × (j.status.endpoint ≡ i.status.endpoint)

pub Alike-refl : (i : ChallengeInstance) → Alike i i
Alike-refl i = (refl, refl, λ t e. e, refl)

pub Alike-trans : (i j k : ChallengeInstance) → Alike i j → Alike j k → Alike i k
Alike-trans i j k p q = (q.0 ∙ p.0, q.1 ∙ p.1, λ t e. q.2 t (p.2 t e), q.3 ∙ p.3)

pub phase_of_pods-same :
    (pods : List Pod) (i : ChallengeInstance) (tmpl : ChallengeTemplate)
    → let j = (phase_of_pods pods i tmpl).instance' in
      (j.metadata ≡ i.metadata)
      × (j.status.phase ≡ i.status.phase)
      × (j.status.expires_at ≡ i.status.expires_at)
      × (j.status.endpoint ≡ i.status.endpoint)
phase_of_pods-same [] i tmpl = unfold phase_of_pods in (refl, refl, refl, refl)
phase_of_pods-same (p ∷ ps) i tmpl = unfold phase_of_pods in ground arith

pub phase_of_pods-Alike :
    (pods : List Pod) (i : ChallengeInstance) (tmpl : ChallengeTemplate)
    → Alike i (phase_of_pods pods i tmpl).instance'
phase_of_pods-Alike pods i tmpl =
    let (m, p, expiry, url) = phase_of_pods-same pods i tmpl in (m, p, λ t e. expiry ∙ e, url)

none-ne-some : {t : Time} → none ≢ some t
none-ne-some e = cc

module _ {W E : Type 0} (api : Api W E) where
  pub ensure_workload-Alike :
      (i : ChallengeInstance) (tmpl : ChallengeTemplate) (s : Sys W)
      → Returns (λ j s'. Alike i j) (λ e s'. Unit {0}) (ensure_workload api i tmpl s)
  ensure_workload-Alike i tmpl s =
      unfold ensure_workload in
      Returns-bind _ _ s (Returns-trivial _) (λ m s₁ _.
        Returns-bind _ _ s₁ (Returns-trivial _) (λ d s₂ _.
          Returns-then _ _ s₂ (Returns-trivial _) (λ v s₃ _. done (refl, refl, λ t e. e, refl))))

  expiry_of-Alike :
      (o : Option Time) (i : ChallengeInstance) (ttl : String) (s : Sys W)
      → i.status.expires_at ≡ o
      → Returns (λ j s'. Alike i j) (λ e s'. Unit {0}) (expiry_of api o i ttl s)
  expiry_of-Alike (some t) i ttl s same = done (Alike-refl i)
  expiry_of-Alike none i ttl s same = started-Alike (api.parse_duration ttl)
    where
      started-Alike :
          (d : Option Duration)
          → Returns (λ j s'. Alike i j) (λ e s'. Unit {0}) (started api i ttl d s)
      started-Alike none = fail tt
      started-Alike (some d) = done (refl, refl, λ t e. absurd (none-ne-some (sym same ∙ e)), refl)

  pub ensure_expiry-Alike :
      (i : ChallengeInstance) (tmpl : ChallengeTemplate) (s : Sys W)
      → Returns (λ j s'. Alike i j) (λ e s'. Unit {0}) (ensure_expiry api i tmpl s)
  ensure_expiry-Alike i tmpl s =
      unfold ensure_expiry in
      expiry_of-Alike i.status.expires_at i (effective_ttl api i tmpl) s refl

module _ {W E : Type 0} (api : Api W E) (backend : Option (Backend W E)) where
  pub determine_phase-Alike :
      (i : ChallengeInstance) (tmpl : ChallengeTemplate) (s : Sys W)
      → Returns
          (λ v s'. Alike i v.instance')
          (λ e s'. Unit {0})
          (determine_phase api backend i tmpl s)
  determine_phase-Alike i tmpl s =
      unfold determine_phase in
      Returns-bind _ _ s (Returns-trivial _) (λ pods s₁ _. done (phase_of_pods-Alike pods i tmpl))
