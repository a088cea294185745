-- ===== src/Server/Listing.antt =====
-- What a list request shows, and what an extension does: `handleListInstances` and
-- `handleExtendInstance` of internal/api/handlers.go, with `ensureExpiry` of
-- internal/controller/challengeinstance_controller.go.
use kimo.Prelude.{
  String, ◌==◌, eq_iff, Bool, true, false, none, some, List, [], ◌∷◌, select, Any, lookup, insert,
  ◌≡◌, ◌≢◌, ◌↔◌, inl, inr, refl, arith, Bool-cases, if◌then◌else◌, ok,
}
use kimo.Prelude.Int.{◌+ℤ◌}
use kimo.Types.{
  Time, Duration, InstancePhase, phase_text, unset, same_phase, same_phase_iff, ChallengeInstance,
  ChallengeTemplate, label_team, label_challenge,
}
use kimo.Cluster.{Api, Sys}
use kimo.Instance.Ensure.{ensure_expiry, effective_ttl}
use kimo.Server.Handlers.{InstanceQuery, list_options, with_status, with_ttl}

abbrev pub In : ChallengeInstance → List ChallengeInstance → Type 0
In x xs = Any (λ y. y ≡ x) xs

module _ (test : ChallengeInstance → Bool) where
  select-Any :
      (x : ChallengeInstance) (xs : List ChallengeInstance)
      → In x (select test xs) ↔ (In x xs × (test x ≡ true))
  select-Any x [] = (λ h. absurd h, λ h. absurd h.0)
  select-Any x (y ∷ ys) = elim (Bool-cases (test y)) [
    | inl e ↦ ground (arith, select-Any x ys)
    | inr e ↦ ground (arith, select-Any x ys)
  ]

-- The labels that a list request asks for: the team if the query names one, and the challenge if
-- it names one.
pub list_options-lookup :
    (q : InstanceQuery)
    → (lookup label_team (list_options q) ≡ (if q.team == "" then none else some q.team))
      × (lookup label_challenge (list_options q)
          ≡ (if q.challenge == "" then none else some q.challenge))
unfolding list_options lookup insert
list_options-lookup q = elim (Bool-cases (q.team == "")) [
  | inl t ↦ elim (Bool-cases (q.challenge == "")) [
    | inl c ↦ rw (list_options, t, c) ((refl, refl))
    | inr c ↦ rw (list_options, t, c) ((refl, refl))
  ]
  | inr t ↦ elim (Bool-cases (q.challenge == "")) [
    | inl c ↦ rw (list_options, t, c) ((refl, refl))
    | inr c ↦ rw (list_options, t, c) ((refl, refl))
  ]
]

given_phase : (p : InstancePhase) → p ≢ unset → (phase_text p == "") ≡ false
unfolding phase_text
given_phase unset h = absurd (h refl)
given_phase _ h = refl

-- A status in the query, if it is a phase's text, leaves the instances of that phase, and all of
-- them.
pub with_status-In :
    (p : InstancePhase) (x : ChallengeInstance) (items : List ChallengeInstance)
    → p ≢ unset
    → In x (with_status (phase_text p) items) ↔ (In x items × (x.status.phase ≡ p))
unfolding with_status
with_status-In p x items given =
    let asked = given_phase p given in
    let (there, listed) = select-Any (λ i. same_phase i.status.phase p) x items in
    rw asked (
      (λ h. let (m, e) = there h in (m, (same_phase_iff x.status.phase p).0 e)),
      (λ (m, e). listed (m, (same_phase_iff x.status.phase p).1 e)),
    )

-- An extension reaches the expiry only as long as there is none. Once an instance has an expiry,
-- the instance's controller keeps it, whatever the extension asks for. Without one, the new TTL
-- counts from the time of the reconciliation.
pub ensure_expiry-with_ttl :
    {W E : Type 0} (api : Api W E) (i : ChallengeInstance) (tmpl : ChallengeTemplate) (ttl : String)
    (d : Duration) (s : Sys W)
    → ttl ≢ ""
    → api.parse_duration ttl ≡ some d
    → ((expiry : Time)
        → i.status.expires_at ≡ some expiry
        → ensure_expiry api (with_ttl ttl i) tmpl s ≡ (ok (with_ttl ttl i), s))
      × (i.status.expires_at ≡ none
          → ensure_expiry api (with_ttl ttl i) tmpl s ≡ (
            ok (record (with_ttl ttl i) {
              status = record i.status {
                started_at = some (api.clock s.world);
                expires_at = some (api.clock s.world +ℤ d);
              };
            }),
            s,
          ))
unfolding ensure_expiry effective_ttl
ensure_expiry-with_ttl api i tmpl ttl d s given parsed =
    let not_given : (ttl == "") ≡ false = ground (arith, eq_iff ttl "") in
    (λ expiry e. rw e refl, λ e. rw (e, not_given, parsed) refl)
