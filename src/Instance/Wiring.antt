-- ===== src/Instance/Wiring.antt =====
-- How the objects of an instance fit together: labels, selectors and ports.
use kimo.Prelude.{
  ◌≡◌, refl, ◌↔◌, String, Option, none, some, List, [], ◌∷◌, Map, lookup, map, arith, All, is_nil,
}
use kimo.Prelude.Int.{ℤ}
use kimo.Types.{ChallengeInstance, ChallengeTemplate, ContainerPort, Service}
use kimo.Instance.Build.{allow_rules, service_ports, build_network_fence, build_service}

-- A label selector picks the objects that carry each of its labels.
abbrev pub Selects : Map String → Map String → Type 0
Selects selector labels = All (λ b. lookup b.0 labels ≡ some b.1) selector

-- Each of some labels stands among others.
abbrev pub Carries : Map String → Map String → Type 0
Carries labels more =
    (name value : String) → lookup name labels ≡ some value → lookup name more ≡ some value

ports-agree :
    (ps : List ContainerPort)
    → map (λ p. p.port) (service_ports ps) ≡ map (λ r. r.port) (allow_rules ps)
unfolding service_ports allow_rules
ports-agree [] = refl
ports-agree (p ∷ ps) = ground (arith, ports-agree ps)

services-nil : (ps : List ContainerPort) → is_nil (service_ports ps) ≡ is_nil (allow_rules ps)
unfolding service_ports allow_rules
services-nil [] = refl
services-nil (p ∷ ps) = ground (arith, services-nil ps)

abbrev ports_of : Option Service → List ℤ
ports_of none = []
ports_of (some svc) = map (λ p. p.port) svc.ports

-- The ports that the Service of an instance offers are those that its fence allows, in the same
-- order; an instance has no Service exactly if its fence allows no port.
service-fence :
    (i : ChallengeInstance) (tmpl : ChallengeTemplate)
    → (ports_of (build_service i tmpl)
        ≡ map (λ r. r.port) (build_network_fence i tmpl).spec.allow_rules)
      × ((build_service i tmpl ≡ none) ↔ ((build_network_fence i tmpl).spec.allow_rules ≡ []))
unfolding build_service build_network_fence
service-fence i tmpl =
    let ps = tmpl.spec.container.ports in ground (arith, ports-agree ps, services-nil ps)
