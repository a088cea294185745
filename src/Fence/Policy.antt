-- ===== src/Fence/Policy.antt =====
-- What the network policy of an instance lets through.
use kimo.Prelude.{◌≡◌, ◌↔◌, ◌⊎◌, String, true, List, [], ◌∷◌, arith, Any}
use kimo.Prelude.Int.{ℤ, pos, ◌<ℤ◌}
use kimo.Types.{everything, DenyRule, ContainerPort, NetworkFence, IngressRule, PolicySpec}
use kimo.Fence.{build_network_policy}

-- Documented of Kubernetes: a connection is let in if some rule lets it in; a rule lets in the
-- ports that it lists, and every port if it lists none, from the blocks that it lists, and from
-- everywhere if it lists none. What a block holds stays open: `inside block source`, and so does
-- how a cluster enforces a policy: `admits`.
module _ (inside : String → String → Type 0) where
  abbrev pub RuleAdmits : String → ℤ → IngressRule → Type 0
  RuleAdmits source port rule =
      ((rule.ports ≡ []) ⊎ Any (λ p. p.port ≡ port) rule.ports)
      × ((rule.from ≡ []) ⊎ Any (λ block. inside block source) rule.from)

  abbrev pub Enforces : (String → ℤ → PolicySpec → Type 0) → Type 0
  Enforces admits =
      (source : String) (port : ℤ) (policy : PolicySpec)
      → admits source port policy ↔ Any (RuleAdmits source port) policy.ingress

-- A port that the template exposes, and that is a port at all.
abbrev pub IsExposed : ContainerPort → Type 0
IsExposed p = (p.expose ≡ true) × (pos 0 <ℤ p.container_port)

-- Where a fence allows egress, its deny rules change nothing: with any other deny rules the policy
-- is the same, and lets everything out.
pub deny_rules-ignored :
    (fence : NetworkFence) (rules : List DenyRule)
    → fence.spec.allow_egress ≡ true
    → (build_network_policy fence
        ≡ build_network_policy (record fence { spec = record fence.spec { deny_rules = rules } }))
      × ((build_network_policy fence).spec.egress ≡ everything ∷ [])
unfolding build_network_policy
deny_rules-ignored fence rules open_ = ground arith
