-- ===== src/Fence.antt =====
-- The network fence controller: internal/controller/networkfence_controller.go.
pub mod Policy
pub mod Applied
pub mod Ownership
use kimo.Prelude.{
  String, ◌<>◌, Bool, true, ◌||◌, not, List, [], ◌∷◌, ◌++◌, ◌==◌, is_nil, if◌then◌else◌,
}
use kimo.Prelude.Int.{pos, ltb_ℤ}
use kimo.Types.{
  Duration, NamespacedName, key_of, object_meta, label_instance, AllowRule, NetworkFence,
  PolicyPort, IngressRule, EgressRule, everything, PolicyType, PolicySpec, NetworkPolicy,
}
use kimo.Types.PolicyType.{ingress, egress}
use kimo.Cluster.{
  Api, get_fence, get_policy, create_policy, update_policy, update_fence_status, M, pure, raise,
  call, attempt, ◌>>=◌, ◌>>◌, is_not_found,
}
use kimo.Instance.Ensure.{wrapping, owned_by}

ingress_ports : List AllowRule → List PolicyPort
ingress_ports [] = []
ingress_ports (allow ∷ rules) =
    let rest = ingress_ports rules in
    if ltb_ℤ (pos 0) allow.port then record { port = allow.port; protocol = "TCP" } ∷ rest else rest

ingress_from : List AllowRule → List String
ingress_from [] = []
ingress_from (allow ∷ rules) =
    let rest = ingress_from rules in if allow.cidr == "" then rest else allow.cidr ∷ rest

egress_rules : Bool → List EgressRule
egress_rules allowed = if allowed then everything ∷ [] else []

policy_types : NetworkFence → List PolicyType
unfolding egress_rules
policy_types fence =
    if not (is_nil (egress_rules fence.spec.allow_egress)) || not (is_nil fence.spec.deny_rules)
    then PolicyType.ingress ∷ PolicyType.egress ∷ []
    else PolicyType.ingress ∷ []

unfoldable pub build_network_policy : NetworkFence → NetworkPolicy
unfolding ingress_ports ingress_from egress_rules policy_types
build_network_policy fence = record {
  metadata = object_meta ("kimo-" <> fence.spec.instance_ref) fence.metadata.namespace [];
  spec = record {
    pod_selector = (label_instance, fence.spec.instance_ref) ∷ [];
    ingress =
        record {
          ports = ingress_ports fence.spec.allow_rules;
          from = ingress_from fence.spec.allow_rules;
        }
        ∷ [];
    egress = egress_rules fence.spec.allow_egress;
    policy_types = policy_types fence;
  };
}

module _ {W E : Type 0} (api : Api W E) where
  -- Create the policy, or give the existing one the new spec.
  unfoldable pub apply_policy : NetworkPolicy → M W E NetworkPolicy
  apply_policy np =
      let key = key_of np.metadata in
      attempt (call (get_policy key) (api.get_policy key))
        (λ existing.
          let updated = record existing { spec = np.spec } in
          wrapping api "updating network policy"
            (call (update_policy updated) (api.update_policy updated)))
        (λ e.
          if is_not_found api e
          then wrapping api "creating network policy"
              (call (create_policy np) (api.create_policy np))
          else raise e)

  -- With the fence in hand.
  unfoldable pub fence_off : NetworkFence → M W E Duration
  fence_off fence = do
    let np = build_network_policy fence
    m ← owned_by api fence.metadata np.metadata
    apply_policy (record np { metadata = m })
    let fence' = record fence { status = record { applied = true; message = "" } }
    call (update_fence_status fence') (api.update_fence_status fence')
    pure (pos 0)

  unfoldable pub reconcile : NamespacedName → M W E Duration
  reconcile key =
      attempt (call (get_fence key) (api.get_fence key)) fence_off
        (λ e. if is_not_found api e then pure (pos 0) else raise e)
