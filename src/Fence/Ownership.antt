-- ===== src/Fence/Ownership.antt =====
-- Whom the objects belong to that the controllers create, from
-- internal/controller/challengeinstance_controller.go to networkfence_controller.go.
use kimo.Prelude.{◌≡◌, ◌∙◌, ap, refl, Option, ok}
use kimo.Prelude.Int.{pos}
use kimo.Types.{NamespacedName, ObjectMeta, ChallengeInstance, NetworkFence, NetworkPolicy}
use kimo.Cluster.{Api, get_instance, get_fence, Sys, is_not_found}
use kimo.Cluster.Log.{
  Extends, Only, Only-pure, Only-raise, Only-call, Only-if, Only-attempt, Only-then,
}
use kimo.Cluster.Follows.{Extends-read, Only-bind_of}
use kimo.Integrations.Backend.{Backend}
use kimo.Instance.Quiet.{KeepsKey, owned_by-Returns}
use kimo.Instance.Ownership.{
  BelongsTo, IsOwned, wrapping-IsOwned, owned_by-IsOwned, advance-IsOwned,
}
use kimo.Instance.Reconcile
use kimo.Fence.{build_network_policy, apply_policy, fence_off, reconcile}

module _ {W E : Type 0} (api : Api W E) where
  apply_policy-IsOwned :
      (owner : ObjectMeta) (np : NetworkPolicy)
      → BelongsTo api owner np.metadata
      → np.metadata.namespace ≡ owner.namespace
      → Only (IsOwned api owner) (apply_policy api np)
  apply_policy-IsOwned owner np belongs space =
      unfold apply_policy in
      Only-attempt _ _ _ (Only-call _ _ (λ b. tt))
        (λ old. wrapping-IsOwned api owner _ _ (Only-call _ _ (λ b. tt)))
        (λ e.
          Only-if _ _ _ (wrapping-IsOwned api owner _ _ (Only-call _ _ (λ b. (belongs, space))))
            (Only-raise e))

  fence_off-IsOwned :
      KeepsKey api
      → (fence : NetworkFence) → Only (IsOwned api fence.metadata) (fence_off api fence)
  fence_off-IsOwned keeps fence =
      let np = build_network_policy fence in
      let space : np.metadata.namespace ≡ fence.metadata.namespace =
        unfold build_network_policy in refl in
      unfold fence_off in
      Only-bind_of (λ m. api.set_controller_reference fence.metadata np.metadata ≡ ok m) _ _
        (owned_by-Returns api fence.metadata np.metadata) (owned_by-IsOwned api _ _ _)
        (λ m q.
          Only-then _ _
            (apply_policy-IsOwned fence.metadata (record np { metadata = m }) (np.metadata, q)
              (ap (λ (k : NamespacedName). k.namespace) (keeps fence.metadata np.metadata m q)
                ∙ space))
            (Only-then _ _ (Only-call _ _ (λ b. tt)) (Only-pure _)))

-- What a run of the instance controller creates has been given the instance that the run read as
-- its owner, and has its name and namespace; what a run of the network fence controller creates has
-- been given the fence that it read as its owner, in its namespace. No run creates or deletes an
-- instance. Assumed is that an owner reference keeps an object's name and namespace.
pub reconcile-IsOwned :
    {W E : Type 0} (api : Api W E) (backend : Option (Backend W E))
    → KeepsKey api
    → (key key' : NamespacedName) (s s' : Sys W) {i : ChallengeInstance} {fence : NetworkFence}
    → (api.get_instance key s.world).0 ≡ ok i
    → (api.get_fence key' s'.world).0 ≡ ok fence
    → Extends (IsOwned api i.metadata) s.log (Reconcile.reconcile api backend key s).1.log
      × Extends (IsOwned api fence.metadata) s'.log (reconcile api key' s').1.log
reconcile-IsOwned api backend keeps key key' s s' found found' = (
  unfold Reconcile.reconcile in
      Extends-read (λ (i : ChallengeInstance). IsOwned api i.metadata) (get_instance key)
        (api.get_instance key) _ _ (λ i b. tt) (advance-IsOwned api backend keeps)
        (λ i e. Only-if (is_not_found api e) _ _ (Only-pure (pos 0)) (Only-raise e)) s found,
  unfold reconcile in
      Extends-read (λ (f : NetworkFence). IsOwned api f.metadata) (get_fence key')
        (api.get_fence key') _ _ (λ f b. tt) (fence_off-IsOwned api keeps)
        (λ f e. Only-if (is_not_found api e) _ _ (Only-pure (pos 0)) (Only-raise e)) s' found',
)
