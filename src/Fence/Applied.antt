-- ===== src/Fence/Applied.antt =====
-- What a run of the network fence controller writes.
use kimo.Prelude.{same_answer, ◌≡◌, refl, ◌∷◌, List, true, false, Result, ok, err, arith, subst}
use kimo.Types.{
  ObjectMeta, Duration, NamespacedName, key_of, NetworkFence, NetworkPolicy, PolicySpec,
}
use kimo.Cluster.{
  Api, Exchange, get_fence, get_policy, create_policy, update_policy, update_fence_status, GoError,
  Sys, is_not_found, lift_error,
}
use kimo.Cluster.Returns.{
  Returns, done, fail, Returns-ok, Returns-call, Returns-answer, Returns-attempt, Returns-bind,
  Returns-then, Returns-map, Returns-if,
}
use kimo.Instance.Ensure.{owned_by}
use kimo.Instance.Quiet.{KeepsKey, wrapping-Returns}
use kimo.Fence.{build_network_policy, apply_policy, fence_off, reconcile}

-- The policy was created with a spec, or an existing one was given it.
pub data Applied (spec : PolicySpec) (key : NamespacedName) (old : List Exchange)
    : List Exchange → Type 0 where
  updated :
      {np : NetworkPolicy}
      → np.spec ≡ spec
      → Applied spec key old (
          record { request = update_policy np; succeeded = true }
          ∷ record { request = get_policy key; succeeded = true }
          ∷ old)
  created :
      {np : NetworkPolicy}
      → np.spec ≡ spec
      → key_of np.metadata ≡ key
      → Applied spec key old (
          record { request = create_policy np; succeeded = true }
          ∷ record { request = get_policy key; succeeded = false }
          ∷ old)

module _ {W E : Type 0} (api : Api W E) where
  owned_by-log :
      (o m : ObjectMeta) (s : Sys W)
      → Returns
          (λ m' s'. (api.set_controller_reference o m ≡ ok m') × (s'.log ≡ s.log))
          (λ e s'. Unit {0})
          (owned_by api o m s)
  owned_by-log o m s = unfold owned_by in answered (api.set_controller_reference o m)
    where
      answered :
          (r : Result E ObjectMeta)
          → Returns (λ m' s'. (r ≡ ok m') × (s'.log ≡ s.log)) (λ e s'. Unit {0}) (lift_error r, s)
      answered (ok m') = done (refl, refl)
      answered (err e) = fail tt

  apply_policy-Applied :
      (np : NetworkPolicy) (s : Sys W)
      → Returns
          (λ a s'. Applied np.spec (key_of np.metadata) s.log s'.log)
          (λ e s'. Unit {0})
          (apply_policy api np s)
  apply_policy-Applied np s =
      unfold apply_policy in
      Returns-attempt _ _ _ s (Returns-call _ _ s)
        (λ existing s₁ got. wrapping-Returns api "updating network policy" _ s₁ (
          Returns-map (λ u s₂ h. rw h (rw got (updated refl))) (λ e s₂ h. tt)
            (Returns-call _ _ s₁)))
        (λ e s₁ missing.
          Returns-if (is_not_found api e) _ _ s₁
            (wrapping-Returns api "creating network policy" _ s₁ (
              Returns-map (λ c s₂ h. rw h (rw missing (created refl refl))) (λ e' s₂ h. tt)
                (Returns-call _ _ s₁)))
            (fail tt))

  -- The write of the status is the last call.
  pub Reported : NetworkFence → List Exchange → List Exchange → Type 0
  Reported fence old new =
      (mid : List Exchange) × Applied (build_network_policy fence).spec
        (key_of (build_network_policy fence).metadata) old mid
      × (new
          ≡ record {
            request =
                update_fence_status
                  (record fence { status = record { applied = true; message = "" } });
            succeeded = true;
          }
            ∷ mid)

  fence_off-Reported :
      KeepsKey api
      → (fence : NetworkFence) (s : Sys W)
      → Returns (λ d s'. Reported fence s.log s'.log) (λ e s'. Unit {0}) (fence_off api fence s)
  unfolding Reported
  fence_off-Reported keeps fence s =
      let np = build_network_policy fence in
      unfold fence_off in
      Returns-bind _ _ s (owned_by-log fence.metadata np.metadata s) (λ m s₁ (q, kept).
        Returns-then _ _ s₁ (apply_policy-Applied (record np { metadata = m }) s₁) (λ a s₂ h.
          Returns-then _ _ s₂ (Returns-map (λ u s₃ k. k) (λ e s₃ k. tt) (Returns-call _ _ s₂))
            (λ u s₃ k. done (
              (
                s₂.log,
                subst (λ old. Applied np.spec (key_of np.metadata) old s₂.log) kept
                    (subst (λ key. Applied np.spec key s₁.log s₂.log)
                      (keeps fence.metadata np.metadata m q) h),
                k,
              )))))

not_found :
    {E A : Type 0} {r : Result E A} {a : A} {x : GoError E} → lift_error r ≡ err x → r ≡ ok a → ⊥
not_found e e' = ground arith

-- A run that reads a fence and returns no error has made the policy of that fence: it has created
-- it after a read that failed, or has updated a policy to its spec after a read that succeeded; and
-- the last call has reported the fence as applied. Assumed is that an owner reference keeps an object's name
-- and namespace.
pub reconcile-Reported :
    {W E : Type 0} (api : Api W E)
    → KeepsKey api
    → (key : NamespacedName) (s : Sys W) {fence : NetworkFence} {d : Duration}
    → (api.get_fence key s.world).0 ≡ ok fence
    → (reconcile api key s).0 ≡ ok d
    → Reported api fence
        (record { request = get_fence key; succeeded = true } ∷ s.log)
        (reconcile api key s).1.log
reconcile-Reported api keeps key s {fence} found e =
    unfold reconcile in
    Returns-ok
      {Q = λ d s'.
        Reported api fence (record { request = get_fence key; succeeded = true } ∷ s.log) s'.log}
      {R = λ e s'. Unit {0}}
      (Returns-attempt _ _ _ s (Returns-answer (get_fence key) (api.get_fence key) s)
        (λ f s₁ h.
          subst
            (λ old.
              Returns (λ d s'. Reported api fence old s'.log) (λ e s'. Unit {0})
                (fence_off api f s₁))
            h.2
            (subst
              (λ g.
                Returns (λ d s'. Reported api g s₁.log s'.log) (λ e s'. Unit {0})
                  (fence_off api f s₁))
              (same_answer h.0 found) (fence_off-Reported api keeps f s₁)))
        (λ x s₁ h. Returns-if (is_not_found api x) _ _ s₁ (absurd (not_found h.0 found)) (fail tt)))
      e
