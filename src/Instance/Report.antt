-- ===== src/Instance/Report.antt =====
-- What a reconcile of an instance sends, in which order, whatever the cluster answers.
use kimo.Prelude.{
  ◌≡◌, refl, ◌∙◌, subst, inl, inr, ◌∷◌, true, false, Option, List, ok, err, Result, sym, arith,
  Bool-cases,
}
use kimo.Prelude.Int.{pos}
use kimo.Types.{Duration, NamespacedName, key_of, ChallengeInstance}
use kimo.Cluster.{Api, Exchange, get_instance, GoError, Sys, is_not_found, lift_error, effects}
use kimo.Cluster.Log.{Extends, same, more}
use kimo.Cluster.Returns.{
  Returns, done, fail, Returns-call, Returns-answer, Returns-attempt, Returns-ok, Returns-err,
  Returns-map, Returns-if,
}
use kimo.Integrations.Backend.{Backend}
use kimo.Instance.Phase.{terminal}
use kimo.Instance.Reconcile.{advance, reconcile}
use kimo.Instance.Quiet.{IsQuiet, KeepsKey}
use kimo.Instance.Steps.{IsUnreported, Success, Ends, Fails, advance-Returns, quiet_Fails}

ok-injective : {E A : Type 0} {a b : A} → ◌≡◌ {A = Result E A} (ok a) (ok b) → a ≡ b
ok-injective e = cc

ok-ne-err :
    {E A : Type 0} {r : Result E A} {a : A} {x : GoError E} → r ≡ ok a → lift_error r ≡ err x → ⊥
ok-ne-err p q = ground arith

reconcile-Ends :
    {W E : Type 0} (api : Api W E) (backend : Option (Backend W E))
    → KeepsKey api
    → (key : NamespacedName) (s : Sys W) {i : ChallengeInstance}
    → (api.get_instance key s.world).0 ≡ ok i
    → terminal i.status.phase ≡ false
    → Returns (Ends api backend i s.log) (Fails api backend s.log) (reconcile api backend key s)
reconcile-Ends api backend keeps key s {i} found live =
    unfold reconcile in
    Returns-attempt _ _ _ s (Returns-answer (get_instance key) (api.get_instance key) s)
      (λ j s₁ h.
        subst
          (λ k.
            Returns (Ends api backend i s.log) (Fails api backend s.log) (advance api backend k s₁))
          (ok-injective (sym found ∙ h.0))
          (advance-Returns api backend keeps i s.log s₁ live (rw h.2 (more refl same))))
      (λ x s₁ h. absurd (ok-ne-err found h.0))

-- If the instance that a reconcile reads is not in a final phase and the reconcile returns no
-- error, its calls are calls that report nothing, then one successful status update, then at most
-- one event. The event is sent exactly if a backend is there, the new phase is not the one that
-- was read and is one that has an event, and it is the event of that phase with the reason of the
-- update. Unless the new phase is Pending or Failed, a call before the update has shown that the
-- fence with the instance's name and namespace exists. Assumed is that an owner reference keeps an
-- object's name and namespace.
pub reconcile-Success :
    {W E : Type 0} (api : Api W E) (backend : Option (Backend W E))
    → KeepsKey api
    → (key : NamespacedName) (s : Sys W) {i : ChallengeInstance} {d : Duration}
    → (api.get_instance key s.world).0 ≡ ok i
    → terminal i.status.phase ≡ false
    → (reconcile api backend key s).0 ≡ ok d
    → Success backend (key_of i.metadata) i.status.phase s.log (reconcile api backend key s).1.log
unfolding Ends
reconcile-Success api backend keeps key s found live e =
    Returns-ok (reconcile-Ends api backend keeps key s found live) e

module _ {W E : Type 0} (api : Api W E) (backend : Option (Backend W E)) where
  advance-Fails :
      KeepsKey api
      → (i : ChallengeInstance) (old : List Exchange) (s : Sys W) → Extends IsQuiet old s.log
      → Returns (λ d s'. Unit {0}) (Fails api backend old) (advance api backend i s)
  advance-Fails keeps i old s quiet = elim (Bool-cases (terminal i.status.phase)) [
    | inl final ↦ unfold advance in rw final (done tt)
    | inr live ↦
        Returns-map (λ d s' h. tt) (λ e s' h. h)
          (advance-Returns api backend keeps i old s live quiet)
  ]

  reconcile-Fails :
      KeepsKey api
      → (key : NamespacedName) (s : Sys W)
      → Returns (λ d s'. Unit {0}) (Fails api backend s.log) (reconcile api backend key s)
  reconcile-Fails keeps key s =
      unfold reconcile in
      Returns-attempt _ _ _ s (Returns-call (get_instance key) (api.get_instance key) s)
        (λ i s₁ h. advance-Fails keeps i s.log s₁ (rw h (more refl same)))
        (λ e s₁ h.
          Returns-if (is_not_found api e) _ _ s₁ (done tt)
            (fail (quiet_Fails api backend s.log e s₁ (rw h (more refl same)))))

-- A reconcile that returns an error has told nobody of a phase: no event was sent, and no status
-- update succeeded.
pub reconcile-IsUnreported :
    {W E : Type 0} (api : Api W E) (backend : Option (Backend W E))
    → KeepsKey api
    → (key : NamespacedName) (s : Sys W) {e : GoError E} → (reconcile api backend key s).0 ≡ err e
    → Extends IsUnreported s.log (reconcile api backend key s).1.log
unfolding Fails
reconcile-IsUnreported api backend keeps key s e =
    Returns-err (reconcile-Fails api backend keeps key s) e

-- A final phase is final: a reconcile that reads an instance that is Expired or Failed makes no
-- other call, and asks for no other run.
pub reconcile-terminal :
    {W E : Type 0} (api : Api W E) (backend : Option (Backend W E)) (key : NamespacedName)
    (s : Sys W) {i : ChallengeInstance}
    → (api.get_instance key s.world).0 ≡ ok i
    → terminal i.status.phase ≡ true
    → (reconcile api backend key s).0 ≡ ok (pos 0)
      × (reconcile api backend key s).1.log
        ≡ record { request = get_instance key; succeeded = true } ∷ s.log
unfolding reconcile advance effects
reconcile-terminal api backend key s {i} found final = ground arith
