-- ===== src/Instance/Steps.antt =====
-- The rules by which the steps of a reconcile add up to its report.
use kimo.Prelude.{String, ◌≡◌, refl, ◌≢◌, not, subst, inr, Bool, false, Option, List, Any}
use kimo.Types.{
  Duration, NamespacedName, key_of, InstancePhase, failed, pending, ChallengeInstance,
  ChallengeTemplate,
}
use kimo.Cluster.{
  Api, Request, Exchange, get_instance, get_template, update_instance_status, notify, GoError, M,
  Sys, is_not_found, error_string,
}
use kimo.Cluster.Log.{Extends, same, more, Extends-trans, Extends-map, Only}
use kimo.Cluster.Returns.{
  Returns, done, fail, Returns-call, Returns-attempt, Returns-bind, Returns-then, Returns-map,
  Returns-if,
}
use kimo.Cluster.Follows.{Returns-Only}
use kimo.Integrations.Backend.{Backend}
use kimo.Instance.Phase.{terminal}
use kimo.Instance.Reconcile.{transition, observe, conclude, provision, advance}
use kimo.Instance.Quiet.{
  IsQuiet, IsFence, KeepsKey, ensure_workload-IsQuiet, ensure_network_fence-IsQuiet,
  ensure_expiry-IsQuiet, ensure_network_fence-IsFence, determine_phase-IsQuiet,
}
use kimo.Instance.Transition.{Reported, transition-Returns}
use kimo.Instance.Alike.{
  Alike, Alike-refl, Alike-trans, ensure_workload-Alike, ensure_expiry-Alike, determine_phase-Alike,
}

-- A call that told nobody of a phase: no event, and no status update that succeeded.
abbrev Unreported : Request → Bool → Type 0
Unreported (update_instance_status i) b = b ≡ false
Unreported (notify e) b = ⊥
Unreported _ b = Unit

abbrev pub IsUnreported : Exchange → Type 0
IsUnreported x = Unreported x.request x.succeeded

IsQuiet-Unreported :
    (q : Request) (b : Bool) → IsQuiet (record { request = q; succeeded = b }) → Unreported q b
IsQuiet-Unreported (get_instance k) b h = tt
IsQuiet-Unreported (update_instance_status i) b h = cc
IsQuiet-Unreported (notify e) b h = cc
IsQuiet-Unreported _ b h = tt

quiet-IsUnreported : {a b : List Exchange} → Extends IsQuiet a b → Extends IsUnreported a b
quiet-IsUnreported h = Extends-map (λ x. IsQuiet-Unreported x.request x.succeeded) h

Any-Extends :
    (P : Exchange → Type 0) {Q : Exchange → Type 0} {a b : List Exchange}
    → Any P a
    → Extends Q a b
    → Any P b
Any-Extends P h same = h
Any-Extends P h (more q k) = inr (Any-Extends P h k)

-- How a reconcile that returns no error ends: calls that report nothing, then the report of one
-- phase `now`. Unless the phase is Pending or Failed, the fence was ensured before.
pub record Success {W E : Type 0} (backend : Option (Backend W E)) (key : NamespacedName)
    (before : InstancePhase) (old new : List Exchange) : Type 0 where
  pub now : InstancePhase
  pub rest : List Exchange
  pub quiet : Extends IsQuiet old rest
  pub fenced : now ≢ pending → now ≢ failed → Any (IsFence key) rest
  pub report : Reported backend before now rest new

module _ {W E : Type 0} (api : Api W E) (backend : Option (Backend W E)) where
  unfoldable pub Ends : ChallengeInstance → List Exchange → Duration → Sys W → Type 0
  Ends i old d s' = Success backend (key_of i.metadata) i.status.phase old s'.log

  unfoldable pub Fails : List Exchange → GoError E → Sys W → Type 0
  Fails old e s' = Extends IsUnreported old s'.log

  pub quiet_Fails :
      (old : List Exchange) (e : GoError E) (s : Sys W) → Extends IsQuiet old s.log → Fails old e s
  unfolding Fails
  quiet_Fails old e s h = quiet-IsUnreported h

  -- A report after calls that report nothing, of an instance that is `i` but for its details.
  transition_after :
      (i j : ChallengeInstance) (now : InstancePhase) (reason : String) (old : List Exchange)
      (s : Sys W)
      → Alike i j
      → Extends IsQuiet old s.log
      → (now ≢ pending → now ≢ failed → Any (IsFence (key_of i.metadata)) s.log)
      → Returns (Ends i old) (Fails old) (transition api backend j now reason s)
  unfolding Ends Fails
  transition_after i j now reason old s alike quiet fenced =
      Returns-map
        (λ d s' r. record {
          now = now;
          rest = s.log;
          quiet = quiet;
          fenced = fenced;
          report = subst (λ p. Reported backend p now s.log s'.log) alike.1 r;
        })
        (λ e s' r. rw r.last (more refl (quiet-IsUnreported quiet)))
        (transition-Returns api backend j now reason s)

  -- A step that reports nothing keeps the calls so far quiet, and an error of it ends all.
  IsQuiet-step :
      {A : Type 0} {Q : A → Sys W → Type 0} (m : M W E A) (old : List Exchange) (s : Sys W)
      → Only IsQuiet m
      → Extends IsQuiet old s.log
      → Returns Q (λ e s'. Unit {0}) (m s)
      → Returns
          (λ a s'. Q a s' × Extends IsQuiet old s'.log × Extends IsQuiet s.log s'.log)
          (Fails old)
          (m s)
  unfolding Fails
  IsQuiet-step m old s only quiet h =
      Returns-map (λ a s' q. (q.0, Extends-trans quiet q.1, q.1))
        (λ e s' r. quiet-IsUnreported (Extends-trans quiet r.1)) (Returns-Only m s only h)

  observe-Returns :
      (i j : ChallengeInstance) (tmpl : ChallengeTemplate) (old : List Exchange) (s : Sys W)
      → Alike i j
      → Extends IsQuiet old s.log
      → Any (IsFence (key_of i.metadata)) s.log
      → Returns (Ends i old) (Fails old) (observe api backend j tmpl s)
  observe-Returns i j tmpl old s alike quiet fence =
      unfold observe in
      Returns-bind _ _ s
        (IsQuiet-step _ old s (determine_phase-IsQuiet api backend j tmpl) quiet
          (determine_phase-Alike api backend j tmpl s))
        (λ v s₁ h.
          transition_after i v.instance' v.phase v.reason old s₁
            (Alike-trans i j v.instance' alike h.0) h.1
            (λ _ _. Any-Extends (IsFence (key_of i.metadata)) fence h.2))

  conclude-Returns :
      (i j : ChallengeInstance) (tmpl : ChallengeTemplate) (old : List Exchange) (s : Sys W)
      → Alike i j
      → Extends IsQuiet old s.log
      → Any (IsFence (key_of i.metadata)) s.log
      → Returns (Ends i old) (Fails old) (conclude api backend j tmpl s)
  conclude-Returns i j tmpl old s alike quiet fence =
      unfold conclude in
      Returns-attempt _ _ _ s
        (Returns-Only _ s (ensure_expiry-IsQuiet api j tmpl) (ensure_expiry-Alike api j tmpl s))
        (λ k s₁ h.
          observe-Returns i k tmpl old s₁ (Alike-trans i j k alike h.0) (Extends-trans quiet h.1)
            (Any-Extends (IsFence (key_of i.metadata)) fence h.1))
        (λ e s₁ h.
          transition_after i j failed (error_string api e) old s₁ alike (Extends-trans quiet h.1)
            (λ _ n. absurd (n refl)))

  provision-Returns :
      KeepsKey api
      → (i : ChallengeInstance) (tmpl : ChallengeTemplate) (old : List Exchange) (s : Sys W)
      → Extends IsQuiet old s.log
      → Returns (Ends i old) (Fails old) (provision api backend i tmpl s)
  provision-Returns keeps i tmpl old s quiet =
      unfold provision in
      Returns-if (not tmpl.status.ready) _ _ s
        (Returns-then _ _ s
          (transition_after i i pending "waiting for template to be ready" old s (Alike-refl i)
            quiet (λ n _. absurd (n refl)))
          (λ d s₁ h. unfold Ends in done h))
        (Returns-bind _ _ s
          (IsQuiet-step _ old s (ensure_workload-IsQuiet api i tmpl) quiet
            (ensure_workload-Alike api i tmpl s))
          (λ j s₁ h.
            Returns-then _ _ s₁
              (IsQuiet-step _ old s₁ (ensure_network_fence-IsQuiet api j tmpl) h.1
                (ensure_network_fence-IsFence api keeps j tmpl s₁))
              (λ f s₂ k.
                conclude-Returns i j tmpl old s₂ h.0 k.1
                  (subst (λ m. Any (IsFence (key_of m)) s₂.log) h.0.0 k.0))))

  pub advance-Returns :
      KeepsKey api
      → (i : ChallengeInstance) (old : List Exchange) (s : Sys W) → terminal i.status.phase ≡ false
      → Extends IsQuiet old s.log
      → Returns (Ends i old) (Fails old) (advance api backend i s)
  advance-Returns keeps i old s live quiet =
      unfold advance in
      rw live (
        Returns-attempt _ _ _ s (Returns-call (get_template _) _ s)
          (λ tmpl s₁ h. provision-Returns keeps i tmpl old s₁ (rw h (more refl quiet)))
          (λ e s₁ h.
            Returns-if (is_not_found api e) _ _ s₁
              (transition_after i i failed _ old s₁ (Alike-refl i) (rw h (more refl quiet))
                (λ _ n. absurd (n refl)))
              (fail (quiet_Fails old e s₁ (rw h (more refl quiet))))))
