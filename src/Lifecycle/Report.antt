-- ===== src/Lifecycle/Report.antt =====
-- What the lifecycle controller sends.
use kimo.Prelude.{◌≡◌, ◌⊎◌, inl, inr, ◌∷◌, Bool, true, false, Option, none, some, ok, arith, is_ok}
use kimo.Prelude.Int.{◌≤ℤ◌}
use kimo.Types.{Time, NamespacedName, expiring, expired, ChallengeInstance}
use kimo.Cluster.{
  Api, Request, Exchange, get_instance, update_instance_status, notify, Sys, effects,
}
use kimo.Cluster.Log.{Only, Only-if, Only-pure, only_rules}
use kimo.Integrations.Event.{Event, event_expired, event_expiring, event_of}
use kimo.Integrations.Backend.{Backend, announce}
use kimo.Instance.Phase.{terminal}
use kimo.Instance.Reconcile.{seconds, with_phase}
use kimo.Lifecycle.{
  time_sub, Step, expire, enter_grace, wait, step_at, notify_and_set_phase, take_step, advance,
  reconcile,
}
use kimo.Lifecycle.Timing.{step_at-expire_iff}

-- The calls that the lifecycle controller may make.
abbrev TailCall : Request → Type 0
TailCall (get_instance k) = Unit
TailCall (update_instance_status i) = (i.status.phase ≡ expiring) ⊎ (i.status.phase ≡ expired)
TailCall (notify e) = (e.type ≡ event_expiring) ⊎ (e.type ≡ event_expired)
TailCall _ = ⊥

abbrev pub IsTail : Exchange → Type 0
IsTail x = TailCall x.request

module _ {W E : Type 0} (api : Api W E) (backend : Option (Backend W E)) where
  announce-IsTail :
      (b : Option (Backend W E)) (e : Event)
      → (e.type ≡ event_expiring) ⊎ (e.type ≡ event_expired)
      → Only IsTail (announce b e)
  announce-IsTail none e h = unfold announce in search only_rules
  announce-IsTail (some b) e h = unfold announce in search only_rules

  take_step-IsTail :
      (i : ChallengeInstance) (step : Step) → Only IsTail (take_step api backend i step)
  take_step-IsTail i expire =
      unfold take_step notify_and_set_phase in search (only_rules, announce-IsTail, inr) depth 8
  take_step-IsTail i (enter_grace r) =
      unfold take_step notify_and_set_phase in search (only_rules, announce-IsTail, inl) depth 8
  take_step-IsTail i (wait d) = unfold take_step in search only_rules

  advance-IsTail : (i : ChallengeInstance) (t : Option Time) → Only IsTail (advance api backend i t)
  advance-IsTail i none = unfold advance in search only_rules
  advance-IsTail i (some t) =
      unfold advance in
      Only-if (terminal i.status.phase) _ _ (Only-pure (seconds 30)) (record {
        at = λ s.
            (take_step-IsTail i (step_at i.status.phase (time_sub t (api.clock s.world)))).at s;
      })

-- The lifecycle controller writes no phase but Expiring and Expired, sends no events but theirs,
-- and changes nothing else, whatever it reads.
reconcile-IsTail :
    {W E : Type 0} (api : Api W E) (backend : Option (Backend W E)) (key : NamespacedName)
    → Only IsTail (reconcile api backend key)
reconcile-IsTail api backend key = unfold reconcile in search (only_rules, advance-IsTail) depth 8

-- A run at or after the expiry time of an instance in no final phase, whose status update
-- succeeds, sets it to Expired for the reason "TTL expired", then sends the event for that, and
-- asks for the next run in a minute.
pub reconcile-expires :
    {W E : Type 0} (api : Api W E) (b : Backend W E) (key : NamespacedName) (s : Sys W)
    {i u : ChallengeInstance} {t : Time}
    → (api.get_instance key s.world).0 ≡ ok i
    → terminal i.status.phase ≡ false
    → i.status.expires_at ≡ some t
    → t ≤ℤ api.clock (api.get_instance key s.world).1
    → (api.update_instance_status
        (with_phase i expired "TTL expired")
        (api.get_instance key s.world).1).0
      ≡ ok u
    → ((reconcile api (some b) key s).0 ≡ ok (seconds 60))
      × ((sent : Bool) × ((reconcile api (some b) key s).1.log
            ≡ record { request = notify (event_of u event_expired "TTL expired"); succeeded = sent }
              ∷ record {
                request = update_instance_status (with_phase i expired "TTL expired");
                succeeded = true;
              }
              ∷ record { request = get_instance key; succeeded = true }
              ∷ s.log))
unfolding reconcile advance take_step notify_and_set_phase announce effects
reconcile-expires api b key s {i} {u} {t} found live expires late updated =
    let w = (api.get_instance key s.world).1 in
    let over = (step_at-expire_iff i.status.phase t (api.clock w)).1 late in
    let w' = (api.update_instance_status (with_phase i expired "TTL expired") w).1 in
    (ground arith, (is_ok (b.notify (event_of u event_expired "TTL expired") w').0, ground arith))
