-- ===== src/Machine/Deadline.antt =====
-- The expiry of the stored instance under runs that overlap: internal/controller,
-- challengeinstance_controller.go and lifecycle_controller.go, and the extension of
-- internal/api/handlers.go.
use kimo.Prelude.{String, ◌≡◌, refl, sym, ◌∙◌, ap, inl, inr, false, Option, some, [], ok}
use kimo.Prelude.Int.{◌≤ℤ◌}
use kimo.Types.{Time, NamespacedName, expired, ChallengeInstance}
use kimo.Cluster.{Api}
use kimo.Integrations.Backend.{Backend}
use kimo.Instance.Phase.{terminal}
use kimo.Instance.Reconcile.{with_phase}
use kimo.Lifecycle.Report.{reconcile-expires}
use kimo.Machine.Store.{
  Store, at_version, replaced, IsFresh, IsConsistent, Sends, lifecycle_run, Write, status_write,
  spec_write, History, begin, then_write, read_current, Sends-NextCall, Write-IsConsistent,
  History-IsConsistent, History-final,
}
use kimo.Server.Handlers.{with_ttl}

abbrev pub deadline : Store → Option Time
deadline s = s.stored.status.expires_at

-- The store after `handleExtendInstance` has written over the instance that it read.
abbrev pub extended : Store → String → ChallengeInstance → String → Store
extended s ttl i v =
    replaced s
      (record s.stored { metadata = at_version i.metadata v; spec = (with_ttl ttl i).spec })

module _ {W E : Type 0} (api : Api W E) (backend : Option (Backend W E)) where
  Write-deadline :
      (s t : Store) (d : Time)
      → Write api backend s t
      → IsConsistent s
      → deadline s ≡ some d
      → deadline t ≡ some d
  Write-deadline s t d (status_write i x v seen sent accepted fresh e) h set =
      let (step, held, kept, url) = Sends-NextCall api backend i x sent in
      let current = read_current s i x h seen held accepted in
      rw e (kept d (ap (λ (j : ChallengeInstance). j.status.expires_at) (sym current) ∙ set))
  Write-deadline s t d (spec_write m spec v fresh e) h set = rw e set

  History-deadline :
      {s t : Store} (d : Time)
      → History api backend s t
      → IsConsistent s
      → deadline s ≡ some d
      → deadline t ≡ some d
  History-deadline d begin h set = set
  History-deadline d (then_write {s} {t} before w) h set =
      Write-deadline s t d w (History-IsConsistent api backend before h)
        (History-deadline d before h set)

  -- An extension over the API of an instance whose expiry is set never moves that expiry: not at
  -- once, and not after any runs of the controllers and any writes of the spec that follow, other
  -- extensions included.
  pub extended-deadline :
      (ttl v : String) (i : ChallengeInstance) {d : Time} {s t : Store}
      → IsConsistent s
      → IsFresh v s
      → s.stored.status.expires_at ≡ some d
      → History api backend (extended s ttl i v) t
      → t.stored.status.expires_at ≡ some d
  extended-deadline ttl v i {d} {s} h fresh set later =
      let w = spec_write i.metadata (with_ttl ttl i).spec v fresh refl in
      History-deadline d later (Write-IsConsistent api backend s (extended s ttl i v) w h) set

-- Once the time of an instance in no final phase is over, one run of the lifecycle controller that
-- reads what is stored, and that nobody overtakes, sends an update that is accepted; and whatever
-- other runs and writes follow, the instance stays Expired.
pub lifecycle-History :
    {W E : Type 0} (api : Api W E) (b : Backend W E) (key : NamespacedName) (world : W) (v : String)
    {s : Store} {u : ChallengeInstance} {d : Time}
    → IsConsistent s
    → IsFresh v s
    → (api.get_instance key world).0 ≡ ok s.stored
    → terminal s.stored.status.phase ≡ false
    → s.stored.status.expires_at ≡ some d
    → d ≤ℤ api.clock (api.get_instance key world).1
    → (api.update_instance_status
        (with_phase s.stored expired "TTL expired")
        (api.get_instance key world).1).0
      ≡ ok u
    → let after = replaced s (record (with_phase s.stored expired "TTL expired") {
      metadata = at_version s.stored.metadata v;
    }) in
      Write api (some b) s after
      × ((later : Store) → History api (some b) after later → later.stored.status.phase ≡ expired)
lifecycle-History api b key world v {s} {u} {d} h fresh found live set late updated =
    let gone = with_phase s.stored expired "TTL expired" in
    let (_, (notified, log)) =
      reconcile-expires api b key (record { world = world; log = [] }) {i = s.stored} {u = u}
        {t = d} found live set late updated in
    let sent : Sends api (some b) s.stored gone =
      lifecycle_run key world found (rw log (inr (inl refl))) in
    let after = replaced s (record gone { metadata = at_version s.stored.metadata v }) in
    let w : Write api (some b) s after =
      status_write s.stored gone v (inl refl) sent (inr refl) fresh refl in
    let consistent = Write-IsConsistent api (some b) s after w h in
    (w, λ later before. (History-final api (some b) consistent before).1 (unfold terminal in refl))
