-- ===== src/Machine/Grace.antt =====
-- The grace window under both controllers: internal/controller/challengeinstance_controller.go and
-- lifecycle_controller.go.
use kimo.Prelude.{
  true, false, refl, sym, ap, ◌∙◌, subst, ◌≡◌, ◌≢◌, ◌⊎◌, inl, inr, Any, Option, none, some, List,
  [], ◌∷◌, String, ok, arith, if◌then◌else◌,
}
use kimo.Prelude.Int.{◌<ℤ◌, ◌≤ℤ◌, ◌+ℤ◌}
use kimo.Types.{
  Time, Duration, NamespacedName, ChallengeInstance, InstanceStatus, InstancePhase, pending,
  creating, running, unhealthy, expiring, failed, phase_text,
}
use kimo.Cluster.{Api, Exchange, update_instance_status, notify, Sys}
use kimo.Cluster.Log.{Extends, more}
use kimo.Integrations.Event.{Event}
use kimo.Integrations.Backend.{Backend}
use kimo.Instance.Phase.{terminal, event_for_phase}
use kimo.Instance.Quiet.{KeepsKey}
use kimo.Instance.Transition.{Told, event_from}
use kimo.Instance.Report.{reconcile-Success}
use kimo.Instance.Reconcile
use kimo.Instance.Reconcile.{differs}
use kimo.Machine.{observed}
use kimo.Machine.Writes.{IsSeen, reconcile-IsSeen}
use kimo.Lifecycle.{expiring_grace_window}
use kimo.Lifecycle.Visits.{left_by, Visit}
use kimo.Lifecycle.Chain.{near_run}

abbrev pub IsNotice : Exchange → Type 0
IsNotice x = (e : Event) × (x.request ≡ notify e)

-- A report of another phase than Expiring leaves the instance that was sent, and tells the backend
-- of any phase but Pending.
report_left :
    {W E : Type 0} (b : Backend W E) (i sent returned : ChallengeInstance) (q : InstancePhase)
    (reason : String) (rest new : List Exchange)
    → observed q ≡ true
    → Told
        (if differs expiring q then event_from returned reason (event_for_phase q) else none)
        (some b)
        (record { request = update_instance_status sent; succeeded = true } ∷ rest)
        new
    → (left_by i new ≡ sent) × ((q ≡ pending) ⊎ Any IsNotice new)
unfolding left_by event_for_phase phase_text
report_left b i sent returned pending reason rest new seen told = (ap (left_by i) told, inl refl)
report_left b i sent returned creating reason rest new seen (r, e) =
    (ap (left_by i) e, inr (subst (Any IsNotice) (sym e) (inl (_, refl))))
report_left b i sent returned running reason rest new seen (r, e) =
    (ap (left_by i) e, inr (subst (Any IsNotice) (sym e) (inl (_, refl))))
report_left b i sent returned unhealthy reason rest new seen (r, e) =
    (ap (left_by i) e, inr (subst (Any IsNotice) (sym e) (inl (_, refl))))
report_left b i sent returned failed reason rest new seen (r, e) =
    (ap (left_by i) e, inr (subst (Any IsNotice) (sym e) (inl (_, refl))))
report_left b i sent returned q reason rest new seen told = absurd (ground arith)

-- What was sent is what the calls of a run hold it to.
sent_head :
    (i : ChallengeInstance) (x : Exchange) (rest : List Exchange)
    → Extends (IsSeen i) [] (x ∷ rest)
    → IsSeen i x
sent_head i x rest (more p h) = p

sent_first :
    {W E : Type 0} (b : Option (Backend W E)) (i : ChallengeInstance) (o : Option Event)
    (x : Exchange) (rest new : List Exchange)
    → Told o b (x ∷ rest) new
    → Extends (IsSeen i) [] new
    → IsSeen i x
sent_first b i none x rest new told h = sent_head i x rest (subst (Extends (IsSeen i) []) told h)
sent_first none i (some e) x rest new told h =
    sent_head i x rest (subst (Extends (IsSeen i) []) told h)
sent_first (some b) i (some e) x rest new (r, told) h =
    past_notice (subst (Extends (IsSeen i) []) told h)
  where
    past_notice :
        Extends (IsSeen i) [] (record { request = notify e; succeeded = r } ∷ x ∷ rest) → IsSeen i x
    past_notice (more p k) = sent_head i x rest k

not_expiring : (q : InstancePhase) → observed q ≡ true → q ≢ expiring
not_expiring q seen e = ground arith

observed-live : (q : InstancePhase) → observed q ≡ true → q ≢ failed → terminal q ≡ false
unfolding terminal
observed-live q seen other = ground arith

-- The two controllers undo each other's work in the grace window. A run of the instance controller
-- that reads an Expiring instance and ends without an error leaves it in another phase, and tells
-- the backend of it unless the phase is Pending. A run of the lifecycle controller that reads that
-- status, with time left in the window and the phase not Failed, then leaves it Expiring again and
-- asks for a run at the expiry time. Assumed is that an owner reference keeps an object's name and
-- namespace.
pub reconcile-enters_again :
    {W E : Type 0} (api : Api W E) (b : Backend W E)
    → KeepsKey api
    → (key key' : NamespacedName) (world : W) {i k l : ChallengeInstance} {d d' : Duration}
      {now t : Time}
    → (api.get_instance key world).0 ≡ ok i
    → i.status.phase ≡ expiring
    → let (result, s) = Reconcile.reconcile api (some b) key (record { world = world; log = [] }) in
      result ≡ ok d
      → k.status ≡ (left_by i s.log).status
      → k.status.expires_at ≡ some t
      → k.status.phase ≢ failed
      → now <ℤ t
      → t ≤ℤ now +ℤ expiring_grace_window
      → Visit api (some b) key' k now d' l
      → (k.status.phase ≢ expiring)
        × ((k.status.phase ≡ pending) ⊎ Any IsNotice s.log)
        × (l.status.phase ≡ expiring)
        × (now +ℤ d' ≡ t)
reconcile-enters_again api b keeps key key' world {i} {k} {l} found grace asked left expires sound
      early near v =
    let start : Sys _ = record { world = world; log = [] } in
    let live : terminal i.status.phase ≡ false = ap terminal grace ∙ (unfold terminal in refl) in
    let h = reconcile-Success api (some b) keeps key start {i = i} found live asked in
    let r = h.report in
    let held = reconcile-IsSeen api (some b) key start {i = i} found in
    let seen = sent_first (some b) i _ _ h.rest _ r.told held in
    let observed_now : observed h.now ≡ true = ap observed (sym r.phase) ∙ seen.0.1 in
    let (sent, told) =
      report_left b i r.sent r.returned h.now r.sent.status.reason h.rest _ observed_now (
        subst
          (λ p.
            Told
              (if differs p h.now
                then event_from r.returned r.sent.status.reason (event_for_phase h.now)
                else none)
              (some b)
              (record { request = update_instance_status r.sent; succeeded = true } ∷ h.rest)
              (Reconcile.reconcile api (some b) key start).1.log)
          grace r.told) in
    let phase : k.status.phase ≡ h.now =
      ap (λ (x : InstanceStatus). x.phase) left
      ∙ ap (λ (x : ChallengeInstance). x.status.phase) sent
      ∙ r.phase in
    let moved : k.status.phase ≢ expiring = not_expiring _ (ap observed phase ∙ observed_now) in
    let (again, kept, time) =
      near_run api (some b) key' (observed-live _ (ap observed phase ∙ observed_now) sound) moved
        expires early near v in
    (moved, elim told [ inl p ↦ inl (phase ∙ p) | inr n ↦ inr n ], again, time)
