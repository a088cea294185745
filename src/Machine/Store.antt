-- ===== src/Machine/Store.antt =====
-- The stored instance under runs of both controllers that overlap: each reads the instance, and
-- writes its status later, when others may have written it. internal/controller,
-- challengeinstance_controller.go and lifecycle_controller.go.
use kimo.Prelude.{
  String, ◌≡◌, ◌≢◌, sym, subst, ◌∙◌, ap, ◌⊎◌, inl, inr, true, Option, List, [], ◌∷◌, ok, All, Any,
}
use kimo.Types.{
  ObjectMeta, NamespacedName, InstancePhase, terminating, InstanceSpec, ChallengeInstance,
}
use kimo.Cluster.{Api, Exchange, update_instance_status}
use kimo.Cluster.Log.{Extends, same, more}
use kimo.Integrations.Backend.{Backend}
use kimo.Instance.Phase.{terminal}
use kimo.Instance.Reconcile.{reconcile}
use kimo.Lifecycle
use kimo.Machine.{Next, Reaches, here, after, Reaches-terminal, Reaches-avoids}
use kimo.Machine.Writes.{NextCall, IsNext, reconcile-IsNext}
use kimo.Machine.Expiry.{lifecycle-IsNext}

abbrev pub version : ChallengeInstance → String
version i = i.metadata.resource_version

-- The instance as it is stored, and as it was before each write.
pub record Store : Type 0 where
  pub stored : ChallengeInstance
  pub past : List ChallengeInstance

-- What a read may have answered: a cache may be behind.
abbrev pub WasRead : ChallengeInstance → Store → Type 0
WasRead i s = Any (λ j. j ≡ i) (s.stored ∷ s.past)

-- Documented: an update names the version that it is based on and is refused if another is stored;
-- an update that names none is not refused.
abbrev pub Accepted : ChallengeInstance → Store → Type 0
Accepted x s = (version x ≡ "") ⊎ (version x ≡ version s.stored)

-- Documented: a write gives the object a version that it never had.
abbrev pub IsFresh : String → Store → Type 0
IsFresh v s = (v ≢ "") × All (λ j. version j ≢ v) (s.stored ∷ s.past)

abbrev pub replaced : Store → ChallengeInstance → Store
replaced s new = record { stored = new; past = s.stored ∷ s.past }

abbrev pub at_version : ObjectMeta → String → ObjectMeta
at_version m v = record m { resource_version = v }

-- Each read has a version, and no earlier one has the version of what is stored.
pub record IsConsistent (s : Store) : Type 0 where
  pub named : All (λ j. version j ≢ "") (s.stored ∷ s.past)
  pub distinct : All (λ j. version j ≢ version s.stored) s.past

IsFresh-IsConsistent :
    (s : Store) (i : ChallengeInstance)
    → IsConsistent s
    → IsFresh (version i) s
    → IsConsistent (replaced s i)
IsFresh-IsConsistent s i h (some_version, unused) = record {
  named = (some_version, h.named);
  distinct = unused;
}

All-Any :
    {A : Type 0} {P : A → Type 0} (Q : A → Type 0) (xs : List A)
    → All P xs
    → Any Q xs
    → (a : A) × P a × Q a
All-Any Q [] p q = absurd q
All-Any Q (x ∷ xs) (p, ps) (inl q) = (x, p, q)
All-Any Q (x ∷ xs) (p, ps) (inr q) = All-Any Q xs ps q

-- What is read and has the stored version is what is stored.
pub read_current :
    (s : Store) (i x : ChallengeInstance)
    → IsConsistent s
    → WasRead i s
    → x.metadata ≡ i.metadata
    → Accepted x s
    → s.stored ≡ i
read_current s i x h (inl e) held accepted = e
read_current s i x h (inr old) held accepted =
    let (j, other, e) = All-Any (λ j. j ≡ i) s.past h.distinct old in
    let (k, some_version, e') = All-Any (λ j. j ≡ i) s.past h.named.1 old in
    let kept : version x ≡ version i = ap (λ (m : ObjectMeta). m.resource_version) held in
    elim accepted [
      | inl none_named ↦ absurd (some_version (ap version e' ∙ sym kept ∙ none_named))
      | inr current ↦ absurd (other (ap version e ∙ sym kept ∙ current))
    ]

IsNext-sent :
    (i x : ChallengeInstance) {log : List Exchange}
    → Extends (IsNext i) [] log
    → Any (λ e. e.request ≡ update_instance_status x) log
    → NextCall i (update_instance_status x)
IsNext-sent i x (more p h) (inl e) = subst (NextCall i) e p
IsNext-sent i x (more p h) (inr sent) = IsNext-sent i x h sent
IsNext-sent i x same sent = absurd sent

module _ {W E : Type 0} (api : Api W E) (backend : Option (Backend W E)) where
  -- A run of one of the controllers that reads `i` and sends `x` as a status update.
  pub data Sends (i x : ChallengeInstance) : Type 0 where
    instance_run :
        (key : NamespacedName) (world : W)
        → (api.get_instance key world).0 ≡ ok i
        → Any
            (λ e. e.request ≡ update_instance_status x)
            (reconcile api backend key (record { world = world; log = [] })).1.log
        → Sends i x
    lifecycle_run :
        (key : NamespacedName) (world : W)
        → (api.get_instance key world).0 ≡ ok i
        → Any
            (λ e. e.request ≡ update_instance_status x)
            (Lifecycle.reconcile api backend key (record { world = world; log = [] })).1.log
        → Sends i x

  pub Sends-NextCall : (i x : ChallengeInstance) → Sends i x → NextCall i (update_instance_status x)
  Sends-NextCall i x (instance_run key world found sent) =
      IsNext-sent i x
        (reconcile-IsNext api backend key (record { world = world; log = [] }) {i = i} found) sent
  Sends-NextCall i x (lifecycle_run key world found sent) =
      IsNext-sent i x
        (lifecycle-IsNext api backend key (record { world = world; log = [] }) {i = i} found) sent

  -- What may happen to the stored instance: a run that read it at some time sends a status update
  -- that is accepted, or somebody else writes its metadata and its spec.
  pub data Write (s t : Store) : Type 0 where
    status_write :
        (i x : ChallengeInstance) (v : String)
        → WasRead i s
        → Sends i x
        → Accepted x s
        → IsFresh v s
        → t
          ≡ replaced s
              (record s.stored { metadata = at_version s.stored.metadata v; status = x.status })
        → Write s t
    spec_write :
        (m : ObjectMeta) (spec : InstanceSpec) (v : String)
        → IsFresh v s
        → t ≡ replaced s (record s.stored { metadata = at_version m v; spec = spec })
        → Write s t

  pub data History (start : Store) : Store → Type 0 where
    begin : History start start
    then_write : {s t : Store} → History start s → Write s t → History start t

  pub Write-IsConsistent : (s t : Store) → Write s t → IsConsistent s → IsConsistent t
  Write-IsConsistent s t (status_write i x v seen sent accepted fresh e) h =
      rw e (IsFresh-IsConsistent s _ h fresh)
  Write-IsConsistent s t (spec_write m spec v fresh e) h = rw e (IsFresh-IsConsistent s _ h fresh)

  pub History-IsConsistent : {s t : Store} → History s t → IsConsistent s → IsConsistent t
  History-IsConsistent begin h = h
  History-IsConsistent (then_write {s} {t} before w) h =
      Write-IsConsistent s t w (History-IsConsistent before h)

  abbrev phase_in : Store → InstancePhase
  phase_in s = s.stored.status.phase

  Write-Reaches :
      (p : InstancePhase) (s t : Store)
      → Write s t
      → IsConsistent s
      → Reaches p (phase_in s)
      → Reaches p (phase_in t)
  Write-Reaches p s t (status_write i x v seen sent accepted fresh e) h before =
      let (step, held, kept, url) = Sends-NextCall i x sent in
      let current = read_current s i x h seen held accepted in
      rw e (after before (subst (λ j. Next j.status.phase x.status.phase) (sym current) step))
  Write-Reaches p s t (spec_write m spec v fresh e) h before = rw e before

  History-Reaches : {s t : Store} → History s t → IsConsistent s → Reaches (phase_in s) (phase_in t)
  History-Reaches begin h = here
  History-Reaches (then_write {s} {t} before w) h =
      Write-Reaches _ s t w (History-IsConsistent before h) (History-Reaches before h)

  -- However runs of the two controllers overlap with each other and with writes of the spec, from
  -- a store whose versions are in order: the stored phase moves only by steps of the state machine
  -- from the phase that was stored, and so never leaves a final phase and never comes to
  -- Terminating. In particular a run that read the instance before it expired cannot bring it back.
  pub History-final :
      {s t : Store}
      → IsConsistent s
      → History s t
      → Reaches s.stored.status.phase t.stored.status.phase
        × (terminal s.stored.status.phase ≡ true → t.stored.status.phase ≡ s.stored.status.phase)
        × (s.stored.status.phase ≢ terminating → t.stored.status.phase ≢ terminating)
  History-final h written =
      let path = History-Reaches written h in
      (path, λ final. Reaches-terminal final path, λ other. Reaches-avoids path other)
