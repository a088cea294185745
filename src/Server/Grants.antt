-- ===== src/Server/Grants.antt =====
-- Who gets an instance: `handleCreateInstance` of internal/api/handlers.go.
use kimo.Prelude.{
  ℕ, String, ◌==◌, ◌||◌, Bool, true, false, Option, none, some, List, ◌∷◌, ◌≡◌, ◌≢◌, refl, lookup,
  ok, arith, eq_iff, Bool-cases, ◌⊎◌, inl, inr, ap, sym, ◌∙◌, subst,
}
use kimo.Types.{ChallengeTemplate}
use kimo.Cluster.{
  create_instance, get_template, Request, Exchange, Api, GoError, is_not_found, is_already_exists,
}
use kimo.Cluster.Log.{Extends, same, more, Extends-trans}
use kimo.Cluster.Returns.{Returns-answer, Returns-call}
use kimo.Server.State.{Response, State, calling-Returns}
use kimo.Server.Puzzles.{consume_pow, verdict, consume_pow-verdict, consume_pow-sys}
use kimo.Server.Handlers.{named, missing_or_internal, with_template}
use kimo.Server.Create.{
  CreateInstanceRequest, new_instance, pow_required, exists_or_internal, place, place_if, redeem,
  admit, handle_create_instance,
}

-- A read of a template, or an attempt to create an instance that failed.
pub HarmlessCall : Request → Bool → Type 0
HarmlessCall (get_template k) b = Unit
HarmlessCall (create_instance i) b = b ≡ false
HarmlessCall _ b = ⊥

abbrev pub Harmless : Exchange → Type 0
Harmless x = HarmlessCall x.request x.succeeded

module _ {W E : Type 0} (sha256 : String → List ℕ) (api : Api W E) where
  -- The puzzle that the request names is redeemed at the time of the request.
  abbrev pub Paid : CreateInstanceRequest → State W → Type 0
  Paid b st =
      verdict sha256 (lookup b.pow_challenge st.puzzles) b.pow_nonce (api.clock st.sys.world) ≡ true

  -- What has been created, and what has not.
  abbrev Placed : CreateInstanceRequest → List Exchange → Response × State W → Type 0
  Placed b log x =
      (x.0.status ≡ 201)
      × (x.1.sys.log
          ≡ record { request = create_instance (new_instance b); succeeded = true } ∷ log)

  abbrev pub Kept : List Exchange → Response × State W → Type 0
  Kept log x = (x.0.status ≢ 201) × Extends Harmless log x.1.sys.log

  missing_or_internal-Kept :
      (text : String) (e : GoError E) (st : State W)
      → Kept st.sys.log (missing_or_internal api text e st)
  unfolding missing_or_internal
  missing_or_internal-Kept text e st = elim (Bool-cases (is_not_found api e)) [
    | inl y ↦ rw (missing_or_internal, y) ((ground arith, same))
    | inr n ↦ rw (missing_or_internal, n) ((ground arith, same))
  ]

  exists_or_internal-Kept :
      (e : GoError E) (st : State W) → Kept st.sys.log (exists_or_internal sha256 api e st)
  unfolding exists_or_internal
  exists_or_internal-Kept e st = elim (Bool-cases (is_already_exists api e)) [
    | inl y ↦ rw (exists_or_internal, y) ((ground arith, same))
    | inr n ↦ rw (exists_or_internal, n) ((ground arith, same))
  ]

  Kept-after :
      {log log' : List Exchange} (x : Response × State W)
      → Extends Harmless log log'
      → Kept log' x
      → Kept log x
  Kept-after x h (s, k) = (s, Extends-trans h k)

  place_lem :
      (b : CreateInstanceRequest) (st : State W)
      → Placed b st.sys.log (place sha256 api b st) ⊎ Kept st.sys.log (place sha256 api b st)
  unfolding place HarmlessCall
  place_lem b st =
      calling-Returns _ _ _ st (λ x. Placed b st.sys.log x ⊎ Kept st.sys.log x)
        (Returns-call (create_instance (new_instance b)) (api.create_instance (new_instance b))
          st.sys)
        (λ i s grown. inl ((refl, grown)))
        (λ e s grown. inr (
          Kept-after (exists_or_internal sha256 api e (record st { sys = s }))
            (subst (Extends Harmless st.sys.log) (sym grown) (
              more {x = record { request = create_instance (new_instance b); succeeded = false }}
                refl same))
            (exists_or_internal-Kept e _)))

  -- Either the instance is placed, and `P` holds, or it is not.
  abbrev Decided : CreateInstanceRequest → Type 0 → List Exchange → Response × State W → Type 0
  Decided b P log x = (Placed b log x × P) ⊎ Kept log x

  place_with :
      (b : CreateInstanceRequest) (P : Type 0) (st : State W)
      → P
      → Decided b P st.sys.log (place sha256 api b st)
  place_with b P st p = elim (place_lem b st) [
    | inl placed ↦ inl ((placed, p))
    | inr kept ↦ inr kept
  ]

  place_if_lem :
      (b : CreateInstanceRequest) (paid : Bool) (P : Type 0) (st : State W)
      → (paid ≡ true → P)
      → Decided b P st.sys.log (place_if sha256 api paid b st)
  unfolding place_if
  place_if_lem b true P st h = place_with b P st (h refl)
  place_if_lem b false P st h = inr ((ground arith, same))

  redeem_lem :
      (b : CreateInstanceRequest) (required : Bool) (st : State W)
      → Decided b (required ≡ false ⊎ Paid b st) st.sys.log (redeem sha256 api required b st)
  unfolding redeem
  redeem_lem b false st = place_with b _ st (inl refl)
  redeem_lem b true st =
      let st' = (consume_pow sha256 api b.pow_challenge b.pow_nonce st).1 in
      subst (λ sys. Decided b (true ≡ false ⊎ Paid b st) sys.log (redeem sha256 api true b st))
        (consume_pow-sys sha256 api b.pow_challenge b.pow_nonce st)
        (place_if_lem b _ (true ≡ false ⊎ Paid b st) st' (λ paid.
          inr (sym (consume_pow-verdict sha256 api b.pow_challenge "" b.pow_nonce st).0 ∙ paid)))

  -- The template is ready, and the puzzle that it asks for is redeemed.
  abbrev pub Granted : CreateInstanceRequest → ChallengeTemplate → State W → Type 0
  Granted b t st = (t.status.ready ≡ true) × (pow_required t.spec.pow ≡ false ⊎ Paid b st)

  admit_lem :
      (b : CreateInstanceRequest) (t : ChallengeTemplate) (st : State W)
      → Decided b (Granted b t st) st.sys.log (admit sha256 api b t st)
  unfolding admit
  admit_lem b t st = elim (Bool-cases t.status.ready) [
    | inl y ↦ elim (redeem_lem b (pow_required t.spec.pow) st) [
      | inl (placed, paid) ↦ rw y (inl ((placed, (refl, paid))))
      | inr kept ↦ rw y (inr kept)
    ]
    | inr n ↦ rw n (inr ((ground arith, same)))
  ]

  -- A request is granted by a body, by the template that it names, and by what that template asks
  -- for, at the time when it has been read.
  abbrev pub GrantedBy : Option CreateInstanceRequest → State W → Response × State W → Type 0
  GrantedBy none st x = ⊥
  GrantedBy (some b) st x =
      (t : ChallengeTemplate) × ((api.get_template (named b.template) st.sys.world).0 ≡ ok t)
      × (b.template ≢ "")
      × (b.team ≢ "")
      × Granted b t (record st {
        sys = record st.sys { world = (api.get_template (named b.template) st.sys.world).1 };
      })
      × (x.0.status ≡ 201)
      × (x.1.sys.log
          ≡ record { request = create_instance (new_instance b); succeeded = true }
            ∷ record { request = get_template (named b.template); succeeded = true }
            ∷ st.sys.log)

  template_lem :
      (b : CreateInstanceRequest) (st : State W)
      → b.template ≢ ""
      → b.team ≢ ""
      → GrantedBy (some b) st (with_template api b.template (admit sha256 api b) st)
        ⊎ Kept st.sys.log (with_template api b.template (admit sha256 api b) st)
  unfolding with_template HarmlessCall
  template_lem b st n m =
      calling-Returns _ _ _ st (λ x. GrantedBy (some b) st x ⊎ Kept st.sys.log x)
        (Returns-answer (get_template (named b.template)) (api.get_template (named b.template))
          st.sys)
        (λ t s got. elim (admit_lem b t (record st { sys = s })) [
          | inl ((created, grown), granted) ↦ inl (
              (
                t,
                got.0,
                n,
                m,
                subst (λ w. Granted b t (record st { sys = record st.sys { world = w } })) got.1
                    granted,
                created,
                grown
                    ∙ ap
                        (λ l.
                          record { request = create_instance (new_instance b); succeeded = true }
                          ∷ l)
                        got.2,
              ))
          | inr kept ↦ inr (
              Kept-after (admit sha256 api b t (record st { sys = s }))
                (subst (Extends Harmless st.sys.log) (sym got.2) (
                  more {x = record { request = get_template (named b.template); succeeded = true }}
                    tt same))
                kept)
        ])
        (λ e s failed. inr (
          Kept-after (missing_or_internal api "template not found" e (record st { sys = s }))
            (subst (Extends Harmless st.sys.log) (sym failed.2) (
              more {x = record { request = get_template (named b.template); succeeded = false }} tt
                same))
            (missing_or_internal-Kept "template not found" e (record st { sys = s }))))

  -- A request to create an instance is answered in one of two ways. Either it names a template that
  -- exists and is ready, and a team, it pays the puzzle that the template asks for, and the answer
  -- is 201, with one instance created by two calls. Or the answer is not 201, and no call changed
  -- anything: there were at most a read of the template and a creation that failed.
  pub handle_create_instance-GrantedBy :
      (body : Option CreateInstanceRequest) (st : State W)
      → GrantedBy body st (handle_create_instance sha256 api body st)
        ⊎ Kept st.sys.log (handle_create_instance sha256 api body st)
  unfolding handle_create_instance
  handle_create_instance-GrantedBy none st = inr ((ground arith, same))
  handle_create_instance-GrantedBy (some b) st =
      elim (Bool-cases (b.template == "" || b.team == "")) [
        | inl y ↦ rw (handle_create_instance, y) (inr ((ground arith, same)))
        | inr n ↦
            rw (handle_create_instance, n)
              (template_lem b st (ground (arith, eq_iff b.template ""))
                (ground (arith, eq_iff b.team "")))
      ]
