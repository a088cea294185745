-- ===== src/Platform/Callers.antt =====
-- Who may call the API under each backend: internal/api/middleware.go with
-- internal/integrations/generic.go and ctfd.go.
use kimo.Prelude.{
  ℕ, String, ◌<>◌, ◌==◌, eq_iff, true, false, List, Result, ok, err, is_ok, ◌≡◌, ◌≢◌, ◌↔◌, refl,
  sym, ◌∙◌, arith,
}
use kimo.Prelude.Int.{ℤ}
use kimo.Cluster.{Api, GoError}
use kimo.Integrations.Event.{Event}
use kimo.Integrations.Backend.{Principal, HttpRequest}
use kimo.Integrations.Http.{Wire, Client}
use kimo.Integrations.Generic
use kimo.Integrations.Ctfd
use kimo.Integrations.Ctfd.{CtfdConfig, CtfdEventPayload, users_me}
use kimo.Integrations.Tokens.{Names, authenticate_iff}
use kimo.Server.State.{State}
use kimo.Server.Routes.{Route, in_auth_group, serve}
use kimo.Server.Access.{serve-unauthorized_iff}
use kimo.Platform.Filled.{Hooked, as_error, generic_backend, ctfd_backend}

module _ {E : Type 0} (join : List (GoError E) → E) where
  is_ok-as_error : {A : Type 0} (r : Result (GoError E) A) → is_ok (as_error join r) ≡ is_ok r
  is_ok-as_error (ok a) = refl
  is_ok-as_error (err e) = refl

  generic-authenticate :
      {V : Type 0} (w : Hooked V) (request : HttpRequest)
      → is_ok (as_error join (Generic.authenticate {E = E} w.backend request))
        ≡ (request.authorization == "Bearer " <> w.backend.api_key)
  unfolding Generic.authenticate
  generic-authenticate w request = ground arith

-- With the generic backend a request is refused exactly if its route is not the health check and
-- its token is not the configured key.
serve-generic_iff :
    {V E : Type 0} (join : List (GoError E) → E) (hmac : String → String → List ℕ)
    (client : Client V E) (encode : Event → Result E String) (sha256 : String → List ℕ)
    (api : Api (Hooked V) E) (request : HttpRequest) (route : Route) (st : State (Hooked V))
    → ((serve sha256 api (generic_backend join hmac client encode) request route st).0.status ≡ 401)
      ↔ ((in_auth_group route ≡ true)
          × (request.authorization ≢ "Bearer " <> st.sys.world.backend.api_key))
unfolding generic_backend
serve-generic_iff join hmac client encode sha256 api request route st =
    let key = "Bearer " <> st.sys.world.backend.api_key in
    ground (
      arith,
      (serve-unauthorized_iff sha256 api (generic_backend join hmac client encode) request route
          st).0,
      generic-authenticate join st.sys.world request,
      eq_iff request.authorization key,
    )

is_ok-principal :
    {E : Type 0} (r : Result E Principal) → (is_ok r ≡ false) ↔ ((p : Principal) → r ≢ ok p)
is_ok-principal (ok p) = (λ e p' h. cc, λ h. absurd (h p refl))
is_ok-principal (err e) = (λ _ p h. cc, λ h. refl)

-- With the CTFd backend a request is refused exactly if its route is not the health check and it
-- sends no token, or CTFd's answer about the token names nobody.
pub serve-ctfd_iff :
    {V E : Type 0} (join : List (GoError E) → E) (client : Client V E) (cfg : CtfdConfig)
    (encode : CtfdEventPayload → Result E String) (decode : String → Result E (String × ℤ))
    (sha256 : String → List ℕ) (api : Api (Wire V) E) (request : HttpRequest) (route : Route)
    (st : State (Wire V))
    → ((serve sha256 api (ctfd_backend join client cfg encode decode) request route st).0.status
        ≡ 401)
      ↔ ((in_auth_group route ≡ true)
          × ((p : Principal)
              → ¬ (
                  (request.authorization ≢ "")
                  × Names decode
                      (client (users_me cfg request.authorization) st.sys.world.world).0
                      p)))
unfolding ctfd_backend
serve-ctfd_iff join client cfg encode decode sha256 api request route st =
    let backend = ctfd_backend join client cfg encode decode in
    let refused = (serve-unauthorized_iff sha256 api backend request route st).0 in
    let r = (Ctfd.authenticate client cfg decode request st.sys.world).0 in
    let same = is_ok-as_error join r in
    let nobody = is_ok-principal r in
    let named = λ (p : Principal). (authenticate_iff client cfg decode request p st.sys.world).0 in
    (
      λ h.
          let (guarded, unknown) = refused.0 h in
          (guarded, λ p k. nobody.0 (sym same ∙ unknown) p ((named p).1 k)),
      λ h. refused.1 (h.0, same ∙ nobody.1 (λ p e. h.1 p ((named p).0 e))),
    )
