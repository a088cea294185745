-- ===== src/Platform/Hooks.antt =====
-- A webhook from its registration over the API to the event of a controller:
-- internal/api/server.go, internal/api/middleware.go and internal/integrations/generic.go.
use kimo.Prelude.{
  ℕ, String, ◌<>◌, ◌==◌, eq_iff, true, some, List, [], ◌∷◌, Result, ok, err, ◌≡◌, refl, ◌∙◌, ap,
}
use kimo.Cluster.{Api, GoError, Sys, lift_error, pure, settle, effects}
use kimo.Integrations.Event.{Event}
use kimo.Integrations.Backend.{HttpRequest, Backend, announce}
use kimo.Integrations.Http.{Client}
use kimo.Integrations.Generic
use kimo.Integrations.Generic.{signed}
use kimo.Integrations.Fanout.{Distinct, calls_to, notify-register}
use kimo.Server.State.{State, calling}
use kimo.Server.Routes.{
  WebhookRequest, post_webhook, serve, handle, auth_middleware, outside, register_webhook,
}
use kimo.Platform.Filled.{Hooked, generic_backend}

settle-same :
    {W E : Type 0} (r : Result E Unit) (s : Sys W)
    → (settle (lift_error r) pure (λ e. pure {E = E} tt) s).1 ≡ s
settle-same (ok u) s = refl
settle-same (err e) s = refl

-- The error of a notification is dropped, and what it did to the world stays.
announce-world :
    {W E : Type 0} (b : Backend W E) (event : Event) (s : Sys W)
    → (announce (some b) event s).1.world ≡ (b.notify event s.world).1
unfolding announce effects
announce-world b event s = ap (λ (t : Sys _). t.world) (settle-same (b.notify event s.world).0 _)

-- A caller with the key registers a webhook, and then a controller reports an event: the answer is
-- 200, and the URL gets exactly one call, with the encoded event, signed with the secret of the
-- request, whatever was registered before and however the hooks answer. No two entries have the
-- same URL before, and nothing was sent.
pub announce-serve :
    {V E : Type 0} (join : List (GoError E) → E) (hmac : String → String → List ℕ)
    (client : Client V E) (encode : Event → Result E String) (sha256 : String → List ℕ)
    (api : Api (Hooked V) E) (request : HttpRequest) (b : WebhookRequest) (event : Event)
    (payload : String) (st : State (Hooked V))
    → request.authorization ≡ "Bearer " <> st.sys.world.backend.api_key
    → Distinct st.sys.world.backend.hooks
    → encode event ≡ ok payload
    → st.sys.world.wire.sent ≡ []
    → let backend = generic_backend join hmac client encode in
      let after = serve sha256 api backend request (post_webhook (some b)) st in
      (after.0.status ≡ 200)
      × (calls_to b.url (announce (some backend) event after.1.sys).1.world.wire.sent
          ≡ signed hmac payload (b.url, b.secret) ∷ [])
unfolding serve handle auth_middleware outside register_webhook calling generic_backend
    Generic.authenticate
announce-serve join hmac client encode sha256 api request b event payload st key distinct e start =
    let known : (request.authorization == "Bearer " <> st.sys.world.backend.api_key) ≡ true =
      (eq_iff _ _).1 key in
    let one =
      notify-register hmac client encode st.sys.world.backend b.url b.secret payload event
        st.sys.world.wire distinct e start in
    let backend = generic_backend join hmac client encode in
    rw known (
      refl,
      ap (λ (w : Hooked _). calls_to b.url w.wire.sent) (announce-world backend event _) ∙ one.0,
    )
