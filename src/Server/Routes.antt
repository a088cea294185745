-- ===== src/Server/Routes.antt =====
-- The routes and their authentication: internal/api/server.go and internal/api/middleware.go.
use kimo.Prelude.{ℕ, String, Bool, true, false, Option, none, some, List, Result}
use kimo.Cluster.{Api, M, lift_error}
use kimo.Integrations.Backend.{Principal, HttpRequest, Backend}
use kimo.Server.State.{
  no_body, status_ok, Response, http_error, write_json, Action, calling, respond,
}
use kimo.Server.Handlers.{
  InstanceQuery, internal, list_all_templates, template_by_name, instance_by_name,
  list_some_instances, remove_instance, extend_instance, pow_challenge,
}
use kimo.Server.Create.{CreateInstanceRequest, handle_create_instance}

-- The fields of the body of `handleConfigureWebhook`.
pub record WebhookRequest : Type 0 where
  pub url : String
  pub secret : String

-- The registered routes, each with what its handler reads of the request: the parameter of the
-- path, the query, or the body as the decoder gives it.
pub data Route : Type 0 where
  health : Route
  list_templates : Route
  get_template : String → Route
  post_instance : Option CreateInstanceRequest → Route
  list_instances : InstanceQuery → Route
  get_instance : String → Route
  delete_instance : String → Route
  patch_extend : Option String → String → Route
  get_pow_challenge : String → Route
  post_webhook : Option WebhookRequest → Route

-- All but the health check are in the group with the middleware.
abbrev pub in_auth_group : Route → Bool
in_auth_group health = false
in_auth_group _ = true

-- A call that leaves the program and is no exchange with the API server.
unfoldable pub outside : {W E A : Type 0} → (W → Result E A × W) → M W E A
outside f s = let (r, w) = f s.world in (lift_error r, record s { world = w })

module _ {W E : Type 0} (sha256 : String → List ℕ) (api : Api W E) (backend : Backend W E) where
  unfoldable pub register_webhook :
      Option (String → String → W → Result E Unit × W) → Option WebhookRequest → Action W Response
  register_webhook none body =
      respond (http_error "active scoring backend does not support webhook registration" 501)
  register_webhook (some register) none = respond (http_error "invalid body" 400)
  register_webhook (some register) (some b) =
      calling (outside (register b.url b.secret))
        (λ _. respond (record { status = 200; body = no_body })) (internal api)

  unfoldable pub handle : Route → Action W Response
  unfolding register_webhook
  handle health = respond (write_json 200 status_ok)
  handle list_templates = list_all_templates api
  handle (get_template name) = template_by_name api name
  handle (post_instance body) = handle_create_instance sha256 api body
  handle (list_instances q) = list_some_instances api q
  handle (get_instance name) = instance_by_name api name
  handle (delete_instance name) = remove_instance api name
  handle (patch_extend body name) = extend_instance api body name
  handle (get_pow_challenge name) = pow_challenge api name
  handle (post_webhook body) = register_webhook backend.register_webhook body

  -- The principal goes into the request's context, which no handler reads.
  unfoldable pub auth_middleware : HttpRequest → (Principal → Action W Response) → Action W Response
  auth_middleware request next =
      calling (outside (backend.authenticate request)) next
        (λ _. respond (http_error "unauthorized" 401))

  unfoldable pub serve : HttpRequest → Route → Action W Response
  unfolding handle auth_middleware
  serve request route = elim (in_auth_group route) [
    | true ↦ auth_middleware request (λ principal. handle route)
    | false ↦ handle route
  ]
