-- ===== src/Integrations/Generic.antt =====
-- The generic backend: internal/integrations/generic.go.
use kimo.Prelude.{
  ℕ, String, ◌<>◌, ◌==◌, List, [], ◌∷◌, Map, insert, Result, ok, err, leb, ◌++◌, if◌then◌else◌,
}
use kimo.Cluster.{GoError, api_error, text}
use kimo.Pow.{hex, decimal}
use kimo.Integrations.Event.{Event}
use kimo.Integrations.Backend.{Principal, HttpRequest}
use kimo.Integrations.Http.{HttpCall, HttpReply, Wire, Client, send}

-- The hooks go from a URL to its secret. The mutex makes each access one step; the order in which
-- Go visits them is that of the list.
pub record GenericBackend : Type 0 where
  pub api_key : String
  pub hooks : Map String

-- The decoder of the configuration answers the field `apiKey`.
unfoldable pub new_generic_backend :
    {E : Type 0} → (String → Result E String) → String → Result (GoError E) GenericBackend
new_generic_backend decode cfg =
    if cfg == "" then ok (record { api_key = ""; hooks = [] }) else elim (decode cfg) [
      | ok key ↦ ok (record { api_key = key; hooks = [] })
      | err e ↦ err (GoError.wrapped "parsing generic backend config" (api_error e))
    ]

unfoldable pub register_webhook : String → String → GenericBackend → GenericBackend
register_webhook url secret b = record b { hooks = insert url secret b.hooks }

unfoldable pub authenticate :
    {E : Type 0} → GenericBackend → HttpRequest → Result (GoError E) Principal
authenticate b r =
    if r.authorization == "Bearer " <> b.api_key
    then ok (record { subject = "api-key"; team = ""; scopes = "admin" ∷ [] })
    else err (text "unauthorized")

-- HMAC with SHA-256 is a parameter: a secret and a text in, bytes out.
module _ (hmac : String → String → List ℕ) where
  abbrev pub signed : String → String × String → HttpCall
  signed payload (url, secret) = record {
    method = "POST";
    url = url;
    headers =
        ("Content-Type", "application/json") ∷ ("X-KIMO-Signature", hex (hmac secret payload)) ∷ [];
    body = payload;
  }

  module _ {W E : Type 0} (client : Client W E) where
    abbrev pub outcome : String → Result E HttpReply → List (GoError E)
    outcome url (err e) = api_error e ∷ []
    outcome url (ok reply) =
        if leb 300 reply.status
        then text ("webhook " <> url <> " returned " <> decimal reply.status) ∷ []
        else []

    -- No error, or one.
    unfoldable pub post_signed : String → String → String → Wire W → List (GoError E) × Wire W
    post_signed url secret payload wire =
        let (r, wire') = send client (signed payload (url, secret)) wire in (outcome url r, wire')

    -- The loop over the hooks, which collects the errors.
    unfoldable pub fan_out : Map String → String → Wire W → List (GoError E) × Wire W
    fan_out [] payload wire = ([], wire)
    fan_out ((url, secret) ∷ hooks) payload wire =
        let (errs, wire') = post_signed url secret payload wire in
        let (more, wire'') = fan_out hooks payload wire' in (errs ++ more, wire'')

    abbrev post_all : Map String → Result E String → Wire W → List (GoError E) × Wire W
    post_all hooks (err e) wire = (api_error e ∷ [], wire)
    post_all hooks (ok payload) wire = fan_out hooks payload wire

    -- The errors that `errors.Join` makes one of: `Notify` returns nil if there are none.
    unfoldable pub notify :
        (Event → Result E String) → GenericBackend → Event → Wire W → List (GoError E) × Wire W
    notify encode b event wire = post_all b.hooks (encode event) wire
