-- ===== src/Integrations/Ctfd.antt =====
-- The CTFd backend: internal/integrations/ctfd.go.
use kimo.Prelude.{suc, String, ◌<>◌, ◌==◌, [], ◌∷◌, Result, ok, err, leb, eqb, if◌then◌else◌}
use kimo.Prelude.Int.{ℤ, pos, negsuc}
use kimo.Cluster.{GoError, api_error, text}
use kimo.Pow.{decimal}
use kimo.Integrations.Event.{Event, event_text}
use kimo.Integrations.Backend.{Principal, HttpRequest}
use kimo.Integrations.Http.{HttpCall, HttpReply, Wire, Client, send}

pub record CtfdConfig : Type 0 where
  pub base_url : String
  pub webhook_url : String
  pub api_key : String

abbrev checked : {E : Type 0} → Result E CtfdConfig → Result (GoError E) CtfdConfig
checked (err e) = err (GoError.wrapped "parsing ctfd backend config" (api_error e))
checked (ok c) = if c.base_url == "" then err (text "ctfd backend requires baseUrl") else ok c

unfoldable pub new_ctfd_backend :
    {E : Type 0} → (String → Result E CtfdConfig) → String → Result (GoError E) CtfdConfig
new_ctfd_backend decode cfg = checked (decode cfg)

-- What is encoded as the payload.
pub record CtfdEventPayload : Type 0 where
  pub type : String
  pub challenge : String
  pub team : String
  pub url : String

abbrev pub payload_of : Event → CtfdEventPayload
payload_of e = record {
  type = event_text e.type;
  challenge = e.challenge;
  team = e.team;
  url = e.endpoint;
}

-- `%d` of an int.
unfoldable pub signed_decimal : ℤ → String
signed_decimal (pos n) = decimal n
signed_decimal (negsuc n) = "-" <> decimal (suc n)

abbrev pub principal_of : String × ℤ → Principal
principal_of (name, team_id) = record { subject = name; team = signed_decimal team_id; scopes = [] }

module _ (cfg : CtfdConfig) where
  abbrev pub users_me : String → HttpCall
  users_me token = record {
    method = "GET";
    url = cfg.base_url <> "/api/v1/users/me";
    headers = ("Authorization", token) ∷ ("Content-Type", "application/json") ∷ [];
    body = "";
  }

  abbrev pub event_call : String → HttpCall
  event_call body = record {
    method = "POST";
    url = cfg.webhook_url;
    headers =
        ("Content-Type", "application/json") ∷ ("Authorization", "Token " <> cfg.api_key) ∷ [];
    body = body;
  }

module _ {W E : Type 0} (client : Client W E) (cfg : CtfdConfig) where
  abbrev accepted : Result E HttpReply → Result (GoError E) Unit
  accepted (err e) = err (api_error e)
  accepted (ok reply) =
      if leb 300 reply.status
      then err (text ("ctfd webhook returned " <> decimal reply.status))
      else ok tt

  abbrev post : Result E String → Wire W → Result (GoError E) Unit × Wire W
  post (err e) wire = (err (api_error e), wire)
  post (ok body) wire =
      let (r, wire') = send client (event_call cfg body) wire in (accepted r, wire')

  unfoldable pub notify :
      (CtfdEventPayload → Result E String) → Event → Wire W → Result (GoError E) Unit × Wire W
  notify encode event wire =
      if cfg.webhook_url == "" then (ok tt, wire) else post (encode (payload_of event)) wire

  -- The decoder of a body answers the fields `name` and `team_id`.
  module _ (decode : String → Result E (String × ℤ)) where
    abbrev pub decoded : Result E (String × ℤ) → Result (GoError E) Principal
    decoded (err e) = err (api_error e)
    decoded (ok user) = ok (principal_of user)

    abbrev pub identified : Result E HttpReply → Result (GoError E) Principal
    identified (err e) = err (api_error e)
    identified (ok reply) =
        if eqb reply.status 200
        then decoded (decode reply.body)
        else err (text ("ctfd rejected credentials: " <> decimal reply.status))

    unfoldable pub authenticate : HttpRequest → Wire W → Result (GoError E) Principal × Wire W
    authenticate r wire =
        let (reply, wire') = send client (users_me cfg r.authorization) wire in
        if r.authorization == ""
        then (err (text "missing authorization header"), wire)
        else (identified reply, wire')
