-- ===== src/Server/Create.antt =====
-- Creating an instance: `handleCreateInstance` of internal/api/handlers.go.
use kimo.Prelude.{ℕ, String, ◌==◌, ◌||◌, Bool, true, false, Option, none, some, List, [], insert}
use kimo.Prelude.Int.{pos}
use kimo.Types.{
  unset, ChallengeInstance, ChallengeTemplate, PowSpec, object_meta, label_team, label_challenge,
}
use kimo.Cluster.{create_instance, Api, GoError, call, is_already_exists}
use kimo.Server.State.{instance_body, Response, http_error, write_json, Action, calling, respond}
use kimo.Server.Names.{instance_name}
use kimo.Server.Puzzles.{consume_pow}
use kimo.Server.Handlers.{default_namespace, internal, with_template}

pub record CreateInstanceRequest : Type 0 where
  pub template : String
  pub team : String
  pub player : String
  pub pow_challenge : String
  pub pow_nonce : ℕ

-- The object that is sent to the API server.
abbrev pub new_instance : CreateInstanceRequest → ChallengeInstance
new_instance b = record {
  metadata =
      object_meta (instance_name b.template b.team b.player) default_namespace
        (insert label_challenge b.template (insert label_team b.team []));
  spec = record { template_ref = b.template; team = b.team; player = b.player; ttl_override = "" };
  status = record {
    phase = unset;
    reason = "";
    endpoint = "";
    started_at = none;
    expires_at = none;
    pod_name = "";
    unhealthy_count = pos 0;
    message = "";
  };
}

abbrev pub pow_required : Option PowSpec → Bool
pow_required none = false
pow_required (some spec) = spec.enabled

module _ {W E : Type 0} (sha256 : String → List ℕ) (api : Api W E) where
  unfoldable pub exists_or_internal : GoError E → Action W Response
  exists_or_internal e st = elim (is_already_exists api e) [
    | true ↦ respond (http_error "instance already exists" 409) st
    | false ↦ internal api e st
  ]

  unfoldable pub place : CreateInstanceRequest → Action W Response
  unfolding exists_or_internal
  place b =
      calling (call (create_instance (new_instance b)) (api.create_instance (new_instance b)))
        (λ created. respond (write_json 201 (instance_body created))) exists_or_internal

  -- Go on if the puzzle was redeemed.
  unfoldable pub place_if : Bool → CreateInstanceRequest → Action W Response
  unfolding place
  place_if true b = place b
  place_if false b = respond (http_error "invalid or missing proof of work" 428)

  unfoldable pub redeem : Bool → CreateInstanceRequest → Action W Response
  unfolding place place_if
  redeem false b st = place b st
  redeem true b st =
      let (paid, st') = consume_pow sha256 api b.pow_challenge b.pow_nonce st in place_if paid b st'

  unfoldable pub admit : CreateInstanceRequest → ChallengeTemplate → Action W Response
  unfolding redeem
  admit b t = elim t.status.ready [
    | true ↦ redeem (pow_required t.spec.pow) b
    | false ↦ respond (http_error "template is not ready" 409)
  ]

  -- The body as the decoder gives it.
  unfoldable pub handle_create_instance : Option CreateInstanceRequest → Action W Response
  unfolding admit
  handle_create_instance none = respond (http_error "invalid body" 400)
  handle_create_instance (some b) = elim (b.template == "" || b.team == "") [
    | true ↦ respond (http_error "template and team are required" 400)
    | false ↦ with_template api b.template (admit b)
  ]
