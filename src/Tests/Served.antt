-- ===== src/Tests/Served.antt =====
-- The theorems on the backends behind the API server, at concrete inputs.
use kimo.Prelude.{
  ℕ, String, true, false, some, none, List, [], ◌∷◌, Result, ok, err, ◌≡◌, ◌≢◌, ◌↔◌, refl, lookup,
}
use kimo.Prelude.Int.{pos}
use kimo.Cluster.{Api, GoError}
use kimo.Integrations.Backend.{Principal, HttpRequest, announce}
use kimo.Integrations.Generic.{signed}
use kimo.Integrations.Ctfd.{CtfdEventPayload, users_me}
use kimo.Integrations.Fanout.{calls_to}
use kimo.Integrations.Tokens.{Names}
use kimo.Server.State.{new_server, State}
use kimo.Server.Routes.{WebhookRequest, list_templates, post_webhook, in_auth_group, serve}
use kimo.Platform.Filled.{Hooked, generic_backend, ctfd_backend}
use kimo.Platform.Callers.{serve-ctfd_iff}
use kimo.Platform.Hooks.{announce-serve}
use kimo.Integrations.Http.{Wire}
use kimo.Tests.Platforms.{
  network, quiet_wire, ctfd_config, hooked, mac, encode, now_running, decode_user,
}

-- An API server that is out of reach.
abbrev down : {W : Type 0} → Api W String
down = record {
  is_not_found = λ e. false;
  is_already_exists = λ e. false;
  error_text = λ e. e;
  clock = λ w. pos 0;
  random = λ w. ([], w);
  parse_duration = λ t. none;
  duration_error = λ t. t;
  set_controller_reference = λ owner m. ok m;
  get_instance = λ k w. (err "down", w);
  get_template = λ k w. (err "down", w);
  get_set = λ k w. (err "down", w);
  get_fence = λ k w. (err "down", w);
  get_deployment = λ k w. (err "down", w);
  get_service = λ k w. (err "down", w);
  get_policy = λ k w. (err "down", w);
  get_secret = λ k w. (err "down", w);
  list_pods = λ n l w. (err "down", w);
  list_instances = λ n l w. (err "down", w);
  list_templates = λ n w. (err "down", w);
  create_instance = λ i w. (err "down", w);
  create_deployment = λ d w. (err "down", w);
  create_service = λ s w. (err "down", w);
  create_fence = λ f w. (err "down", w);
  create_policy = λ p w. (err "down", w);
  update_instance = λ i w. (err "down", w);
  update_policy = λ p w. (err "down", w);
  update_instance_status = λ i w. (err "down", w);
  update_template_status = λ t w. (err "down", w);
  update_set_status = λ s w. (err "down", w);
  update_fence_status = λ f w. (err "down", w);
  delete_instance = λ k w. (err "down", w);
}

abbrev join : List (GoError String) → String
join errs = "failed"

abbrev with_hooks : State (Hooked Unit)
with_hooks =
    new_server (record { world = record { backend = hooked; wire = quiet_wire }; log = [] })

abbrev sha256 : String → List ℕ
sha256 t = 255 ∷ []

abbrev keyed : HttpRequest
keyed = record { authorization = "Bearer key" }

abbrev hook : WebhookRequest
hook = record { url = "http://hook/"; secret = "new" }

announce-serve_example :
    let backend = generic_backend join mac network encode in
    let after = serve sha256 down backend keyed (post_webhook (some hook)) with_hooks in
    (after.0.status ≡ 200)
    × (calls_to "http://hook/" (announce (some backend) now_running after.1.sys).1.world.wire.sent
        ≡ signed mac "instance.runningweb-red" ("http://hook/", "new") ∷ [])
unfolding lookup
announce-serve_example =
    announce-serve join mac network encode sha256 down keyed hook now_running
      "instance.runningweb-red" with_hooks refl (refl, (refl, tt)) refl refl

abbrev on_wire : State (Wire Unit)
on_wire = new_server (record { world = quiet_wire; log = [] })

abbrev encode_payload : CtfdEventPayload → Result String String
encode_payload e = ok e.type

serve-ctfd_iff_example :
    let backend = ctfd_backend join network ctfd_config encode_payload decode_user in
    ((serve sha256 down backend keyed list_templates on_wire).0.status ≡ 401) ↔ (
      (in_auth_group list_templates ≡ true)
      × ((p : Principal)
          → ¬ (
              (◌≢◌ {A = String} "Bearer key" "")
              × Names decode_user (network (users_me ctfd_config "Bearer key") tt).0 p)))
serve-ctfd_iff_example =
    serve-ctfd_iff join network ctfd_config encode_payload decode_user sha256 down keyed
      list_templates on_wire
