-- ===== src/Server/Handlers.antt =====
-- The handlers of internal/api/handlers.go, other than the one that creates an instance.
use kimo.Prelude.{
  String, ◌==◌, true, false, Option, none, some, List, [], Map, insert, select, if◌then◌else◌, ◌<>◌,
}
use kimo.Types.{
  NamespacedName, phase_text, ChallengeInstance, ChallengeTemplate, PowSpec, label_team,
  label_challenge,
}
use kimo.Cluster.{
  get_template, get_instance, list_templates, list_instances, update_instance, delete_instance, Api,
  GoError, call, error_string, is_not_found,
}
use kimo.Pow.{generate_pow_puzzle}
use kimo.Server.State.{
  no_body, not_required, puzzle, template, templates, instance_body, instances, Response,
  http_error, write_json, Action, calling, respond,
}
use kimo.Server.Puzzles.{store_pow}

abbrev pub default_namespace : String
default_namespace = "default"

-- What the query of a list request may hold: a text that is empty when it is left out.
pub record InstanceQuery : Type 0 where
  pub team : String
  pub challenge : String
  pub status : String

abbrev pub named : String → NamespacedName
named name = record { name = name; namespace = default_namespace }

unfoldable pub list_options : InstanceQuery → Map String
list_options q =
    let by_team = if q.team == "" then [] else insert label_team q.team [] in
    if q.challenge == "" then by_team else insert label_challenge q.challenge by_team

unfoldable pub with_status : String → List ChallengeInstance → List ChallengeInstance
with_status status items =
    if status == "" then items else select (λ i. phase_text i.status.phase == status) items

abbrev pub with_ttl : String → ChallengeInstance → ChallengeInstance
with_ttl ttl i = record i { spec = record i.spec { ttl_override = ttl } }

module _ {W E : Type 0} (api : Api W E) where
  -- `http.Error(w, err.Error(), http.StatusInternalServerError)`
  abbrev pub internal : GoError E → Action W Response
  internal e = respond (http_error (error_string api e) 500)

  -- A text and status 404 if the object was not found.
  unfoldable pub missing_or_internal : String → GoError E → Action W Response
  missing_or_internal text e st = elim (is_not_found api e) [
    | true ↦ respond (http_error text 404) st
    | false ↦ internal e st
  ]

  unfoldable pub list_all_templates : Action W Response
  list_all_templates =
      calling (call (list_templates default_namespace) (api.list_templates default_namespace))
        (λ ts. respond (write_json 200 (templates ts))) internal

  -- Read a template, and go on with it.
  unfoldable pub with_template :
      String → (ChallengeTemplate → Action W Response) → Action W Response
  with_template name go =
      calling (call (get_template (named name)) (api.get_template (named name))) go
        (missing_or_internal "template not found")

  unfoldable pub with_instance :
      String → (ChallengeInstance → Action W Response) → Action W Response
  with_instance name go =
      calling (call (get_instance (named name)) (api.get_instance (named name))) go
        (missing_or_internal "instance not found")

  unfoldable pub template_by_name : String → Action W Response
  unfolding with_template
  template_by_name name = with_template name λ t. respond (write_json 200 (template t))

  unfoldable pub instance_by_name : String → Action W Response
  unfolding with_instance
  instance_by_name name = with_instance name λ i. respond (write_json 200 (instance_body i))

  unfoldable pub list_some_instances : InstanceQuery → Action W Response
  list_some_instances q =
      calling
        (call (list_instances (some default_namespace) (list_options q))
          (api.list_instances (some default_namespace) (list_options q)))
        (λ items. respond (write_json 200 (instances (with_status q.status items)))) internal

  unfoldable pub remove_instance : String → Action W Response
  remove_instance name =
      calling (call (delete_instance (named name)) (api.delete_instance (named name)))
        (λ _. respond (record { status = 204; body = no_body }))
        (missing_or_internal "instance not found")

  unfoldable pub write_ttl : String → ChallengeInstance → Action W Response
  write_ttl ttl i =
      calling (call (update_instance (with_ttl ttl i)) (api.update_instance (with_ttl ttl i)))
        (λ updated. respond (write_json 200 (instance_body updated))) internal

  -- The body is the text of the field `ttl`, if the decoder accepts it.
  unfoldable pub extend_instance : Option String → String → Action W Response
  unfolding with_instance
  extend_instance none name = respond (http_error "invalid body" 400)
  extend_instance (some ttl) name = elim (api.parse_duration ttl) [
    | none ↦ respond (http_error ("invalid ttl: " <> api.duration_error ttl) 400)
    | some _ ↦ with_instance name (write_ttl ttl)
  ]

  -- `rand.Read`, then the puzzle and its place in the map.
  unfoldable pub issue : PowSpec → Action W Response
  issue spec st =
      let (bytes, world) = api.random st.sys.world in
      let p = generate_pow_puzzle spec.difficulty bytes (api.clock world) in
      (write_json 200 (puzzle p), store_pow p (record st { sys = record st.sys { world = world } }))

  unfoldable pub puzzle_for : Option PowSpec → Action W Response
  puzzle_for none = respond (write_json 200 not_required)
  puzzle_for (some spec) = elim spec.enabled [
    | true ↦ issue spec
    | false ↦ respond (write_json 200 not_required)
  ]

  unfoldable pub pow_challenge : String → Action W Response
  unfolding with_template
  pow_challenge name = elim (name == "") [
    | true ↦ respond (http_error "template query parameter is required" 400)
    | false ↦ with_template name λ t. puzzle_for t.spec.pow
  ]
