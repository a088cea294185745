-- ===== src/Tests/World.antt =====
-- A small cluster: what `Api` stands for, instantiated.
use kimo.Prelude.{
  String, ◌==◌, Bool, true, false, Option, none, some, List, [], ◌∷◌, Map, lookup, insert, delete,
  Result, ok, err, if◌then◌else◌, arith,
}
use kimo.Prelude.Int.{pos}
use kimo.Types.{
  Time, object_meta, InstancePhase, ChallengeInstance, ChallengeTemplate, ContainerPort, PowSpec,
  Pod, pod_running, ConditionStatus, condition_true, label_instance,
}
use kimo.Cluster.{Api, Sys}
use kimo.Instance.Reconcile.{seconds}
use kimo.Instance.Quiet.{KeepsKey}
use kimo.Integrations.Backend.{Principal, Backend}

pub data Failure : Type 0 where
  missing exists forbidden : Failure

pub record World : Type 0 where
  pub now : Time
  pub instances : Map ChallengeInstance
  pub templates : Map ChallengeTemplate
  pub pods : List Pod

abbrev pub found : {A : Type 0} → Option A → Result Failure A
found none = err missing
found (some a) = ok a

abbrev pub was_missing : Failure → Bool
was_missing missing = true
was_missing _ = false

abbrev pub was_there : Failure → Bool
was_there exists = true
was_there _ = false

abbrev pub failure_text : Failure → String
failure_text missing = "not found"
failure_text exists = "already exists"
failure_text forbidden = "forbidden"

abbrev pub put : ChallengeInstance → World → World
put i w = record w { instances = insert i.metadata.name i w.instances }

abbrev pub place_new :
    Option ChallengeInstance → ChallengeInstance → World → Result Failure ChallengeInstance × World
place_new none i w = (ok i, put i w)
place_new (some old) i w = (err exists, w)

abbrev values : {A : Type 0} → Map A → List A
values [] = []
values ((k, v) ∷ m) = v ∷ values m

abbrev pub cluster : Api World Failure
cluster = record {
  is_not_found = was_missing;
  is_already_exists = was_there;
  error_text = failure_text;
  clock = λ w. w.now;
  random = λ w. (171 ∷ 5 ∷ [], w);
  parse_duration = λ t. if t == "1h" then some (seconds 3600) else none;
  duration_error = λ t. "time: invalid duration";
  set_controller_reference =
      λ owner m. ok (record m { owner_references = owner.name ∷ m.owner_references });
  get_instance = λ k w. (found (lookup k.name w.instances), w);
  get_template = λ k w. (found (lookup k.name w.templates), w);
  get_set = λ k w. (err missing, w);
  get_fence = λ k w. (err missing, w);
  get_deployment = λ k w. (err missing, w);
  get_service = λ k w. (err missing, w);
  get_policy = λ k w. (err missing, w);
  get_secret = λ k w. (ok tt, w);
  list_pods = λ n l w. (ok w.pods, w);
  list_instances = λ n l w. (ok (values w.instances), w);
  list_templates = λ n w. (ok (values w.templates), w);
  create_instance = λ i w. place_new (lookup i.metadata.name w.instances) i w;
  create_deployment = λ d w. (ok d, w);
  create_service = λ s w. (ok s, w);
  create_fence = λ f w. (ok f, w);
  create_policy = λ p w. (ok p, w);
  update_instance = λ i w. (ok i, put i w);
  update_policy = λ p w. (ok p, w);
  update_instance_status = λ i w. (ok i, put i w);
  update_template_status =
      λ t w. (ok t, record w { templates = insert t.metadata.name t w.templates });
  update_set_status = λ s w. (ok s, w);
  update_fence_status = λ f w. (ok f, w);
  delete_instance = λ k w. (ok tt, record w { instances = delete k.name w.instances });
}

pub cluster-KeepsKey : KeepsKey cluster
cluster-KeepsKey owner m m' e = ground arith

abbrev pub token_ok : String → Result Failure Principal
token_ok t =
    if t == "Bearer key"
    then ok (record { subject = "api-key"; team = ""; scopes = "admin" ∷ [] })
    else err forbidden

abbrev pub platform : Backend World Failure
platform = record {
  name = "generic";
  notify = λ e w. (ok tt, w);
  authenticate = λ r w. (token_ok r.authorization, w);
  register_webhook = none;
}

abbrev pub web_port : ContainerPort
web_port = record { name = "web"; container_port = pos 8080; expose = true }

abbrev pub web_template : List ContainerPort → Option PowSpec → ChallengeTemplate
web_template ports pow = record {
  metadata = object_meta "web" "default" [];
  spec = record {
    category = "web";
    difficulty = "easy";
    points = pos 100;
    flag_secret_ref = "web-flag";
    instance_mode = "perTeam";
    ttl = "1h";
    max_instances = pos 0;
    pow = pow;
    container = record {
      image = "web:1";
      ports = ports;
      resources = record { requests = []; limits = [] };
      env = [];
      readiness = none;
      restart_policy = "";
      unhealthy_threshold = pos 0;
    };
  };
  status = record { ready = true; instance_count = pos 0; message = "" };
}

abbrev pub red_instance : InstancePhase → Option Time → ChallengeInstance
red_instance phase expires_at = record {
  metadata = object_meta "web-red" "default" [];
  spec = record { template_ref = "web"; team = "red"; player = ""; ttl_override = "" };
  status = record {
    phase = phase;
    reason = "";
    endpoint = "";
    started_at = none;
    expires_at = expires_at;
    pod_name = "";
    unhealthy_count = pos 0;
    message = "";
  };
}

abbrev pub pod_with : ConditionStatus → Pod
pod_with ready = record {
  metadata = object_meta "web-red-1" "default" ((label_instance, "web-red") ∷ []);
  phase = pod_running;
  reason = "";
  conditions = record { type = "Ready"; status = ready } ∷ [];
}

abbrev pub world_at : Time → ChallengeInstance → Option PowSpec → World
world_at now i pow = record {
  now = now;
  instances = (i.metadata.name, i) ∷ [];
  templates = ("web", web_template (web_port ∷ []) pow) ∷ [];
  pods = pod_with condition_true ∷ [];
}

abbrev pub system_at : Time → ChallengeInstance → Option PowSpec → Sys World
system_at now i pow = record { world = world_at now i pow; log = [] }
