-- ===== src/Instance/Build.antt =====
-- The objects that the instance controller builds for an instance of a template.
use kimo.Prelude.{
  String, Bool, true, false, Option, none, some, List, [], ◌∷◌, Map, ◌==◌, lookup, is_nil,
  if◌then◌else◌,
}
use kimo.Prelude.Int.{ℤ, pos, eqb_ℤ}
use kimo.Types.{
  ObjectMeta, NamespacedName, object_meta, label_challenge, label_team, label_instance,
  ChallengeInstance, ChallengeTemplate, ContainerPort, ContainerSpec, ReadinessCheck,
  readiness_http, readiness_none, AllowRule, NetworkFence, PodPort, ProbeHandler, http_get,
  tcp_socket, Container, Deployment, ServicePort, Service,
}

unfoldable pub allow_rules : List ContainerPort → List AllowRule
allow_rules [] = []
allow_rules (p ∷ ps) =
    let rest = allow_rules ps in
    if p.expose then record { cidr = ""; port = p.container_port } ∷ rest else rest

unfoldable pub build_network_fence : ChallengeInstance → ChallengeTemplate → NetworkFence
unfolding allow_rules
build_network_fence instance' tmpl = record {
  metadata = object_meta instance'.metadata.name instance'.metadata.namespace [];
  spec = record {
    instance_ref = instance'.metadata.name;
    allow_rules = allow_rules tmpl.spec.container.ports;
    deny_rules = record { to = "kimo-system" } ∷ [];
    allow_egress = false;
  };
  status = record { applied = false; message = "" };
}

unfoldable pub service_ports : List ContainerPort → List ServicePort
service_ports [] = []
service_ports (p ∷ ps) =
    let rest = service_ports ps in
    if p.expose
    then record { name = p.name; port = p.container_port; target_port = p.container_port } ∷ rest
    else rest

unfoldable pub build_service : ChallengeInstance → ChallengeTemplate → Option Service
unfolding service_ports
build_service instance' tmpl =
    let ports = service_ports tmpl.spec.container.ports in
    if is_nil ports
    then none
    else some (record {
      metadata = object_meta instance'.metadata.name instance'.metadata.namespace [];
      selector = (label_instance, instance'.metadata.name) ∷ [];
      ports = ports;
    })

-- `readiness != nil && readiness.Type == …`
readiness_is : Option ReadinessCheck → String → Bool
readiness_is none type = false
readiness_is (some r) type = r.type == type

-- `c.Ports[0].ContainerPort`, and 0 where the template names no port.
first_port : List ContainerPort → ℤ
first_port [] = pos 0
first_port (p ∷ ps) = p.container_port

probe_port : Option ReadinessCheck → List ContainerPort → ℤ
probe_port none ports = first_port ports
probe_port (some r) ports = if eqb_ℤ r.port (pos 0) then first_port ports else r.port

probe_path : Option ReadinessCheck → String
probe_path none = ""
probe_path (some r) = r.path

unfoldable pub build_readiness_probe : ContainerSpec → Option ProbeHandler
unfolding readiness_is first_port probe_port probe_path
build_readiness_probe c =
    let port = probe_port c.readiness c.ports in
    if readiness_is c.readiness readiness_none
    then none
    else if eqb_ℤ port (pos 0)
    then none
    else if readiness_is c.readiness readiness_http
    then some (http_get (probe_path c.readiness) port)
    else some (tcp_socket port)

pod_ports : List ContainerPort → List PodPort
pod_ports [] = []
pod_ports (p ∷ ps) = record { name = p.name; container_port = p.container_port } ∷ pod_ports ps

abbrev pub workload_labels : ChallengeInstance → ChallengeTemplate → Map String
workload_labels instance' tmpl =
    (label_challenge, tmpl.metadata.name)
    ∷ (label_team, instance'.spec.team)
    ∷ (label_instance, instance'.metadata.name)
    ∷ []

challenge_container : ContainerSpec → Container
unfolding pod_ports build_readiness_probe
challenge_container c = record {
  name = "challenge";
  image = c.image;
  env = c.env;
  security_context = record {
    run_as_non_root = true;
    read_only_root_filesystem = true;
    allow_privilege_escalation = false;
  };
  volume_mounts = record { name = "tmp"; mount_path = "/tmp" } ∷ [];
  ports = pod_ports c.ports;
  readiness_probe = build_readiness_probe c;
}

unfoldable pub build_deployment : ChallengeInstance → ChallengeTemplate → Deployment
unfolding challenge_container
build_deployment instance' tmpl =
    let labels = workload_labels instance' tmpl in
    record {
      metadata =
          object_meta instance'.metadata.name instance'.metadata.namespace
            (workload_labels instance' tmpl);
      replicas = pos 1;
      selector = labels;
      template = record {
        labels = labels;
        containers = challenge_container tmpl.spec.container ∷ [];
        restart_policy = "Always";
        automount_service_account_token = false;
        empty_dir_volumes = "tmp" ∷ [];
      };
    }

abbrev request_for : String → Option String → List NamespacedName
request_for namespace none = []
request_for namespace (some name) = record { name = name; namespace = namespace } ∷ []

-- The instances to reconcile when a pod, given by its metadata, changes.
unfoldable pub map_pod_to_instance : ObjectMeta → List NamespacedName
unfolding lookup
map_pod_to_instance m = request_for m.namespace (lookup label_instance m.labels)
