-- ===== src/Manager/Options.antt =====
-- The options that `main` of cmd/manager/main.go gives to controller-runtime.
use kimo.Prelude.{String, ◌==◌, Bool, true, false, not, List, [], ◌∷◌, ◌++◌, if◌then◌else◌}
use kimo.Manager.Flags.{Flags}

-- The field of Go's TLS configuration that the manager sets.
pub record TlsConfig : Type 0 where
  pub next_protos : List String

abbrev pub disable_http2 : TlsConfig → TlsConfig
disable_http2 c = record c { next_protos = "http/1.1" ∷ [] }

pub record WebhookOptions : Type 0 where
  pub tls_opts : List (TlsConfig → TlsConfig)
  pub cert_dir : String
  pub cert_name : String
  pub key_name : String

-- `authenticated` stands for the filter provider `WithAuthenticationAndAuthorization`.
pub record MetricsOptions : Type 0 where
  pub bind_address : String
  pub secure_serving : Bool
  pub tls_opts : List (TlsConfig → TlsConfig)
  pub authenticated : Bool
  pub cert_dir : String
  pub cert_name : String
  pub key_name : String

pub record ManagerOptions : Type 0 where
  pub metrics : MetricsOptions
  pub webhook_server : WebhookOptions
  pub health_probe_bind_address : String
  pub leader_election : Bool
  pub leader_election_id : String

unfoldable pub tls_opts : Flags → List (TlsConfig → TlsConfig)
tls_opts f = [] ++ (if not f.enable_http2 then disable_http2 ∷ [] else [])

unfoldable pub webhook_server_options : Flags → WebhookOptions
unfolding tls_opts
webhook_server_options f =
    let start : WebhookOptions = record {
      tls_opts = tls_opts f;
      cert_dir = "";
      cert_name = "";
      key_name = "";
    } in
    if not (f.webhook_cert_path == "")
    then record start {
      cert_dir = f.webhook_cert_path;
      cert_name = f.webhook_cert_name;
      key_name = f.webhook_cert_key;
    }
    else start

unfoldable pub metrics_server_options : Flags → MetricsOptions
unfolding tls_opts
metrics_server_options f =
    let start : MetricsOptions = record {
      bind_address = f.metrics_addr;
      secure_serving = f.secure_metrics;
      tls_opts = tls_opts f;
      authenticated = false;
      cert_dir = "";
      cert_name = "";
      key_name = "";
    } in
    let filtered = if f.secure_metrics then record start { authenticated = true } else start in
    if not (f.metrics_cert_path == "")
    then record filtered {
      cert_dir = f.metrics_cert_path;
      cert_name = f.metrics_cert_name;
      key_name = f.metrics_cert_key;
    }
    else filtered

unfoldable pub manager_options : Flags → ManagerOptions
unfolding webhook_server_options metrics_server_options
manager_options f = record {
  metrics = metrics_server_options f;
  webhook_server = webhook_server_options f;
  health_probe_bind_address = f.probe_addr;
  leader_election = f.enable_leader_election;
  leader_election_id = "d8ccebf9.kimo.io";
}
