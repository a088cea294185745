-- ===== src/Manager/Flags.antt =====
-- The command line of the manager: the flags of `main` in cmd/manager/main.go.
use kimo.Prelude.{
  String, ◌==◌, Bool, true, false, ◌||◌, Option, none, some, List, [], ◌∷◌, if◌then◌else◌,
}

pub record Flags : Type 0 where
  pub metrics_addr : String
  pub probe_addr : String
  pub enable_leader_election : Bool
  pub secure_metrics : Bool
  pub webhook_cert_path : String
  pub webhook_cert_name : String
  pub webhook_cert_key : String
  pub metrics_cert_path : String
  pub metrics_cert_name : String
  pub metrics_cert_key : String
  pub enable_http2 : Bool

abbrev pub default_flags : Flags
default_flags = record {
  metrics_addr = "0";
  probe_addr = ":8081";
  enable_leader_election = false;
  secure_metrics = true;
  webhook_cert_path = "";
  webhook_cert_name = "tls.crt";
  webhook_cert_key = "tls.key";
  metrics_cert_path = "";
  metrics_cert_name = "tls.crt";
  metrics_cert_key = "tls.key";
  enable_http2 = false;
}

-- `strconv.ParseBool`.
unfoldable pub parse_bool : String → Option Bool
parse_bool t =
    if t == "1" || t == "t" || t == "T" || t == "true" || t == "TRUE" || t == "True"
    then some true
    else if t == "0" || t == "f" || t == "F" || t == "false" || t == "FALSE" || t == "False"
    then some false
    else none

-- An argument as `flag` splits it: a name and a value, which is "true" for a Boolean flag without one.
pub record Argument : Type 0 where
  pub name : String
  pub value : String

-- A Boolean flag refuses a value that does not parse.
abbrev pub bool_var : Option Bool → (Bool → Flags) → Option Flags
bool_var none set = none
bool_var (some b) set = some (set b)

abbrev pub further : Option Flags → (Flags → Option Flags) → Option Flags
further none go = none
further (some f) go = go f

-- The flags that zap binds change the logger only: whether one of them takes the argument.
module _ (is_zap_flag : Argument → Bool) where
  unfoldable pub set_flag : Argument → Flags → Option Flags
  set_flag a f =
      if a.name == "metrics-bind-address"
      then some (record f { metrics_addr = a.value })
      else if a.name == "health-probe-bind-address"
      then some (record f { probe_addr = a.value })
      else if a.name == "leader-elect"
      then bool_var (parse_bool a.value) (λ b. record f { enable_leader_election = b })
      else if a.name == "metrics-secure"
      then bool_var (parse_bool a.value) (λ b. record f { secure_metrics = b })
      else if a.name == "webhook-cert-path"
      then some (record f { webhook_cert_path = a.value })
      else if a.name == "webhook-cert-name"
      then some (record f { webhook_cert_name = a.value })
      else if a.name == "webhook-cert-key"
      then some (record f { webhook_cert_key = a.value })
      else if a.name == "metrics-cert-path"
      then some (record f { metrics_cert_path = a.value })
      else if a.name == "metrics-cert-name"
      then some (record f { metrics_cert_name = a.value })
      else if a.name == "metrics-cert-key"
      then some (record f { metrics_cert_key = a.value })
      else if a.name == "enable-http2"
      then bool_var (parse_bool a.value) (λ b. record f { enable_http2 = b })
      else if is_zap_flag a
      then some f
      else none

  -- `flag.Parse`: an argument that is refused ends the program.
  unfoldable pub parse_flags : List Argument → Flags → Option Flags
  parse_flags [] f = some f
  parse_flags (a ∷ rest) f = further (set_flag a f) (λ f'. parse_flags rest f')
