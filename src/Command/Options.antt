-- ===== src/Command/Options.antt =====
-- cmd/main.go: the flags and the options of the manager.
use backup_restore_openstack.Prelude.{ℕ, String, Bool, false, List, [], ◌∷◌, if◌then◌else◌}

pub record Flags : Type 0 where
  pub metrics_addr : String
  pub probe_addr : String
  pub enable_leader_election : Bool
  pub secure_metrics : Bool
  pub enable_http2 : Bool

-- the second arguments of StringVar and BoolVar
unfoldable pub default_flags : Flags
default_flags = record {
  metrics_addr = ":8080";
  probe_addr = ":8081";
  enable_leader_election = false;
  secure_metrics = false;
  enable_http2 = false;
}

-- a flag of main with its value, or a flag that a library binds (zap's, and kubeconfig)
pub data Setting : Type 0 where
  metrics_bind_address health_probe_bind_address : String → Setting
  leader_elect metrics_secure set_http2 : Bool → Setting
  library_flag : String → String → Setting

-- An argument of the command line, as the flag package reads it up to the first that is no flag: a flag,
-- a call for help (-h), or one that it refuses, for an unknown name or a value that does not parse.
pub data Argument : Type 0 where
  setting : Setting → Argument
  help refused : Argument

-- flag.ExitOnError: the flags, or the code that the process ends with
pub data Parsed : Type 0 where
  parsed : Flags → Parsed
  ended : ℕ → Parsed

unfoldable pub apply_setting : Setting → Flags → Flags
apply_setting (metrics_bind_address a) f = record f { metrics_addr = a }
apply_setting (health_probe_bind_address a) f = record f { probe_addr = a }
apply_setting (leader_elect b) f = record f { enable_leader_election = b }
apply_setting (metrics_secure b) f = record f { secure_metrics = b }
apply_setting (set_http2 b) f = record f { enable_http2 = b }
apply_setting (library_flag name value) f = f

-- flag.Parse(): from left to right
unfoldable pub parse_flags : Flags → List Argument → Parsed
unfolding apply_setting
parse_flags f [] = parsed f
parse_flags f (setting s ∷ args) = parse_flags (apply_setting s f) args
parse_flags f (help ∷ args) = ended 0
parse_flags f (refused ∷ args) = ended 2

-- the field of tls.Config that is set
pub record TlsConfig : Type 0 where
  pub next_protos : List String

abbrev pub TlsOption : Type 0
TlsOption = TlsConfig → TlsConfig

unfoldable pub disable_http2 : TlsOption
disable_http2 c = record c { next_protos = "http/1.1" ∷ [] }

unfoldable pub tls_options : Bool → List TlsOption
unfolding disable_http2
tls_options enabled = if enabled then [] else disable_http2 ∷ []

-- metricsserver.Options and ctrl.Options, with the TLS options of the webhook server
pub record ManagerOptions : Type 0 where
  pub metrics_bind_address : String
  pub secure_serving : Bool
  pub metrics_tls : List TlsOption
  pub webhook_tls : List TlsOption
  pub health_probe_bind_address : String
  pub leader_election : Bool
  pub leader_election_id : String

unfoldable pub manager_options : Flags → ManagerOptions
unfolding tls_options
manager_options f = record {
  metrics_bind_address = f.metrics_addr;
  secure_serving = f.secure_metrics;
  metrics_tls = tls_options f.enable_http2;
  webhook_tls = tls_options f.enable_http2;
  health_probe_bind_address = f.probe_addr;
  leader_election = f.enable_leader_election;
  leader_election_id = "38d12eb3.mfke.io";
}
