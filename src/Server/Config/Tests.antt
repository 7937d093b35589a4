-- ===== src/Server/Config/Tests.antt =====
-- Configurations that load and that are refused, and the theorem applied to one.
use whdr.Common.{
  ◌≡◌, refl, [], ◌∷◌, none, some, true, Text, codes, Result, ok, err, ◌==◌, text_eq, if◌then◌else◌,
}
use whdr.Server.Config.{
  v4, v6, default_server, default_delivery, default_subscribers, default_raw, RawConfig, Config,
  ConfigError, secrets_mode, subscribers_exposed, metrics_exposed, delivery_bounds, read_config,
  Files, Toml, load, load_secrets, enforce_0600, validate, is_loopback, configured,
  token_store_path,
}
use whdr.Server.Config.Safe.{IsSafe, SecretsFrom, load-IsSafe}

-- The secrets file is 0o100600 or, under the other name, 0o100644; every file holds its own name.
abbrev files : Files
files = record {
  mode = λ path.
      if path == codes "secrets"
      then some 33152
      else if path == codes "open"
      then some 33188
      else none;
  read_to_string = λ path. if path == codes "absent" then none else some path;
}

abbrev with_secrets : Text → RawConfig
with_secrets file = record default_raw { secrets = some file }

abbrev lan : RawConfig
lan = record default_raw {
  server = record default_server { sub_addr = record { ip = v4 192 168 0 2; port = 8788 } };
}

abbrev metrics_abroad : RawConfig
metrics_abroad = record default_raw {
  server = record default_server { metrics_addr = some (record { ip = v6 2; port = 9100 }) };
}

abbrev unbounded : RawConfig
unbounded = record default_raw {
  delivery = record default_delivery { enabled = true; max_events = 0 };
}

abbrev toml_of : RawConfig → Toml
toml_of raw = record {
  raw_config = λ text. some raw;
  secrets = λ text. some ((codes "github", text) ∷ []);
}

abbrev load_as : RawConfig → Result Config ConfigError
load_as raw = load files (toml_of raw) (codes "whdr")

loads_defaults : load_as default_raw ≡ ok (configured default_raw none [])
unfolding load load_secrets enforce_0600 validate is_loopback
loads_defaults = refl

refuses_open_secrets : load_as (with_secrets (codes "open")) ≡ err secrets_mode
unfolding load load_secrets enforce_0600 validate is_loopback
refuses_open_secrets = refl

refuses_lan : load_as lan ≡ err subscribers_exposed
unfolding load load_secrets enforce_0600 validate is_loopback
refuses_lan = refl

allows_plaintext_lan :
    load_as (record lan { subscribers = record default_subscribers { allow_plaintext_lan = true } })
    ≡ ok (
        configured
          (record lan { subscribers = record default_subscribers { allow_plaintext_lan = true } })
          none
          [])
unfolding load load_secrets enforce_0600 validate is_loopback
allows_plaintext_lan = refl

refuses_metrics_abroad : load_as metrics_abroad ≡ err metrics_exposed
unfolding load load_secrets enforce_0600 validate is_loopback
refuses_metrics_abroad = refl

refuses_unbounded : load_as unbounded ≡ err delivery_bounds
unfolding load load_secrets enforce_0600 validate is_loopback
refuses_unbounded = refl

misses_config : load files (toml_of default_raw) (codes "absent") ≡ err read_config
unfolding load load_secrets enforce_0600 validate is_loopback
misses_config = refl

default_token_store :
    token_store_path (configured default_raw none []) ≡ codes "/var/lib/whdr/tokens.toml"
unfolding token_store_path
default_token_store = refl

abbrev secret_config : Config
secret_config =
    configured (with_secrets (codes "secrets")) (some (codes "secrets"))
      ((codes "github", codes "secrets") ∷ [])

loads_secrets : load_as (with_secrets (codes "secrets")) ≡ ok secret_config
unfolding load load_secrets enforce_0600 validate is_loopback
loads_secrets = refl

load-IsSafe_example :
    IsSafe secret_config
    × SecretsFrom files
        (toml_of (with_secrets (codes "secrets")))
        secret_config.secrets_file
        secret_config.secrets
load-IsSafe_example =
    load-IsSafe files (toml_of (with_secrets (codes "secrets"))) (codes "whdr") secret_config
      loads_secrets
