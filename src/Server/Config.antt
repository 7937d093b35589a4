-- ===== src/Server/Config.antt =====
-- crates/whdr-server/src/config.rs: the sections of the configuration with their defaults, the
-- reading of the two files and the validation. Files are an argument, as is what toml reads of a
-- text, which fills the defaults in. A path is a text.
pub mod Safe
mod Tests
use whdr.Common.{
  ℕ, ◌%◌, ◌^◌, List, [], ◌∷◌, Option, none, some, Bool, true, false, not, ◌&&◌, ◌||◌, Text, codes,
  Result, ok, err, ◌==◌, nat_eq, if◌then◌else◌, ◌>>=◌, with_context, is_some,
}

-- An address of version 6 is its 128 bits.
pub data IpAddr : Type 0 where
  v4 : (a b c d : ℕ) → IpAddr
  v6 : ℕ → IpAddr

pub record SocketAddr : Type 0 where
  pub ip : IpAddr
  pub port : ℕ

unfoldable pub is_loopback : IpAddr → Bool
is_loopback (v4 a b c d) = a == 127
is_loopback (v6 bits) = bits == 1

pub record ServerConfig : Type 0 where
  pub listen_addr : SocketAddr
  pub sub_addr : SocketAddr
  pub control_socket : Text
  pub metrics_addr : Option SocketAddr

abbrev pub localhost : ℕ → SocketAddr
localhost port = record { ip = v4 127 0 0 1; port = port }

abbrev pub default_server : ServerConfig
default_server = record {
  listen_addr = localhost 8787;
  sub_addr = localhost 8788;
  control_socket = codes "/run/whdr/ctl.sock";
  metrics_addr = none;
}

pub record TlsConfig : Type 0 where
  pub cert : Text
  pub key : Text

abbrev pub default_tls : TlsConfig
default_tls = record { cert = []; key = [] }

pub record SubscribersConfig : Type 0 where
  pub token_store : Option Text
  pub allow_plaintext_lan : Bool
  pub ws_idle_timeout_ms : ℕ
  pub tls : Option TlsConfig

abbrev pub default_subscribers : SubscribersConfig
default_subscribers = record {
  token_store = none;
  allow_plaintext_lan = false;
  ws_idle_timeout_ms = 30000;
  tls = none;
}

pub record ExtensionsConfig : Type 0 where
  pub enabled : List Text
  pub autostart_all : Bool

abbrev pub default_extensions : ExtensionsConfig
default_extensions = record { enabled = []; autostart_all = false }

pub record LimitsConfig : Type 0 where
  pub max_body_bytes : ℕ
  pub max_in_flight : ℕ
  pub sub_queue_len : ℕ
  pub sub_queue_bytes : ℕ
  pub dispatch_timeout_ms : ℕ
  pub max_protocol_errors : ℕ
  pub hang_kill_threshold : ℕ
  pub crashloop_threshold : ℕ
  pub crashloop_window_ms : ℕ

abbrev pub default_limits : LimitsConfig
default_limits = record {
  max_body_bytes = 1048576;
  max_in_flight = 64;
  sub_queue_len = 1024;
  sub_queue_bytes = 8388608;
  dispatch_timeout_ms = 10000;
  max_protocol_errors = 3;
  hang_kill_threshold = 3;
  crashloop_threshold = 5;
  crashloop_window_ms = 60000;
}

pub record TimeoutsConfig : Type 0 where
  pub register_ms : ℕ
  pub drain_ms : ℕ
  pub term_grace_ms : ℕ

abbrev pub default_timeouts : TimeoutsConfig
default_timeouts = record { register_ms = 5000; drain_ms = 5000; term_grace_ms = 3000 }

pub record DeliveryConfig : Type 0 where
  pub enabled : Bool
  pub store_path : Text
  pub retention_secs : ℕ
  pub max_bytes : ℕ
  pub max_events : ℕ
  pub prune_interval_secs : ℕ

abbrev pub default_delivery : DeliveryConfig
default_delivery = record {
  enabled = false;
  store_path = codes "/var/lib/whdr/delivery.redb";
  retention_secs = 86400;
  max_bytes = 536870912;
  max_events = 1000000;
  prune_interval_secs = 300;
}

pub record Config : Type 0 where
  pub server : ServerConfig
  pub subscribers : SubscribersConfig
  pub extensions : ExtensionsConfig
  pub limits : LimitsConfig
  pub timeouts : TimeoutsConfig
  pub delivery : DeliveryConfig
  pub secrets_file : Option Text
  pub secrets : List (Text × Text)

-- `secrets` is the `file` of the section, where there is one.
pub record RawConfig : Type 0 where
  pub server : ServerConfig
  pub subscribers : SubscribersConfig
  pub extensions : ExtensionsConfig
  pub limits : LimitsConfig
  pub timeouts : TimeoutsConfig
  pub delivery : DeliveryConfig
  pub secrets : Option Text

abbrev pub default_raw : RawConfig
default_raw = record {
  server = default_server;
  subscribers = default_subscribers;
  extensions = default_extensions;
  limits = default_limits;
  timeouts = default_timeouts;
  delivery = default_delivery;
  secrets = none;
}

pub data ConfigError : Type 0 where
  read_config parse_config stat_secrets secrets_mode read_secrets parse_secrets : ConfigError
  tls_not_implemented metrics_exposed subscribers_exposed delivery_bounds : ConfigError

-- The rest of the file system does not change while the configuration is read.
pub record Files : Type 0 where
  pub mode : Text → Option ℕ
  pub read_to_string : Text → Option Text

pub record Toml : Type 0 where
  pub raw_config : Text → Option RawConfig
  pub secrets : Text → Option (List (Text × Text))

-- `mode & 0o777`
abbrev pub permissions : ℕ → ℕ
permissions mode = mode % 2 ^ 9

-- 0o600
abbrev pub owner_only : ℕ
owner_only = 384

unfoldable pub enforce_0600 : Files → (path : Text) → Result (Unit {0}) ConfigError
enforce_0600 files path = elim (files.mode path) [
  | none ↦ err stat_secrets
  | some mode ↦ if permissions mode == owner_only then ok tt else err secrets_mode
]

abbrev pub is_exposed : Option SocketAddr → Bool
is_exposed none = false
is_exposed (some addr) = not (is_loopback addr.ip)

unfoldable pub validate : Config → Result (Unit {0}) ConfigError
validate c =
    if is_some c.subscribers.tls
    then err tls_not_implemented
    else if is_exposed c.server.metrics_addr
    then err metrics_exposed
    else if not (is_loopback c.server.sub_addr.ip)
        && not (is_some c.subscribers.tls)
        && not c.subscribers.allow_plaintext_lan
    then err subscribers_exposed
    else if c.delivery.enabled
        && (c.delivery.retention_secs == 0
            || c.delivery.max_bytes == 0
            || c.delivery.max_events == 0)
    then err delivery_bounds
    else ok tt

abbrev pub configured :
    RawConfig → (secrets_file : Option Text) → (secrets : List (Text × Text)) → Config
configured raw secrets_file secrets = record {
  server = raw.server;
  subscribers = raw.subscribers;
  extensions = raw.extensions;
  limits = raw.limits;
  timeouts = raw.timeouts;
  delivery = raw.delivery;
  secrets_file = secrets_file;
  secrets = secrets;
}

module _ (files : Files) (toml : Toml) where
  -- The secrets file and what it holds.
  unfoldable pub load_secrets : Option Text → Result (Option Text × List (Text × Text)) ConfigError
  load_secrets none = ok (none, [])
  load_secrets (some file) = do
    _ ← enforce_0600 files file
    text ← with_context (files.read_to_string file) read_secrets
    secrets ← with_context (toml.secrets text) parse_secrets
    ok (some file, secrets)

  unfoldable pub load : (path : Text) → Result Config ConfigError
  load path = do
    text ← with_context (files.read_to_string path) read_config
    raw ← with_context (toml.raw_config text) parse_config
    (secrets_file, secrets) ← load_secrets raw.secrets
    let config = configured raw secrets_file secrets
    _ ← validate config
    ok config

unfoldable pub token_store_path : Config → Text
token_store_path c = elim c.subscribers.token_store [
  | none ↦ codes "/var/lib/whdr/tokens.toml"
  | some path ↦ path
]
