-- ===== src/Server/Tokens/Reload.antt =====
-- reload_from_path of crates/whdr-server/src/daemon.rs: the configuration and the tokens are read, the
-- connections of the names whose record has changed are closed, the extensions are stopped and started.
pub mod Closing
mod Tests
use whdr.Common.{List, [], ◌∷◌, Option, Text, Result, ok, err, ◌>>=◌}
use whdr.Proto.Messages.{Uuid, ClosingReason}
use whdr.Server.DeliveryLog.Storage.{Store}
use whdr.Server.Subscribers.{SubscriberRegistry, close_named}
use whdr.Server.Config.{Config, ConfigError, Files, token_store_path}
use whdr.Server.Config
use whdr.Server.Daemon.{StartError, SupervisorCommand, Inner}
use whdr.Server.Daemon.Starting.{Registration, start_extensions}
use whdr.Server.Tokens.{TokenStore, TokenError, Tokens, invalidated_names}
use whdr.Server.Tokens.File.{File, Toml, LoadError, load_or_empty}

pub data ReloadError : Type 0 where
  config_failed : ConfigError → ReloadError
  tokens_failed : LoadError → ReloadError

module _ (store : Store) where
  -- `close_subscribers_named` for each name.
  unfoldable pub close_each : SubscriberRegistry store → List Text → SubscriberRegistry store
  close_each r [] = r
  close_each r (name ∷ names) = close_each (close_named store r name ClosingReason.revoked) names

  module _ (hash_token : Text → Text) (error_text : TokenError → Text) (Value : Type 0) where
    -- `inner` keeps what its tasks read of the configuration.
    pub record State : Type 0 where
      pub config : Config
      pub tokens : Tokens hash_token store error_text Value
      pub inner : Inner

    abbrev pub configure : Config → Inner → Inner
    configure config inner = record inner {
      config = config.extensions;
      limits = record {
        crashloop_threshold = config.limits.crashloop_threshold;
        crashloop_window_ms = config.limits.crashloop_window_ms;
      };
    }

    -- The locks of the tokens and of the registry as one step.
    unfoldable pub replace_tokens :
        Tokens hash_token store error_text Value
        → TokenStore
        → Tokens hash_token store error_text Value
    replace_tokens s replacement = record {
      tokens = replacement;
      subscribers = close_each s.subscribers (invalidated_names hash_token s.tokens replacement);
    }

    abbrev pub reloaded :
        (inner : Inner × List (Uuid × SupervisorCommand))
        → Config
        → Tokens hash_token store error_text Value
        → State × List (Uuid × SupervisorCommand) × Result (Unit {0}) ReloadError
    reloaded (inner, commands) config tokens =
        (record { config = config; tokens = tokens; inner = inner }, commands, ok tt)

    -- `file_at` is the file that the path of the tokens names; the commands go to the supervisors of
    -- the extensions that are stopped.
    unfoldable pub reload_from_path :
        Files
        → Config.Toml
        → Toml
        → (file_at : Text → Option File) (candidates : List Text)
        → (spawn : Text → Result Registration StartError) → (new_v4 : Text → Uuid) → State
        → (config_path : Text)
        → State × List (Uuid × SupervisorCommand) × Result (Unit {0}) ReloadError
    reload_from_path files config_toml toml file_at candidates spawn new_v4 s config_path =
        elim (Config.load files config_toml config_path) [
          | err e ↦ (s, [], err (config_failed e))
          | ok config ↦ elim (load_or_empty toml (file_at (token_store_path config))) [
            | err e ↦ (s, [], err (tokens_failed e))
            | ok replacement ↦
                reloaded (start_extensions candidates spawn new_v4 (configure config s.inner))
                  config (replace_tokens s.tokens replacement)
          ]
        ]
