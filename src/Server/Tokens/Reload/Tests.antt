-- ===== src/Server/Tokens/Reload/Tests.antt =====
-- A reload with one name rotated, one revoked and one unchanged, reloads that fail, and the theorem.
use whdr.Common.{◌≡◌, refl, List, [], ◌∷◌, Option, none, some, true, Text, codes, Result, err}
use whdr.Proto.Messages.{Uuid, ClosingReason}
use whdr.Server.Daemon.{SupervisorCommand, already_running, new_state}
use whdr.Server.DeliveryLog.ListStore.{list_store}
use whdr.Server.Config.{
  Config, Files, default_raw, configured, read_config, load_secrets, enforce_0600, validate,
  is_loopback, token_store_path, load,
}
use whdr.Server.Config
use whdr.Server.Subscribers.{Subscriber, SubscriberRegistry, close_if, close_named}
use whdr.Server.Tokens.{TokenError, TokenRecord, TokenStore, Tokens, invalidated_names}
use whdr.Server.Tokens.File.{File, store_mode, load_or_empty}
use whdr.Server.Tokens.File.Separated.{toml}
use whdr.Server.Tokens.Reload.{
  State, ReloadError, config_failed, tokens_failed, close_each, replace_tokens, reload_from_path,
}
use whdr.Server.Tokens.Reload.Closing.{has_changed, replace_tokens-close_if}

abbrev hash : Text → Text
hash token = b'#' ∷ token

abbrev error_text : TokenError → Text
error_text e = []

abbrev record_of : Text → TokenRecord
record_of token = record { hash = hash token; created = codes "now" }

abbrev connection : Text → Option ClosingReason → Subscriber
connection name close = record {
  name = name;
  remote_addr = none;
  patterns = [];
  queue = record {
    inner = [];
    max_events = 4;
    max_event_bytes = 100;
    delivered = 0;
    dropped = 0;
    lag_pending = 0;
  };
  close = close;
}

abbrev registry : Option ClosingReason → SubscriberRegistry list_store
registry close = record {
  subscribers =
      (1, connection (codes "kept") none)
      ∷ (2, connection (codes "rotated") close)
      ∷ (3, connection (codes "revoked") close)
      ∷ [];
  next_id = 4;
  seq = 0;
  delivery = none;
  persist_errors = 0;
}

abbrev old : TokenStore
old =
    (codes "kept", record_of (codes "a"))
    ∷ (codes "revoked", record_of (codes "b"))
    ∷ (codes "rotated", record_of (codes "c"))
    ∷ []

abbrev replacement : TokenStore
replacement = (codes "kept", record_of (codes "a")) ∷ (codes "rotated", record_of (codes "d")) ∷ []

abbrev tokens : Tokens hash list_store error_text (Unit {0})
tokens = record { tokens = old; subscribers = registry none }

abbrev replaced : Tokens hash list_store error_text (Unit {0})
replaced = record { tokens = replacement; subscribers = registry (some ClosingReason.revoked) }

closes_changed : replace_tokens list_store hash error_text (Unit {0}) tokens replacement ≡ replaced
unfolding replace_tokens close_each close_named invalidated_names
closes_changed = refl

abbrev config : Config
config = configured default_raw none []

abbrev state : State list_store hash error_text (Unit {0})
state = record {
  config = config;
  tokens = tokens;
  inner =
      new_state config.extensions (record { crashloop_threshold = 5; crashloop_window_ms = 60000 });
}

abbrev files : Option Text → Files
files text = record { mode = λ path. none; read_to_string = λ path. text }

abbrev config_toml : Config.Toml
config_toml = record { raw_config = λ text. some default_raw; secrets = λ text. none }

abbrev reload :
    Option Text
    → Option File
    → State list_store hash error_text (Unit {0})
      × List (Uuid × SupervisorCommand)
      × Result (Unit {0}) ReloadError
reload text file =
    reload_from_path list_store hash error_text (Unit {0}) (files text) config_toml toml
      (λ path. file) (codes "github" ∷ []) (λ id. err (already_running id)) (λ id. 2) state
      (codes "whdr.toml")

-- A reload that fails changes nothing.
reloads :
    (reload none none ≡ (state, [], err (config_failed read_config)))
    × (reload (some []) (some (record { text = []; mode = 33188; is_synced = true }))
        ≡ (state, [], err (tokens_failed store_mode)))
    × ((reload (some []) none).0.tokens.tokens ≡ [])
unfolding reload_from_path load load_secrets validate is_loopback token_store_path load_or_empty
    replace_tokens
reloads = (refl, refl, refl)

replace_tokens-close_if_example :
    (replace_tokens list_store hash error_text
      (Unit {0})
      tokens
      replacement).subscribers.subscribers
    ≡ close_if
        (λ c. has_changed hash old replacement c.name)
        ClosingReason.revoked
        tokens.subscribers.subscribers
replace_tokens-close_if_example =
    replace_tokens-close_if list_store hash error_text (Unit {0}) tokens replacement
      (refl, (refl, (refl, tt)))
