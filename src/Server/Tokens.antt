-- ===== src/Server/Tokens.antt =====
-- crates/whdr-server/src/token_store.rs, token_control.rs and the request dispatch of control_plane.rs:
-- the tokens of the subscribers, kept as hashes. The hash, the token that is minted, the time and the
-- status are arguments; `fault` says that writing the file fails. A `BTreeMap` is a list by name.
pub mod Revocation
pub mod File
pub mod Reload
pub mod Stream
mod Tests
use whdr.Common.{
  ℕ, List, [], ◌∷◌, ◌++◌, map, Option, none, some, Bool, true, false, not, ◌&&◌, ◌||◌, Text, codes,
  Result, ok, err, ◌>>=◌, ◌>>◌, guard, ◌==◌, text_eq, if◌then◌else◌, is_empty, all,
  is_ascii_lowercase, is_ascii_uppercase, is_ascii_digit, nat_eq, get, insert, remove, contains_key,
  length, drop, ◌-◌,
}
use whdr.Proto.Messages.{TokenSummary, ControlRequest, ControlResponse, ClosingReason}
use whdr.Server.DeliveryLog.Storage.{Store}
use whdr.Server.Subscribers.{SubscriberRegistry, close_named, active_connection_counts}

pub record TokenRecord : Type 0 where
  pub hash : Text
  pub created : Text

abbrev pub TokenStore : Type 0
TokenStore = List (Text × TokenRecord)

pub data TokenError : Type 0 where
  invalid_name : (name : Text) → TokenError
  already_exists : (name : Text) → TokenError
  unknown_name : (name : Text) → TokenError
  not_persisted : TokenError

unfoldable pub validate_name : Text → Result (Unit {0}) TokenError
validate_name name =
    if is_empty name
      || not (
          all
            (λ b.
              is_ascii_lowercase b
              || is_ascii_uppercase b
              || is_ascii_digit b
              || b == b'-'
              || b == b'_')
            name)
    then err (invalid_name name)
    else ok tt

abbrev pub persist : Bool → Result (Unit {0}) TokenError
persist fault = if fault then err not_persisted else ok tt

-- The last eight characters.
unfoldable pub fingerprint : Text → Text
fingerprint hash = drop (length hash - 8) hash

module _ (hash_token : Text → Text) where
  abbrev pub record_for : Text → Text → TokenRecord
  record_for token now = record { hash = hash_token token; created = now }

  -- The store changes in memory before it is written, so it has changed where writing fails.
  abbrev inserted : Bool → TokenStore → Text → Text → Text → TokenStore × Result Text TokenError
  inserted fault s name token now =
      (insert s name (record_for token now), (persist fault >>= λ _. ok token))

  unfoldable pub add :
      Bool → TokenStore → Text → (token now : Text) → TokenStore × Result Text TokenError
  add fault s name token now = elim (validate_name name) [
    | err e ↦ (s, err e)
    | ok _ ↦
        if contains_key s name
        then (s, err (already_exists name))
        else inserted fault s name token now
  ]

  unfoldable pub rotate :
      Bool → TokenStore → Text → (token now : Text) → TokenStore × Result Text TokenError
  rotate fault s name token now = elim (validate_name name) [
    | err e ↦ (s, err e)
    | ok _ ↦
        if not (contains_key s name)
        then (s, err (unknown_name name))
        else inserted fault s name token now
  ]

  unfoldable pub revoke : Bool → TokenStore → Text → TokenStore × Result (Unit {0}) TokenError
  revoke fault s name =
      if not (contains_key s name)
      then (s, err (unknown_name name))
      else (remove s name, persist fault)

  -- `find_map` with the constant-time comparison of the hashes
  abbrev pub find_hash : TokenStore → Text → Option Text
  find_hash [] hash = none
  find_hash ((name, r) ∷ tokens) hash = if r.hash == hash then some name else find_hash tokens hash

  unfoldable pub authenticate : TokenStore → Text → Option Text
  authenticate s presented = find_hash s (hash_token presented)

  abbrev count_of : List (Text × ℕ) → Text → ℕ
  count_of active_conns name = elim (get active_conns name) [ none ↦ 0 | some n ↦ n ]

  unfoldable pub list : TokenStore → List (Text × ℕ) → List TokenSummary
  list s active_conns =
      map
        (λ entry. record {
          name = entry.0;
          fingerprint = fingerprint entry.1.hash;
          created = entry.1.created;
          active_conns = count_of active_conns entry.0;
        })
        s

  abbrev pub same_record : Option TokenRecord → TokenRecord → Bool
  same_record none r = false
  same_record (some q) r = q.hash == r.hash && q.created == r.created

  unfoldable pub invalidated_names : TokenStore → TokenStore → List Text
  invalidated_names [] replacement = []
  invalidated_names ((name, r) ∷ tokens) replacement =
      let rest = invalidated_names tokens replacement in
      if same_record (get replacement name) r then rest else name ∷ rest

  module _ (store : Store) (error_text : TokenError → Text) (Value : Type 0) where
    -- The token store beside the registry of connections.
    pub record Tokens : Type 0 where
      pub tokens : TokenStore
      pub subscribers : SubscriberRegistry store

    abbrev closed : Tokens → TokenStore → Text → Tokens
    closed s tokens name = record {
      tokens = tokens;
      subscribers = close_named store s.subscribers name ClosingReason.revoked;
    }

    abbrev control_error : TokenError → ControlResponse Value
    control_error e = ControlResponse.error (error_text e)

    abbrev answer_add :
        Tokens → Text → TokenStore × Result Text TokenError → Tokens × ControlResponse Value
    answer_add s name (tokens, ok token) =
        (record s { tokens = tokens }, ControlResponse.token name token)
    answer_add s name (tokens, err e) = (record s { tokens = tokens }, control_error e)

    abbrev answer_rotate :
        Tokens → Text → TokenStore × Result Text TokenError → Tokens × ControlResponse Value
    answer_rotate s name (tokens, ok token) =
        (closed s tokens name, ControlResponse.token name token)
    answer_rotate s name (tokens, err e) = (record s { tokens = tokens }, control_error e)

    abbrev answer_revoke :
        Tokens → Text → TokenStore × Result (Unit {0}) TokenError → Tokens × ControlResponse Value
    answer_revoke s name (tokens, ok u) = (closed s tokens name, ControlResponse.ok)
    answer_revoke s name (tokens, err e) = (record s { tokens = tokens }, control_error e)

    unfoldable pub handle_control_request :
        Bool
        → Tokens
        → ControlRequest
        → (token now : Text) (status : Value) → Tokens × ControlResponse Value
    handle_control_request fault s ControlRequest.status token now status =
        (s, ControlResponse.status status)
    handle_control_request fault s (ControlRequest.token_add name) token now status =
        answer_add s name (add fault s.tokens name token now)
    handle_control_request fault s (ControlRequest.token_rotate name) token now status =
        answer_rotate s name (rotate fault s.tokens name token now)
    handle_control_request fault s (ControlRequest.token_revoke name) token now status =
        answer_revoke s name (revoke fault s.tokens name)
    handle_control_request fault s ControlRequest.token_list token now status =
        (s, ControlResponse.tokens (list s.tokens (active_connection_counts store s.subscribers)))
