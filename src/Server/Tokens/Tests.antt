-- ===== src/Server/Tokens/Tests.antt =====
-- Requests on a concrete store, and the theorems on them.
use whdr.Common.{ℕ, ◌≡◌, refl, [], ◌∷◌, some, none, Text, codes, true, false, err}
use whdr.Proto.Messages.{ControlRequest, ControlResponse, ClosingReason}
use whdr.Server.DeliveryLog.ListStore.{list_store}
use whdr.Server.Subscribers.{Subscriber, SubscriberRegistry, close_named}
use whdr.Server.Tokens.{
  TokenError, TokenRecord, Tokens, handle_control_request, authenticate, rotate, revoke, add,
  validate_name, not_persisted,
}
use whdr.Server.Tokens.Revocation.{
  IsRotated, IsRevoked, handle_token_rotate-IsRotated, handle_token_revoke-IsRevoked,
}

-- A stand-in for the hash that is one-to-one.
abbrev hash : Text → Text
hash token = b'#' ∷ token

abbrev error_text : TokenError → Text
error_text e = []

abbrev connection : Subscriber
connection = record {
  name = codes "p";
  remote_addr = none;
  patterns = [];
  queue = record {
    inner = [];
    max_events = 4;
    max_event_bytes = 100;
    delivered = 0;
    dropped = 0;
    lag_pending = 0;
  };
  close = none;
}

abbrev registry : Subscriber → SubscriberRegistry list_store
registry s = record {
  subscribers = (1, s) ∷ [];
  next_id = 2;
  seq = 0;
  delivery = none;
  persist_errors = 0;
}

abbrev token_record : Text → TokenRecord
token_record token = record { hash = hash token; created = codes "now" }

abbrev one : Tokens hash list_store error_text ℕ
one = record {
  tokens = (codes "p", token_record (codes "old")) ∷ [];
  subscribers = registry connection;
}

abbrev closed_connection : Subscriber
closed_connection = record connection { close = some ClosingReason.revoked }

abbrev rotated_one : Tokens hash list_store error_text ℕ
rotated_one = record {
  tokens = (codes "p", token_record (codes "new")) ∷ [];
  subscribers = registry closed_connection;
}

rotate_answers :
    handle_control_request hash list_store error_text ℕ false one
      (ControlRequest.token_rotate (codes "p"))
      (codes "new")
      (codes "now")
      0
    ≡ (rotated_one, ControlResponse.token (codes "p") (codes "new"))
unfolding handle_control_request rotate validate_name close_named
rotate_answers = refl

authenticate_tests :
    (authenticate hash one.tokens (codes "old") ≡ some (codes "p"))
    × (authenticate hash rotated_one.tokens (codes "old") ≡ none)
    × (authenticate hash rotated_one.tokens (codes "new") ≡ some (codes "p"))
unfolding authenticate
authenticate_tests = (refl, refl, refl)

-- A failed write leaves the new token in memory, without an answer that tells it.
failed_add :
    add hash true [] (codes "q") (codes "new") (codes "now")
    ≡ ((codes "q", token_record (codes "new")) ∷ [], err not_persisted)
unfolding add validate_name
failed_add = refl

-- A revocation that is not persisted forgets the name and leaves its connections open.
failed_revoke :
    handle_control_request hash list_store error_text ℕ true one
      (ControlRequest.token_revoke (codes "p"))
      []
      []
      0
    ≡ (record one { tokens = [] }, ControlResponse.error [])
unfolding handle_control_request revoke
failed_revoke = refl

handle_token_rotate-IsRotated_example :
    IsRotated hash list_store error_text ℕ one rotated_one (codes "p") (codes "new")
handle_token_rotate-IsRotated_example =
    handle_token_rotate-IsRotated hash list_store error_text ℕ false one rotated_one (codes "p")
      (codes "new") (codes "now") (codes "new") 0 (refl, tt) rotate_answers

abbrev revoked_one : Tokens hash list_store error_text ℕ
revoked_one = record { tokens = []; subscribers = registry closed_connection }

revoke_answers :
    handle_control_request hash list_store error_text ℕ false one
      (ControlRequest.token_revoke (codes "p"))
      []
      []
      0
    ≡ (revoked_one, ControlResponse.ok)
unfolding handle_control_request revoke close_named
revoke_answers = refl

handle_token_revoke-IsRevoked_example :
    IsRevoked hash list_store error_text ℕ revoked_one (codes "p")
handle_token_revoke-IsRevoked_example =
    handle_token_revoke-IsRevoked hash list_store error_text ℕ false one revoked_one (codes "p") []
      [] 0 (refl, tt) revoke_answers
