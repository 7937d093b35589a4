-- ===== src/Server/Tokens/Stream/Tests.antt =====
-- A stream of a malformed line, a blank line and two requests.
use whdr.Common.{
  ◌≡◌, refl, [], ◌∷◌, false, Text, codes, Result, ok, err, ◌==◌, text_eq, if◌then◌else◌,
  trim_start_matches, trim_end_matches,
}
use whdr.Proto.Messages.{ControlRequest, ControlResponse}
use whdr.Proto.Ndjson.{NdjsonError, malformed_json, Json, encode_line, decode_line}
use whdr.Server.DeliveryLog.ListStore.{list_store}
use whdr.Server.Subscribers.{close_named, new}
use whdr.Server.Tokens.{TokenError, Tokens, handle_control_request, add, revoke, validate_name}
use whdr.Server.Tokens.Stream.{Line, handle_control_stream}

abbrev hash : Text → Text
hash token = b'#' ∷ token

abbrev error_text : TokenError → Text
error_text e = codes "refused"

abbrev parse : Text → Result ControlRequest NdjsonError
parse t =
    if t == codes "add"
    then ok (ControlRequest.token_add (codes "p"))
    else if t == codes "revoke"
    then ok (ControlRequest.token_revoke (codes "p"))
    else err malformed_json

abbrev requests : Json ControlRequest
requests = record { to_string = λ r. err malformed_json; from_str = parse }

abbrev print : ControlResponse (Unit {0}) → Result Text NdjsonError
print (ControlResponse.token name token) = ok (codes "token")
print ControlResponse.ok = ok (codes "ok")
print (ControlResponse.error msg) = ok msg
print _ = err malformed_json

abbrev responses : Json (ControlResponse (Unit {0}))
responses = record { to_string = print; from_str = λ t. err malformed_json }

abbrev line :
    Text → Line hash list_store error_text (Unit {0}) requests responses (λ e. codes "malformed")
line text = record { text = text; fault = false; token = codes "t"; now = []; status = tt }

abbrev start : Tokens hash list_store error_text (Unit {0})
start = record { tokens = []; subscribers = new list_store }

one_line_each :
    handle_control_stream hash list_store error_text
      (Unit {0})
      requests
      responses
      (λ e. codes "malformed")
      (line (codes "x")
        ∷ line (codes " ")
        ∷ line (codes "add")
        ∷ line (codes "revoke")
        ∷ line (codes "revoke")
        ∷ [])
      start
    ≡ (start, codes "malformed\ntoken\nok\nrefused\n", ok tt)
unfolding handle_control_stream encode_line decode_line trim_start_matches trim_end_matches
    handle_control_request add revoke validate_name close_named new
one_line_each = refl
