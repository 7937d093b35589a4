-- ===== src/Exts/Teams/Tests.antt =====
-- Runs of the Teams extension with an example of an encoding and a parser.
use whdr.Common.{
  trim_start_matches, trim_end_matches, ◌≡◌, refl, List, [], ◌∷◌, ◌++◌, Option, none, some, Text,
  codes, ok, err, ◌==◌, text_eq, if◌then◌else◌, All, split,
}
use whdr.Proto.Channel.{
  validate_channel, validate_channel_tokens, valid_plain_token, plain_byte, empty_token,
}
use whdr.Proto.Messages.{Event, Dispatch, SrvMsg}
use whdr.Exts.Hmac.{Crypto, text_reply, eq_ignore_ascii_case}
use whdr.Exts.Teams.{
  Item, handle_teams_dispatch, take_notification, take_items, validation_token, find_token,
  percent_decode, from_hex, resource_to_channel, resource_bytes, replace_dots, handshake, items_of,
}
use whdr.Exts.Teams.Notified.{Carries, events_of, handle_teams_dispatch_emits}

abbrev example_crypto : Crypto
example_crypto = record {
  mac = λ algorithm secret body. secret ++ body;
  encode = λ encoding bytes. bytes;
  decode = λ encoding text. some text;
}

abbrev item : Item
item = record { client_state = some (codes "k"); resource = some (codes "/Teams/1:a") }

-- Any text but one is a notification.
abbrev example_parser : Text → Option (Option (List Item))
example_parser body = if body == codes "garbage" then none else some (some (item ∷ []))

abbrev notification : Dispatch
notification = record {
  req_id = 7;
  method = codes "POST";
  path = codes "/teams";
  query = none;
  headers = [];
  body_b64 = codes "{}";
  secret = some (codes "k");
}

abbrev notified : Event
notified = record { channel = codes "teams.teams.1.a"; payload_b64 = codes "{}" }

accepted :
    handle_teams_dispatch example_crypto example_parser (SrvMsg.dispatch notification)
    ≡ ok (text_reply 202 (codes "accepted"), notified ∷ [])
unfolding handle_teams_dispatch take_notification take_items validation_token eq_ignore_ascii_case
    resource_to_channel resource_bytes replace_dots trim_start_matches trim_end_matches
accepted = refl

refused :
    handle_teams_dispatch example_crypto example_parser
      (SrvMsg.dispatch (record notification { secret = some (codes "j") }))
    ≡ ok (text_reply 401 (codes "invalid clientState"), [])
unfolding handle_teams_dispatch take_notification take_items validation_token eq_ignore_ascii_case
    resource_to_channel resource_bytes replace_dots trim_start_matches trim_end_matches
refused = refl

echoed :
    handle_teams_dispatch example_crypto example_parser (
      SrvMsg.dispatch (record notification { query = some (codes "a=1&validationToken=x%20y+%4") }))
    ≡ ok (
      record {
        status = 200;
        headers = (codes "content-type", codes "text/plain") ∷ [];
        body = codes "x y %4";
      },
      [],
    )
unfolding handle_teams_dispatch validation_token find_token percent_decode from_hex
    eq_ignore_ascii_case split
echoed = refl

-- Two dots are made one in a single pass, so three in a row leave an empty token.
channels :
    (resource_to_channel (codes "chats/19:A(x)/") ≡ codes "chats.19.a-x-")
    × (resource_to_channel (codes "a//b") ≡ codes "a.b")
    × (validate_channel (codes "teams" ++ b'.' ∷ resource_to_channel (codes "a///b"))
        ≡ err empty_token)
    × (validate_channel (codes "teams" ++ b'.' ∷ resource_to_channel (codes "")) ≡ err empty_token)
unfolding resource_to_channel resource_bytes replace_dots trim_start_matches trim_end_matches
    validate_channel validate_channel_tokens valid_plain_token plain_byte split
channels = (refl, refl, refl, refl)

handle_teams_dispatch_emits_example :
    (handshake example_crypto example_parser notification ≡ none)
    × ((body : Text) × (secret : Text) × (value : Option (List Item)) × (some (codes "{}")
          ≡ some body)
        × (example_parser body ≡ some value)
        × (some (codes "k") ≡ some secret)
        × (text_reply 202 (codes "accepted") ≡ text_reply 202 (codes "accepted"))
        × All (Carries secret) (items_of example_crypto example_parser value)
        × (notified ∷ []
            ≡ events_of example_crypto example_parser body
                (items_of example_crypto example_parser value)))
handle_teams_dispatch_emits_example =
    handle_teams_dispatch_emits example_crypto example_parser notification
      (text_reply 202 (codes "accepted")) notified [] accepted
