-- ===== src/Exts/Github/Tests.antt =====
-- Runs of the GitHub extension with an example of a digest, an encoding and a parser.
use whdr.Common.{
  trim_start_matches, trim_end_matches, ◌≡◌, refl, [], ◌∷◌, ◌++◌, Option, none, some, Text, codes,
  ok, err,
}
use whdr.Proto.Messages.{Event, Dispatch, SrvMsg}
use whdr.Exts.Hmac.{
  Crypto, text_reply, header_value, eq_ignore_ascii_case, channel_token, token_bytes,
}
use whdr.Exts.Github.{
  handle_github_dispatch, answer_github, github_signature, github_channel, github_token,
  invalid_json,
}
use whdr.Exts.Github.Verified.{IsGithubEvent, handle_github_dispatch_emits}

abbrev example_crypto : Crypto
example_crypto = record {
  mac = λ algorithm secret body. secret ++ body;
  encode = λ encoding bytes. bytes;
  decode = λ encoding text. some text;
}

abbrev opened : Text → Option (Option Text)
opened body = some (some (codes "Opened!"))

abbrev broken : Text → Option (Option Text)
broken body = none

abbrev delivery : Dispatch
delivery = record {
  req_id = 7;
  method = codes "POST";
  path = codes "/gh";
  query = none;
  headers =
      (codes "X-Hub-Signature-256", codes "sha256=kdata")
      ∷ (codes "X-GitHub-Event", codes "pull_request")
      ∷ [];
  body_b64 = codes "data";
  secret = some (codes "k");
}

abbrev opened_event : Event
opened_event = record { channel = codes "github.pull_request.opened"; payload_b64 = codes "data" }

accepted :
    handle_github_dispatch example_crypto opened (SrvMsg.dispatch delivery)
    ≡ ok (text_reply 200 (codes "ok"), opened_event ∷ [])
unfolding handle_github_dispatch answer_github github_signature github_channel github_token
    header_value eq_ignore_ascii_case channel_token token_bytes trim_start_matches trim_end_matches
accepted = refl

refusals :
    (handle_github_dispatch example_crypto broken (SrvMsg.dispatch delivery) ≡ err invalid_json)
    × (handle_github_dispatch example_crypto opened
          (SrvMsg.dispatch (record delivery { secret = some (codes "j") }))
        ≡ ok (text_reply 401 (codes "invalid signature"), []))
    × (handle_github_dispatch example_crypto opened
          (SrvMsg.dispatch (record delivery { secret = none }))
        ≡ ok (text_reply 401 (codes "missing secret"), []))
    × (github_channel (codes "??") (some (codes "")) ≡ codes "github.unknown.unknown")
unfolding handle_github_dispatch answer_github github_signature github_channel github_token
    header_value eq_ignore_ascii_case channel_token token_bytes trim_start_matches trim_end_matches
refusals = (refl, refl, refl, refl)

handle_github_dispatch_emits_example :
    IsGithubEvent example_crypto opened delivery (text_reply 200 (codes "ok")) (opened_event ∷ [])
handle_github_dispatch_emits_example =
    handle_github_dispatch_emits example_crypto opened delivery (text_reply 200 (codes "ok"))
      opened_event [] accepted
