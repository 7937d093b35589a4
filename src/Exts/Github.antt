-- ===== src/Exts/Github.antt =====
-- exts/whdr-ext-github/src/lib.rs: the check of a webhook's signature and the event it becomes. What
-- serde_json reads of a body is an argument: nothing where it is no JSON, otherwise its `action` where
-- that is a string.
pub mod Verified
mod Tests
use whdr.Common.{
  ℕ, List, [], ◌∷◌, ◌++◌, Option, none, some, Bool, true, false, not, ◌&&◌, Text, codes, Result, ok,
  err, ◌>>=◌, ◌>>◌, ◌==◌, text_eq, if◌then◌else◌, is_empty,
}
use whdr.Proto.Messages.{Event, HttpReply, Headers, Dispatch, SrvMsg}
use whdr.Exts.Hmac.{Crypto, sha256, hex, base64, text_reply, header_value, channel_token}

pub data GithubError : Type 0 where
  invalid_base64 : GithubError
  invalid_json : GithubError

-- `channel_token` of this extension: that of the HMAC extension, and a name for the empty token.
unfoldable pub github_token : Text → Text
github_token input =
    let trimmed = channel_token input in if is_empty trimmed then codes "unknown" else trimmed

-- `unwrap_or`
abbrev pub unwrap_or : Option Text → Text → Text
unwrap_or none t = t
unwrap_or (some s) t = s

unfoldable pub github_channel : (github_event : Text) (action : Option Text) → Text
github_channel github_event action =
    let channel = codes "github" ++ b'.' ∷ github_token github_event in
    elim action [
      | none ↦ channel
      | some a ↦ if is_empty (github_token a) then channel else (channel ++ b'.' ∷ github_token a)
    ]

module _ (crypto : Crypto) (parse_action : Text → Option (Option Text)) where
  unfoldable pub github_signature : (secret body : Text) → Text
  github_signature secret body =
      codes "sha256=" ++ crypto.encode hex (crypto.mac sha256 secret body)

  -- `handle_github_dispatch` from the secret on.
  unfoldable pub answer_github :
      Dispatch → (body secret : Text) → Result (HttpReply × List Event) GithubError
  answer_github d body secret =
      let provided = unwrap_or (header_value d.headers (codes "x-hub-signature-256")) [] in
      let github_event =
        unwrap_or (header_value d.headers (codes "x-github-event")) (codes "unknown") in
      let parsed : Result (HttpReply × List Event) GithubError = elim (parse_action body) [
        | none ↦ err invalid_json
        | some action ↦ ok (
          text_reply 200 (codes "ok"),
          record {
            channel = github_channel github_event action;
            payload_b64 = crypto.encode base64 body;
          }
              ∷ [],
        )
      ] in
      if provided == github_signature secret body
      then parsed
      else ok (text_reply 401 (codes "invalid signature"), [])

  unfoldable pub handle_github_dispatch : SrvMsg → Result (HttpReply × List Event) GithubError
  handle_github_dispatch SrvMsg.shutdown = ok (text_reply 200 (codes "shutdown ignored"), [])
  handle_github_dispatch (SrvMsg.dispatch d) = elim (crypto.decode base64 d.body_b64) [
    | none ↦ err invalid_base64
    | some body ↦ elim d.secret [
      | none ↦ ok (text_reply 401 (codes "missing secret"), [])
      | some secret ↦ answer_github d body secret
    ]
  ]
