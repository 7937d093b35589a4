-- ===== src/Exts/Github/Verified.antt =====
-- exts/whdr-ext-github/src/lib.rs: no event without the signature, and every event on a channel that
-- the daemon lets the extension emit on.
use whdr.Common.{
  ◌≡◌, refl, sym, ap, ◌∙◌, List, [], ◌∷◌, ◌++◌, Option, none, some, Text, codes, ok, ◌==◌, text_eq,
  text_beq_iff, Bool-cases, Option-cases, inl, inr, ok-injective, is_empty, split, split-append,
  first_of, arith, ◌<◌, length, length-split_pos,
}
use whdr.Proto.Channel.{valid_plain_token, plain_byte}
use whdr.Proto.Channel.Grammar.{IsPlain, IsChannel, validate_channel_iff}
use whdr.Proto.Messages.{Event, HttpReply, Dispatch, SrvMsg}
use whdr.Server.ChannelClaims.{validate_emitted_channel, first_channel_segment}
use whdr.Exts.Hmac.{Crypto, base64, text_reply, header_value, channel_token}
use whdr.Exts.Hmac.Channels.{channel_token-IsPlain, append-IsChannel}
use whdr.Exts.Github.{
  github_token, unwrap_or, github_channel, github_signature, answer_github, handle_github_dispatch,
}

github_token-IsPlain : (input : Text) → IsPlain (github_token input)
unfolding github_token valid_plain_token plain_byte
github_token-IsPlain input = elim (Bool-cases (is_empty (channel_token input))) [
  | inl e ↦ rw (github_token, e) refl
  | inr e ↦ rw (github_token, e) (channel_token-IsPlain input e)
]

-- The claims of `main`: the id, and one more path.
abbrev pub github_claims : List Text
github_claims = codes "github" ∷ codes "gh" ∷ []

-- The channel is valid, and it begins with the id of the extension.
abbrev OwnChannel : Text → Type 0
OwnChannel channel = IsChannel channel × (first_channel_segment channel ≡ codes "github")

first_of-append : (ts us : List Text) → 0 < length ts → first_of (ts ++ us) ≡ first_of ts
first_of-append [] us h = absurd (omega arith)
first_of-append (t ∷ ts) us h = refl

append-OwnChannel :
    (channel token : Text)
    → OwnChannel channel
    → IsPlain token
    → OwnChannel (channel ++ b'.' ∷ token)
unfolding first_channel_segment
append-OwnChannel channel token (c, f) p = (
  append-IsChannel channel token c p,
  ap first_of (split-append b'.' channel token)
      ∙ first_of-append (split b'.' channel) (split b'.' token) (length-split_pos b'.' channel)
      ∙ f,
)

github-OwnChannel : OwnChannel (codes "github")
unfolding first_channel_segment split valid_plain_token plain_byte
github-OwnChannel = ((refl, tt), refl)

github_channel-OwnChannel :
    (github_event : Text) (action : Option Text) → OwnChannel (github_channel github_event action)
unfolding github_channel
github_channel-OwnChannel github_event none =
    append-OwnChannel (codes "github") (github_token github_event) github-OwnChannel
      (github_token-IsPlain github_event)
github_channel-OwnChannel github_event (some a) =
    let channel = codes "github" ++ b'.' ∷ github_token github_event in
    let base =
      append-OwnChannel (codes "github") (github_token github_event) github-OwnChannel
        (github_token-IsPlain github_event) in
    elim (Bool-cases (is_empty (github_token a))) [
      | inl e ↦ rw e base
      | inr e ↦ rw e (append-OwnChannel channel (github_token a) base (github_token-IsPlain a))
    ]

OwnChannel-emitted :
    (channel : Text)
    → OwnChannel channel
    → validate_emitted_channel channel (codes "github") github_claims [] ≡ ok tt
unfolding validate_emitted_channel
OwnChannel-emitted channel (c, f) =
    rw (validate_emitted_channel, (validate_channel_iff channel).1 c, f) refl

-- What a dispatch that emits an event has shown, and what it emits.
pub record IsGithubEvent (crypto : Crypto) (parse_action : Text → Option (Option Text))
    (d : Dispatch) (reply : HttpReply) (events : List Event) : Type 0 where
  pub body : Text
  pub secret : Text
  pub decoded : crypto.decode base64 d.body_b64 ≡ some body
  pub keyed : d.secret ≡ some secret
  pub signed :
      header_value d.headers (codes "x-hub-signature-256")
      ≡ some (github_signature crypto parse_action secret body)
  pub accepted : reply ≡ text_reply 200 (codes "ok")
  pub channel : Text
  pub emitted : events ≡ record { channel = channel; payload_b64 = crypto.encode base64 body } ∷ []
  pub owned : validate_emitted_channel channel (codes "github") github_claims [] ≡ ok tt

module _ (crypto : Crypto) (parse_action : Text → Option (Option Text)) where
  provided_signed :
      (header : Option Text) (secret body : Text)
      → unwrap_or header [] ≡ github_signature crypto parse_action secret body
      → header ≡ some (github_signature crypto parse_action secret body)
  unfolding github_signature
  provided_signed none secret body e = cc
  provided_signed (some h) secret body e = ap some e

  answer_github_emits :
      (d : Dispatch) (body secret : Text) (reply : HttpReply) (e : Event) (es : List Event)
      → answer_github crypto parse_action d body secret ≡ ok (reply, e ∷ es)
      → crypto.decode base64 d.body_b64 ≡ some body
      → d.secret ≡ some secret
      → IsGithubEvent crypto parse_action d reply (e ∷ es)
  unfolding answer_github
  answer_github_emits d body secret reply e es h decoded keyed =
      let header = header_value d.headers (codes "x-hub-signature-256") in
      let github_event =
        unwrap_or (header_value d.headers (codes "x-github-event")) (codes "unknown") in
      elim (Bool-cases (unwrap_or header [] == github_signature crypto parse_action secret body)) [
        | inl same ↦ elim (Option-cases (parse_action body)) [
          | inl bad ↦ let t = rw (answer_github, same, bad) at h in cc
          | inr (action, good) ↦
              let t = ok-injective (rw (answer_github, same, good) at h) in
              record {
                body = body;
                secret = secret;
                decoded = decoded;
                keyed = keyed;
                signed = provided_signed header secret body ((text_beq_iff _ _).0 same);
                accepted = sym (ap (λ p. p.0) t);
                channel = github_channel github_event action;
                emitted = sym (ap (λ p. p.1) t);
                owned =
                    OwnChannel-emitted (github_channel github_event action)
                      (github_channel-OwnChannel github_event action);
              }
        ]
        | inr other ↦ let t = ap (λ p. p.1) (ok-injective (rw (answer_github, other) at h)) in cc
      ]

-- A dispatch that emits an event has a body that decodes, and in its header the signature of this body
-- under its secret. It is answered with 200 and emits one event, which carries the body, on a channel
-- that the daemon's filter accepts from an extension with the claims that this one registers.
pub handle_github_dispatch_emits :
    (crypto : Crypto) (parse_action : Text → Option (Option Text)) (d : Dispatch)
    (reply : HttpReply) (e : Event) (es : List Event)
    → handle_github_dispatch crypto parse_action (SrvMsg.dispatch d) ≡ ok (reply, e ∷ es)
    → IsGithubEvent crypto parse_action d reply (e ∷ es)
unfolding handle_github_dispatch
handle_github_dispatch_emits crypto parse_action d reply e es h =
    elim (Option-cases (crypto.decode base64 d.body_b64)) [
      | inl bad ↦ let t = rw (handle_github_dispatch, bad) at h in cc
      | inr (body, decoded) ↦ elim (Option-cases d.secret) [
        | inl missing ↦
            let t =
              ap (λ p. p.1) (ok-injective (rw (handle_github_dispatch, decoded, missing) at h)) in
            cc
        | inr (secret, keyed) ↦
            answer_github_emits crypto parse_action d body secret reply e es
              (rw (handle_github_dispatch, decoded, keyed) at h) decoded keyed
      ]
    ]
