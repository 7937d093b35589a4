-- ===== src/Exts/Hmac.antt =====
-- exts/whdr-ext-hmac/src/lib.rs and the helpers of crates/whdr-ext-kit/src/lib.rs that it calls: the
-- check of the signature of a dispatch and the event it emits. The digests and the encodings of the
-- `hmac`, `hex` and `base64` crates are a parameter. Header values are ASCII, as the daemon passes no
-- other on.
pub mod Signature
pub mod Channels
pub mod Env
mod Tests
use whdr.Common.{
  trim_matches, trim, ℕ, List, [], ◌∷◌, ◌++◌, Option, none, some, Bool, true, false, not, ◌&&◌,
  ◌||◌, Text, codes, Result, ok, err, ◌>>=◌, ◌>>◌, guard, ◌==◌, text_eq, nat_eq, if◌then◌else◌,
  is_empty, is_ascii_lowercase, is_ascii_uppercase, is_ascii_digit, to_ascii_lowercase, leb, length,
  drop, map, split, strip_prefix,
}
use whdr.Proto.Messages.{Event, HttpReply, Headers, Dispatch, SrvMsg}

pub data Algorithm : Type 0 where
  sha1 sha256 sha512 : Algorithm

pub data Encoding : Type 0 where
  hex base64 : Encoding

-- `Hmac`, `hex` and `STANDARD`
pub record Crypto : Type 0 where
  pub mac : Algorithm → (secret body : Text) → Text
  pub encode : Encoding → Text → Text
  pub decode : Encoding → Text → Option Text

pub record HmacConfig : Type 0 where
  pub header : Text
  pub algorithm : Algorithm
  pub encoding : Encoding
  pub prefix : Option Text
  pub channel_prefix : Text

abbrev pub default_config : HmacConfig
default_config = record {
  header = codes "X-Signature";
  algorithm = sha256;
  encoding = hex;
  prefix = none;
  channel_prefix = codes "hmac";
}

pub data HmacError : Type 0 where
  invalid_base64 : HmacError

unfoldable pub text_reply : ℕ → Text → HttpReply
text_reply status body = record { status = status; headers = []; body = body }

-- `eq_ignore_ascii_case`
unfoldable pub eq_ignore_ascii_case : Text → Text → Bool
eq_ignore_ascii_case s t = map to_ascii_lowercase s == map to_ascii_lowercase t

unfoldable pub header_value : Headers → Text → Option Text
header_value [] name = none
header_value ((key, value) ∷ headers) name =
    if eq_ignore_ascii_case key name then some value else header_value headers name

-- The loop of `channel_token`. A character that takes several bytes becomes one dash: the bytes after
-- its first one, from 128 to 191, add none.
unfoldable pub token_bytes : Text → Text
token_bytes [] = []
token_bytes (b ∷ s) =
    let rest = token_bytes s in
    if is_ascii_lowercase b || is_ascii_digit b || b == b'_' || b == b'-'
    then b ∷ rest
    else if is_ascii_uppercase b
    then to_ascii_lowercase b ∷ rest
    else if leb 128 b && leb b 191
    then rest
    else b'-' ∷ rest

unfoldable pub channel_token : Text → Text
channel_token input = trim_matches (λ b. b == b'-') (token_bytes input)

-- The loop of `derive_channel`.
unfoldable pub push_segments : Text → List Text → Text
push_segments channel [] = channel
push_segments channel (segment ∷ segments) =
    let token = channel_token segment in
    push_segments (if is_empty token then channel else (channel ++ b'.' ∷ token)) segments

unfoldable pub derive_channel : (channel_prefix path : Text) → Text
derive_channel channel_prefix path = push_segments channel_prefix (drop 2 (split b'/' path))

abbrev pub ok_or : Option Text → Text → Result Text Text
ok_or none message = err message
ok_or (some a) message = ok a

-- The signature without the configured prefix.
unfoldable pub strip_configured : Option Text → Text → Option Text
strip_configured none header = some header
strip_configured (some prefix) header = strip_prefix prefix header

module _ (crypto : Crypto) where
  unfoldable pub sign : HmacConfig → (secret body : Text) → Text
  sign config secret body =
      let encoded = crypto.encode config.encoding (crypto.mac config.algorithm secret body) in
      elim config.prefix [ none ↦ encoded | some prefix ↦ prefix ++ encoded ]

  -- The checks of `handle_hmac_dispatch`, each with the text of its refusal.
  unfoldable pub verify :
      HmacConfig → Headers → Option Text → (body : Text) → Result (Unit {0}) Text
  verify config headers secret body = do
    key ← ok_or secret (codes "missing secret")
    header ← ok_or (header_value headers config.header) (codes "missing signature header")
    signature ← ok_or (strip_configured config.prefix header) (codes "malformed signature")
    provided ← ok_or (crypto.decode config.encoding (trim signature)) (codes "malformed signature")
    let expected = crypto.mac config.algorithm key body
    guard (length provided == length expected && provided == expected) (codes "invalid signature")

  unfoldable pub answer : HmacConfig → Dispatch → (body : Text) → HttpReply × List Event
  answer config d body = elim (verify config d.headers d.secret body) [
    | err message ↦ (text_reply 401 message, [])
    | ok _ ↦ (
      text_reply 200 (codes "ok"),
      record {
        channel = derive_channel config.channel_prefix d.path;
        payload_b64 = crypto.encode base64 body;
      }
          ∷ [],
    )
  ]

  unfoldable pub handle_hmac_dispatch :
      HmacConfig → SrvMsg → Result (HttpReply × List Event) HmacError
  handle_hmac_dispatch config SrvMsg.shutdown = ok (text_reply 200 (codes "shutdown ignored"), [])
  handle_hmac_dispatch config (SrvMsg.dispatch d) = elim (crypto.decode base64 d.body_b64) [
    | none ↦ err invalid_base64
    | some body ↦ ok (answer config d body)
  ]
