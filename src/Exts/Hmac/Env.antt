-- ===== src/Exts/Hmac/Env.antt =====
-- exts/whdr-ext-hmac/src/lib.rs: the configuration that from_env reads. The environment is a function, which gives nothing for a variable that is not set or is no text.
pub mod Prefix
mod Tests
use whdr.Common.{
  Option, none, some, Bool, true, false, not, ◌||◌, Text, codes, Result, ok, err, ◌>>=◌, ◌==◌,
  text_eq, if◌then◌else◌, is_empty, trim, map, to_ascii_lowercase,
}
use mathlib.Core.Option
use whdr.Exts.Hmac.{
  Algorithm, sha1, sha256, sha512, Encoding, hex, base64, HmacConfig, default_config, channel_token,
}

pub data EnvError : Type 0 where
  unsupported_algorithm unsupported_encoding : Text → EnvError

abbrev algorithm_of : Text → Result Algorithm EnvError
algorithm_of name =
    if name == codes "sha1"
    then ok sha1
    else if name == codes "sha256"
    then ok sha256
    else if name == codes "sha512"
    then ok sha512
    else err (unsupported_algorithm name)

unfoldable pub parse_algorithm : Text → Result Algorithm EnvError
parse_algorithm input = algorithm_of (map to_ascii_lowercase (trim input))

abbrev encoding_of : Text → Result Encoding EnvError
encoding_of name =
    if name == codes "hex"
    then ok hex
    else if name == codes "base64" || name == codes "b64"
    then ok base64
    else err (unsupported_encoding name)

unfoldable pub parse_encoding : Text → Result Encoding EnvError
parse_encoding input = encoding_of (map to_ascii_lowercase (trim input))

unfoldable pub non_empty_env : (env : Text → Option Text) → (key : Text) → Option Text
non_empty_env env key = elim (env key) [
  | none ↦ none
  | some value ↦ if not (is_empty (trim value)) then some value else none
]

-- What is read of a variable that is set, and otherwise the default.
abbrev pub parsed_or :
    {A : Type 0} (parse : Text → Result A EnvError)
    → (default : A) → Option Text
    → Result A EnvError
parsed_or parse default none = ok default
parsed_or parse default (some value) = parse value

abbrev pub value_or : (default : Text) → Option Text → Text
value_or default none = default
value_or default (some value) = value

abbrev pub channel_prefix_key : Text
channel_prefix_key = codes "WHDR_HMAC_CHANNEL_PREFIX"

unfoldable pub from_env : (env : Text → Option Text) → Result HmacConfig EnvError
from_env env = do
  algorithm ←
      parsed_or parse_algorithm default_config.algorithm
        (non_empty_env env (codes "WHDR_HMAC_ALGORITHM"))
  encoding ←
      parsed_or parse_encoding default_config.encoding
        (non_empty_env env (codes "WHDR_HMAC_ENCODING"))
  ok (record {
    header = value_or default_config.header (non_empty_env env (codes "WHDR_HMAC_HEADER"));
    algorithm = algorithm;
    encoding = encoding;
    prefix = non_empty_env env (codes "WHDR_HMAC_PREFIX");
    channel_prefix =
        value_or default_config.channel_prefix
          (Option.map channel_token (non_empty_env env channel_prefix_key));
  })
