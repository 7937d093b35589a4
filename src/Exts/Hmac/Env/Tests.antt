-- ===== src/Exts/Hmac/Env/Tests.antt =====
-- Environments that are read and one that is refused, a prefix without a token, and the theorem applied
-- to an environment.
use whdr.Common.{
  ◌≡◌, refl, ◌⊎◌, [], ◌∷◌, List, some, Text, codes, ok, err, get, text_eq, split,
  trim_start_matches, trim_end_matches,
}
use whdr.Proto.Channel.{validate_channel}
use whdr.Exts.Hmac.{
  HmacConfig, sha1, base64, default_config, channel_token, token_bytes, derive_channel,
  push_segments,
}
use whdr.Exts.Hmac.Env.{
  unsupported_algorithm, parse_algorithm, parse_encoding, non_empty_env, channel_prefix_key,
  from_env,
}
use whdr.Exts.Hmac.Env.Prefix.{from_env-derive_channel}

abbrev algorithm_key : Text
algorithm_key = codes "WHDR_HMAC_ALGORITHM"

abbrev full : List (Text × Text)
full =
    (algorithm_key, codes " SHA1 ")
    ∷ (codes "WHDR_HMAC_ENCODING", codes "B64")
    ∷ (codes "WHDR_HMAC_HEADER", codes " ")
    ∷ (channel_prefix_key, codes "/My App/")
    ∷ []

abbrev full_config : HmacConfig
full_config = record default_config {
  algorithm = sha1;
  encoding = base64;
  channel_prefix = codes "my-app";
}

abbrev dashes : List (Text × Text)
dashes = (channel_prefix_key, codes "//") ∷ []

reads :
    (from_env (get []) ≡ ok default_config)
    × (from_env (get full) ≡ ok full_config)
    × (from_env (get ((algorithm_key, codes "MD5") ∷ []))
        ≡ err (unsupported_algorithm (codes "md5")))
unfolding from_env parse_algorithm parse_encoding non_empty_env channel_token token_bytes
    trim_start_matches trim_end_matches
reads = (refl, refl, refl)

-- A prefix without a byte that a token keeps is read as the empty one, under which no channel is valid.
empty_prefix :
    (from_env (get dashes) ≡ ok (record default_config { channel_prefix = [] }))
    × (derive_channel [] (codes "/hmac/orders") ≡ codes ".orders")
unfolding from_env parse_algorithm parse_encoding non_empty_env channel_token token_bytes
    trim_start_matches trim_end_matches derive_channel push_segments split
empty_prefix = (refl, refl)

reads_full : from_env (get full) ≡ ok full_config
reads_full = reads.1

from_env-derive_channel_example :
    (validate_channel (derive_channel (codes "my-app") (codes "/hmac/orders")) ≡ ok tt)
    ⊎ ((value : Text) × (get full channel_prefix_key ≡ some value) × (channel_token value ≡ []))
from_env-derive_channel_example =
    from_env-derive_channel (get full) full_config (codes "/hmac/orders") reads_full
