-- ===== src/Exts/Hmac/Env/Prefix.antt =====
-- exts/whdr-ext-hmac/src/lib.rs: the channels under a configuration that from_env has read.
use whdr.Common.{
  ◌≡◌, refl, sym, subst, ◌⊎◌, inl, inr, [], ◌∷◌, Option, some, true, Text, codes, ok, is_empty,
  trim, All, Option-cases, Bool-cases, bind_ok, ok-injective, split,
}
use mathlib.Core.Option
use whdr.Proto.Channel.{validate_channel, validate_channel_tokens, valid_plain_token, plain_byte}
use whdr.Proto.Channel.Grammar.{IsPlain, validate_channel_iff}
use whdr.Exts.Hmac.{HmacConfig, default_config, channel_token, derive_channel}
use whdr.Exts.Hmac.Channels.{channel_token-IsPlain, split-IsPlain, derive_channel_valid}
use whdr.Exts.Hmac.Env.{
  parse_algorithm, parse_encoding, non_empty_env, parsed_or, value_or, channel_prefix_key, from_env,
}

-- The prefix is a channel, or the variable has no byte that a token keeps.
abbrev PrefixRead : (env : Text → Option Text) → (prefix : Text) → Type 0
PrefixRead env prefix =
    (validate_channel prefix ≡ ok tt)
    ⊎ ((value : Text) × (env channel_prefix_key ≡ some value)
        × (channel_token value ≡ [])
        × (prefix ≡ []))

default_prefix_valid : validate_channel default_config.channel_prefix ≡ ok tt
unfolding validate_channel validate_channel_tokens valid_plain_token plain_byte split
default_prefix_valid = refl

IsPlain-valid : (t : Text) → IsPlain t → validate_channel t ≡ ok tt
IsPlain-valid t p =
    (validate_channel_iff t).1 (subst (All IsPlain) (sym (split-IsPlain t p)) (p, tt))

no_bytes : (t : Text) → is_empty t ≡ true → t ≡ []
no_bytes [] h = refl
no_bytes (c ∷ t) h = cc

read_prefix :
    (env : Text → Option Text)
    → PrefixRead env (
        value_or default_config.channel_prefix
          (Option.map channel_token (non_empty_env env channel_prefix_key)))
unfolding non_empty_env
read_prefix env = elim (Option-cases (env channel_prefix_key)) [
  | inl e ↦ rw (non_empty_env, e) (inl default_prefix_valid)
  | inr (value, e) ↦ elim (Bool-cases (is_empty (trim value))) [
    | inl blank ↦ rw (non_empty_env, e, blank) (inl default_prefix_valid)
    | inr kept ↦
        rw (non_empty_env, e, kept)
          (elim (Bool-cases (is_empty (channel_token value))) [
            | inl gone ↦
                let empty = no_bytes (channel_token value) gone in inr (value, refl, empty, empty)
            | inr token ↦
                inl (IsPlain-valid (channel_token value) (channel_token-IsPlain value token))
          ])
  ]
]

-- With a configuration that is read, the channel derived for a path is valid, whatever the path,
-- unless the variable of the channel prefix is set to a text that has no byte a token keeps.
pub from_env-derive_channel :
    (env : Text → Option Text) (config : HmacConfig) (path : Text)
    → from_env env ≡ ok config
    → (validate_channel (derive_channel config.channel_prefix path) ≡ ok tt)
      ⊎ ((value : Text) × (env channel_prefix_key ≡ some value) × (channel_token value ≡ []))
unfolding from_env
from_env-derive_channel env config path h =
    let (algorithm, a, h) =
      bind_ok
        (parsed_or parse_algorithm default_config.algorithm
          (non_empty_env env (codes "WHDR_HMAC_ALGORITHM")))
        _ h in
    let (encoding, b, h) =
      bind_ok
        (parsed_or parse_encoding default_config.encoding
          (non_empty_env env (codes "WHDR_HMAC_ENCODING")))
        _ h in
    let prefix = subst (λ c. PrefixRead env c.channel_prefix) (ok-injective h) (read_prefix env) in
    elim prefix [
      | inl valid ↦ inl (derive_channel_valid config.channel_prefix path valid)
      | inr (value, set, empty, gone) ↦ inr (value, set, empty)
    ]
