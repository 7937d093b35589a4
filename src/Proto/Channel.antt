-- ===== src/Proto/Channel.antt =====
-- crates/whdr-proto/src/channel.rs: channel names, subscription patterns and how they match. The
-- children prove what the grammar accepts and that the matching loop decides the matching relation.
pub mod Grammar
pub mod Matching
mod Tests
use whdr.Common.{
  ℕ, suc, ◌+◌, ◌≡◌, List, [], ◌∷◌, Option, none, some, Bool, true, false, not, ◌&&◌, ◌||◌, Text,
  codes, split, is_ascii_lowercase, is_ascii_digit, is_empty, all, length, get_elem?, Result, ok,
  err, ◌>>=◌, ◌>>◌, ◌==◌, nat_eq, text_eq, ltb, leb, if◌then◌else◌,
}

pub data ChannelError : Type 0 where
  empty : ChannelError
  empty_token : ChannelError
  invalid_token : Text → ChannelError
  wildcard_in_channel : ChannelError
  tail_wildcard_not_final : ChannelError

-- `*` stands for one token, `>` for all that remain.
abbrev pub star : Text
star = b'*' ∷ []

abbrev pub tail_wildcard : Text
tail_wildcard = b'>' ∷ []

unfoldable pub plain_byte : ℕ → Bool
plain_byte b = is_ascii_lowercase b || is_ascii_digit b || b == b'_' || b == b'-'

unfoldable pub valid_plain_token : Text → Bool
unfolding plain_byte
valid_plain_token token = not (is_empty token) && all plain_byte token

-- The loop of `validate_channel`.
unfoldable pub validate_channel_tokens : List Text → Result (Unit {0}) ChannelError
validate_channel_tokens [] = ok tt
validate_channel_tokens (token ∷ tokens) =
    if is_empty token
    then err empty_token
    else if token == star || token == tail_wildcard
    then err wildcard_in_channel
    else if not (valid_plain_token token)
    then err (invalid_token token)
    else validate_channel_tokens tokens

unfoldable pub validate_channel : Text → Result (Unit {0}) ChannelError
validate_channel channel =
    if is_empty channel then err empty else validate_channel_tokens (split b'.' channel)

-- The loop of `validate_pattern`: `count` tokens in all, the first one left at index `idx`.
unfoldable pub validate_pattern_tokens : ℕ → ℕ → List Text → Result (Unit {0}) ChannelError
validate_pattern_tokens count idx [] = ok tt
validate_pattern_tokens count idx (token ∷ tokens) =
    let rest = validate_pattern_tokens count (idx + 1) tokens in
    if is_empty token
    then err empty_token
    else if token == tail_wildcard
    then (if not (idx + 1 == count) then err tail_wildcard_not_final else rest)
    else if token == star
    then rest
    else if not (valid_plain_token token)
    then err (invalid_token token)
    else rest

unfoldable pub validate_pattern : Text → Result (Unit {0}) ChannelError
validate_pattern pattern =
    let tokens = split b'.' pattern in
    if is_empty pattern then err empty else validate_pattern_tokens (length tokens) 0 tokens

abbrev is_at : List Text → ℕ → Text → Bool
is_at tokens ci exact = elim (get_elem? tokens ci) [ none ↦ false | some token ↦ token == exact ]

-- The loop of `channel_matches`, with its two indices.
unfoldable pub match_tokens : List Text → ℕ → ℕ → List Text → Bool
match_tokens channel_tokens pi ci [] = ci == length channel_tokens
match_tokens channel_tokens pi ci (pattern_token ∷ pattern_tokens) =
    let rest = match_tokens channel_tokens (pi + 1) (ci + 1) pattern_tokens in
    if pattern_token == tail_wildcard
    then ltb ci (length channel_tokens) || pi == 0
    else if pattern_token == star
    then (if leb (length channel_tokens) ci then false else rest)
    else if not (is_at channel_tokens ci pattern_token)
    then false
    else rest

unfoldable pub channel_matches : Text → Text → Result Bool ChannelError
channel_matches channel pattern = do
  validate_channel channel
  validate_pattern pattern
  ok (match_tokens (split b'.' channel) 0 0 (split b'.' pattern))

-- A validated pattern; `Pattern::new` is the only way to make one.
pub record Pattern : Type 0 where
  pub text : Text

unfoldable pub pattern_new : Text → Result Pattern ChannelError
pattern_new value = do validate_pattern value; ok (record { text = value })

-- `pattern.matches(channel).unwrap_or(false)`, as the fan-out and the replay read it.
abbrev unwrap_or_false : Result Bool ChannelError → Bool
unwrap_or_false (ok b) = b
unwrap_or_false (err e) = false

unfoldable pub pattern_matches : Text → Text → Bool
pattern_matches pattern channel = unwrap_or_false (channel_matches channel pattern)
