-- ===== src/Proto/Channel/Grammar.antt =====
-- What the two validators of channel.rs accept, against the grammar of tokens.
use whdr.Common.{
  ℕ, ◌+◌, ◌≡◌, refl, ◌≢◌, ◌↔◌, ◌⊎◌, List, [], ◌∷◌, true, false, arith, All, Text, split, length, ok,
  is_empty, text_beq_iff, text_eq,
}
use whdr.Proto.Channel.{
  star, tail_wildcard, valid_plain_token, validate_channel_tokens, validate_channel,
  validate_pattern_tokens, validate_pattern,
}

-- A dot-separated list of plain tokens.
abbrev pub IsPlain : Text → Type 0
IsPlain token = valid_plain_token token ≡ true

abbrev pub IsChannel : Text → Type 0
IsChannel channel = All IsPlain (split b'.' channel)

-- Each token is plain or `*`, and `>` stands at the end only.
abbrev pub ArePattern : List Text → Type 0
ArePattern [] = Unit
ArePattern (token ∷ tokens) =
    (IsPlain token × ArePattern tokens)
    ⊎ ((token ≡ star) × ArePattern tokens)
    ⊎ ((token ≡ tail_wildcard) × (tokens ≡ []))

abbrev pub IsPattern : Text → Type 0
IsPattern pattern = ArePattern (split b'.' pattern)

pub IsPlain-ne-star : (token : Text) → IsPlain token → token ≢ star
unfolding valid_plain_token
IsPlain-ne-star token h e = cc (rw e at h)

pub IsPlain-ne-tail_wildcard : (token : Text) → IsPlain token → token ≢ tail_wildcard
unfolding valid_plain_token
IsPlain-ne-tail_wildcard token h e = cc (rw e at h)

IsPlain-is_empty : (token : Text) → IsPlain token → is_empty token ≡ false
unfolding valid_plain_token
IsPlain-is_empty [] h = cc
IsPlain-is_empty (c ∷ s) h = refl

validate_channel_tokens_iff :
    (tokens : List Text) → (validate_channel_tokens tokens ≡ ok tt) ↔ All IsPlain tokens
unfolding validate_channel_tokens
validate_channel_tokens_iff [] = (λ _. tt, λ _. refl)
validate_channel_tokens_iff (token ∷ tokens) = ground (
  arith,
  validate_channel_tokens_iff tokens,
  text_beq_iff token star,
  text_beq_iff token tail_wildcard,
  IsPlain-ne-star token,
  IsPlain-ne-tail_wildcard token,
  IsPlain-is_empty token,
)

-- `validate_channel` accepts a text exactly when it is a non-empty, dot-separated list of plain
-- tokens: non-empty runs of lower-case letters, digits, `_` and `-`.
pub validate_channel_iff : (channel : Text) → (validate_channel channel ≡ ok tt) ↔ IsChannel channel
unfolding validate_channel split valid_plain_token
validate_channel_iff [] = (λ h. cc, λ h. cc h.0)
validate_channel_iff (c ∷ s) = validate_channel_tokens_iff (split b'.' (c ∷ s))

validate_pattern_tokens_iff :
    (count idx : ℕ) (tokens : List Text)
    → idx + length tokens ≡ count
    → (validate_pattern_tokens count idx tokens ≡ ok tt) ↔ ArePattern tokens
unfolding validate_pattern_tokens
validate_pattern_tokens_iff count idx [] h = (λ _. tt, λ _. refl)
validate_pattern_tokens_iff count idx (token ∷ []) h = ground (
  arith,
  text_beq_iff token star,
  text_beq_iff token tail_wildcard,
  IsPlain-ne-star token,
  IsPlain-ne-tail_wildcard token,
  IsPlain-is_empty token,
)
validate_pattern_tokens_iff count idx (token ∷ next ∷ tokens) h = ground (
  arith,
  validate_pattern_tokens_iff count (idx + 1) (next ∷ tokens),
  text_beq_iff token star,
  text_beq_iff token tail_wildcard,
  IsPlain-ne-star token,
  IsPlain-ne-tail_wildcard token,
  IsPlain-is_empty token,
)

-- `validate_pattern` accepts a text exactly when each of its tokens is plain, or `*`, or is a `>` in
-- the last place.
pub validate_pattern_iff : (pattern : Text) → (validate_pattern pattern ≡ ok tt) ↔ IsPattern pattern
unfolding validate_pattern split valid_plain_token
validate_pattern_iff [] = ground arith
validate_pattern_iff (c ∷ s) =
    validate_pattern_tokens_iff (length (split b'.' (c ∷ s))) 0 (split b'.' (c ∷ s)) (omega arith)
