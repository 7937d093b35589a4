-- ===== src/Proto/Channel/Tests.antt =====
-- Runs of the channel grammar on the inputs of crates/whdr-proto/tests/proto.rs.
use whdr.Common.{◌↔◌, inl, inr, ◌≡◌, refl, true, false, ok, err, codes, split}
use whdr.Proto.Channel.{
  channel_matches, validate_channel, validate_pattern, validate_channel_tokens,
  validate_pattern_tokens, match_tokens, valid_plain_token, wildcard_in_channel,
  tail_wildcard_not_final, empty_token, empty,
}
use whdr.Proto.Channel.{plain_byte}
use whdr.Proto.Channel.Grammar.{IsChannel, IsPattern}
use whdr.Proto.Channel.Matching.{Matches, channel_matches_iff}

channel_tests :
    (channel_matches (codes "github.push") (codes "github.>") ≡ ok true)
    × (channel_matches (codes "github") (codes "github.>") ≡ ok false)
    × (channel_matches (codes "github.push.main") (codes "github.*") ≡ ok false)
    × (channel_matches (codes "github.push") (codes "*.push") ≡ ok true)
    × (channel_matches (codes "github.*") (codes "github.*") ≡ err wildcard_in_channel)
    × (validate_pattern (codes "a.>.b") ≡ err tail_wildcard_not_final)
    × (validate_channel (codes "a..b") ≡ err empty_token)
    × (validate_channel (codes "") ≡ err empty)
unfolding channel_matches validate_channel validate_pattern validate_channel_tokens
    validate_pattern_tokens match_tokens valid_plain_token split
channel_tests = (refl, refl, refl, refl, refl, refl, refl, refl)

push-IsChannel : IsChannel (codes "a.b")
unfolding split valid_plain_token plain_byte
push-IsChannel = (refl, (refl, tt))

tail-IsPattern : IsPattern (codes "a.>")
unfolding split valid_plain_token plain_byte
tail-IsPattern = inl (refl, inr (inr (refl, refl)))

channel_matches_iff_example : (channel_matches (codes "a.b") (codes "a.>") ≡ ok true) ↔ (
    IsChannel (codes "a.b")
    × IsPattern (codes "a.>")
    × Matches (split b'.' (codes "a.>")) (split b'.' (codes "a.b")))
channel_matches_iff_example = channel_matches_iff (codes "a.b") (codes "a.>")
