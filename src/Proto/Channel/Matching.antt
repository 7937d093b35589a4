-- ===== src/Proto/Channel/Matching.antt =====
-- The matching loop of channel.rs decides a relation between the tokens of a pattern and those of a
-- channel.
use whdr.Common.{
  ℕ, suc, ◌+◌, ◌≡◌, ◌≢◌, ◌↔◌, ◌<◌, ◌≤◌, ◌⊎◌, inl, inr, List, [], ◌∷◌, true, arith, Text, split,
  length, ok, text_beq_iff, text_eq, drop, drop-cases, length-split_pos,
}
use whdr.Proto.Channel.{pattern_matches, star, tail_wildcard, match_tokens, channel_matches}
use whdr.Proto.Channel.Grammar.{IsChannel, IsPattern, validate_channel_iff, validate_pattern_iff}

-- `*` takes one token, a final `>` takes one or more, any other token takes itself.
pub data Matches : List Text → List Text → Type 0 where
  done : Matches [] []
  rest : {p c : Text} {ps cs : List Text} → p ≡ tail_wildcard → Matches (p ∷ ps) (c ∷ cs)
  any_token :
      {p c : Text} {ps cs : List Text} → p ≡ star → Matches ps cs → Matches (p ∷ ps) (c ∷ cs)
  same_token :
      {p c : Text} {ps cs : List Text}
      → p ≢ star
      → p ≢ tail_wildcard
      → p ≡ c
      → Matches ps cs
      → Matches (p ∷ ps) (c ∷ cs)

-- The relation at a non-empty pattern and channel, by its cases.
abbrev Cases : Text → Text → List Text → List Text → Type 0
Cases p c ps cs =
    (p ≡ tail_wildcard)
    ⊎ ((p ≡ star) × Matches ps cs)
    ⊎ ((p ≢ star) × (p ≢ tail_wildcard) × (p ≡ c) × Matches ps cs)

Matches-Cases : {p c : Text} {ps cs : List Text} → Matches (p ∷ ps) (c ∷ cs) → Cases p c ps cs
Matches-Cases (rest e) = inl e
Matches-Cases (any_token e m) = inr (inl (e, m))
Matches-Cases (same_token n k e m) = inr (inr (n, k, e, m))

Matches-of_Cases : {p c : Text} {ps cs : List Text} → Cases p c ps cs → Matches (p ∷ ps) (c ∷ cs)
Matches-of_Cases (inl e) = rest e
Matches-of_Cases (inr (inl (e, m))) = any_token e m
Matches-of_Cases (inr (inr (n, k, e, m))) = same_token n k e m

Matches-cons_iff : (p c : Text) (ps cs : List Text) → Matches (p ∷ ps) (c ∷ cs) ↔ Cases p c ps cs
Matches-cons_iff p c ps cs = (Matches-Cases, Matches-of_Cases)

not-Matches-nil : (p : Text) (ps : List Text) → ¬ Matches (p ∷ ps) []
not-Matches-nil p ps m = elim m [ ]

not-nil-Matches : (c : Text) (cs : List Text) → ¬ Matches [] (c ∷ cs)
not-nil-Matches c cs m = elim m [ ]

-- The loop from channel index `ci` decides the relation on the tokens that are left, where a `>` in
-- first place has one token to take.
match_tokens_iff :
    (tokens : List Text) (pi ci : ℕ) (ps : List Text)
    → ci ≤ length tokens
    → (pi ≡ 0 → ci < length tokens)
    → (match_tokens tokens pi ci ps ≡ true) ↔ Matches ps (drop ci tokens)
unfolding match_tokens
match_tokens_iff tokens pi ci [] b h = elim (drop-cases ci tokens) [
  | inl (past, e, _) ↦ rw e (ground (arith, done))
  | inr (t, here, e, _) ↦ rw e (ground (arith, not-nil-Matches t (drop (suc ci) tokens)))
]
match_tokens_iff tokens pi ci (p ∷ ps) b h = elim (drop-cases ci tokens) [
  | inl (past, e, g) ↦
      rw e
        (ground (arith, g, not-Matches-nil p ps, text_beq_iff p star, text_beq_iff p tail_wildcard))
  | inr (t, here, e, g) ↦ rw e (
      ground (
        arith,
        g,
        Matches-cons_iff p t ps (drop (suc ci) tokens),
        match_tokens_iff tokens (pi + 1) (ci + 1) ps (omega arith) (λ z. absurd (omega arith)),
        text_beq_iff p star,
        text_beq_iff p tail_wildcard,
        text_beq_iff t p,
      ))
]

-- An answer of `ok true` from `channel_matches` says that the channel and the pattern are valid and
-- that the pattern's tokens match the channel's; and in every such case that is the answer.
pub channel_matches_iff :
    (channel pattern : Text)
    → (channel_matches channel pattern ≡ ok true)
      ↔ (IsChannel channel × IsPattern pattern × Matches (split b'.' pattern) (split b'.' channel))
unfolding channel_matches
channel_matches_iff channel pattern = ground (
  arith,
  validate_channel_iff channel,
  validate_pattern_iff pattern,
  match_tokens_iff (split b'.' channel) 0 0 (split b'.' pattern) (omega arith)
      (λ _. length-split_pos b'.' channel),
)

-- How the fan-out reads it: `unwrap_or(false)` makes an invalid text match nothing.
pub pattern_matches_iff :
    (pattern channel : Text)
    → (pattern_matches pattern channel ≡ true)
      ↔ (IsChannel channel × IsPattern pattern × Matches (split b'.' pattern) (split b'.' channel))
unfolding pattern_matches
pattern_matches_iff pattern channel = ground (arith, channel_matches_iff channel pattern)
