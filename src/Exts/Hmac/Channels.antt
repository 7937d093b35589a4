-- ===== src/Exts/Hmac/Channels.antt =====
-- exts/whdr-ext-hmac/src/lib.rs: the tokens of channel_token are plain, so the channels that are
-- derived are valid.
use whdr.Common.{
  trim_start_matches, trim_end_matches, ℕ, ◌≡◌, refl, sym, ap, ◌∙◌, List, [], ◌∷◌, ◌++◌, Bool, true,
  false, not, Text, all, is_empty, split, drop, split-append, split_absent, All, All-append,
  Bool-cases, inl, inr, arith, ok, ◌==◌, nat_eq, subst,
}
use whdr.Proto.Channel.{validate_channel, valid_plain_token, plain_byte}
use whdr.Proto.Channel.Grammar.{IsPlain, IsChannel, validate_channel_iff}
use whdr.Exts.Hmac.{token_bytes, channel_token, push_segments, derive_channel}

-- Only bytes of plain tokens.
abbrev AllPlain : Text → Type 0
AllPlain t = all plain_byte t ≡ true

token_bytes-AllPlain : (s : Text) → AllPlain (token_bytes s)
unfolding token_bytes plain_byte
token_bytes-AllPlain [] = refl
token_bytes-AllPlain (b ∷ s) = ground (arith, token_bytes-AllPlain s)

trim_start_matches-AllPlain :
    (p : ℕ → Bool) (s : Text) → AllPlain s → AllPlain (trim_start_matches p s)
unfolding trim_start_matches
trim_start_matches-AllPlain p [] h = h
trim_start_matches-AllPlain p (c ∷ s) h = ground (arith, trim_start_matches-AllPlain p s)

trim_end_matches-AllPlain : (p : ℕ → Bool) (s : Text) → AllPlain s → AllPlain (trim_end_matches p s)
unfolding trim_end_matches
trim_end_matches-AllPlain p [] h = h
trim_end_matches-AllPlain p (c ∷ s) h = ground (arith, trim_end_matches-AllPlain p s)

channel_token-AllPlain : (input : Text) → AllPlain (channel_token input)
unfolding channel_token
channel_token-AllPlain input =
    let p = λ (b : ℕ). b == b'-' in
    trim_end_matches-AllPlain p (trim_start_matches p (token_bytes input))
      (trim_start_matches-AllPlain p (token_bytes input) (token_bytes-AllPlain input))

-- A token that is not empty is a plain token.
pub channel_token-IsPlain :
    (input : Text) → is_empty (channel_token input) ≡ false → IsPlain (channel_token input)
unfolding valid_plain_token
channel_token-IsPlain input h = ground (arith, channel_token-AllPlain input, h)

AllPlain-no_dot : (t : Text) → AllPlain t → all (λ c. not (c == b'.')) t ≡ true
unfolding plain_byte
AllPlain-no_dot [] h = refl
AllPlain-no_dot (c ∷ t) h = ground (arith, AllPlain-no_dot t)

-- A plain token is one piece.
pub split-IsPlain : (t : Text) → IsPlain t → split b'.' t ≡ t ∷ []
unfolding valid_plain_token
split-IsPlain t h = split_absent b'.' t (AllPlain-no_dot t (ground (arith, h)))

-- A valid channel stays valid with one more plain token.
pub append-IsChannel :
    (channel token : Text) → IsChannel channel → IsPlain token → IsChannel (channel ++ b'.' ∷ token)
append-IsChannel channel token c p =
    subst (All IsPlain)
      (sym (
        split-append b'.' channel token
        ∙ ap (λ ts. split b'.' channel ++ ts) (split-IsPlain token p)))
      (All-append IsPlain (split b'.' channel) (token ∷ []) c (p, tt))

push_segments-IsChannel :
    (channel : Text) (segments : List Text)
    → IsChannel channel
    → IsChannel (push_segments channel segments)
unfolding push_segments
push_segments-IsChannel channel [] c = c
push_segments-IsChannel channel (segment ∷ segments) c =
    elim (Bool-cases (is_empty (channel_token segment))) [
      | inl e ↦ rw e (push_segments-IsChannel channel segments c)
      | inr e ↦ rw e (
          push_segments-IsChannel (channel ++ b'.' ∷ channel_token segment) segments
            (append-IsChannel channel (channel_token segment) c (channel_token-IsPlain segment e)))
    ]

-- Where the configured prefix is a valid channel, the channel derived for any path is valid.
pub derive_channel_valid :
    (channel_prefix path : Text)
    → validate_channel channel_prefix ≡ ok tt
    → validate_channel (derive_channel channel_prefix path) ≡ ok tt
unfolding derive_channel
derive_channel_valid channel_prefix path h =
    (validate_channel_iff (derive_channel channel_prefix path)).1 (
      push_segments-IsChannel channel_prefix (drop 2 (split b'/' path))
        ((validate_channel_iff channel_prefix).0 h))
