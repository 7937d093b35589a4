-- ===== src/Exts/Hmac/Tests.antt =====
-- Runs of the HMAC extension with an example of a digest and an encoding.
use whdr.Common.{
  trim_start_matches, trim_end_matches, is_whitespace, trim, ℕ, ◌≡◌, refl, ap, ◌∙◌, [], ◌∷◌, ◌++◌,
  map, none, some, Text, codes, ok, ◌+◌, ◌-◌, arith, split, ◌&&◌, nat_eq, false, true, Bool,
  is_empty,
}
use whdr.Proto.Messages.{Dispatch, SrvMsg}
use whdr.Exts.Hmac.{
  Crypto, Encoding, default_config, sign, verify, answer, handle_hmac_dispatch, header_value,
  eq_ignore_ascii_case, strip_configured, derive_channel, push_segments, channel_token, token_bytes,
  text_reply,
}
use whdr.Exts.Hmac.Signature.{
  IsSigned, event_of, accepted_reply, handle_hmac_dispatch_emits, sign_accepted,
}

abbrev shifted : Text → Text
shifted bytes = map (λ c. c + 33) bytes

abbrev unshifted : Text → Text
unshifted bytes = map (λ c. c - 33) bytes

-- A digest that joins its arguments, and an encoding that moves each byte past the white space.
abbrev example_crypto : Crypto
example_crypto = record {
  mac = λ algorithm secret body. secret ++ body;
  encode = λ encoding bytes. shifted bytes;
  decode = λ encoding text. some (unshifted text);
}

and_false : (b : Bool) → (b && false) ≡ false
and_false true = refl
and_false false = refl

printable : (c : ℕ) → is_whitespace (c + 33) ≡ false
printable c = ground arith

trim_start-shifted : (s : Text) → trim_start_matches is_whitespace (shifted s) ≡ shifted s
unfolding trim_start_matches
trim_start-shifted [] = refl
trim_start-shifted (c ∷ s) = rw (printable c) refl

trim_end-shifted : (s : Text) → trim_end_matches is_whitespace (shifted s) ≡ shifted s
unfolding trim_end_matches
trim_end-shifted [] = refl
trim_end-shifted (c ∷ s) =
    rw (trim_end-shifted s, printable c, and_false (is_empty (shifted s))) refl

unshifted-shifted : (s : Text) → unshifted (shifted s) ≡ s
unshifted-shifted [] = refl
unshifted-shifted (c ∷ s) = rw (unshifted-shifted s) (ap (λ d. d ∷ s) (omega arith))

example_decodes :
    (n : Encoding) (bytes : Text)
    → example_crypto.decode n (trim (example_crypto.encode n bytes)) ≡ some bytes
example_decodes n bytes =
    ap (λ t. some (unshifted t))
      (ap (trim_end_matches is_whitespace) (trim_start-shifted bytes) ∙ trim_end-shifted bytes)
    ∙ ap some (unshifted-shifted bytes)

abbrev signed : Dispatch
signed = record {
  req_id = 7;
  method = codes "POST";
  path = codes "/hmac/Stripe/Foo Bar/";
  query = none;
  headers = (codes "x-signature", shifted (codes "k" ++ codes "data")) ∷ [];
  body_b64 = shifted (codes "data");
  secret = some (codes "k");
}

signed_emits :
    handle_hmac_dispatch example_crypto default_config (SrvMsg.dispatch signed)
    ≡ ok (accepted_reply, event_of example_crypto default_config signed (codes "data") ∷ [])
unfolding handle_hmac_dispatch answer verify header_value eq_ignore_ascii_case strip_configured
    trim_start_matches trim_end_matches
signed_emits = refl

sign_accepted_example :
    handle_hmac_dispatch example_crypto default_config (SrvMsg.dispatch signed)
    ≡ ok (accepted_reply, event_of example_crypto default_config signed (codes "data") ∷ [])
unfolding sign header_value eq_ignore_ascii_case
sign_accepted_example =
    sign_accepted example_crypto example_decodes default_config signed (codes "k") (codes "data")
      refl refl refl

channel_tests :
    (derive_channel (codes "hmac") (codes "/hmac/Stripe/Foo Bar/") ≡ codes "hmac.stripe.foo-bar")
    × (derive_channel (codes "hmac") (codes "/hmac") ≡ codes "hmac")
    × (derive_channel (codes "hmac") (codes "/hmac/--/a_b") ≡ codes "hmac.a_b")
unfolding derive_channel push_segments channel_token token_bytes split trim_start_matches
    trim_end_matches
channel_tests = (refl, refl, refl)

refusals :
    (handle_hmac_dispatch example_crypto default_config
        (SrvMsg.dispatch (record signed { secret = none }))
      ≡ ok (text_reply 401 (codes "missing secret"), []))
    × (handle_hmac_dispatch example_crypto default_config
          (SrvMsg.dispatch (record signed { body_b64 = shifted (codes "date") }))
        ≡ ok (text_reply 401 (codes "invalid signature"), []))
unfolding handle_hmac_dispatch answer verify header_value eq_ignore_ascii_case strip_configured
    trim_start_matches trim_end_matches
refusals = (refl, refl)

handle_hmac_dispatch_emits_example :
    (body : Text) × (some (codes "data") ≡ some body)
    × IsSigned example_crypto default_config signed.headers (some (codes "k")) body
    × (accepted_reply ≡ accepted_reply)
    × (event_of example_crypto default_config signed (codes "data") ∷ []
        ≡ event_of example_crypto default_config signed body ∷ [])
handle_hmac_dispatch_emits_example =
    handle_hmac_dispatch_emits example_crypto default_config signed accepted_reply
      (event_of example_crypto default_config signed (codes "data")) [] signed_emits
