-- ===== src/Exts/Hmac/Signature.antt =====
-- exts/whdr-ext-hmac/src/lib.rs: what a dispatch that emits an event has shown, and that a signature
-- made by `sign` is accepted.
use whdr.Common.{
  trim, ◌≡◌, refl, List, [], ◌∷◌, ◌++◌, Option, none, some, Bool, true, false, ◌&&◌, Text, codes,
  ok, bind_ok, ◌==◌, text_eq, nat_eq, nat_beq_iff, text_beq_iff, ap, sym, ◌∙◌, length, strip_prefix,
  inl, inr, arith, Option-cases, Result-cases, guard, ok-injective,
}
use whdr.Proto.Messages.{Event, HttpReply, Headers, Dispatch, SrvMsg}
use whdr.Exts.Hmac.{
  Crypto, HmacConfig, Encoding, base64, header_value, strip_configured, sign, verify, answer,
  handle_hmac_dispatch, derive_channel, ok_or, text_reply,
}

-- The secret is there, and the header decodes, without its prefix, to the MAC of the body.
abbrev pub IsSigned : Crypto → HmacConfig → Headers → Option Text → (body : Text) → Type 0
IsSigned crypto config headers secret body =
    (key header signature : Text) × (secret ≡ some key)
    × (header_value headers config.header ≡ some header)
    × (strip_configured config.prefix header ≡ some signature)
    × (crypto.decode config.encoding (trim signature) ≡ some (crypto.mac config.algorithm key body))

abbrev pub accepted_reply : HttpReply
accepted_reply = text_reply 200 (codes "ok")

-- The event of a dispatch with a body.
abbrev pub event_of : Crypto → HmacConfig → Dispatch → (body : Text) → Event
event_of crypto config d body = record {
  channel = derive_channel config.channel_prefix d.path;
  payload_b64 = crypto.encode base64 body;
}

ok_or_ok : (o : Option Text) (message : Text) {a : Text} → ok_or o message ≡ ok a → o ≡ some a
ok_or_ok none message h = cc
ok_or_ok (some b) message h = cc

guard_ok : (b : Bool) (message : Text) → guard b message ≡ ok tt → b ≡ true
guard_ok true message h = refl
guard_ok false message h = cc

same_mac :
    (provided expected : Text)
    → (length provided == length expected && provided == expected) ≡ true
    → provided ≡ expected
same_mac provided expected h = (text_beq_iff provided expected).0 (ground arith)

module _ (crypto : Crypto) (config : HmacConfig) where
  verify_ok :
      (headers : Headers) (secret : Option Text) (body : Text)
      → verify crypto config headers secret body ≡ ok tt
      → IsSigned crypto config headers secret body
  unfolding verify
  verify_ok headers secret body h =
      let (key, a, h) = bind_ok (ok_or secret _) _ h in
      let (header, b, h) = bind_ok (ok_or (header_value headers config.header) _) _ h in
      let (signature, c, h) = bind_ok (ok_or (strip_configured config.prefix header) _) _ h in
      let (provided, d, h) =
        bind_ok (ok_or (crypto.decode config.encoding (trim signature)) _) _ h in
      (
        key,
        header,
        signature,
        ok_or_ok _ _ a,
        ok_or_ok _ _ b,
        ok_or_ok _ _ c,
        ok_or_ok _ _ d
            ∙ ap some (same_mac provided (crypto.mac config.algorithm key body) (guard_ok _ _ h)),
      )

  verify_of_signed :
      (headers : Headers) (secret : Option Text) (body : Text)
      → IsSigned crypto config headers secret body
      → verify crypto config headers secret body ≡ ok tt
  unfolding verify
  verify_of_signed headers secret body (key, header, signature, a, b, c, d) =
      let mac = crypto.mac config.algorithm key body in
      rw (a, b, c, d, (nat_beq_iff (length mac) (length mac)).1 refl, (text_beq_iff mac mac).1 refl)
        refl

  answer_of_verified :
      (d : Dispatch) (body : Text)
      → verify crypto config d.headers d.secret body ≡ ok tt
      → answer crypto config d body ≡ (accepted_reply, event_of crypto config d body ∷ [])
  unfolding answer
  answer_of_verified d body q = rw (answer, q) refl

  answer_emits :
      (d : Dispatch) (body : Text) {reply : HttpReply} {e : Event} {es : List Event}
      → answer crypto config d body ≡ (reply, e ∷ es)
      → (verify crypto config d.headers d.secret body ≡ ok tt)
        × (reply ≡ accepted_reply)
        × (e ∷ es ≡ event_of crypto config d body ∷ [])
  unfolding answer
  answer_emits d body h = elim (Result-cases (verify crypto config d.headers d.secret body)) [
    | inl (u, q) ↦
        let t = sym h ∙ answer_of_verified d body q in (q, ap (λ p. p.0) t, ap (λ p. p.1) t)
    | inr (message, q) ↦ let t = ap (λ p. p.1) (rw (answer, q) at h) in cc
  ]

  handle_of_decoded :
      (d : Dispatch) (body : Text)
      → crypto.decode base64 d.body_b64 ≡ some body
      → handle_hmac_dispatch crypto config (SrvMsg.dispatch d) ≡ ok (answer crypto config d body)
  unfolding handle_hmac_dispatch
  handle_of_decoded d body q = rw (handle_hmac_dispatch, q) refl

-- A dispatch that emits an event has a body that decodes and a signature that is that body's MAC;
-- it is answered with 200 and emits one event, which carries that body.
pub handle_hmac_dispatch_emits :
    (crypto : Crypto) (config : HmacConfig) (d : Dispatch) (reply : HttpReply) (e : Event)
    (es : List Event)
    → handle_hmac_dispatch crypto config (SrvMsg.dispatch d) ≡ ok (reply, e ∷ es)
    → (body : Text) × (crypto.decode base64 d.body_b64 ≡ some body)
      × IsSigned crypto config d.headers d.secret body
      × (reply ≡ accepted_reply)
      × (e ∷ es ≡ event_of crypto config d body ∷ [])
unfolding handle_hmac_dispatch
handle_hmac_dispatch_emits crypto config d reply e es h =
    elim (Option-cases (crypto.decode base64 d.body_b64)) [
      | inl q ↦ let t = rw (handle_hmac_dispatch, q) at h in cc
      | inr (body, q) ↦
          let (v, r, t) =
            answer_emits crypto config d body
              (ok-injective (sym (handle_of_decoded crypto config d body q) ∙ h)) in
          (body, q, verify_ok crypto config d.headers d.secret body v, r, t)
    ]

strip_prefix-append : (p s : Text) → strip_prefix p (p ++ s) ≡ some s
unfolding strip_prefix
strip_prefix-append [] s = refl
strip_prefix-append (c ∷ p) s = rw ((nat_beq_iff c c).1 refl) (strip_prefix-append p s)

strip_configured-sign :
    (crypto : Crypto) (config : HmacConfig) (key body : Text)
    → strip_configured config.prefix (sign crypto config key body)
      ≡ some (crypto.encode config.encoding (crypto.mac config.algorithm key body))
unfolding strip_configured sign
strip_configured-sign crypto config key body = elim (Option-cases config.prefix) [
  | inl q ↦ rw q refl
  | inr (prefix, q) ↦ rw q (strip_prefix-append prefix _)
]

-- A dispatch whose body decodes, with the header that `sign` makes for this body under its secret, is
-- accepted and emits its event, where what an encoding makes, once trimmed, can be decoded again.
pub sign_accepted :
    (crypto : Crypto)
    → ((n : Encoding) (bytes : Text) → crypto.decode n (trim (crypto.encode n bytes)) ≡ some bytes)
    → (config : HmacConfig) (d : Dispatch) (key body : Text)
    → crypto.decode base64 d.body_b64 ≡ some body
    → d.secret ≡ some key
    → header_value d.headers config.header ≡ some (sign crypto config key body)
    → handle_hmac_dispatch crypto config (SrvMsg.dispatch d)
      ≡ ok (accepted_reply, event_of crypto config d body ∷ [])
sign_accepted crypto law config d key body decoded secret header =
    let encoded = crypto.encode config.encoding (crypto.mac config.algorithm key body) in
    let v = verify_of_signed crypto config d.headers d.secret body (
      key,
      sign crypto config key body,
      encoded,
      secret,
      header,
      strip_configured-sign crypto config key body,
      law config.encoding _,
    ) in
    handle_of_decoded crypto config d body decoded
    ∙ ap ok (answer_of_verified crypto config d body v)
