-- ===== src/Server/Tokens/Revocation.antt =====
-- A rotation or a revocation ends what the old token gave: it authenticates no more, and the
-- connections it opened are told to close.
use whdr.Common.{
  ◌≡◌, refl, sym, subst, ap, ◌∙◌, ◌≢◌, [], ◌∷◌, none, some, Bool, Text, Result, ok, err, ◌==◌,
  text_eq, text_beq, text_beq_iff, if◌then◌else◌, arith, get, insert, remove, contains_key,
  UniqueKeys, get-insert, get-remove, insert-UniqueKeys, remove-UniqueKeys, All, Bool-cases, inl,
  inr, Result-cases,
}
use mathlib.Core.Option.{some-injective}
use whdr.Proto.Messages.{ControlRequest, ControlResponse, ClosingReason}
use whdr.Server.DeliveryLog.Storage.{Store}
use whdr.Server.Subscribers.{Subscribers, close_if, close_named}
use whdr.Server.Tokens.{
  TokenRecord, TokenStore, TokenError, validate_name, rotate, revoke, authenticate, find_hash,
  Tokens, handle_control_request, record_for, answer_rotate, answer_revoke,
}

-- Every connection of the name has been told to close with the reason.
abbrev pub AllClosed : Text → ClosingReason → Subscribers → Type 0
AllClosed name reason subscribers =
    All (λ entry. entry.1.name ≡ name → entry.1.close ≡ some reason) subscribers

close_if-AllClosed :
    (name : Text) (reason : ClosingReason) (subscribers : Subscribers)
    → AllClosed name reason (close_if (λ s. s.name == name) reason subscribers)
close_if-AllClosed name reason [] = tt
close_if-AllClosed name reason ((id, s) ∷ subscribers) = (
  elim (Bool-cases (text_beq s.name name)) [
    | inl same ↦ rw same (λ _. refl)
    | inr other ↦ rw other (λ e. cc (rw ((text_beq_iff s.name name).1 e) at other))
  ],
  close_if-AllClosed name reason subscribers,
)

module _ (hash_token : Text → Text) where
  find_hash-get :
      (s : TokenStore) (hash name : Text)
      → UniqueKeys s
      → find_hash hash_token s hash ≡ some name
      → (r : TokenRecord) × (get s name ≡ some r) × (r.hash ≡ hash)
  find_hash-get [] hash name u h = cc
  find_hash-get ((n, r) ∷ tokens) hash name u h = elim (Bool-cases (text_beq r.hash hash)) [
    | inl same ↦ (r, found n (some-injective _ _ (rw same at h)), (text_beq_iff r.hash hash).0 same)
    | inr other ↦
        let (q, g, e) = find_hash-get tokens hash name u.1 (rw other at h) in
        (q, later n q g u.0, e)
  ]
    where
      found : (n : Text) → n ≡ name → (if text_beq n name then some r else get tokens name) ≡ some r
      found n e = ground (arith, text_beq_iff n name, e)

      later :
          (n : Text) (q : TokenRecord)
          → get tokens name ≡ some q
          → get tokens n ≡ none
          → (if text_beq n name then some r else get tokens name) ≡ some q
      later n q g u = ground (arith, text_beq_iff n name, g, u)

  -- What authenticates as `name` after its entry is set has the hash of the new token.
  find_hash-insert :
      (s : TokenStore) (name token now hash : Text)
      → UniqueKeys s
      → find_hash hash_token (insert s name (record_for hash_token token now)) hash ≡ some name
      → hash ≡ hash_token token
  find_hash-insert s name token now hash u h =
      let set = record_for hash_token token now in
      let (r, g, e) =
        find_hash-get (insert s name set) hash name (insert-UniqueKeys s name set u) h in
      let here : get (insert s name set) name ≡ some set =
        ground (arith, get-insert s name name set, text_beq_iff name name) in
      sym e ∙ ap (λ q. q.hash) (some-injective _ _ (sym g ∙ here))

  module _ (store : Store) (error_text : TokenError → Text) (Value : Type 0) where
    -- What a rotation that answers with a token has done.
    pub record IsRotated (s s' : Tokens hash_token store error_text Value) (name token : Text)
        : Type 0 where
      pub only_new :
          (presented : Text)
          → authenticate hash_token s'.tokens presented ≡ some name
          → hash_token presented ≡ hash_token token
      pub all_closed : AllClosed name ClosingReason.revoked s'.subscribers.subscribers
      pub unique : UniqueKeys s'.tokens

    rotated :
        (s s' : Tokens hash_token store error_text Value) (name token now answer : Text)
        (result : TokenStore × Result Text TokenError)
        → UniqueKeys s.tokens
        → ((t : Text)
            → result.1 ≡ ok t
            → result.0 ≡ insert s.tokens name (record_for hash_token token now))
        → answer_rotate hash_token store error_text Value s name result
          ≡ (s', ControlResponse.token name answer)
        → IsRotated s s' name token
    unfolding authenticate close_named
    rotated s s' name token now answer (tokens, err e) u f h = cc
    rotated s s' name token now answer (tokens, ok t) u f h =
        subst (λ w. IsRotated s w name token) (ap (λ p. p.0) h)
          (record {
            only_new = λ presented a.
                find_hash-insert s.tokens name token now (hash_token presented) u
                  (rw (f t refl) at a);
            all_closed = close_if-AllClosed name ClosingReason.revoked s.subscribers.subscribers;
            unique =
                rw (f t refl) (insert-UniqueKeys s.tokens name (record_for hash_token token now) u);
          })

    pub record IsRevoked (s' : Tokens hash_token store error_text Value) (name : Text)
        : Type 0 where
      pub none_left : (presented : Text) → authenticate hash_token s'.tokens presented ≢ some name
      pub all_closed : AllClosed name ClosingReason.revoked s'.subscribers.subscribers
      pub unique : UniqueKeys s'.tokens

    revoked :
        (s s' : Tokens hash_token store error_text Value) (name : Text)
        (result : TokenStore × Result (Unit {0}) TokenError)
        → UniqueKeys s.tokens
        → (result.1 ≡ ok tt → result.0 ≡ remove s.tokens name)
        → answer_revoke hash_token store error_text Value s name result ≡ (s', ControlResponse.ok)
        → IsRevoked s' name
    unfolding authenticate close_named
    revoked s s' name (tokens, err e) u f h = cc
    revoked s s' name (tokens, ok t) u f h =
        subst (λ w. IsRevoked w name) (ap (λ p. p.0) h)
          (record {
            none_left = λ presented a.
                let (r, g, _) =
                  find_hash-get tokens (hash_token presented) name
                    (rw (f refl) (remove-UniqueKeys s.tokens name u)) a in
                let gone : get tokens name ≡ none =
                  ap (λ m. get m name) (f refl) ∙ get-remove s.tokens name u in
                cc (sym gone ∙ g);
            all_closed = close_if-AllClosed name ClosingReason.revoked s.subscribers.subscribers;
            unique = rw (f refl) (remove-UniqueKeys s.tokens name u);
          })

  rotate_store :
      (fault : Bool) (s : TokenStore) (name token now t : Text)
      → (rotate hash_token fault s name token now).1 ≡ ok t
      → (rotate hash_token fault s name token now).0
        ≡ insert s name (record_for hash_token token now)
  unfolding rotate
  rotate_store fault s name token now t h = elim (Result-cases (validate_name name)) [
    | inr (e, bad) ↦ cc (rw (bad, rotate) at h)
    | inl (u, good) ↦ elim (Bool-cases (contains_key s name)) [
      | inl known ↦ rw (good, known, rotate)
      | inr unknown ↦ cc (rw (good, unknown, rotate) at h)
    ]
  ]

  revoke_store :
      (fault : Bool) (s : TokenStore) (name : Text)
      → (revoke hash_token fault s name).1 ≡ ok tt
      → (revoke hash_token fault s name).0 ≡ remove s name
  unfolding revoke
  revoke_store fault s name h = elim (Bool-cases (contains_key s name)) [
    | inl known ↦ rw known
    | inr unknown ↦ cc
  ]

-- A rotation request that answers with a token: only a text with
-- the hash of the new token authenticates under the name from then on, every connection of the name
-- has been told that its token is revoked, and names stay unique.
pub handle_token_rotate-IsRotated :
    (hash_token : Text → Text) (store : Store) (error_text : TokenError → Text) (Value : Type 0)
    (fault : Bool) (s s' : Tokens hash_token store error_text Value) (name token now answer : Text)
    (status : Value)
    → UniqueKeys s.tokens
    → handle_control_request hash_token store error_text Value fault s
        (ControlRequest.token_rotate name)
        token
        now
        status
      ≡ (s', ControlResponse.token name answer)
    → IsRotated hash_token store error_text Value s s' name token
unfolding handle_control_request
handle_token_rotate-IsRotated hash_token store error_text Value fault s s' name token now answer
      status u h =
    rotated hash_token store error_text Value s s' name token now answer
      (rotate hash_token fault s.tokens name token now) u
      (rotate_store hash_token fault s.tokens name token now) h

-- A revocation request that succeeds: no text authenticates under the name from then on, every
-- connection of the name has been told that its token is revoked, and names stay unique.
pub handle_token_revoke-IsRevoked :
    (hash_token : Text → Text) (store : Store) (error_text : TokenError → Text) (Value : Type 0)
    (fault : Bool) (s s' : Tokens hash_token store error_text Value) (name token now : Text)
    (status : Value)
    → UniqueKeys s.tokens
    → handle_control_request hash_token store error_text Value fault s
        (ControlRequest.token_revoke name)
        token
        now
        status
      ≡ (s', ControlResponse.ok)
    → IsRevoked hash_token store error_text Value s' name
unfolding handle_control_request
handle_token_revoke-IsRevoked hash_token store error_text Value fault s s' name token now status u
      h =
    revoked hash_token store error_text Value s s' name (revoke hash_token fault s.tokens name) u
      (revoke_store hash_token fault s.tokens name) h
