-- ===== src/Server/Tokens/Reload/Closing.antt =====
-- crates/whdr-server/src/daemon.rs: which connections a reload closes.
use whdr.Common.{
  ◌≡◌, refl, sym, ap, subst, ◌∙◌, List, [], ◌∷◌, Option, none, some, Bool, false, not, ◌||◌, Text,
  arith, any, ◌==◌, text_eq, text_beq_iff, get, UniqueKeys, Bool-cases, inl, inr,
}
use whdr.Proto.Messages.{ClosingReason}
use whdr.Server.DeliveryLog.Storage.{Store}
use whdr.Server.Subscribers.{Subscribers, SubscriberRegistry, close_if, close_named}
use whdr.Server.Tokens.{TokenRecord, TokenStore, TokenError, Tokens, same_record, invalidated_names}
use whdr.Server.Tokens.Reload.{close_each, replace_tokens}

-- A record was there, and is not the same.
abbrev pub differs : (Text → Text) → (old replacement : Option TokenRecord) → Bool
differs hash_token none replacement = false
differs hash_token (some r) replacement = not (same_record hash_token replacement r)

-- A name had a token, and has not the same any more.
abbrev pub has_changed : (hash_token : Text → Text) (old replacement : TokenStore) → Text → Bool
has_changed hash_token old replacement name =
    differs hash_token (get old name) (get replacement name)

close_if-close_if :
    (name : Text) (test : Text → Bool) (reason : ClosingReason) (subscribers : Subscribers)
    → close_if (λ s. test s.name) reason (close_if (λ s. s.name == name) reason subscribers)
      ≡ close_if (λ s. s.name == name || test s.name) reason subscribers
close_if-close_if name test reason [] = refl
close_if-close_if name test reason ((id, s) ∷ subscribers) =
    let rest = close_if-close_if name test reason subscribers in
    elim (Bool-cases (test s.name)) [
      | inl f ↦ elim (Bool-cases (s.name == name)) [
        | inl e ↦ rw (e, f, rest) refl
        | inr e ↦ rw (e, f, rest) refl
      ]
      | inr f ↦ elim (Bool-cases (s.name == name)) [
        | inl e ↦ rw (e, f, rest) refl
        | inr e ↦ rw (e, f, rest) refl
      ]
    ]

close_if-never :
    (reason : ClosingReason) (subscribers : Subscribers)
    → close_if (λ s. false) reason subscribers ≡ subscribers
close_if-never reason [] = refl
close_if-never reason (entry ∷ subscribers) =
    ap (λ rest. entry ∷ rest) (close_if-never reason subscribers)

close_if_ext :
    (p q : Text → Bool) (reason : ClosingReason) (subscribers : Subscribers)
    → ((name : Text) → p name ≡ q name)
    → close_if (λ s. p s.name) reason subscribers ≡ close_if (λ s. q s.name) reason subscribers
close_if_ext p q reason [] h = refl
close_if_ext p q reason ((id, s) ∷ subscribers) h =
    ground (arith, h s.name, close_if_ext p q reason subscribers)

module _ (store : Store) where
  -- Closing one name after another closes every connection with one of the names.
  close_each-any :
      (r : SubscriberRegistry store) (names : List Text)
      → (close_each store r names).subscribers
        ≡ close_if (λ s. any (λ name. s.name == name) names) ClosingReason.revoked r.subscribers
  unfolding close_each close_named
  close_each-any r [] = sym (close_if-never ClosingReason.revoked r.subscribers)
  close_each-any r (name ∷ names) =
      close_each-any (close_named store r name ClosingReason.revoked) names
      ∙ close_if-close_if name (λ n. any (λ name. n == name) names) ClosingReason.revoked
          r.subscribers

module _ (hash_token : Text → Text) where
  -- Whether a name is invalidated, as the code finds it and by its records.
  Agree : (old replacement : TokenStore) → Text → Type 0
  Agree old replacement name =
      any (λ n. name == n) (invalidated_names hash_token old replacement)
      ≡ has_changed hash_token old replacement name

  Agree-first :
      (n : Text) (r : TokenRecord) (old replacement : TokenStore)
      → any (λ m. n == m) (invalidated_names hash_token old replacement) ≡ false
      → Agree ((n, r) ∷ old) replacement n
  unfolding invalidated_names Agree
  Agree-first n r old replacement h =
      let self = (text_beq_iff n n).1 refl in
      elim (Bool-cases (same_record hash_token (get replacement n) r)) [
        | inl f ↦ rw (has_changed, get, self, f) h
        | inr f ↦ rw (has_changed, get, self, f) (rw self refl)
      ]

  Agree-later :
      (n name : Text) (r : TokenRecord) (old replacement : TokenStore)
      → (n == name) ≡ false
      → Agree old replacement name
      → Agree ((n, r) ∷ old) replacement name
  unfolding invalidated_names Agree
  Agree-later n name r old replacement h k =
      let apart : (name == n) ≡ false = ground (arith, text_beq_iff n name, text_beq_iff name n) in
      elim (Bool-cases (same_record hash_token (get replacement n) r)) [
        | inl f ↦ rw (has_changed, get, h, f) k
        | inr f ↦ rw (has_changed, get, h, f, apart) k
      ]

  any-invalidated_names :
      (old replacement : TokenStore) (name : Text) → UniqueKeys old → Agree old replacement name
  unfolding Agree invalidated_names
  any-invalidated_names [] replacement name u = refl
  any-invalidated_names ((n, r) ∷ old) replacement name u = elim (Bool-cases (n == name)) [
    | inl e ↦
        let rest = any-invalidated_names old replacement n u.1 in
        subst (Agree ((n, r) ∷ old) replacement) ((text_beq_iff n name).0 e)
          (Agree-first n r old replacement (rw (has_changed, u.0) at rest))
    | inr e ↦
        Agree-later n name r old replacement e (any-invalidated_names old replacement name u.1)
  ]

-- Putting other tokens in place of those in memory, whose names are unique, where no other task runs
-- between the locks of the reload, tells exactly the connections
-- of the names that had a token and have not the same any more, and changes no other connection.
pub replace_tokens-close_if :
    (store : Store) (hash_token : Text → Text) (error_text : TokenError → Text) (Value : Type 0)
    (s : Tokens hash_token store error_text Value) (replacement : TokenStore)
    → UniqueKeys s.tokens
    → (replace_tokens store hash_token error_text Value s replacement).subscribers.subscribers
      ≡ close_if
          (λ c. has_changed hash_token s.tokens replacement c.name)
          ClosingReason.revoked
          s.subscribers.subscribers
unfolding replace_tokens Agree
replace_tokens-close_if store hash_token error_text Value s replacement u =
    close_each-any store s.subscribers (invalidated_names hash_token s.tokens replacement)
    ∙ close_if_ext
        (λ name. any (λ n. name == n) (invalidated_names hash_token s.tokens replacement))
        (has_changed hash_token s.tokens replacement) ClosingReason.revoked
        s.subscribers.subscribers
        (λ name. any-invalidated_names hash_token s.tokens replacement name u)
