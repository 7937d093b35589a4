-- ===== src/Exts/Teams/Notified.antt =====
-- exts/whdr-ext-teams/src/lib.rs: events need the secret in each notification, and a body that is no
-- JSON ends the process before the secret is looked at.
use whdr.Common.{
  ◌≡◌, ◌≢◌, refl, sym, ap, ◌∙◌, List, [], ◌∷◌, ◌++◌, Option, none, some, Text, codes, ok, err, ◌==◌,
  text_eq, text_beq_iff, Bool-cases, Option-cases, inl, inr, ok-injective, All,
}
use mathlib.Core.List.{append_assoc, append-nil}
use whdr.Proto.Messages.{Event, HttpReply, Dispatch, SrvMsg}
use whdr.Exts.Hmac.{Crypto, base64, text_reply}
use whdr.Exts.Github.{unwrap_or}
use whdr.Exts.Kit.{Line, message, failed, run_lines}
use whdr.Exts.Teams.{
  invalid_json, Item, handshake, event_of_item, take_items, items_of, take_notification, echo,
  handle_teams_dispatch,
}

-- The notification carries the secret.
abbrev pub Carries : (secret : Text) → Item → Type 0
Carries secret item = unwrap_or item.client_state [] ≡ secret

module _ (crypto : Crypto) (parse_items : Text → Option (Option (List Item))) where
  -- The events of all the notifications that name a resource.
  abbrev pub events_of : (body : Text) → List Item → List Event
  events_of body [] = []
  events_of body (item ∷ items) =
      event_of_item crypto parse_items body item.resource ++ events_of body items

  take_items_emits :
      (secret body : Text) (events : List Event) (items : List Item) (reply : HttpReply) (e : Event)
      (es : List Event)
      → take_items crypto parse_items secret body events items ≡ (reply, e ∷ es)
      → (reply ≡ text_reply 202 (codes "accepted"))
        × All (Carries secret) items
        × (e ∷ es ≡ events ++ events_of body items)
  unfolding take_items
  take_items_emits secret body events [] reply e es h =
      (sym (ap (λ p. p.0) h), tt, sym (ap (λ p. p.1) h) ∙ sym (append-nil events))
  take_items_emits secret body events (item ∷ items) reply e es h =
      elim (Bool-cases (unwrap_or item.client_state [] == secret)) [
        | inl same ↦
            let (r, c, f) =
              take_items_emits secret body
                (events ++ event_of_item crypto parse_items body item.resource) items reply e es
                (rw (take_items, same) at h) in
            (
              r,
              ((text_beq_iff _ _).0 same, c),
              f
                  ∙ append_assoc events (event_of_item crypto parse_items body item.resource)
                      (events_of body items),
            )
        | inr other ↦ let t = ap (λ p. p.1) (rw (take_items, other) at h) in cc
      ]

  take_notification_emits :
      (d : Dispatch) (reply : HttpReply) (e : Event) (es : List Event)
      → take_notification crypto parse_items d ≡ ok (reply, e ∷ es)
      → (body : Text) × (secret : Text) × (value : Option (List Item)) × (crypto.decode base64
            d.body_b64
          ≡ some body)
        × (parse_items body ≡ some value)
        × (d.secret ≡ some secret)
        × (reply ≡ text_reply 202 (codes "accepted"))
        × All (Carries secret) (items_of crypto parse_items value)
        × (e ∷ es ≡ events_of body (items_of crypto parse_items value))
  unfolding take_notification
  take_notification_emits d reply e es h = elim (Option-cases (crypto.decode base64 d.body_b64)) [
    | inl bad ↦ let t = rw (take_notification, bad) at h in cc
    | inr (body, decoded) ↦ elim (Option-cases (parse_items body)) [
      | inl bad ↦ let t = rw (take_notification, decoded, bad) at h in cc
      | inr (value, parsed) ↦ elim (Option-cases d.secret) [
        | inl missing ↦
            let t =
              ap (λ p. p.1)
                (ok-injective (rw (take_notification, decoded, parsed, missing) at h)) in
            cc
        | inr (secret, keyed) ↦
            let (r, c, f) =
              take_items_emits secret body [] (items_of crypto parse_items value) reply e es
                (ok-injective (rw (take_notification, decoded, parsed, keyed) at h)) in
            (body, secret, value, decoded, parsed, keyed, r, c, f)
      ]
    ]
  ]

echo_silent :
    (crypto : Crypto) (parse_items : Text → Option (Option (List Item))) (token : Option Text)
    (reply : HttpReply) (e : Event) (es : List Event)
    → echo crypto parse_items token ≢ ok (reply, e ∷ es)
echo_silent crypto parse_items none reply e es h = cc
echo_silent crypto parse_items (some t) reply e es h = let l = ap (λ p. p.1) (ok-injective h) in cc

-- A dispatch that emits an event is no handshake and has a secret, and its body decodes and is JSON
-- whose notifications all carry that secret as their client state. It is answered with 202, and its
-- events are those of the notifications that name a resource, in their order.
pub handle_teams_dispatch_emits :
    (crypto : Crypto) (parse_items : Text → Option (Option (List Item))) (d : Dispatch)
    (reply : HttpReply) (e : Event) (es : List Event)
    → handle_teams_dispatch crypto parse_items (SrvMsg.dispatch d) ≡ ok (reply, e ∷ es)
    → (handshake crypto parse_items d ≡ none)
      × ((body : Text) × (secret : Text) × (value : Option (List Item)) × (crypto.decode base64
              d.body_b64
            ≡ some body)
          × (parse_items body ≡ some value)
          × (d.secret ≡ some secret)
          × (reply ≡ text_reply 202 (codes "accepted"))
          × All (Carries secret) (items_of crypto parse_items value)
          × (e ∷ es ≡ events_of crypto parse_items body (items_of crypto parse_items value)))
unfolding handle_teams_dispatch
handle_teams_dispatch_emits crypto parse_items d reply e es h =
    elim (Option-cases (handshake crypto parse_items d)) [
      | inl no_token ↦ (
        no_token,
        take_notification_emits crypto parse_items d reply e es
            (rw (handle_teams_dispatch, no_token) at h),
      )
      | inr (token, found) ↦
          absurd (
            echo_silent crypto parse_items token reply e es
              (rw (handle_teams_dispatch, found) at h))
    ]

bad_body_refused :
    (crypto : Crypto) (parse_items : Text → Option (Option (List Item))) (d : Dispatch)
    (body : Text) (secret : Option Text)
    → handshake crypto parse_items d ≡ none
    → crypto.decode base64 d.body_b64 ≡ some body
    → parse_items body ≡ none
    → handle_teams_dispatch crypto parse_items (SrvMsg.dispatch (record d { secret = secret }))
      ≡ err invalid_json
unfolding handle_teams_dispatch take_notification
bad_body_refused crypto parse_items d body secret no_token decoded bad =
    rw (handle_teams_dispatch, no_token, take_notification, decoded, bad) refl

-- A dispatch that is no handshake and whose body decodes and is no JSON ends the process, whatever
-- secret it is given, so that it also answers none of the lines that follow.
bad_body_ends :
    (Value : Type 0) (crypto : Crypto) (parse_items : Text → Option (Option (List Item)))
    (d : Dispatch) (body : Text) (secret : Option Text) (lines : List Line)
    → handshake crypto parse_items d ≡ none
    → crypto.decode base64 d.body_b64 ≡ some body
    → parse_items body ≡ none
    → run_lines {Value = Value}
        (handle_teams_dispatch crypto parse_items)
        (message (SrvMsg.dispatch (record d { secret = secret })) ∷ lines)
      ≡ ([], failed)
unfolding run_lines
bad_body_ends Value crypto parse_items d body secret lines no_token decoded bad =
    rw (run_lines, bad_body_refused crypto parse_items d body secret no_token decoded bad) refl
