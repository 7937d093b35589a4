-- ===== src/Server/ChannelClaims/Filter.antt =====
-- The filter on the events that an extension emits.
use whdr.Common.{
  ℕ, ◌<◌, ◌≡◌, ap, List, [], ◌∷◌, Bool, not, Text, arith, length, keep, inl, inr, Result-cases,
  is_ok, fetch_add, fetch_add_exact, fetch_add_assoc, fetch_add-lt, word_mod,
}
use whdr.Proto.Messages.{Event}
use whdr.Server.ChannelClaims.{validate_emitted_channel, filter_owned_events}

abbrev pub is_owned : Text → List Text → List Text → Event → Bool
is_owned ext_id paths prefixes e = is_ok (validate_emitted_channel e.channel ext_id paths prefixes)

-- The filter keeps the events whose channel is accepted, in their order, and adds the number of the
-- others to the violations, modulo 2 ^ 64.
pub filter_owned_events-keep :
    (ext_id : Text) (paths prefixes : List Text) (violations : ℕ) (events : List Event)
    → violations < word_mod
    → filter_owned_events ext_id paths prefixes violations events ≡ (
      keep (is_owned ext_id paths prefixes) events,
      fetch_add violations (length (keep (λ e. not (is_owned ext_id paths prefixes e)) events)),
    )
unfolding filter_owned_events
filter_owned_events-keep ext_id paths prefixes violations [] v =
    ground (arith, fetch_add_exact violations 0)
filter_owned_events-keep ext_id paths prefixes violations (e ∷ events) v =
    elim (Result-cases (validate_emitted_channel e.channel ext_id paths prefixes)) [
      | inl (u, h) ↦ rw (
        h,
        filter_owned_events-keep ext_id paths prefixes violations events v,
        filter_owned_events,
      )
      | inr (x, h) ↦
          rw
            (
              h,
              filter_owned_events-keep ext_id paths prefixes (fetch_add violations 1) events
                  (fetch_add-lt violations 1),
              fetch_add_assoc violations 1,
              filter_owned_events,
            )
            (ap (λ n. (keep (is_owned ext_id paths prefixes) events, fetch_add violations n))
              (omega arith))
    ]
