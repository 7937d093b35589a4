-- ===== src/Recovery/Tests.antt =====
-- The recovery theorem at a concrete log and client.
use whdr.Common.{
  ◌≡◌, refl, ap, ◌∙◌, List, [], ◌∷◌, some, codes, Bool, true, false, ok, err, arith, split,
}
use whdr.Proto.Channel.{
  validate_pattern, validate_pattern_tokens, valid_plain_token, pattern_new, plain_byte,
}
use whdr.Proto.Messages.{SubServerMsg}
use whdr.Server.DeliveryLog.{read_rows}
use whdr.Server.DeliveryLog.ListStore.{list_store}
use whdr.Server.DeliveryLog.Examples.{after_one, after_one-IsConsistent, stamped_one, read_one}
use whdr.Server.SubscriberWs.{replay, parsed}
use whdr.Server.SubscriberWs.Replay.{IsLater}
use whdr.SubKit.Session.{Call, World, Error, initial, session_loop}
use whdr.Recovery.Client.{delivered, frames}
use whdr.Recovery.Encoding.{encode, parse_frame, parse_frame-encode}
use whdr.Recovery.Resumption.{events_of, resumption_recovers}

abbrev willing : List Call → Call → Bool
willing past call = true

unchanged : IsLater list_store after_one after_one
unchanged = record { rows = []; iter_eq = refl; consecutive = tt; decodes = tt }

parsed_one : parsed (codes "a" ∷ []) ≡ codes "a" ∷ []
unfolding parsed pattern_new validate_pattern validate_pattern_tokens valid_plain_token plain_byte
    split
parsed_one = refl

resumption_recovers_example :
    (msgs : List SubServerMsg) × (v : World) × (replay list_store false after_one after_one 0
        (codes "a" ∷ [])
      ≡ ok msgs)
    × (session_loop willing parse_frame (initial 0 10) (frames encode msgs)
        ≡ (v, err Error.connection_closed))
    × (events_of v.calls ≡ delivered stamped_one ∷ [])
resumption_recovers_example =
    resumption_recovers willing parse_frame encode (λ past c. refl) parse_frame-encode list_store
      after_one after_one 0 10 (codes "a" ∷ []) (stamped_one ∷ []) after_one-IsConsistent unchanged
      (omega arith) (ap (λ ps. read_rows list_store (some ps) after_one.db) parsed_one ∙ read_one)
      (refl, tt)
