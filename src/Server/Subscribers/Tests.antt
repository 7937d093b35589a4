-- ===== src/Server/Subscribers/Tests.antt =====
-- Runs of the registry, and its theorems at concrete registries.
use whdr.Common.{
  ◌≡◌, refl, [], ◌∷◌, Option, some, none, Text, codes, true, false, ok, arith, All, fetch_add,
}
use whdr.Proto.Messages.{SubServerMsg}
use whdr.Server.OutboundQueue.{OutboundQueue}
use whdr.Server.DeliveryLog.{read_after, storage}
use whdr.Server.DeliveryLog.ListStore.{list_store}
use whdr.Server.DeliveryLog.Consistent.{IsConsistent}
use whdr.Server.DeliveryLog.Stamping.{stamps}
use whdr.Server.DeliveryLog.Examples.{
  fresh, fresh-IsConsistent, ids, one_event, after_one, appended_one, failed_append,
}
use whdr.Server.Subscribers.{Subscriber, SubscriberRegistry, fanout, stamp_frames}
use whdr.Server.Subscribers.Delivery.{EachReceives}
use whdr.Server.Subscribers.Persistence.{
  fanout-EachReceives, stamp_frames_persists, stamp_frames_of_failed_append,
}
use whdr.SubKit.Resume.{ResumeState, should_process}

abbrev encode : SubServerMsg → Option Text
encode (SubServerMsg.event id seq ts_ms channel payload_b64) = some (seq ∷ channel)
encode _ = none

abbrev queue : OutboundQueue
queue = record {
  inner = [];
  max_events = 4;
  max_event_bytes = 100;
  delivered = 0;
  dropped = 0;
  lag_pending = 0;
}

abbrev subscriber : Text → Subscriber
subscriber pattern = record {
  name = codes "p";
  remote_addr = none;
  patterns = record { text = pattern } ∷ [];
  queue = queue;
  close = none;
}

abbrev two : SubscriberRegistry list_store
two = record {
  subscribers = (1, subscriber (codes "a")) ∷ (2, subscriber (codes "b.>")) ∷ [];
  next_id = 3;
  seq = 0;
  delivery = some fresh;
  persist_errors = 0;
}

fanout-EachReceives_example :
    EachReceives encode
      (stamp_frames list_store false two (one_event ∷ []) 1500 ids 1500 ids).1
      two.subscribers
      (fanout list_store encode false two (one_event ∷ []) 1500 ids 1500 ids).subscribers
fanout-EachReceives_example =
    fanout-EachReceives list_store encode false two one_event [] 1500 ids 1500 ids

stamp_frames_persists_example :
    (stamp_frames list_store false two (one_event ∷ []) 1500 ids 1600 ids
      ≡ (record two { delivery = some after_one }, stamps 1 1500 ids 0 (one_event ∷ [])))
    × (read_after list_store false after_one 0 none ≡ ok (stamps 1 1500 ids 0 (one_event ∷ [])))
    × IsConsistent list_store after_one
stamp_frames_persists_example =
    stamp_frames_persists list_store two fresh after_one (one_event ∷ []) 1500 ids 1600 ids
      (stamps 1 1500 ids 0 (one_event ∷ [])) refl fresh-IsConsistent (omega arith) appended_one
      (omega arith)

-- A client that has seen eleven events.
abbrev client : ResumeState
client = record { cursor = 11; seen = []; order = []; capacity = 10 }

stamp_frames_of_failed_append_example :
    (stamp_frames list_store true two (one_event ∷ []) 1500 ids 1600 ids ≡ (
      record two { seq = 1; persist_errors = fetch_add 0 1 },
      stamps 1 1600 ids 0 (one_event ∷ []),
    ))
    × All
        (λ frame. should_process client frame.id frame.seq ≡ false)
        (stamps 1 1600 ids 0 (one_event ∷ []))
stamp_frames_of_failed_append_example =
    stamp_frames_of_failed_append list_store true two fresh (one_event ∷ []) 1500 ids 1600 ids
      storage client refl failed_append (omega arith) (omega arith)
