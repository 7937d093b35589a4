-- ===== src/Server/SubscriberWs/Tests.antt =====
-- Runs of the subscriber's frames, and the replay theorem at a concrete log.
use whdr.Common.{
  ◌-◌, ◌^◌, ◌≡◌, refl, List, [], ◌∷◌, ◌++◌, map, some, codes, true, false, ok, arith, keep, ltb,
  fetch_add,
}
use whdr.Proto.Messages.{SubServerMsg}
use whdr.Server.DeliveryLog.{Shared, StampedEvent, read_rows}
use whdr.Server.DeliveryLog.Storage.{Row}
use whdr.Server.DeliveryLog.ListStore.{list_store, list_from_slice, take_text}
use whdr.Server.DeliveryLog.Examples.{after_one, after_one-IsConsistent}
use whdr.Server.Subscribers.{event_msg}
use whdr.Server.SubscriberWs.{parsed, predates, gap, replay}
use whdr.Server.SubscriberWs.Replay.{IsLater, replay_complete}

-- Another event has been appended since.
abbrev second : Row
second = (2, (101 ∷ 1500 ∷ 1 ∷ b'b' ∷ codes "MQ=="))

abbrev later : Shared list_store
later = record after_one { db = after_one.db ++ second ∷ []; head = 2 }

later-IsLater : IsLater list_store after_one later
unfolding list_from_slice take_text
later-IsLater = record {
  rows = second ∷ [];
  iter_eq = refl;
  consecutive = (refl, tt);
  decodes = ((_, refl), tt);
}

replay_complete_example :
    (wanted : List StampedEvent) × (read_rows list_store
        (some (parsed (codes ">" ∷ [])))
        (keep (λ r. ltb 0 r.0) after_one.db)
      ≡ ok wanted)
    × (replay list_store false after_one later 0 (codes ">" ∷ [])
        ≡ ok (
            SubServerMsg.ok (codes "subscribe") ∷ gap list_store after_one 0
            ++ map event_msg wanted
            ++ SubServerMsg.replayed 1 ∷ []))
replay_complete_example =
    replay_complete list_store after_one later 0 (codes ">" ∷ []) after_one-IsConsistent
      later-IsLater (omega arith)

predates_tests :
    (predates 1 0 ≡ false)
    × (predates 5 2 ≡ true)
    × (predates 5 4 ≡ false)
    × (predates 0 0 ≡ false)
    × (predates 5 (2 ^ 64 - 1) ≡ true)
unfolding predates fetch_add
predates_tests = (refl, refl, refl, refl, refl)
