-- ===== src/Server/SubscriberWs.antt =====
-- crates/whdr-server/src/subscriber_ws.rs: the answer to one frame of a subscriber. The queue is the one
-- that the registry keeps under the connection's id. Other tasks may append to the log between the
-- reads of its head and of its rows: `later` is the log when the rows are read.
pub mod Replay
pub mod Socket
mod Tests
use whdr.Common.{
  ℕ, ◌+◌, ◌-◌, List, [], ◌∷◌, ◌++◌, map, Option, none, some, Bool, true, false, not, ◌&&◌, Text,
  codes, Result, ok, err, ◌>>=◌, ltb, ◌==◌, nat_eq, if◌then◌else◌, update, get,
}
use whdr.Proto.Channel.{Pattern, ChannelError, pattern_new}
use whdr.Proto.Messages.{SubServerMsg, SubClientMsg, ReplayRequest}
use whdr.Server.OutboundQueue.{push_control}
use whdr.Server.DeliveryLog.Storage.{Store}
use whdr.Server.DeliveryLog.{Shared, StampedEvent, LogError, json, add_u64, read_after}
use whdr.Server.Subscribers.{SubscriberRegistry, subscribe, unsubscribe, event_msg}

-- The loop over the rows, which ends past the head.
unfoldable pub until_head : ℕ → List StampedEvent → List StampedEvent
until_head head [] = []
until_head head (row ∷ rows) = if ltb head row.seq then [] else row ∷ until_head head rows

abbrev keep_ok : Result Pattern ChannelError → List Text → List Text
keep_ok (ok p) rest = p.text ∷ rest
keep_ok (err e) rest = rest

-- `filter_map` with `Pattern::new`, as the texts of the patterns
unfoldable pub parsed : List Text → List Text
parsed [] = []
parsed (pattern ∷ patterns) = keep_ok (pattern_new pattern) (parsed patterns)

-- Whether the cursor predates the floor: `after_seq + 1` wraps.
unfoldable pub predates : ℕ → ℕ → Bool
predates floor after_seq = not (floor == 0) && ltb (add_u64 after_seq 1) floor

module _ (store : Store) where
  abbrev pub gap : Shared store → ℕ → List SubServerMsg
  gap log after_seq =
      if predates log.floor after_seq then SubServerMsg.replay_gap after_seq log.floor ∷ [] else []

  abbrev pub effective_after : Shared store → ℕ → ℕ
  effective_after log after_seq = if predates log.floor after_seq then log.floor - 1 else after_seq

  -- The frames of a replay.
  unfoldable pub replay :
      Bool → (log later : Shared store) → ℕ → List Text → Result (List SubServerMsg) LogError
  replay fault log later after_seq patterns = do
    rows ← read_after store fault later (effective_after log after_seq) (some (parsed patterns))
    ok (
        SubServerMsg.ok (codes "subscribe") ∷ gap log after_seq
        ++ map event_msg (until_head log.head rows)
        ++ SubServerMsg.replayed log.head ∷ [])

  module _ (encode : SubServerMsg → Option Text) (error_text : ChannelError → Text) where
    abbrev pub push : SubscriberRegistry store → ℕ → SubServerMsg → SubscriberRegistry store
    push r id msg = record r {
      subscribers =
          update (λ s. record s { queue = push_control encode s.queue msg }) r.subscribers id;
    }

    -- A subscription that the registry has taken.
    unfoldable pub accepted :
        Bool
        → SubscriberRegistry store
        → (later : Shared store) → ℕ
        → List Text
        → Option ReplayRequest
        → Option (Shared store)
        → SubscriberRegistry store × Result (List SubServerMsg) LogError
    accepted fault r later id patterns none delivery =
        (push r id (SubServerMsg.ok (codes "subscribe")), ok [])
    accepted fault r later id patterns (some request) none = (
      push (push r id (SubServerMsg.ok (codes "subscribe"))) id
          (SubServerMsg.error (codes "replay") (codes "durable delivery is not enabled")),
      ok [],
    )
    accepted fault r later id patterns (some request) (some log) =
        (r, replay fault log later request.after_seq patterns)

    abbrev pub subscribed :
        Bool
        → SubscriberRegistry store
        → (later : Shared store) → ℕ
        → List Text
        → Option ReplayRequest
        → Result (SubscriberRegistry store) ChannelError
        → SubscriberRegistry store × Result (List SubServerMsg) LogError
    subscribed fault r later id patterns request (err e) =
        (push r id (SubServerMsg.error (codes "subscribe") (error_text e)), ok [])
    subscribed fault r later id patterns request (ok r') =
        accepted fault r' later id patterns request r'.delivery

    unfoldable pub handle_client_msg :
        Bool
        → SubscriberRegistry store
        → (later : Shared store) → ℕ
        → SubClientMsg
        → SubscriberRegistry store × Result (List SubServerMsg) LogError
    handle_client_msg fault r later id (SubClientMsg.subscribe patterns request) =
        subscribed fault r later id patterns request (subscribe store r id patterns)
    handle_client_msg fault r later id (SubClientMsg.unsubscribe patterns) =
        (push (unsubscribe store r id patterns) id (SubServerMsg.ok (codes "unsubscribe")), ok [])
    handle_client_msg fault r later id SubClientMsg.ping = (push r id SubServerMsg.pong, ok [])

    -- A text that is no message ends the connection.
    abbrev pub handled :
        Bool
        → SubscriberRegistry store
        → (later : Shared store) → ℕ
        → Option SubClientMsg
        → SubscriberRegistry store × Result (List Text) LogError
    handled fault r later id none = (r, err json)
    handled fault r later id (some msg) =
        let (r', answer) = handle_client_msg fault r later id msg in
        (r', answer >>= λ frames. ok (map (λ m. elim (encode m) [ none ↦ [] | some t ↦ t ]) frames))

    -- `encode` of the frames falls back to the empty text.
    unfoldable pub handle_subscriber_text :
        (Text → Option SubClientMsg)
        → Bool
        → SubscriberRegistry store
        → (later : Shared store) → ℕ
        → Text
        → SubscriberRegistry store × Result (List Text) LogError
    handle_subscriber_text decode fault r later id text = handled fault r later id (decode text)
