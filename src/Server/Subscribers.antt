-- ===== src/Server/Subscribers.antt =====
-- crates/whdr-server/src/subscribers.rs: the registry of subscriber connections and the fan-out. The
-- lock makes each method one step; `close` is the value that the `watch` channel of a connection holds.
pub mod Delivery
pub mod Persistence
mod Tests
use whdr.Common.{
  ℕ, ◌+◌, List, [], ◌∷◌, ◌++◌, map, Option, none, some, Bool, true, false, not, Text, Result, ok,
  err, ◌>>=◌, ◌>>◌, any, keep, ◌==◌, nat_eq, text_eq, if◌then◌else◌, fetch_add, get, insert, remove,
  update,
}
use whdr.Proto.Channel.{ChannelError, Pattern, pattern_new, pattern_matches, validate_pattern}
use whdr.Proto.Messages.{Uuid, Event, SubServerMsg, ClosingReason}
use whdr.Server.OutboundQueue.{OutboundQueue, push_event}
use whdr.Server.DeliveryLog.Storage.{Store}
use whdr.Server.DeliveryLog.{Shared, StampedEvent, append, LogError, add_u64}

pub record Subscriber : Type 0 where
  pub name : Text
  pub remote_addr : Option Text
  pub patterns : List Pattern
  pub queue : OutboundQueue
  pub close : Option ClosingReason

pub record SubscriberRegistration : Type 0 where
  pub name : Text
  pub remote_addr : Option Text
  pub queue : OutboundQueue

pub record SubscriberSnapshot : Type 0 where
  pub name : Text
  pub remote_addr : Option Text
  pub patterns : List Text
  pub delivered : ℕ
  pub dropped : ℕ

-- A `HashMap<u64, Subscriber>`.
abbrev pub Subscribers : Type 0
Subscribers = List (ℕ × Subscriber)

-- The frames of an event batch, stamped by the registry: the number is `fetch_add(1) + 1`.
pub stamp_in_memory :
    (seq ts_ms : ℕ) (new_v4 : ℕ → Uuid) (offset : ℕ) → List Event → List StampedEvent × ℕ
stamp_in_memory seq ts_ms new_v4 offset [] = ([], seq)
stamp_in_memory seq ts_ms new_v4 offset (event ∷ events) =
    let (frames, seq') = stamp_in_memory (fetch_add seq 1) ts_ms new_v4 (offset + 1) events in
    (
      record {
        seq = add_u64 seq 1;
        id = new_v4 offset;
        ts_ms = ts_ms;
        channel = event.channel;
        payload_b64 = event.payload_b64;
      }
          ∷ frames,
      seq',
    )

abbrev pub event_msg : StampedEvent → SubServerMsg
event_msg frame = SubServerMsg.event frame.id frame.seq frame.ts_ms frame.channel frame.payload_b64

abbrev pub is_match : Subscriber → Text → Bool
is_match subscriber channel =
    any (λ pattern. pattern_matches pattern.text channel) subscriber.patterns

-- The loop over the subscribers for one frame.
pub push_matching : Text → Text → Subscribers → Subscribers
push_matching channel text [] = []
push_matching channel text ((id, s) ∷ subscribers) =
    (id, (if is_match s channel then record s { queue = push_event s.queue text } else s))
    ∷ push_matching channel text subscribers

-- The loop over the frames; `encode` is `serde_json::to_string`.
pub push_frames : (SubServerMsg → Option Text) → List StampedEvent → Subscribers → Subscribers
push_frames encode [] subscribers = subscribers
push_frames encode (frame ∷ frames) subscribers = elim (encode (event_msg frame)) [
  | none ↦ push_frames encode frames subscribers
  | some text ↦ push_frames encode frames (push_matching frame.channel text subscribers)
]

-- `invalid pattern` of the first test; the second one, of `Pattern::new`, repeats it.
pub parse_patterns : List Text → Result (List Pattern) ChannelError
parse_patterns [] = ok []
parse_patterns (pattern ∷ patterns) = do
  validate_pattern pattern
  p ← pattern_new pattern
  rest ← parse_patterns patterns
  ok (p ∷ rest)

-- The loop that adds the patterns that are not there.
pub add_patterns : List Pattern → List Pattern → List Pattern
add_patterns existing [] = existing
add_patterns existing (pattern ∷ parsed) =
    if any (λ e. e.text == pattern.text) existing
    then add_patterns existing parsed
    else add_patterns (existing ++ pattern ∷ []) parsed

abbrev pub close_if : (Subscriber → Bool) → ClosingReason → Subscribers → Subscribers
close_if test reason [] = []
close_if test reason ((id, s) ∷ subscribers) =
    (id, (if test s then record s { close = some reason } else s))
    ∷ close_if test reason subscribers

unfoldable pub count_names : Subscribers → List (Text × ℕ)
count_names [] = []
count_names ((id, s) ∷ subscribers) =
    let counts = count_names subscribers in
    elim (get counts s.name) [
      | none ↦ insert counts s.name 1
      | some n ↦ insert counts s.name (n + 1)
    ]

module _ (store : Store) where
  pub record SubscriberRegistry : Type 0 where
    pub subscribers : Subscribers
    pub next_id : ℕ
    pub seq : ℕ
    pub delivery : Option (Shared store)
    pub persist_errors : ℕ

  unfoldable pub new : SubscriberRegistry
  new = record { subscribers = []; next_id = 1; seq = 0; delivery = none; persist_errors = 0 }

  unfoldable pub with_delivery : Shared store → SubscriberRegistry
  with_delivery log = record {
    subscribers = [];
    next_id = 1;
    seq = 0;
    delivery = some log;
    persist_errors = 0;
  }

  unfoldable pub insert_subscriber :
      SubscriberRegistry → SubscriberRegistration → SubscriberRegistry × ℕ
  insert_subscriber r registration = (
    record r {
      next_id = fetch_add r.next_id 1;
      subscribers = insert r.subscribers r.next_id (record {
        name = registration.name;
        remote_addr = registration.remote_addr;
        patterns = [];
        queue = registration.queue;
        close = none;
      });
    },
    r.next_id,
  )

  unfoldable pub remove_subscriber : SubscriberRegistry → ℕ → SubscriberRegistry
  remove_subscriber r id = record r { subscribers = remove r.subscribers id }

  abbrev pub with_patterns : SubscriberRegistry → ℕ → List Pattern → SubscriberRegistry
  with_patterns r id parsed = record r {
    subscribers =
        update (λ s. record s { patterns = add_patterns s.patterns parsed }) r.subscribers id;
  }

  unfoldable pub subscribe :
      SubscriberRegistry → ℕ → List Text → Result SubscriberRegistry ChannelError
  subscribe r id patterns = do parsed ← parse_patterns patterns; ok (with_patterns r id parsed)

  unfoldable pub unsubscribe : SubscriberRegistry → ℕ → List Text → SubscriberRegistry
  unsubscribe r id patterns = record r {
    subscribers =
        update
          (λ s. record s {
            patterns = keep (λ p. not (any (λ q. q == p.text) patterns)) s.patterns;
          })
          r.subscribers id;
  }

  abbrev pub in_memory :
      SubscriberRegistry → ℕ → (ℕ → Uuid) → List Event → SubscriberRegistry × List StampedEvent
  in_memory r ts_ms new_v4 events =
      let (frames, seq) = stamp_in_memory r.seq ts_ms new_v4 0 events in
      (record r { seq = seq }, frames)

  -- The frames of a batch. `late_ms` and `late_v4` are the clock and the ids of the fallback.
  abbrev pub appended :
      SubscriberRegistry
      → ℕ
      → (ℕ → Uuid)
      → List Event
      → Result (Shared store × List StampedEvent) LogError
      → SubscriberRegistry × List StampedEvent
  appended r late_ms late_v4 events (ok (log, stamped)) =
      (record r { delivery = some log }, stamped)
  appended r late_ms late_v4 events (err e) =
      in_memory (record r { persist_errors = fetch_add r.persist_errors 1 }) late_ms late_v4 events

  abbrev pub stamp_by :
      Bool
      → Option (Shared store)
      → SubscriberRegistry
      → List Event
      → (ts_ms : ℕ) (new_v4 : ℕ → Uuid) (late_ms : ℕ) (late_v4 : ℕ → Uuid)
      → SubscriberRegistry × List StampedEvent
  stamp_by fault none r events ts_ms new_v4 late_ms late_v4 = in_memory r late_ms late_v4 events
  stamp_by fault (some log) r events ts_ms new_v4 late_ms late_v4 =
      appended r late_ms late_v4 events (append store fault log events ts_ms new_v4)

  pub stamp_frames :
      Bool
      → SubscriberRegistry
      → List Event
      → (ts_ms : ℕ) (new_v4 : ℕ → Uuid) (late_ms : ℕ) (late_v4 : ℕ → Uuid)
      → SubscriberRegistry × List StampedEvent
  stamp_frames fault r events ts_ms new_v4 late_ms late_v4 =
      stamp_by fault r.delivery r events ts_ms new_v4 late_ms late_v4

  pub fanout :
      (SubServerMsg → Option Text)
      → Bool
      → SubscriberRegistry
      → List Event
      → (ts_ms : ℕ) (new_v4 : ℕ → Uuid) (late_ms : ℕ) (late_v4 : ℕ → Uuid) → SubscriberRegistry
  fanout encode fault r [] ts_ms new_v4 late_ms late_v4 = r
  fanout encode fault r (event ∷ events) ts_ms new_v4 late_ms late_v4 =
      let (r', frames) = stamp_frames fault r (event ∷ events) ts_ms new_v4 late_ms late_v4 in
      record r' { subscribers = push_frames encode frames r'.subscribers }

  unfoldable pub close_named : SubscriberRegistry → Text → ClosingReason → SubscriberRegistry
  close_named r name reason = record r {
    subscribers = close_if (λ s. s.name == name) reason r.subscribers;
  }

  unfoldable pub close_all : SubscriberRegistry → ClosingReason → SubscriberRegistry
  close_all r reason = record r { subscribers = close_if (λ s. true) reason r.subscribers }

  unfoldable pub active_connection_counts : SubscriberRegistry → List (Text × ℕ)
  active_connection_counts r = count_names r.subscribers

  unfoldable pub snapshots : SubscriberRegistry → List SubscriberSnapshot
  snapshots r =
      map
        (λ entry. record {
          name = entry.1.name;
          remote_addr = entry.1.remote_addr;
          patterns = map (λ p. p.text) entry.1.patterns;
          delivered = entry.1.queue.delivered;
          dropped = entry.1.queue.dropped;
        })
        r.subscribers
