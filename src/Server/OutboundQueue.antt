-- ===== src/Server/OutboundQueue.antt =====
-- crates/whdr-server/src/outbound_queue.rs: the bounded frame queue of one subscriber connection.
-- The mutex makes each method one step; a `pop` on the empty queue waits, which is `none` here.
pub mod Eviction
pub mod Budget
pub mod Accounting
mod Tests
use Prim.Native.Nat.{max}
use whdr.Common.{
  ℕ, zero, suc, ◌+◌, List, [], ◌∷◌, ◌++◌, map, Option, none, some, Bool, true, false, ◌||◌, Text,
  length, keep, position, remove_at, fetch_add, ltb, ◌==◌, nat_eq, if◌then◌else◌,
}
use whdr.Proto.Messages.{SubServerMsg}

pub record Frame : Type 0 where
  pub text : Text
  pub closing : Bool
  pub is_event : Bool

pub record OutboundQueue : Type 0 where
  pub inner : List Frame
  pub max_events : ℕ
  pub max_event_bytes : ℕ
  pub delivered : ℕ
  pub dropped : ℕ
  pub lag_pending : ℕ

unfoldable pub new : ℕ → ℕ → OutboundQueue
new max_events max_event_bytes = record {
  inner = [];
  max_events = max max_events 1;
  max_event_bytes = max max_event_bytes 1;
  delivered = 0;
  dropped = 0;
  lag_pending = 0;
}

abbrev record_drop : OutboundQueue → OutboundQueue
record_drop q = record q {
  dropped = fetch_add q.dropped 1;
  lag_pending = fetch_add q.lag_pending 1;
}

unfoldable pub take_pending_lag : OutboundQueue → OutboundQueue × Option ℕ
take_pending_lag q =
    (record q { lag_pending = 0 }, (if q.lag_pending == 0 then none else some q.lag_pending))

abbrev pub is_event_frame : Frame → Bool
is_event_frame frame = frame.is_event

abbrev pub events : List Frame → List Frame
events = keep is_event_frame

abbrev pub total_bytes : List Frame → ℕ
total_bytes [] = 0
total_bytes (frame ∷ frames) = length frame.text + total_bytes frames

unfoldable pub over_budget : List Frame → ℕ → ℕ → ℕ → Bool
over_budget frames incoming_bytes max_events max_event_bytes =
    let event_count = length (events frames) in
    let event_bytes = total_bytes (events frames) in
    if event_count == 0
    then false
    else ltb max_events (event_count + 1) || ltb max_event_bytes (event_bytes + incoming_bytes)

-- The `while` loop of `push_event`, on fuel: each round removes one frame.
unfoldable pub evict : ℕ → ℕ → OutboundQueue → OutboundQueue
evict zero incoming_bytes q = q
evict (suc fuel) incoming_bytes q =
    elim (over_budget q.inner incoming_bytes q.max_events q.max_event_bytes) [
      | false ↦ q
      | true ↦ elim (position is_event_frame q.inner) [
        | none ↦ q
        | some evict_at ↦
            evict fuel incoming_bytes
              (record_drop (record q { inner = remove_at evict_at q.inner }))
      ]
    ]

abbrev pub event_frame : Text → Frame
event_frame text = record { text = text; closing = false; is_event = true }

unfoldable pub push_event : OutboundQueue → Text → OutboundQueue
push_event q text =
    let evicted = evict (suc (length q.inner)) (length text) q in
    if ltb q.max_event_bytes (length text)
    then record_drop q
    else record evicted { inner = evicted.inner ++ event_frame text ∷ [] }

abbrev pub is_closing : SubServerMsg → Bool
is_closing (SubServerMsg.closing reason) = true
is_closing _ = false

-- `encode` is `serde_json::to_string`, which may fail.
pub push_control : (SubServerMsg → Option Text) → OutboundQueue → SubServerMsg → OutboundQueue
push_control encode q msg = elim (encode msg) [
  | none ↦ q
  | some text ↦ record q {
    inner = q.inner ++ record { text = text; closing = is_closing msg; is_event = false } ∷ [];
  }
]

abbrev pop_front : OutboundQueue → List Frame → OutboundQueue × Option Frame
pop_front q [] = (q, none)
pop_front q (frame ∷ frames) = (
  record q {
    inner = frames;
    delivered = (if frame.is_event then fetch_add q.delivered 1 else q.delivered);
  },
  some frame,
)

unfoldable pub pop : OutboundQueue → OutboundQueue × Option Frame
pop q = pop_front q q.inner
