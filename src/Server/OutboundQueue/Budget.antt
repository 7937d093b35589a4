-- ===== src/Server/OutboundQueue/Budget.antt =====
-- The budgets of the outbound queue hold after every method.
use whdr.Common.{
  ℕ, zero, suc, ◌+◌, ◌<◌, ◌≤◌, ◌≡◌, refl, ap, ◌∙◌, List, [], ◌∷◌, ◌++◌, Option, false, arith, Text,
  length, length-append, fetch_add-lt, Option-cases, inl, inr, keep-append, ◌⊎◌, drop,
}
use mathlib.Core.List.{append-nil}
use whdr.Proto.Messages.{SubServerMsg}
use whdr.Server.OutboundQueue.{
  Frame, OutboundQueue, is_event_frame, events, total_bytes, over_budget, event_frame, push_event,
  push_control, pop, pop_front, is_closing, new, take_pending_lag,
}
use whdr.Server.OutboundQueue.Eviction.{drop_events, Evicted, CountsInRange, push_event-Evicted}

-- The oldest go first.
pub events-drop_events :
    (n : ℕ) (frames : List Frame) → events (drop_events n frames) ≡ drop n (events frames)
unfolding drop_events
events-drop_events zero frames = refl
events-drop_events (suc n) [] = refl
events-drop_events (suc n) (f ∷ frames) =
    ground (arith, events-drop_events n frames, events-drop_events (suc n) frames)

total_bytes-append : (xs ys : List Frame) → total_bytes (xs ++ ys) ≡ total_bytes xs + total_bytes ys
total_bytes-append [] ys = omega arith
total_bytes-append (x ∷ xs) ys = omega (arith, total_bytes-append xs ys)

pub record IsValid (q : OutboundQueue) : Type 0 where
  pub some_events : 0 < q.max_events
  pub some_bytes : 0 < q.max_event_bytes
  pub event_count : length (events q.inner) ≤ q.max_events
  pub event_bytes : total_bytes (events q.inner) ≤ q.max_event_bytes
  pub counts : CountsInRange q

pub new-IsValid : (max_events max_event_bytes : ℕ) → IsValid (new max_events max_event_bytes)
unfolding new
new-IsValid max_events max_event_bytes = record {
  some_events = omega arith;
  some_bytes = omega arith;
  event_count = omega arith;
  event_bytes = omega arith;
  counts = record { dropped = omega arith; lag = omega arith };
}

total_bytes_of_none : (frames : List Frame) → length frames ≡ 0 → total_bytes frames ≡ 0
total_bytes_of_none [] h = refl
total_bytes_of_none (f ∷ frames) h = absurd (omega arith)

-- With room for one more, the new frame fits.
fits-count :
    (frames : List Frame) (incoming n b : ℕ)
    → over_budget frames incoming n b ≡ false
    → 0 < n
    → incoming ≤ b
    → (length (events frames) + 1 ≤ n) × (total_bytes (events frames) + incoming ≤ b)
unfolding over_budget
fits-count frames incoming n b h p c = ground (arith, total_bytes_of_none (events frames))

pub events-push :
    (frames : List Frame) (text : Text)
    → events (frames ++ event_frame text ∷ []) ≡ events frames ++ event_frame text ∷ []
events-push frames text = keep-append is_event_frame frames (event_frame text ∷ [])

Evicted-IsValid :
    (q q' : OutboundQueue) (text : Text) (count : ℕ)
    → IsValid q
    → length text ≤ q.max_event_bytes
    → Evicted q (length text) count q'
    → IsValid (record q' { inner = drop_events count q.inner ++ event_frame text ∷ [] })
Evicted-IsValid q q' text count v fits ev = record {
  some_events = rw ev.max_events v.some_events;
  some_bytes = rw ev.max_event_bytes v.some_bytes;
  event_count = omega (arith, room.0, ev.max_events, count_eq);
  event_bytes = omega (arith, room.1, ev.max_event_bytes, bytes_eq);
  counts = record {
    dropped = rw ev.dropped (fetch_add-lt q.dropped count);
    lag = rw ev.lag (fetch_add-lt q.lag_pending count);
  };
}
  where
    left : List Frame
    left = drop_events count q.inner

    room :
        (length (events left) + 1 ≤ q.max_events)
        × (total_bytes (events left) + length text ≤ q.max_event_bytes)
    room = fits-count left (length text) q.max_events q.max_event_bytes ev.fits v.some_events fits

    count_eq : length (events (left ++ event_frame text ∷ [])) ≡ length (events left) + 1
    count_eq = rw (events-push left text) (length-append (events left) (event_frame text ∷ []))

    bytes_eq :
        total_bytes (events (left ++ event_frame text ∷ []))
        ≡ total_bytes (events left) + length text
    bytes_eq =
        rw (events-push left text)
          (omega (arith, total_bytes-append (events left) (event_frame text ∷ [])))

-- `push_event` keeps the invariant: at most `max_events` events of at most `max_event_bytes` bytes in
-- all are queued, both budgets are positive, and the drop counters are words.
pub push_event-IsValid : (q : OutboundQueue) (text : Text) → IsValid q → IsValid (push_event q text)
push_event-IsValid q text v = elim (push_event-Evicted q text v.counts) [
  | inl (large, e) ↦ rw e (record {
    some_events = v.some_events;
    some_bytes = v.some_bytes;
    event_count = v.event_count;
    event_bytes = v.event_bytes;
    counts = record { dropped = fetch_add-lt q.dropped 1; lag = fetch_add-lt q.lag_pending 1 };
  })
  | inr (count, q', fits, ev, e) ↦ rw e (Evicted-IsValid q q' text count v fits ev)
]

-- A control frame is added at the end, or nothing is where it cannot be encoded.
pub push_control-cases :
    (encode : SubServerMsg → Option Text) (q : OutboundQueue) (msg : SubServerMsg)
    → (push_control encode q msg ≡ q)
      ⊎ ((frames : List Frame) × (push_control encode q msg ≡ record q { inner = frames })
          × (events frames ≡ events q.inner))
unfolding push_control
push_control-cases encode q msg = elim (Option-cases (encode msg)) [
  | inl e ↦ inl (rw (e, push_control))
  | inr (text, e) ↦
      let frame : Frame = record { text = text; closing = is_closing msg; is_event = false } in
      inr (
        q.inner ++ frame ∷ [],
        rw (e, push_control),
        keep-append is_event_frame q.inner (frame ∷ []) ∙ append-nil (events q.inner),
      )
]

pub push_control-IsValid :
    (encode : SubServerMsg → Option Text) (q : OutboundQueue) (msg : SubServerMsg)
    → IsValid q
    → IsValid (push_control encode q msg)
push_control-IsValid encode q msg v = elim (push_control-cases encode q msg) [
  | inl e ↦ rw e v
  | inr (frames, e, same) ↦ rw e (record {
    some_events = v.some_events;
    some_bytes = v.some_bytes;
    event_count = rw same v.event_count;
    event_bytes = rw same v.event_bytes;
    counts = record { dropped = v.counts.dropped; lag = v.counts.lag };
  })
]

pub pop_front-IsValid :
    (q : OutboundQueue) (frames : List Frame)
    → q.inner ≡ frames
    → IsValid q
    → IsValid (pop_front q frames).0
pop_front-IsValid q [] e v = v
pop_front-IsValid q (f ∷ frames) e v =
    ground (arith, ap (λ i. length (events i)) e, ap (λ i. total_bytes (events i)) e)

pub pop-IsValid : (q : OutboundQueue) → IsValid q → IsValid (pop q).0
unfolding pop
pop-IsValid q v = pop_front-IsValid q q.inner refl v

pub take_pending_lag-IsValid : (q : OutboundQueue) → IsValid q → IsValid (take_pending_lag q).0
unfolding take_pending_lag
take_pending_lag-IsValid q v = ground arith
