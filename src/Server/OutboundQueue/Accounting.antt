-- ===== src/Server/OutboundQueue/Accounting.antt =====
-- Every event that was pushed is delivered, dropped or still queued, and every drop is reported.
use whdr.Common.{
  ℕ, zero, suc, ◌+◌, ◌<◌, ◌≤◌, ◌≡◌, ◌%◌, refl, ap, ◌∙◌, List, [], ◌∷◌, Option, none, some, true,
  arith, Text, length, length-append, fetch_add, word_mod, if◌then◌else◌, inl, inr, drop,
  drop-cases, nat_eq,
}
use whdr.Proto.Messages.{SubServerMsg}
use whdr.Server.OutboundQueue.{
  Frame, OutboundQueue, events, over_budget, event_frame, push_event, push_control, pop, pop_front,
  new, take_pending_lag,
}
use whdr.Server.OutboundQueue.Eviction.{drop_events, Evicted, push_event-Evicted}
use whdr.Server.OutboundQueue.Budget.{
  IsValid, events-push, push_control-cases, pop_front-IsValid, events-drop_events, new-IsValid,
  push_event-IsValid, push_control-IsValid, take_pending_lag-IsValid,
}

-- A call of one of the queue's methods, by the fan-out, the connection's handler or its writer.
pub data Call : Type 0 where
  pushes : Text → Call
  controls : SubServerMsg → Call
  pops : Call
  takes_lag : Call

-- The queue with what its callers saw: events pushed, events popped, drops reported.
pub record History : Type 0 where
  pub queue : OutboundQueue
  pub pushed : ℕ
  pub popped : ℕ
  pub reported : ℕ

abbrev pub start : ℕ → ℕ → History
start max_events max_event_bytes = record {
  queue = new max_events max_event_bytes;
  pushed = 0;
  popped = 0;
  reported = 0;
}

abbrev count_popped : Option Frame → ℕ
count_popped none = 0
count_popped (some frame) = if frame.is_event then 1 else 0

abbrev count_reported : Option ℕ → ℕ
count_reported none = 0
count_reported (some n) = n

module _ (encode : SubServerMsg → Option Text) where
  pub step : History → Call → History
  step h (pushes text) = record h { queue = push_event h.queue text; pushed = h.pushed + 1 }
  step h (controls msg) = record h { queue = push_control encode h.queue msg }
  step h pops =
      let (queue, frame) = pop h.queue in
      record h { queue = queue; popped = h.popped + count_popped frame }
  step h takes_lag =
      let (queue, lag) = take_pending_lag h.queue in
      record h { queue = queue; reported = h.reported + count_reported lag }

  pub run : History → List Call → History
  run h [] = h
  run h (c ∷ cs) = run (step h c) cs

-- The counters are words, so the sums are stated modulo 2 ^ 64.
pub record IsAccounted (h : History) : Type 0 where
  pub events_split :
      (h.popped + h.queue.dropped + length (events h.queue.inner)) % word_mod ≡ h.pushed % word_mod
  pub delivered : h.queue.delivered ≡ h.popped % word_mod
  pub drops_split : (h.reported + h.queue.lag_pending) % word_mod ≡ h.queue.dropped
  pub valid : IsValid h.queue

over_budget-pos :
    (frames : List Frame) (incoming n b : ℕ)
    → over_budget frames incoming n b ≡ true
    → 0 < length (events frames)
unfolding over_budget
over_budget-pos frames incoming n b h = ground arith

lt-length_of_drop : (n : ℕ) (xs : List Frame) → 0 < length (drop n xs) → n < length xs
lt-length_of_drop n xs h = elim (drop-cases n xs) [
  | inl (past, e, _) ↦ absurd (omega (arith, ap length e))
  | inr (x, here, _, _) ↦ here
]

-- An event can be dropped only while one is queued.
Evicted-count-le :
    (q q' : OutboundQueue) (incoming count : ℕ)
    → Evicted q incoming count q'
    → count ≤ length (events q.inner)
Evicted-count-le q q' incoming zero e = omega arith
Evicted-count-le q q' incoming (suc n) e = lt-length_of_drop n (events q.inner) (
    rw (events-drop_events n q.inner) at
      (over_budget-pos (drop_events n q.inner) incoming _ _ (e.least n (omega arith))))

length-drop_add : (n : ℕ) (xs : List Frame) → n ≤ length xs → length (drop n xs) + n ≡ length xs
length-drop_add zero xs h = omega arith
length-drop_add (suc n) [] h = absurd (omega arith)
length-drop_add (suc n) (x ∷ xs) h = omega (arith, length-drop_add n xs (omega arith))

push-IsAccounted :
    (h : History) (text : Text)
    → IsAccounted h
    → IsAccounted (record h { queue = push_event h.queue text; pushed = h.pushed + 1 })
unfolding fetch_add
push-IsAccounted h text a = elim (push_event-Evicted h.queue text a.valid.counts) [
  | inl (large, e) ↦ record {
    events_split = rw e (omega arith);
    delivered = rw e a.delivered;
    drops_split = rw e (omega arith);
    valid = push_event-IsValid h.queue text a.valid;
  }
  | inr (count, q', fits, ev, e) ↦ record {
    events_split = rw e (
        omega (
          arith,
          ev.dropped,
          Evicted-count-le h.queue q' (length text) count ev,
          length-drop_add count (events h.queue.inner),
          ap length (events-drop_events count h.queue.inner),
          ap length (events-push (drop_events count h.queue.inner) text),
          length-append (events (drop_events count h.queue.inner)) (event_frame text ∷ []),
        ));
    delivered = rw e (ev.delivered ∙ a.delivered);
    drops_split = rw e (omega (arith, ev.dropped, ev.lag));
    valid = push_event-IsValid h.queue text a.valid;
  }
]

control-IsAccounted :
    (encode : SubServerMsg → Option Text) (h : History) (msg : SubServerMsg)
    → IsAccounted h
    → IsAccounted (record h { queue = push_control encode h.queue msg })
control-IsAccounted encode h msg a =
    let valid = push_control-IsValid encode h.queue msg a.valid in
    elim (push_control-cases encode h.queue msg) [
      | inl e ↦ rw e a
      | inr (frames, e, same) ↦ record {
        events_split = rw e (omega (arith, ap length same, a.events_split));
        delivered = rw e a.delivered;
        drops_split = rw e a.drops_split;
        valid = valid;
      }
    ]

pop-IsAccounted :
    (h : History) (frames : List Frame)
    → h.queue.inner ≡ frames
    → IsAccounted h
    → IsAccounted (record h {
      queue = (pop_front h.queue frames).0;
      popped = h.popped + count_popped (pop_front h.queue frames).1;
    })
unfolding fetch_add
pop-IsAccounted h [] e a = record {
  events_split = omega (arith, a.events_split);
  delivered = omega (arith, a.delivered);
  drops_split = a.drops_split;
  valid = a.valid;
}
pop-IsAccounted h (f ∷ frames) e a =
    let n = ap (λ i. length (events i)) e in
    record {
      events_split = ground (arith, n, a.events_split);
      delivered = ground (arith, a.delivered);
      drops_split = a.drops_split;
      valid = pop_front-IsValid h.queue (f ∷ frames) e a.valid;
    }

takes_lag-IsAccounted :
    (h : History)
    → IsAccounted h
    → IsAccounted (record h {
      queue = (take_pending_lag h.queue).0;
      reported = h.reported + count_reported (take_pending_lag h.queue).1;
    })
unfolding take_pending_lag
takes_lag-IsAccounted h a = record {
  events_split = a.events_split;
  delivered = a.delivered;
  drops_split = ground (arith, a.drops_split);
  valid = take_pending_lag-IsValid h.queue a.valid;
}

module _ (encode : SubServerMsg → Option Text) where
  step-IsAccounted : (h : History) (c : Call) → IsAccounted h → IsAccounted (step encode h c)
  unfolding step pop
  step-IsAccounted h (pushes text) a = push-IsAccounted h text a
  step-IsAccounted h (controls msg) a = control-IsAccounted encode h msg a
  step-IsAccounted h pops a = pop-IsAccounted h h.queue.inner refl a
  step-IsAccounted h takes_lag a = takes_lag-IsAccounted h a

  run-IsAccounted : (h : History) (cs : List Call) → IsAccounted h → IsAccounted (run encode h cs)
  unfolding run
  run-IsAccounted h [] a = a
  run-IsAccounted h (c ∷ cs) a = run-IsAccounted (step encode h c) cs (step-IsAccounted h c a)

start-IsAccounted :
    (max_events max_event_bytes : ℕ) → IsAccounted (start max_events max_event_bytes)
unfolding new
start-IsAccounted max_events max_event_bytes = record {
  events_split = omega arith;
  delivered = omega arith;
  drops_split = omega arith;
  valid = new-IsValid max_events max_event_bytes;
}

-- After any sequence of calls on a new queue: the budgets hold; events pushed are events popped plus
-- events dropped plus events queued; drops reported plus drops pending are all drops; and
-- `delivered` counts the events popped. The counters wrap, so the sums are modulo 2 ^ 64.
pub run-start-IsAccounted :
    (encode : SubServerMsg → Option Text) (max_events max_event_bytes : ℕ) (cs : List Call)
    → IsAccounted (run encode (start max_events max_event_bytes) cs)
run-start-IsAccounted encode max_events max_event_bytes cs =
    run-IsAccounted encode (start max_events max_event_bytes) cs
      (start-IsAccounted max_events max_event_bytes)
