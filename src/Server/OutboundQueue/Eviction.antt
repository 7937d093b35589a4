-- ===== src/Server/OutboundQueue/Eviction.antt =====
-- `push_event` drops the oldest events, as few as the budgets allow, and nothing else.
use whdr.Common.{
  ℕ, zero, suc, ◌+◌, ◌<◌, ◌≤◌, ◌≡◌, refl, ap, ◌∙◌, List, [], ◌∷◌, ◌++◌, none, some, true, false,
  arith, Text, ltb, length, position, remove_at, fetch_add, fetch_add_assoc, fetch_add-lt,
  fetch_add_exact, word_mod, Bool-cases, Option-cases, inl, inr, ◌⊎◌,
}
use whdr.Server.OutboundQueue.{
  Frame, OutboundQueue, is_event_frame, events, over_budget, evict, event_frame, push_event,
  record_drop,
}

-- The frames without the `n` oldest events.
unfoldable pub drop_events : ℕ → List Frame → List Frame
drop_events zero frames = frames
drop_events (suc n) [] = []
drop_events (suc n) (f ∷ frames) = elim f.is_event [
  | true ↦ drop_events n frames
  | false ↦ f ∷ drop_events (suc n) frames
]

drop_events-one :
    (frames : List Frame) (i : ℕ)
    → position is_event_frame frames ≡ some i
    → remove_at i frames ≡ drop_events 1 frames
unfolding drop_events
drop_events-one [] i h = cc
drop_events-one (f ∷ frames) zero h = ground (arith, drop_events-one frames)
drop_events-one (f ∷ frames) (suc i) h = ground (arith, drop_events-one frames i)

drop_events-suc :
    (n : ℕ) (frames : List Frame)
    → drop_events n (drop_events 1 frames) ≡ drop_events (suc n) frames
unfolding drop_events
drop_events-suc zero frames = refl
drop_events-suc (suc n) [] = refl
drop_events-suc (suc n) (f ∷ frames) = ground (arith, drop_events-suc (suc n) frames)

events_of_absent :
    (frames : List Frame) → position is_event_frame frames ≡ none → events frames ≡ []
events_of_absent [] h = refl
events_of_absent (f ∷ frames) h = ground (arith, events_of_absent frames)

-- While the queue is over budget there is an event to drop.
over_budget-position :
    (frames : List Frame) (n e b : ℕ)
    → over_budget frames n e b ≡ true
    → (i : ℕ) × (position is_event_frame frames ≡ some i)
unfolding over_budget
over_budget-position frames n e b h = elim (Option-cases (position is_event_frame frames)) [
  | inl absent ↦ cc (rw (events_of_absent frames absent) at h)
  | inr found ↦ found
]

remove_at-length :
    (frames : List Frame) (i : ℕ)
    → position is_event_frame frames ≡ some i
    → length (remove_at i frames) + 1 ≡ length frames
remove_at-length [] i h = cc
remove_at-length (f ∷ frames) zero h = omega arith
remove_at-length (f ∷ frames) (suc i) h = ground (arith, remove_at-length frames i)

-- What a run of the eviction loop did: `count` events are gone, the oldest ones, each counted as a
-- drop; the rest fits the budgets, and no smaller number of drops would have done.
pub record Evicted (q : OutboundQueue) (incoming count : ℕ) (q' : OutboundQueue) : Type 0 where
  pub kept : q'.inner ≡ drop_events count q.inner
  pub dropped : q'.dropped ≡ fetch_add q.dropped count
  pub lag : q'.lag_pending ≡ fetch_add q.lag_pending count
  pub delivered : q'.delivered ≡ q.delivered
  pub max_events : q'.max_events ≡ q.max_events
  pub max_event_bytes : q'.max_event_bytes ≡ q.max_event_bytes
  pub fits : over_budget (drop_events count q.inner) incoming q.max_events q.max_event_bytes ≡ false
  pub least :
      (j : ℕ)
      → j < count
      → over_budget (drop_events j q.inner) incoming q.max_events q.max_event_bytes ≡ true

-- Counters are words.
pub record CountsInRange (q : OutboundQueue) : Type 0 where
  pub dropped : q.dropped < word_mod
  pub lag : q.lag_pending < word_mod

Evicted-next :
    (q q' : OutboundQueue) (incoming n i : ℕ)
    → over_budget q.inner incoming q.max_events q.max_event_bytes ≡ true
    → position is_event_frame q.inner ≡ some i
    → Evicted (record_drop (record q { inner = remove_at i q.inner })) incoming n q'
    → Evicted q incoming (suc n) q'
unfolding drop_events
Evicted-next q q' incoming n i over found e = record {
  kept = e.kept ∙ front;
  dropped = ground (arith, e.dropped, fetch_add_assoc q.dropped 1 n);
  lag = ground (arith, e.lag, fetch_add_assoc q.lag_pending 1 n);
  delivered = e.delivered;
  max_events = e.max_events;
  max_event_bytes = e.max_event_bytes;
  fits = rw (← front) e.fits;
  least = elim [ zero ↦ λ _. over | suc j ↦ λ h. rw (← front_of j) (e.least j (omega arith)) ];
}
  where
    front_of : (j : ℕ) → drop_events j (remove_at i q.inner) ≡ drop_events (suc j) q.inner
    front_of j = ap (drop_events j) (drop_events-one q.inner i found) ∙ drop_events-suc j q.inner

    front : drop_events n (remove_at i q.inner) ≡ drop_events (suc n) q.inner
    front = front_of n

Evicted-none :
    (q : OutboundQueue) (incoming : ℕ)
    → CountsInRange q
    → over_budget q.inner incoming q.max_events q.max_event_bytes ≡ false
    → Evicted q incoming 0 q
unfolding drop_events
Evicted-none q incoming v fits = record {
  kept = refl;
  dropped = ground (arith, fetch_add_exact q.dropped 0);
  lag = ground (arith, fetch_add_exact q.lag_pending 0);
  delivered = refl;
  max_events = refl;
  max_event_bytes = refl;
  fits = fits;
  least = λ j h. absurd (omega arith);
}

evict-next :
    (fuel incoming i : ℕ) (q : OutboundQueue)
    → over_budget q.inner incoming q.max_events q.max_event_bytes ≡ true
    → position is_event_frame q.inner ≡ some i
    → evict (suc fuel) incoming q
      ≡ evict fuel incoming (record_drop (record q { inner = remove_at i q.inner }))
unfolding evict
evict-next fuel incoming i q over found = ground arith

evict-stop :
    (fuel incoming : ℕ) (q : OutboundQueue)
    → over_budget q.inner incoming q.max_events q.max_event_bytes ≡ false
    → evict (suc fuel) incoming q ≡ q
unfolding evict
evict-stop fuel incoming q fits = rw (fits, evict)

evict-Evicted :
    (fuel incoming : ℕ) (q : OutboundQueue)
    → length q.inner < fuel
    → CountsInRange q
    → (count : ℕ) × Evicted q incoming count (evict fuel incoming q)
evict-Evicted zero incoming q h v = elim h [ ]
evict-Evicted (suc fuel) incoming q h v =
    elim (Bool-cases (over_budget q.inner incoming q.max_events q.max_event_bytes)) [
      | inl over ↦
          let (i, found) = over_budget-position q.inner _ _ _ over in
          let (n, e) =
            evict-Evicted fuel incoming (record_drop (record q { inner = remove_at i q.inner }))
              (omega (arith, remove_at-length q.inner i found))
              (record { dropped = fetch_add-lt q.dropped 1; lag = fetch_add-lt q.lag_pending 1 }) in
          (
            suc n,
            rw (evict-next fuel incoming i q over found)
                (Evicted-next q _ incoming n i over found e),
          )
      | inr fits ↦ (0, rw (evict-stop fuel incoming q fits) (Evicted-none q incoming v fits))
    ]

pub push_event-Evicted :
    (q : OutboundQueue) (text : Text)
    → CountsInRange q
    → ((q.max_event_bytes < length text) × (push_event q text ≡ record_drop q))
      ⊎ ((count : ℕ) × (evicted : OutboundQueue) × (length text ≤ q.max_event_bytes)
          × Evicted q (length text) count evicted
          × (push_event q text
              ≡ record evicted { inner = drop_events count q.inner ++ event_frame text ∷ [] }))
unfolding push_event
push_event-Evicted q text v = elim (Bool-cases (ltb q.max_event_bytes (length text))) [
  | inl large ↦ inl (ground arith, rw large)
  | inr fits ↦
      let (count, e) = evict-Evicted (suc (length q.inner)) (length text) q (omega arith) v in
      inr (count, evict (suc (length q.inner)) (length text) q, ground arith, e, rw (fits, e.kept))
]
