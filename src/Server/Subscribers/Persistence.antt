-- ===== src/Server/Subscribers/Persistence.antt =====
-- The fan-out with a delivery log: events are persisted before they are delivered, and a batch that
-- cannot be persisted is numbered by the registry's own counter.
use whdr.Common.{
  ℕ, suc, ◌+◌, ◌<◌, ◌≤◌, ◌≡◌, refl, ap, subst, ◌∙◌, List, [], ◌∷◌, Option, none, some, Bool, false,
  Text, Result, ok, err, nat_eq, text_eq, fetch_add, fetch_add_exact, word_mod, length, arith, All,
}
use whdr.Proto.Messages.{Uuid, Event, SubServerMsg}
use whdr.Server.DeliveryLog.Storage.{Store}
use whdr.Server.DeliveryLog.{Shared, StampedEvent, append, LogError, read_after}
use whdr.Server.DeliveryLog.Rows.{rows_bytes}
use whdr.Server.DeliveryLog.Consistent.{IsConsistent}
use whdr.Server.DeliveryLog.Stamping.{stamps}
use whdr.Server.DeliveryLog.Append.{append-IsAppended}
use whdr.Server.Subscribers.{
  SubscriberRegistry, stamp_in_memory, appended, stamp_frames, stamp_by, fanout, push_frames,
}
use whdr.Server.Subscribers.Delivery.{EachReceives, push_frames-EachReceives}
use whdr.SubKit.Resume.{ResumeState, should_process}

stamp_in_memory_lem :
    (seq ts_ms : ℕ) (new_v4 : ℕ → Uuid) (offset : ℕ) (events : List Event)
    → seq + length events < word_mod
    → stamp_in_memory seq ts_ms new_v4 offset events
      ≡ (stamps (suc seq) ts_ms new_v4 offset events, seq + length events)
unfolding stamp_in_memory
stamp_in_memory_lem seq ts_ms new_v4 offset [] h = ground arith
stamp_in_memory_lem seq ts_ms new_v4 offset (event ∷ events) h = ground (
  arith,
  fetch_add_exact seq 1,
  stamp_in_memory_lem (suc seq) ts_ms new_v4 (offset + 1) events (omega arith),
)

module _ (store : Store) where
  appended-subscribers :
      (r : SubscriberRegistry store) (late_ms : ℕ) (late_v4 : ℕ → Uuid) (events : List Event)
      (result : Result (Shared store × List StampedEvent) LogError)
      → (appended store r late_ms late_v4 events result).0.subscribers ≡ r.subscribers
  appended-subscribers r late_ms late_v4 events (ok (log, stamped)) = refl
  appended-subscribers r late_ms late_v4 events (err e) = refl

  stamp_by-subscribers :
      (fault : Bool) (delivery : Option (Shared store)) (r : SubscriberRegistry store)
      (events : List Event) (ts_ms : ℕ) (new_v4 : ℕ → Uuid) (late_ms : ℕ) (late_v4 : ℕ → Uuid)
      → (stamp_by store fault delivery r events ts_ms new_v4 late_ms late_v4).0.subscribers
        ≡ r.subscribers
  stamp_by-subscribers fault none r events ts_ms new_v4 late_ms late_v4 = refl
  stamp_by-subscribers fault (some log) r events ts_ms new_v4 late_ms late_v4 =
      appended-subscribers r late_ms late_v4 events (append store fault log events ts_ms new_v4)

  stamp_frames-subscribers :
      (fault : Bool) (r : SubscriberRegistry store) (events : List Event) (ts_ms : ℕ)
      (new_v4 : ℕ → Uuid) (late_ms : ℕ) (late_v4 : ℕ → Uuid)
      → (stamp_frames store fault r events ts_ms new_v4 late_ms late_v4).0.subscribers
        ≡ r.subscribers
  unfolding stamp_frames
  stamp_frames-subscribers fault r = stamp_by-subscribers fault r.delivery r

-- The fan-out of a batch that is not empty, whether the log takes it or not: each connection, under its
-- id and in its place, gets the frames one after another, in their order. A frame that has
-- a text, is on a valid channel and whose tokens match those of a valid pattern of the connection is
-- pushed to its queue; any other frame changes nothing of it, and no frame changes its name, its
-- patterns or what it was told.
pub fanout-EachReceives :
    (store : Store) (encode : SubServerMsg → Option Text) (fault : Bool)
    (r : SubscriberRegistry store) (event : Event) (events : List Event) (ts_ms : ℕ)
    (new_v4 : ℕ → Uuid) (late_ms : ℕ) (late_v4 : ℕ → Uuid)
    → EachReceives encode
        (stamp_frames store fault r (event ∷ events) ts_ms new_v4 late_ms late_v4).1
        r.subscribers
        (fanout store encode fault r (event ∷ events) ts_ms new_v4 late_ms late_v4).subscribers
unfolding fanout
fanout-EachReceives store encode fault r event events ts_ms new_v4 late_ms late_v4 =
    let (r', frames) = stamp_frames store fault r (event ∷ events) ts_ms new_v4 late_ms late_v4 in
    subst (λ before. EachReceives encode frames before (push_frames encode frames r'.subscribers))
      (stamp_frames-subscribers store fault r (event ∷ events) ts_ms new_v4 late_ms late_v4)
      (push_frames-EachReceives encode frames r'.subscribers)

-- Persist before deliver: where the log takes the batch, the frames to deliver are the very events
-- that reading the log after its old head gives back, and the log stays consistent. The numbers and the
-- bytes of the log stay below 2 ^ 64 - 1.
pub stamp_frames_persists :
    (store : Store) (r : SubscriberRegistry store) (log log' : Shared store) (events : List Event)
    (ts_ms : ℕ) (new_v4 : ℕ → Uuid) (late_ms : ℕ) (late_v4 : ℕ → Uuid) (stamped : List StampedEvent)
    → r.delivery ≡ some log
    → IsConsistent store log
    → log.head + length events + 1 < word_mod
    → append store false log events ts_ms new_v4 ≡ ok (log', stamped)
    → rows_bytes (store.iter log'.db) < word_mod
    → (stamp_frames store false r events ts_ms new_v4 late_ms late_v4
        ≡ (record r { delivery = some log' }, stamped))
      × (read_after store false log' log.head none ≡ ok stamped)
      × IsConsistent store log'
unfolding stamp_frames
stamp_frames_persists store r log log' events ts_ms new_v4 late_ms late_v4 stamped d c h a fits =
    let done = append-IsAppended store log log' events ts_ms new_v4 stamped c h a fits in
    (
      ap (λ o. stamp_by store false o r events ts_ms new_v4 late_ms late_v4) d
          ∙ ap (appended store r late_ms late_v4 events) a,
      done.read_back,
      done.consistent,
    )

-- Where the log cannot take a batch, the fan-out leaves the log as it was, counts the failure, and
-- numbers the frames by the counter of the registry, which knows nothing of the log's numbers: so a
-- client whose cursor is at least that counter after the batch discards every one of them.
pub stamp_frames_of_failed_append :
    (store : Store) (fault : Bool) (r : SubscriberRegistry store) (log : Shared store)
    (events : List Event) (ts_ms : ℕ) (new_v4 : ℕ → Uuid) (late_ms : ℕ) (late_v4 : ℕ → Uuid)
    (e : LogError) (client : ResumeState)
    → r.delivery ≡ some log
    → append store fault log events ts_ms new_v4 ≡ err e
    → r.seq + length events < word_mod
    → r.seq + length events ≤ client.cursor
    → (stamp_frames store fault r events ts_ms new_v4 late_ms late_v4 ≡ (
      record r { seq = r.seq + length events; persist_errors = fetch_add r.persist_errors 1 },
      stamps (suc r.seq) late_ms late_v4 0 events,
    ))
      × All
          (λ frame. should_process client frame.id frame.seq ≡ false)
          (stamps (suc r.seq) late_ms late_v4 0 events)
unfolding stamp_frames should_process
stamp_frames_of_failed_append store fault r log events ts_ms new_v4 late_ms late_v4 e client d a h
      behind =
    (
      ap (λ o. stamp_by store fault o r events ts_ms new_v4 late_ms late_v4) d
          ∙ ap (appended store r late_ms late_v4 events) a
          ∙ ap (λ t. (record r { seq = t.1; persist_errors = fetch_add r.persist_errors 1 }, t.0))
              (stamp_in_memory_lem r.seq late_ms late_v4 0 events h),
      discarded (suc r.seq) 0 events (omega arith),
    )
  where
    discarded :
        (seq offset : ℕ) (es : List Event)
        → seq + length es ≤ client.cursor + 1
        → All
            (λ frame. should_process client frame.id frame.seq ≡ false)
            (stamps seq late_ms late_v4 offset es)
    discarded seq offset [] b = tt
    discarded seq offset (x ∷ es) b =
        (ground arith, discarded (suc seq) (offset + 1) es (omega arith))
