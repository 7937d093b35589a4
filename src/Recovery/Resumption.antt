-- ===== src/Recovery/Resumption.antt =====
-- The replay of the server through the session of the client: what was missed is handed over once.
use whdr.Common.{
  ℕ, ◌+◌, ◌<◌, ◌≡◌, refl, sym, subst, ap, ◌∙◌, List, [], ◌∷◌, ◌++◌, map, Option, some, Bool, true,
  false, Text, ok, err, codes, keep, ltb, Bool-cases, inl, inr, word_mod, ok-injective, All-keep,
}
use mathlib.Core.List.{append_assoc, append-nil}
use whdr.Proto.Messages.{Uuid, SubServerMsg}
use whdr.Server.DeliveryLog.Storage.{Store}
use whdr.Server.DeliveryLog.{Shared, StampedEvent, read_rows}
use whdr.Server.DeliveryLog.Rows.{Decodes}
use whdr.Server.DeliveryLog.Consistent.{IsConsistent}
use whdr.Server.Subscribers.{event_msg}
use whdr.Server.SubscriberWs.{parsed, predates, gap, replay}
use whdr.Server.SubscriberWs.Replay.{IsLater, replay_complete}
use whdr.SubKit.Resume.{new}
use whdr.SubKit.Resume.Window.{Distinct}
use whdr.SubKit.Session.{
  Call, on_event, on_replayed, on_replay_gap, World, DeliveredEvent, Error, initial, session_loop,
  handle_message, called,
}
use whdr.SubKit.Session.Ascent.{Ascending}
use whdr.Recovery.Order.{seq_of, read_rows-Ascending, above-RowsAscending}
use whdr.Recovery.Client.{
  id_of, delivered, took, took_all, frames, session_loop_step, session_loop-took_all, Unseen,
}

abbrev pub event_of : Call → List DeliveredEvent
event_of (on_event e) = e ∷ []
event_of _ = []

-- The events that the handler was given.
abbrev pub events_of : List Call → List DeliveredEvent
events_of [] = []
events_of (c ∷ calls) = event_of c ++ events_of calls

events_of-append : (xs ys : List Call) → events_of (xs ++ ys) ≡ events_of xs ++ events_of ys
events_of-append [] ys = refl
events_of-append (x ∷ xs) ys =
    ap (λ t. event_of x ++ t) (events_of-append xs ys)
    ∙ sym (append_assoc (event_of x) (events_of xs) (events_of ys))

events_of-took :
    (w : World) (e : StampedEvent)
    → events_of (took w e).calls ≡ events_of w.calls ++ delivered e ∷ []
events_of-took w e =
    events_of-append (w.calls ++ on_event (delivered e) ∷ []) _
    ∙ append-nil (events_of (w.calls ++ on_event (delivered e) ∷ []))
    ∙ events_of-append w.calls (on_event (delivered e) ∷ [])

events_of-took_all :
    (w : World) (events : List StampedEvent)
    → events_of (took_all w events).calls ≡ events_of w.calls ++ map delivered events
events_of-took_all w [] = sym (append-nil (events_of w.calls))
events_of-took_all w (e ∷ events) =
    events_of-took_all (took w e) events
    ∙ ap (λ t. t ++ map delivered events) (events_of-took w e)
    ∙ append_assoc (events_of w.calls) (delivered e ∷ []) (map delivered events)

Unseen-new : (cursor capacity : ℕ) (ids : List Uuid) → Unseen (new cursor capacity) ids
unfolding new
Unseen-new cursor capacity [] = tt
Unseen-new cursor capacity (i ∷ ids) = (refl, Unseen-new cursor capacity ids)

module _ (env : List Call → Call → Bool) (parse_frame : Text → Option SubServerMsg)
    (encode : SubServerMsg → Text) (willing : (past : List Call) (c : Call) → env past c ≡ true)
    (parse-encode : (m : SubServerMsg) → parse_frame (encode m) ≡ some m) where
  -- The frames around the events make no event.
  through_end :
      (w : World) (head : ℕ)
      → (v : World) × (session_loop env parse_frame w
            (frames encode (SubServerMsg.replayed head ∷ []))
          ≡ (v, err Error.connection_closed))
        × (events_of v.calls ≡ events_of w.calls)
  unfolding session_loop handle_message
  through_end w head = (
    called env parse_frame w (on_replayed head),
    session_loop_step env parse_frame encode willing parse-encode w
        (called env parse_frame w (on_replayed head)) (SubServerMsg.replayed head) []
        (rw (willing w.calls (on_replayed head))),
    events_of-append w.calls (on_replayed head ∷ []) ∙ append-nil (events_of w.calls),
  )

  through_gap :
      (store : Store) (log : Shared store) (w : World) (after_seq : ℕ) (rest : List SubServerMsg)
      → (v : World) × (session_loop env parse_frame w
            (frames encode (gap store log after_seq ++ rest))
          ≡ session_loop env parse_frame v (frames encode rest))
        × (events_of v.calls ≡ events_of w.calls)
        × (v.resume ≡ w.resume)
  unfolding handle_message
  through_gap store log w after_seq rest = elim (Bool-cases (predates log.floor after_seq)) [
    | inr covered ↦ (w, rw covered, refl, refl)
    | inl early ↦
        let v = called env parse_frame w (on_replay_gap after_seq log.floor) in
        (
          v,
          rw early (
              session_loop_step env parse_frame encode willing parse-encode w v
                (SubServerMsg.replay_gap after_seq log.floor) (frames encode rest)
                (rw (willing w.calls (on_replay_gap after_seq log.floor)))),
          events_of-append w.calls (on_replay_gap after_seq log.floor ∷ [])
              ∙ append-nil (events_of w.calls),
          refl,
        )
  ]

  -- The frames of a replay give the handler the events in them.
  through_replay :
      (store : Store) (log : Shared store) (cursor capacity : ℕ) (wanted : List StampedEvent)
      → Ascending cursor (map seq_of wanted)
      → Distinct (map id_of wanted)
      → (v : World) × (session_loop env parse_frame (initial cursor capacity) (
            frames encode (
              SubServerMsg.ok (codes "subscribe") ∷ gap store log cursor
              ++ map event_msg wanted
              ++ SubServerMsg.replayed log.head ∷ []))
          ≡ (v, err Error.connection_closed))
        × (events_of v.calls ≡ map delivered wanted)
  unfolding handle_message new
  through_replay store log cursor capacity wanted a d =
      let w = initial cursor capacity in
      let rest = map event_msg wanted ++ SubServerMsg.replayed log.head ∷ [] in
      let (u, gapped, none_yet, same) = through_gap store log w cursor rest in
      let (v, ended, kept) = through_end (took_all u wanted) log.head in
      (
        v,
        ap (λ t. session_loop env parse_frame w (frames encode t))
              (append_assoc (SubServerMsg.ok (codes "subscribe") ∷ gap store log cursor)
                (map event_msg wanted) (SubServerMsg.replayed log.head ∷ []))
            ∙ session_loop_step env parse_frame encode willing parse-encode w w
                (SubServerMsg.ok (codes "subscribe")) (frames encode (gap store log cursor ++ rest))
                refl
            ∙ gapped
            ∙ session_loop-took_all env parse_frame encode willing parse-encode u wanted
                (SubServerMsg.replayed log.head ∷ [])
                (subst (λ s. Ascending s.cursor (map seq_of wanted)) (sym same) a) d
                (subst (λ s. Unseen s (map id_of wanted)) (sym same)
                  (Unseen-new cursor capacity (map id_of wanted)))
            ∙ ended,
        kept ∙ events_of-took_all u wanted ∙ ap (λ t. t ++ map delivered wanted) none_yet,
      )

-- Recovery, from the log of the server to the handler of the client: a client that resumes from its
-- cursor with an empty window of ids, whose calls succeed and that reads back the frames as they were
-- written, is given exactly the events of the log that are numbered above the cursor and match its
-- patterns, each once and in their order. The ids of those events differ, the cursor is below
-- 2 ^ 64 - 1, and other tasks may append to the log meanwhile.
pub resumption_recovers :
    (env : List Call → Call → Bool) (parse_frame : Text → Option SubServerMsg)
    (encode : SubServerMsg → Text) (willing : (past : List Call) (c : Call) → env past c ≡ true)
    (parse-encode : (m : SubServerMsg) → parse_frame (encode m) ≡ some m) (store : Store)
    (log later : Shared store) (cursor capacity : ℕ) (patterns : List Text)
    (wanted : List StampedEvent)
    → IsConsistent store log
    → IsLater store log later
    → cursor + 1 < word_mod
    → read_rows store (some (parsed patterns)) (keep (λ r. ltb cursor r.0) (store.iter log.db))
      ≡ ok wanted
    → Distinct (map id_of wanted)
    → (msgs : List SubServerMsg) × (v : World) × (replay store false log later cursor patterns
        ≡ ok msgs)
      × (session_loop env parse_frame (initial cursor capacity) (frames encode msgs)
          ≡ (v, err Error.connection_closed))
      × (events_of v.calls ≡ map delivered wanted)
resumption_recovers env parse_frame encode willing parse-encode store log later cursor capacity
      patterns wanted c l h r d =
    let (read, q, sent) = replay_complete store log later cursor patterns c l h in
    let same : read ≡ wanted = ok-injective (sym q ∙ r) in
    let ascending =
      read_rows-Ascending store (some (parsed patterns)) cursor
        (keep (λ row. ltb cursor row.0) (store.iter log.db)) wanted
        (All-keep (Decodes store) (λ row. ltb cursor row.0) (store.iter log.db) c.decodes)
        (above-RowsAscending log.floor cursor (store.iter log.db) c.consecutive) r in
    let (v, ended, given) =
      through_replay env parse_frame encode willing parse-encode store log cursor capacity wanted
        ascending d in
    (
      SubServerMsg.ok (codes "subscribe") ∷ gap store log cursor
          ++ map event_msg wanted
          ++ SubServerMsg.replayed log.head ∷ [],
      v,
      (rw same at sent),
      ended,
      given,
    )
