-- ===== src/Recovery/Client.antt =====
-- A client whose calls succeed takes every event that is new to it, in order.
use whdr.Common.{
  ℕ, ◌<◌, ◌≡◌, refl, sym, subst, ap, ◌∙◌, List, [], ◌∷◌, ◌++◌, map, Option, some, Bool, true, false,
  not, Text, arith, keep, ltb, length, Bool-cases, inl, inr, ◌==◌, nat_eq, nat_beq, nat_beq_iff,
}
use whdr.Proto.Messages.{Uuid, SubServerMsg}
use whdr.Server.DeliveryLog.{StampedEvent}
use whdr.Server.Subscribers.{event_msg}
use whdr.SubKit.Resume.{ResumeState, contains, should_process, record_event, remember, evict_oldest}
use whdr.SubKit.Resume.Window.{Distinct, record_event_cursor}
use whdr.SubKit.Session.{
  Call, on_event, save, World, DeliveredEvent, Message, session_loop, receive, classify,
  handle_message, goes_on,
}
use whdr.SubKit.Session.Ascent.{Ascending}
use whdr.Recovery.Order.{seq_of}

abbrev pub id_of : StampedEvent → Uuid
id_of e = e.id

-- The event as the handler gets it.
abbrev pub delivered : StampedEvent → DeliveredEvent
delivered e = record {
  id = e.id;
  seq = e.seq;
  ts_ms = e.ts_ms;
  channel = e.channel;
  payload_b64 = e.payload_b64;
}

keep-contains :
    (p : Uuid → Bool) (ids : List Uuid) (i : Uuid)
    → contains ids i ≡ false
    → contains (keep p ids) i ≡ false
keep-contains p [] i h = refl
keep-contains p (x ∷ ids) i h = ground (arith, keep-contains p ids i)

evict_oldest_seen :
    (s : ResumeState) (seen order : List Uuid) (i : Uuid)
    → contains seen i ≡ false
    → contains (evict_oldest s seen order).seen i ≡ false
evict_oldest_seen s seen [] i h = h
evict_oldest_seen s seen (o ∷ order) i h = elim (Bool-cases (ltb s.capacity (length (o ∷ order)))) [
  | inl over ↦ rw over (keep-contains (λ j. not (j == o)) seen i h)
  | inr fits ↦ rw fits h
]

remember_seen :
    (s : ResumeState) (id i : Uuid)
    → contains s.seen i ≡ false
    → nat_beq id i ≡ false
    → contains (remember s id).seen i ≡ false
remember_seen s id i h n = elim (Bool-cases (contains s.seen id)) [
  | inl old ↦ rw old h
  | inr fresh ↦
      rw fresh (evict_oldest_seen s (id ∷ s.seen) (s.order ++ id ∷ []) i (ground (arith, h, n)))
]

-- An id that is not in the window and is not recorded is not in the window afterwards.
record_event_seen :
    (s : ResumeState) (id i : Uuid) (seq : ℕ)
    → contains s.seen i ≡ false
    → nat_beq id i ≡ false
    → contains (record_event s id seq).seen i ≡ false
unfolding record_event
record_event_seen s id i seq h n = elim (Bool-cases (ltb (remember s id).cursor seq)) [
  | inl more ↦ rw more (remember_seen s id i h n)
  | inr less ↦ rw less (remember_seen s id i h n)
]

abbrev pub Unseen : ResumeState → List Uuid → Type 0
Unseen s [] = Unit
Unseen s (i ∷ ids) = (contains s.seen i ≡ false) × Unseen s ids

Unseen-record_event :
    (s : ResumeState) (id : Uuid) (seq : ℕ) (ids : List Uuid)
    → contains ids id ≡ false
    → Unseen s ids
    → Unseen (record_event s id seq) ids
Unseen-record_event s id seq [] c u = tt
Unseen-record_event s id seq (i ∷ ids) c u = (
  record_event_seen s id i seq u.0 (ground (arith, c, nat_beq_iff i id, nat_beq_iff id i)),
  Unseen-record_event s id seq ids (ground (arith, c)) u.1,
)

-- The world after the handler has taken the event and the cursor has been saved.
abbrev pub took : World → StampedEvent → World
took w e = record w {
  resume = record_event w.resume e.id e.seq;
  calls =
      (w.calls ++ on_event (delivered e) ∷ [])
      ++ save (record_event w.resume e.id e.seq).cursor ∷ [];
}

abbrev pub took_all : World → List StampedEvent → World
took_all w [] = w
took_all w (e ∷ events) = took_all (took w e) events

-- The stream of the frames of some messages.
abbrev pub frames : (SubServerMsg → Text) → List SubServerMsg → List (Option Message)
frames encode [] = []
frames encode (m ∷ ms) = some (Message.text (encode m)) ∷ frames encode ms

module _ (env : List Call → Call → Bool) (parse_frame : Text → Option SubServerMsg)
    (encode : SubServerMsg → Text) (willing : (past : List Call) (c : Call) → env past c ≡ true)
    (parse-encode : (m : SubServerMsg) → parse_frame (encode m) ≡ some m) where
  pub session_loop_step :
      (w w' : World) (m : SubServerMsg) (items : List (Option Message))
      → handle_message env parse_frame w m ≡ (w', goes_on)
      → session_loop env parse_frame w (some (Message.text (encode m)) ∷ items)
        ≡ session_loop env parse_frame w' items
  unfolding session_loop receive classify
  session_loop_step w w' m items h =
      rw (parse-encode m, h) (ap (λ p. session_loop env parse_frame p.0 items) h)

  handle_new :
      (w : World) (e : StampedEvent)
      → w.resume.cursor < e.seq
      → contains w.resume.seen e.id ≡ false
      → handle_message env parse_frame w (event_msg e) ≡ (took w e, goes_on)
  unfolding handle_message should_process
  handle_new w e l n =
      let above : ltb w.resume.cursor e.seq ≡ true = ground arith in
      rw (
        above,
        n,
        willing w.calls (on_event (delivered e)),
        willing (w.calls ++ on_event (delivered e) ∷ [])
            (save (record_event w.resume e.id e.seq).cursor),
      )

  pub session_loop-took_all :
      (w : World) (events : List StampedEvent) (rest : List SubServerMsg)
      → Ascending w.resume.cursor (map seq_of events)
      → Distinct (map id_of events)
      → Unseen w.resume (map id_of events)
      → session_loop env parse_frame w (frames encode (map event_msg events ++ rest))
        ≡ session_loop env parse_frame (took_all w events) (frames encode rest)
  session_loop-took_all w [] rest a d u = refl
  session_loop-took_all w (e ∷ events) rest a d u =
      session_loop_step w (took w e) (event_msg e) (frames encode (map event_msg events ++ rest))
        (handle_new w e a.0 u.0)
      ∙ session_loop-took_all (took w e) events rest
          (subst (λ n. Ascending n (map seq_of events))
            (sym (omega (arith, record_event_cursor w.resume e.id e.seq, a.0))) a.1)
          d.1 (Unseen-record_event w.resume e.id e.seq (map id_of events) d.0 u.1)
