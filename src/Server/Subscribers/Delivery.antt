-- ===== src/Server/Subscribers/Delivery.antt =====
-- What the fan-out of a batch does to each connection and to the delivery log.
use whdr.Common.{
  ℕ, ◌⊎◌, ◌↔◌, subst, sym, any, split, Bool-cases, ◌≡◌, refl, ap, ◌∙◌, List, [], ◌∷◌, map, Option,
  none, some, true, false, Text, nat_eq, text_eq, arith, inl, inr, Option-cases,
}
use whdr.Proto.Channel.{Pattern, pattern_matches}
use whdr.Proto.Channel.Grammar.{IsChannel, IsPattern}
use whdr.Proto.Channel.Matching.{Matches, pattern_matches_iff}
use whdr.Proto.Messages.{SubServerMsg}
use whdr.Server.OutboundQueue.{push_event}
use whdr.Server.DeliveryLog.{StampedEvent}
use whdr.Server.Subscribers.{
  Subscriber, Subscribers, event_msg, is_match, push_matching, push_frames,
}

-- One of the patterns is valid, and its tokens match those of the channel.
abbrev pub IsWanted : List Pattern → (channel : Text) → Type 0
IsWanted [] channel = ⊥
IsWanted (pattern ∷ patterns) channel =
    (IsPattern pattern.text × Matches (split b'.' pattern.text) (split b'.' channel))
    ⊎ IsWanted patterns channel

any-IsWanted :
    (patterns : List Pattern) (channel : Text)
    → (any (λ pattern. pattern_matches pattern.text channel) patterns ≡ true)
      ↔ (IsChannel channel × IsWanted patterns channel)
any-IsWanted [] channel = ground arith
any-IsWanted (pattern ∷ patterns) channel =
    ground (arith, pattern_matches_iff pattern.text channel, any-IsWanted patterns channel)

is_match-IsWanted :
    (s : Subscriber) (channel : Text)
    → (is_match s channel ≡ true) ↔ (IsChannel channel × IsWanted s.patterns channel)
is_match-IsWanted s channel = any-IsWanted s.patterns channel

module _ (encode : SubServerMsg → Option Text) where
  -- One connection's share of the fan-out: the frames on its patterns, in order.
  pub receive_frames : List StampedEvent → Subscriber → Subscriber
  receive_frames [] s = s
  receive_frames (frame ∷ frames) s =
      let rest = receive_frames frames s in
      elim (encode (event_msg frame)) [
        | none ↦ rest
        | some text ↦ elim (is_match s frame.channel) [
          | false ↦ rest
          | true ↦ receive_frames frames (record s { queue = push_event s.queue text })
        ]
      ]

  -- What a connection gets of the frames, one after another: those on a valid channel that it wants are
  -- pushed to its queue, and the others, and those without a text, change nothing.
  pub data Receives : List StampedEvent → Subscriber → Subscriber → Type 0 where
    all_received : {s : Subscriber} → Receives [] s s
    without_text :
        {frame : StampedEvent} {frames : List StampedEvent} {s s' : Subscriber}
        → encode (event_msg frame) ≡ none
        → Receives frames s s'
        → Receives (frame ∷ frames) s s'
    unwanted :
        {frame : StampedEvent} {frames : List StampedEvent} {s s' : Subscriber}
        → ¬ (IsChannel frame.channel × IsWanted s.patterns frame.channel)
        → Receives frames s s'
        → Receives (frame ∷ frames) s s'
    pushed :
        {frame : StampedEvent} {frames : List StampedEvent} {s s' : Subscriber} (text : Text)
        → encode (event_msg frame) ≡ some text
        → IsChannel frame.channel
        → IsWanted s.patterns frame.channel
        → Receives frames (record s { queue = push_event s.queue text }) s'
        → Receives (frame ∷ frames) s s'

  -- Each connection gets its share, under its id and in its place.
  pub data EachReceives (frames : List StampedEvent) : (before after : Subscribers) → Type 0 where
    no_more : EachReceives frames [] []
    connection :
        {id : ℕ} {s s' : Subscriber} {before after : Subscribers}
        → Receives frames s s'
        → EachReceives frames before after
        → EachReceives frames ((id, s) ∷ before) ((id, s') ∷ after)

  receive_frames-Receives :
      (frames : List StampedEvent) (s : Subscriber) → Receives frames s (receive_frames frames s)
  unfolding receive_frames
  receive_frames-Receives [] s = all_received
  receive_frames-Receives (frame ∷ frames) s = elim (Option-cases (encode (event_msg frame))) [
    | inl e ↦ without_text e (rw (receive_frames, e) (receive_frames-Receives frames s))
    | inr (text, e) ↦ elim (Bool-cases (is_match s frame.channel)) [
      | inl wanted ↦
          let (valid, w) = (is_match-IsWanted s frame.channel).0 wanted in
          pushed text e valid w (
            rw (receive_frames, e, wanted)
              (receive_frames-Receives frames (record s { queue = push_event s.queue text })))
      | inr other ↦
          unwanted (λ w. let yes = (is_match-IsWanted s frame.channel).1 w in cc)
            (rw (receive_frames, e, other) (receive_frames-Receives frames s))
    ]
  ]

  abbrev pub each : (Subscriber → Subscriber) → Subscribers → Subscribers
  each f subscribers = map (λ entry. (entry.0, f entry.1)) subscribers

  each_same : (subscribers : Subscribers) → subscribers ≡ each (λ s. s) subscribers
  each_same [] = refl
  each_same (s ∷ subscribers) = ap (λ t. s ∷ t) (each_same subscribers)

  each-push_matching :
      (frame : StampedEvent) (frames : List StampedEvent) (text : Text) (subscribers : Subscribers)
      → encode (event_msg frame) ≡ some text
      → each (receive_frames frames) (push_matching frame.channel text subscribers)
        ≡ each (receive_frames (frame ∷ frames)) subscribers
  unfolding push_matching receive_frames
  each-push_matching frame frames text [] e = refl
  each-push_matching frame frames text ((id, s) ∷ subscribers) e =
      ground (arith, e, each-push_matching frame frames text subscribers e)

  each_skip :
      (frame : StampedEvent) (frames : List StampedEvent) (subscribers : Subscribers)
      → encode (event_msg frame) ≡ none
      → each (receive_frames frames) subscribers
        ≡ each (receive_frames (frame ∷ frames)) subscribers
  unfolding receive_frames
  each_skip frame frames [] e = refl
  each_skip frame frames ((id, s) ∷ subscribers) e =
      ground (arith, e, each_skip frame frames subscribers e)

  pub push_frames-each :
      (frames : List StampedEvent) (subscribers : Subscribers)
      → push_frames encode frames subscribers ≡ each (receive_frames frames) subscribers
  unfolding push_frames receive_frames
  push_frames-each [] subscribers = each_same subscribers
  push_frames-each (frame ∷ frames) subscribers = elim (Option-cases (encode (event_msg frame))) [
    | inl e ↦
        rw (e, push_frames)
          (push_frames-each frames subscribers ∙ each_skip frame frames subscribers e)
    | inr (text, e) ↦
        rw (e, push_frames)
          (push_frames-each frames (push_matching frame.channel text subscribers)
            ∙ each-push_matching frame frames text subscribers e)
  ]

  each-EachReceives :
      (frames : List StampedEvent) (subscribers : Subscribers)
      → EachReceives frames subscribers (each (receive_frames frames) subscribers)
  each-EachReceives frames [] = no_more
  each-EachReceives frames ((id, s) ∷ subscribers) =
      connection (receive_frames-Receives frames s) (each-EachReceives frames subscribers)

  pub push_frames-EachReceives :
      (frames : List StampedEvent) (subscribers : Subscribers)
      → EachReceives frames subscribers (push_frames encode frames subscribers)
  push_frames-EachReceives frames subscribers =
      subst (EachReceives frames subscribers) (sym (push_frames-each frames subscribers))
        (each-EachReceives frames subscribers)
