-- ===== src/Server/SubscriberWs/Socket.antt =====
-- crates/whdr-server/src/subscriber_ws.rs: subscribe_handler and subscriber_socket. A turn of the loop
-- says what other tasks do to the registry before it and which branch of select is ready. The queue of
-- the connection stands in the registry under its id, which only the connection itself takes out.
pub mod Same
pub mod Ending
pub mod Silent
pub mod Told
mod Tests
use whdr.Common.{
  ℕ, ◌+◌, List, [], ◌∷◌, ◌++◌, Option, none, some, Bool, true, false, not, Text, codes, Result, ok,
  err, nat_eq, if◌then◌else◌, strip_prefix, get, update,
}
use whdr.Proto.Channel.{ChannelError}
use whdr.Proto.Messages.{SubServerMsg, SubClientMsg, ClosingReason}
use whdr.Server.Config.{LimitsConfig}
use whdr.Server.OutboundQueue.{Frame, OutboundQueue, pop, take_pending_lag}
use whdr.Server.OutboundQueue
use whdr.Server.DeliveryLog.Storage.{Store}
use whdr.Server.DeliveryLog.{Shared, LogError}
use whdr.Server.Subscribers.{Subscriber, SubscriberRegistry, insert_subscriber, remove_subscriber}
use whdr.Server.SubscriberWs.{handle_subscriber_text}
use whdr.Server.Tokens.{TokenStore, authenticate}

-- The token of the header, where that is a text; `none` is the answer 401.
unfoldable pub admitted :
    (hash_token : Text → Text) → TokenStore → (authorization : Option Text) → Option Text
admitted hash_token tokens none = none
admitted hash_token tokens (some value) = elim (strip_prefix (codes "Bearer ") value) [
  | none ↦ none
  | some token ↦ authenticate hash_token tokens token
]

pub data Message : Type 0 where
  text ping pong : Text → Message
  close binary : Message

-- The messages as texts, and whether the n-th send works.
pub record Wire : Type 0 where
  pub encode : SubServerMsg → Option Text
  pub decode : Text → Option SubClientMsg
  pub error_text : ChannelError → Text
  pub accepts : ℕ → Bool

module _ (store : Store) where
  -- `tries` is how many messages were given to the sink, `sent` those that it has accepted.
  pub record Socket : Type 0 where
    pub registry : SubscriberRegistry store
    pub id : ℕ
    pub awaiting_pong : Bool
    pub tries : ℕ
    pub sent : List Message

  -- `later` is the log when the rows of a replay are read, `fault` whether that fails; an incoming
  -- message is `none` at the end of the stream.
  pub data Ready : Type 0 where
    tick frame changed : Ready
    incoming : (fault : Bool) (later : Shared store) → Option (Result Message (Unit {0})) → Ready

  pub record Turn : Type 0 where
    pub meanwhile : SubscriberRegistry store → SubscriberRegistry store
    pub ready : Ready

module _ (store : Store) (wire : Wire) where
  -- With each step, whether the loop goes on.
  abbrev pub and_then :
      Socket store × Bool → (Socket store → Socket store × Bool) → Socket store × Bool
  and_then (s, true) f = f s
  and_then (s, false) f = (s, false)

  abbrev pub taken : Bool → Message → Socket store → Socket store × Bool
  taken true message s = (record s { tries = s.tries + 1; sent = s.sent ++ message ∷ [] }, true)
  taken false message s = (record s { tries = s.tries + 1 }, false)

  abbrev pub send : Message → Socket store → Socket store × Bool
  send message s = taken (wire.accepts s.tries) message s

  abbrev pub encoded : SubServerMsg → Text
  encoded msg = elim (wire.encode msg) [ none ↦ [] | some t ↦ t ]

  abbrev pub waits_for_pong : Socket store → Socket store × Bool
  waits_for_pong s = (record s { awaiting_pong = true }, true)

  abbrev pub on_tick : (awaiting_pong : Bool) → Socket store → Socket store × Bool
  on_tick true s = (s, false)
  on_tick false s = and_then (send (ping []) s) waits_for_pong

  abbrev pub with_queue : Socket store → OutboundQueue → Socket store
  with_queue s q = record s {
    registry = record s.registry {
      subscribers = update (λ c. record c { queue = q }) s.registry.subscribers s.id;
    };
  }

  abbrev pub send_lag : Option ℕ → Socket store → Socket store × Bool
  send_lag none s = (s, true)
  send_lag (some dropped) s = send (text (encoded (SubServerMsg.lagged dropped))) s

  abbrev pub send_frame : Frame → Socket store → Socket store × Bool
  send_frame popped s = and_then (send (text popped.text) s) (λ s. (s, not popped.closing))

  abbrev pub send_popped : OutboundQueue → Option Frame → Socket store → Socket store × Bool
  send_popped q none s = (s, true)
  send_popped q (some popped) s =
      let (q', lag) = take_pending_lag q in
      and_then (send_lag lag (with_queue s q')) (send_frame popped)

  -- On the empty queue `pop` waits.
  abbrev pub on_frame : Option Subscriber → Socket store → Socket store × Bool
  on_frame none s = (s, true)
  on_frame (some c) s = send_popped (pop c.queue).0 (pop c.queue).1 s

  abbrev pub tell_closing : Option Text → Socket store → Socket store
  tell_closing none s = s
  tell_closing (some closing) s = (send (text closing) s).0

  abbrev pub closed_for : Option ClosingReason → Socket store → Socket store × Bool
  closed_for none s = (s, true)
  closed_for (some reason) s = (tell_closing (wire.encode (SubServerMsg.closing reason)) s, false)

  abbrev pub on_changed : Option Subscriber → Socket store → Socket store × Bool
  on_changed none s = (s, false)
  on_changed (some c) s = closed_for c.close s

  abbrev pub send_all : List Text → Socket store → Socket store × Bool
  send_all [] s = (s, true)
  send_all (f ∷ frames) s = and_then (send (text f) s) (send_all frames)

  abbrev pub answered : Result (List Text) LogError → Socket store → Socket store × Bool
  answered (err e) s = (s, false)
  answered (ok frames) s = send_all frames s

  abbrev pub on_text : Bool → Shared store → Text → Socket store → Socket store × Bool
  on_text fault later t s =
      let (r, answer) =
        handle_subscriber_text store wire.encode wire.error_text wire.decode fault s.registry later
          s.id t in
      answered answer (record s { registry = r })

  abbrev pub on_incoming :
      Bool → Shared store → Option (Result Message (Unit {0})) → Socket store → Socket store × Bool
  on_incoming fault later none s = (s, false)
  on_incoming fault later (some (err e)) s = (s, false)
  on_incoming fault later (some (ok (text t))) s = on_text fault later t s
  on_incoming fault later (some (ok (ping payload))) s = ((send (pong payload) s).0, true)
  on_incoming fault later (some (ok (pong payload))) s = (record s { awaiting_pong = false }, true)
  on_incoming fault later (some (ok close)) s = (s, false)
  on_incoming fault later (some (ok binary)) s = (s, true)

  unfoldable pub select : Ready store → Socket store → Socket store × Bool
  select tick s = on_tick s.awaiting_pong s
  select frame s = on_frame (get s.registry.subscribers s.id) s
  select changed s = on_changed (get s.registry.subscribers s.id) s
  select (incoming fault later message) s = on_incoming fault later message s

  unfoldable pub socket_loop : List (Turn store) → Socket store → Socket store × Bool
  socket_loop [] s = (s, true)
  socket_loop (turn ∷ turns) s =
      and_then (select turn.ready (record s { registry = turn.meanwhile s.registry }))
        (socket_loop turns)

  abbrev pub finish : Socket store × Bool → Socket store × Bool
  finish (s, true) = (s, true)
  finish (s, false) = (record s { registry = remove_subscriber store s.registry s.id }, false)

  -- Whether the connection is still open after the turns.
  unfoldable pub subscriber_socket :
      LimitsConfig
      → SubscriberRegistry store
      → (name : Text) → List (Turn store)
      → Socket store × Bool
  subscriber_socket limits r name turns =
      let (r', id) = insert_subscriber store r (record {
        name = name;
        remote_addr = none;
        queue = OutboundQueue.new limits.sub_queue_len limits.sub_queue_bytes;
      }) in
      let s : Socket store = record {
        registry = r';
        id = id;
        awaiting_pong = false;
        tries = 0;
        sent = [];
      } in
      finish (socket_loop turns (send (text (encoded (SubServerMsg.welcome name))) s).0)
