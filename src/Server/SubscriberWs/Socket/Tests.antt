-- ===== src/Server/SubscriberWs/Socket/Tests.antt =====
-- A connection that is told of its drops, then of its end, one that answers no ping, and the theorems.
use whdr.Common.{
  ℕ, arith, fetch_add, Bool, ltb, ◌≡◌, refl, List, [], ◌∷◌, Option, none, some, true, false, Text,
  codes, ok, nat_eq, get, strip_prefix,
}
use whdr.Proto.Channel.{ChannelError}
use whdr.Proto.Messages.{SubServerMsg, SubClientMsg, ClosingReason}
use whdr.Server.Config.{default_limits}
use whdr.Server.DeliveryLog.Examples.{after_one}
use whdr.Server.DeliveryLog.ListStore.{list_store}
use whdr.Server.OutboundQueue.{pop, take_pending_lag, push_event, evict, over_budget}
use whdr.Server.OutboundQueue
use whdr.Server.Subscribers.{Subscribers, insert_subscriber, remove_subscriber, close_all, new}
use whdr.Server.Tokens.{TokenStore, authenticate}
use whdr.Server.SubscriberWs.Socket.{
  Wire, text, ping, pong, Ready, tick, frame, changed, incoming, Turn, Socket, select, socket_loop,
  subscriber_socket, admitted, finish,
}
use whdr.Server.SubscriberWs.Socket.Silent.{silent_peer_leaves}
use whdr.Server.SubscriberWs.Socket.Told.{told_connection_leaves}

abbrev encode : SubServerMsg → Option Text
encode (SubServerMsg.welcome name) = some (codes "welcome")
encode (SubServerMsg.lagged dropped) = some (codes "lagged")
encode (SubServerMsg.closing reason) = some (codes "closing")
encode _ = none

abbrev error_text : ChannelError → Text
error_text e = []

abbrev decode : Text → Option SubClientMsg
decode t = none

-- Two events for every connection, of which a queue holds one.
abbrev two_events : Subscribers → Subscribers
two_events [] = []
two_events ((id, s) ∷ rest) =
    (id, record s { queue = push_event (push_event s.queue (codes "a")) (codes "b") })
    ∷ two_events rest

abbrev tokens : TokenStore
tokens = (codes "p", record { hash = codes "old"; created = [] }) ∷ []

abbrev turn : Ready list_store → Turn list_store
turn ready = record { meanwhile = λ r. r; ready = ready }

abbrev silent : List (Turn list_store)
silent = turn tick ∷ turn frame ∷ turn tick ∷ turn frame ∷ []

abbrev told : List (Turn list_store)
told =
    record { meanwhile = λ r. record r { subscribers = two_events r.subscribers }; ready = frame }
    ∷ record { meanwhile = λ r. close_all list_store r ClosingReason.shutdown; ready = changed }
    ∷ []

abbrev wire : (accepts : ℕ → Bool) → Wire
wire accepts = record {
  encode = encode;
  decode = decode;
  error_text = error_text;
  accepts = accepts;
}

abbrev run : (accepts : ℕ → Bool) → List (Turn list_store) → Socket list_store × Bool
run accepts turns =
    subscriber_socket list_store (wire accepts) (record default_limits { sub_queue_len = 1 })
      (new list_store) (codes "p") turns

all_of : ℕ → Bool
all_of n = true

first_only : ℕ → Bool
first_only n = ltb n 1

-- The drops are told before the next event, a reason to close ends the connection, so does a failed
-- send, and a pong is waited for.
runs :
    ((run all_of told).0.sent
      ≡ text (codes "welcome")
        ∷ text (codes "lagged")
        ∷ text (codes "b")
        ∷ text (codes "closing")
        ∷ [])
    × ((run all_of told).1 ≡ false)
    × ((run first_only told).0.sent ≡ text (codes "welcome") ∷ [])
    × ((run first_only told).1 ≡ false)
    × ((run all_of silent).0.sent ≡ text (codes "welcome") ∷ ping [] ∷ [])
    × ((run all_of silent).1 ≡ false)
    × ((run all_of
          (turn tick ∷ turn (incoming false after_one (some (ok (pong [])))) ∷ turn tick ∷ [])).1
        ≡ true)
unfolding select socket_loop subscriber_socket insert_subscriber remove_subscriber new close_all pop
    take_pending_lag push_event evict over_budget OutboundQueue.new fetch_add all_of first_only
runs = (refl, refl, refl, refl, refl, refl, refl)

admitted_tests :
    (admitted (λ t. t) tokens (some (codes "Bearer old")) ≡ some (codes "p"))
    × (admitted (λ t. t) tokens (some (codes "bearer old")) ≡ none)
    × (admitted (λ t. t) tokens (some (codes "Bearer new")) ≡ none)
    × (admitted (λ t. t) tokens none ≡ none)
unfolding admitted authenticate strip_prefix
admitted_tests = (refl, refl, refl, refl)

silent_peer_leaves_example :
    ((run all_of silent).1 ≡ false) × (get (run all_of silent).0.registry.subscribers 1 ≡ none)
unfolding new
silent_peer_leaves_example =
    silent_peer_leaves list_store (wire all_of) (record default_limits { sub_queue_len = 1 })
      (new list_store) (codes "p") silent tt
      (((λ r u. u), refl), (((λ r u. u), refl), (((λ r u. u), refl), (((λ r u. u), refl), tt))))
      (omega arith)

-- A connection whose token was revoked before the loop sees it.
abbrev revoked : Socket list_store
revoked = record {
  registry = record (new list_store) {
    subscribers =
        (
          1,
          record {
            name = codes "p";
            remote_addr = none;
            patterns = [];
            queue = OutboundQueue.new 4 100;
            close = some ClosingReason.revoked;
          },
        )
        ∷ [];
  };
  id = 1;
  awaiting_pong = false;
  tries = 0;
  sent = [];
}

abbrev seen : List (Turn list_store)
seen = turn tick ∷ turn changed ∷ turn frame ∷ []

told_connection_leaves_example :
    ((finish list_store (wire all_of) (socket_loop list_store (wire all_of) seen revoked)).1
      ≡ false)
    × (get
          (finish list_store
            (wire all_of)
            (socket_loop list_store (wire all_of) seen revoked)).0.registry.subscribers
          1
        ≡ none)
told_connection_leaves_example =
    told_connection_leaves list_store (wire all_of) revoked seen ((refl, tt), refl)
      ((λ r t. t), ((λ r t. t), ((λ r t. t), tt))) (omega arith)
