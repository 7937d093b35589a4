-- ===== src/Server/SubscriberWs/Socket/Same.antt =====
-- crates/whdr-server/src/subscriber_ws.rs: what no branch of the loop but a tick and a pong changes.
use whdr.Common.{
  ℕ, nat_eq, ◌≡◌, refl, List, [], ◌∷◌, Option, none, some, Bool, true, false, not, Text, Result, ok,
  err, UniqueKeys, update-UniqueKeys, update, get, ==_iff, arith, ◌∙◌, ◌>>=◌,
}
use whdr.Proto.Channel.{ChannelError, Pattern}
use whdr.Proto.Messages.{SubServerMsg, SubClientMsg, ReplayRequest, ClosingReason}
use whdr.Server.OutboundQueue.{Frame, OutboundQueue, pop, take_pending_lag}
use whdr.Server.DeliveryLog.Storage.{Store}
use whdr.Server.DeliveryLog.{Shared, LogError}
use whdr.Server.Subscribers.{
  Subscriber, Subscribers, with_patterns, SubscriberRegistry, subscribe, unsubscribe,
  parse_patterns,
}
use whdr.Server.SubscriberWs.{
  handle_subscriber_text, handle_client_msg, handled, accepted, subscribed,
}
use whdr.Server.SubscriberWs.Socket.{
  Wire, Message, text, ping, pong, close, binary, Socket, and_then, taken, tell_closing, closed_for,
  answered, on_incoming, send, send_lag, send_frame, send_popped, send_all, on_text, with_queue,
  on_frame, on_changed,
}

abbrev pub is_pong : Option (Result Message (Unit {0})) → Bool
is_pong (some (ok (pong payload))) = true
is_pong _ = false

abbrev pub close_in : Option Subscriber → Option ClosingReason
close_in none = none
close_in (some c) = c.close

-- The connections stay one under each id, and what each was told stays.
pub record Keeps (m m' : Subscribers) : Type 0 where
  pub unique : UniqueKeys m → UniqueKeys m'
  pub same_close : (id : ℕ) → close_in (get m' id) ≡ close_in (get m id)

pub Keeps-refl : (m : Subscribers) → Keeps m m
Keeps-refl m = record { unique = λ u. u; same_close = λ id. refl }

Keeps-trans : (k l m : Subscribers) → Keeps k l → Keeps l m → Keeps k m
Keeps-trans k l m a b = record {
  unique = λ u. b.unique (a.unique u);
  same_close = λ id. b.same_close id ∙ a.same_close id;
}

close_in-update :
    (f : Subscriber → Subscriber) (m : Subscribers) (k id : ℕ)
    → ((c : Subscriber) → (f c).close ≡ c.close)
    → close_in (get (update f m k) id) ≡ close_in (get m id)
close_in-update f [] k id h = refl
close_in-update f ((j, c) ∷ m) k id h =
    ground (arith, close_in-update f m k id h, h c, ==_iff j k, ==_iff j id)

update-Keeps :
    (f : Subscriber → Subscriber) (m : Subscribers) (k : ℕ)
    → ((c : Subscriber) → (f c).close ≡ c.close)
    → Keeps m (update f m k)
update-Keeps f m k h = record {
  unique = update-UniqueKeys f m k;
  same_close = λ id. close_in-update f m k id h;
}

module _ (store : Store) where
  pub record Same (s s' : Socket store) : Type 0 where
    pub same_id : s'.id ≡ s.id
    pub same_wait : s'.awaiting_pong ≡ s.awaiting_pong
    pub keeps : Keeps s.registry.subscribers s'.registry.subscribers

  pub Same-refl : (s : Socket store) → Same s s
  Same-refl s = record {
    same_id = refl;
    same_wait = refl;
    keeps = Keeps-refl s.registry.subscribers;
  }

  pub Same-trans : (s t u : Socket store) → Same s t → Same t u → Same s u
  Same-trans s t u a b = record {
    same_id = b.same_id ∙ a.same_id;
    same_wait = b.same_wait ∙ a.same_wait;
    keeps = Keeps-trans _ _ _ a.keeps b.keeps;
  }

module _ (store : Store) (wire : Wire) where
  accepted-Keeps :
      (fault : Bool) (r : SubscriberRegistry store) (later : Shared store) (id : ℕ)
      (patterns : List Text) (request : Option ReplayRequest) (delivery : Option (Shared store))
      → Keeps r.subscribers
          (accepted store wire.encode wire.error_text fault r later id patterns request
            delivery).0.subscribers
  unfolding accepted
  accepted-Keeps fault r later id patterns none delivery = update-Keeps _ _ id (λ c. refl)
  accepted-Keeps fault r later id patterns (some request) none =
      Keeps-trans _ _ _ (update-Keeps _ _ id (λ c. refl)) (update-Keeps _ _ id (λ c. refl))
  accepted-Keeps fault r later id patterns (some request) (some log) = Keeps-refl r.subscribers

  subscribed-Keeps :
      (fault : Bool) (r : SubscriberRegistry store) (later : Shared store) (id : ℕ)
      (patterns : List Text) (request : Option ReplayRequest)
      (result : Result (List Pattern) ChannelError)
      → Keeps r.subscribers
          (subscribed store wire.encode wire.error_text fault r later id patterns request
            (result >>= λ parsed. ok (with_patterns store r id parsed))).0.subscribers
  subscribed-Keeps fault r later id patterns request (err e) = update-Keeps _ _ id (λ c. refl)
  subscribed-Keeps fault r later id patterns request (ok parsed) =
      Keeps-trans _ _ _ (update-Keeps _ _ id (λ c. refl)) (
        accepted-Keeps fault (with_patterns store r id parsed) later id patterns request r.delivery)

  handle_client_msg-Keeps :
      (fault : Bool) (r : SubscriberRegistry store) (later : Shared store) (id : ℕ)
      (msg : SubClientMsg)
      → Keeps r.subscribers
          (handle_client_msg store wire.encode wire.error_text fault r later id msg).0.subscribers
  unfolding handle_client_msg subscribe unsubscribe
  handle_client_msg-Keeps fault r later id (SubClientMsg.subscribe patterns request) =
      subscribed-Keeps fault r later id patterns request (parse_patterns patterns)
  handle_client_msg-Keeps fault r later id (SubClientMsg.unsubscribe patterns) =
      Keeps-trans _ _ _ (update-Keeps _ _ id (λ c. refl)) (update-Keeps _ _ id (λ c. refl))
  handle_client_msg-Keeps fault r later id SubClientMsg.ping = update-Keeps _ _ id (λ c. refl)

  answered_text-Keeps :
      (fault : Bool) (r : SubscriberRegistry store) (later : Shared store) (id : ℕ)
      (msg : Option SubClientMsg)
      → Keeps r.subscribers
          (handled store wire.encode wire.error_text fault r later id msg).0.subscribers
  answered_text-Keeps fault r later id none = Keeps-refl r.subscribers
  answered_text-Keeps fault r later id (some msg) = handle_client_msg-Keeps fault r later id msg

  pub taken-Same :
      (b : Bool) (message : Message) (s : Socket store)
      → Same store s (taken store wire b message s).0
  taken-Same true message s = record {
    same_id = refl;
    same_wait = refl;
    keeps = Keeps-refl s.registry.subscribers;
  }
  taken-Same false message s = record {
    same_id = refl;
    same_wait = refl;
    keeps = Keeps-refl s.registry.subscribers;
  }

  pub send-Same :
      (message : Message) (s : Socket store) → Same store s (send store wire message s).0
  send-Same message s = taken-Same (wire.accepts s.tries) message s

  pub and_then-Same :
      (s : Socket store) (r : Socket store × Bool) (f : Socket store → Socket store × Bool)
      → Same store s r.0
      → ((t : Socket store) → Same store t (f t).0)
      → Same store s (and_then store wire r f).0
  and_then-Same s (t, true) f a b = Same-trans store s t (f t).0 a (b t)
  and_then-Same s (t, false) f a b = a

  send_lag-Same : (lag : Option ℕ) (s : Socket store) → Same store s (send_lag store wire lag s).0
  send_lag-Same none s = Same-refl store s
  send_lag-Same (some dropped) s = send-Same _ s

  with_queue-Same :
      (s : Socket store) (q : OutboundQueue) → Same store s (with_queue store wire s q)
  with_queue-Same s q = record {
    same_id = refl;
    same_wait = refl;
    keeps = update-Keeps _ _ s.id (λ c. refl);
  }

  send_frame-Same :
      (popped : Frame) (s : Socket store) → Same store s (send_frame store wire popped s).0
  send_frame-Same popped s =
      and_then-Same s (send store wire (text popped.text) s) (λ s. (s, not popped.closing))
        (send-Same (text popped.text) s) (Same-refl store)

  send_popped-Same :
      (q : OutboundQueue) (popped : Option Frame) (s : Socket store)
      → Same store s (send_popped store wire q popped s).0
  send_popped-Same q none s = Same-refl store s
  send_popped-Same q (some popped) s =
      let (q', lag) = take_pending_lag q in
      let t = with_queue store wire s q' in
      let r = send_lag store wire lag t in
      Same-trans store s t (and_then store wire r (send_frame store wire popped)).0
        (with_queue-Same s q')
        (and_then-Same t r (send_frame store wire popped) (send_lag-Same lag t)
          (send_frame-Same popped))

  pub on_frame-Same :
      (c : Option Subscriber) (s : Socket store) → Same store s (on_frame store wire c s).0
  on_frame-Same none s = Same-refl store s
  on_frame-Same (some c) s = send_popped-Same (pop c.queue).0 (pop c.queue).1 s

  tell_closing-Same :
      (t : Option Text) (s : Socket store) → Same store s (tell_closing store wire t s)
  tell_closing-Same none s = Same-refl store s
  tell_closing-Same (some t) s = send-Same (text t) s

  closed_for-Same :
      (reason : Option ClosingReason) (s : Socket store)
      → Same store s (closed_for store wire reason s).0
  closed_for-Same none s = Same-refl store s
  closed_for-Same (some reason) s = tell_closing-Same (wire.encode (SubServerMsg.closing reason)) s

  pub on_changed-Same :
      (c : Option Subscriber) (s : Socket store) → Same store s (on_changed store wire c s).0
  on_changed-Same none s = Same-refl store s
  on_changed-Same (some c) s = closed_for-Same c.close s

  send_all-Same :
      (frames : List Text) (s : Socket store) → Same store s (send_all store wire frames s).0
  send_all-Same [] s = Same-refl store s
  send_all-Same (f ∷ frames) s = and_then-Same s _ _ (send-Same (text f) s) (send_all-Same frames)

  answered-Same :
      (answer : Result (List Text) LogError) (s : Socket store)
      → Same store s (answered store wire answer s).0
  answered-Same (err e) s = Same-refl store s
  answered-Same (ok frames) s = send_all-Same frames s

  -- All but a tick and a pong leave the wait for a pong as it is.
  on_text-Same :
      (fault : Bool) (later : Shared store) (t : Text) (s : Socket store)
      → Same store s (on_text store wire fault later t s).0
  unfolding handle_subscriber_text
  on_text-Same fault later t s =
      let (r, answer) =
        handled store wire.encode wire.error_text fault s.registry later s.id (wire.decode t) in
      let s' = record s { registry = r } in
      Same-trans store s s' (answered store wire answer s').0
        (record {
          same_id = refl;
          same_wait = refl;
          keeps = answered_text-Keeps fault s.registry later s.id (wire.decode t);
        })
        (answered-Same answer s')

  pub on_incoming-Same :
      (fault : Bool) (later : Shared store) (message : Option (Result Message (Unit {0})))
      (s : Socket store)
      → is_pong message ≡ false
      → Same store s (on_incoming store wire fault later message s).0
  on_incoming-Same fault later none s h = Same-refl store s
  on_incoming-Same fault later (some (err e)) s h = Same-refl store s
  on_incoming-Same fault later (some (ok (text t))) s h = on_text-Same fault later t s
  on_incoming-Same fault later (some (ok (ping payload))) s h = send-Same (pong payload) s
  on_incoming-Same fault later (some (ok (pong payload))) s h = absurd cc
  on_incoming-Same fault later (some (ok close)) s h = Same-refl store s
  on_incoming-Same fault later (some (ok binary)) s h = Same-refl store s
