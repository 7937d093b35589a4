-- ===== src/Server/SubscriberWs/Socket/Silent.antt =====
-- crates/whdr-server/src/subscriber_ws.rs: a peer that answers no ping.
use whdr.Common.{
  ℕ, nat_eq, ◌≤◌, ◌≡◌, refl, subst, List, [], none, Bool, true, false, Text, arith, All, Bool-cases,
  get, UniqueKeys, insert-UniqueKeys, if◌then◌else◌,
}
use whdr.Proto.Messages.{SubServerMsg}
use whdr.Server.Config.{LimitsConfig}
use whdr.Server.OutboundQueue
use whdr.Server.OutboundQueue.{Frame, OutboundQueue, pop, take_pending_lag}
use whdr.Server.DeliveryLog.Storage.{Store}
use whdr.Server.Subscribers.{SubscriberRegistry, insert_subscriber}
use whdr.Server.SubscriberWs.Socket.Same.{
  is_pong, Same, taken-Same, on_frame-Same, on_changed-Same, on_incoming-Same,
}
use whdr.Server.SubscriberWs.Socket.Ending.{
  IsStep, IsOver, total, socket_loop-IsOver, finish-IsOver,
}
use whdr.Server.SubscriberWs.Socket.{
  Wire, on_tick, waits_for_pong, encoded, text, ping, Ready, tick, frame, changed, incoming, Turn,
  Socket, and_then, taken, select, socket_loop, subscriber_socket,
}

module _ (store : Store) where
  abbrev pub has_pong : Ready store → Bool
  has_pong (incoming fault later message) = is_pong message
  has_pong _ = false

  abbrev pub tick_count : Ready store → ℕ
  tick_count tick = 1
  tick_count _ = 0

  -- What a step of another task does to the registry leaves one connection under each id.
  abbrev pub KeepsIds : Turn store → Type 0
  KeepsIds turn =
      (r : SubscriberRegistry store)
      → UniqueKeys r.subscribers
      → UniqueKeys (turn.meanwhile r).subscribers

  abbrev pub IsSilent : Turn store → Type 0
  IsSilent turn = KeepsIds turn × (has_pong turn.ready ≡ false)

  abbrev OneEach : Socket store → Type 0
  OneEach s = UniqueKeys s.registry.subscribers

abbrev ticks_needed : (awaiting_pong : Bool) → ℕ
ticks_needed awaiting_pong = if awaiting_pong then 1 else 2

module _ (store : Store) (wire : Wire) where
  -- A branch that does not end the loop has used its tick.
  abbrev IsTickStep : Ready store → Socket store → Socket store × Bool → Type 0
  IsTickStep = IsStep store wire (OneEach store) ticks_needed (tick_count store)

  IsTickStep-of_Same :
      (ready : Ready store) (s : Socket store) (r : Socket store × Bool)
      → tick_count store ready ≡ 0
      → OneEach store s
      → Same store s r.0
      → IsTickStep ready s r
  IsTickStep-of_Same ready s r z u a = record {
    same_id = a.same_id;
    invariant = a.keeps.unique u;
    used = λ h. rw (z, a.same_wait) (omega arith);
  }

  ping-IsTickStep :
      (b : Bool) (s : Socket store)
      → OneEach store s
      → s.awaiting_pong ≡ false
      → IsTickStep tick s
          (and_then store wire (taken store wire b (ping []) s) (waits_for_pong store wire))
  ping-IsTickStep true s u h = record { same_id = refl; invariant = u; used = λ e. rw h refl }
  ping-IsTickStep false s u h = record { same_id = refl; invariant = u; used = λ e. absurd cc }

  on_tick-IsTickStep :
      (b : Bool) (s : Socket store)
      → OneEach store s
      → s.awaiting_pong ≡ b
      → IsTickStep tick s (on_tick store wire b s)
  on_tick-IsTickStep true s u h = record { same_id = refl; invariant = u; used = λ e. absurd cc }
  on_tick-IsTickStep false s u h = ping-IsTickStep (wire.accepts s.tries) s u h

  select-IsTickStep :
      (ready : Ready store) (s : Socket store)
      → has_pong store ready ≡ false
      → OneEach store s
      → IsTickStep ready s (select store wire ready s)
  unfolding select
  select-IsTickStep tick s h u = on_tick-IsTickStep s.awaiting_pong s u refl
  select-IsTickStep frame s h u =
      IsTickStep-of_Same frame s (select store wire frame s) refl u
        (on_frame-Same store wire (get s.registry.subscribers s.id) s)
  select-IsTickStep changed s h u =
      IsTickStep-of_Same changed s (select store wire changed s) refl u
        (on_changed-Same store wire (get s.registry.subscribers s.id) s)
  select-IsTickStep (incoming fault later message) s h u =
      IsTickStep-of_Same (incoming fault later message) s
        (select store wire (incoming fault later message) s) refl u
        (on_incoming-Same store wire fault later message s h)

  abbrev pub ticks : List (Turn store) → ℕ
  ticks = total store wire (OneEach store) ticks_needed (tick_count store)

-- A peer that answers no ping is disconnected: where the turns of its socket hold two ticks of the ping
-- timer and no pong, whatever else is ready in them and whatever the other tasks do in between, as long
-- as those leave one connection under each id, the loop has ended before the turns are over and the
-- connection is out of the registry.
pub silent_peer_leaves :
    (store : Store) (wire : Wire) (limits : LimitsConfig) (r : SubscriberRegistry store)
    (name : Text) (turns : List (Turn store))
    → UniqueKeys r.subscribers
    → All (IsSilent store) turns
    → 2 ≤ ticks store wire turns
    → let (s, goes_on) = subscriber_socket store wire limits r name turns in
      (goes_on ≡ false) × (get s.registry.subscribers r.next_id ≡ none)
unfolding subscriber_socket insert_subscriber
silent_peer_leaves store wire limits r name turns u k n =
    let (r', id) = insert_subscriber store r (record {
      name = name;
      remote_addr = none;
      queue = OutboundQueue.new limits.sub_queue_len limits.sub_queue_bytes;
    }) in
    let start : Socket store = record {
      registry = r';
      id = id;
      awaiting_pong = false;
      tries = 0;
      sent = [];
    } in
    let welcome = text (encoded store wire (SubServerMsg.welcome name)) in
    let s = (taken store wire (wire.accepts 0) welcome start).0 in
    let same = taken-Same store wire (wire.accepts 0) welcome start in
    finish-IsOver store wire r.next_id (socket_loop store wire turns s) (
      subst (λ i. IsOver store wire i (socket_loop store wire turns s)) same.same_id
        (socket_loop-IsOver store wire (OneEach store) ticks_needed (tick_count store)
          (IsSilent store) (λ b. ground (arith, Bool-cases b)) (λ s u. u)
          (λ turn s a u. a.0 s.registry u)
          (λ turn s a u. select-IsTickStep store wire turn.ready s a.1 u) turns s k
          (same.keeps.unique (insert-UniqueKeys r.subscribers r.next_id _ u))
          (rw same.same_wait n)))
