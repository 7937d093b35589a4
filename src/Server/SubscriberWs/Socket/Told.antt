-- ===== src/Server/SubscriberWs/Socket/Told.antt =====
-- crates/whdr-server/src/subscriber_ws.rs: a connection that was told to close.
use whdr.Common.{
  ℕ, nat_eq, ◌≤◌, ◌≡◌, refl, sym, ap, ◌∙◌, List, [], Option, none, some, Bool, true, false, Result,
  ok, err, arith, All, get, UniqueKeys, is_some,
}
use whdr.Proto.Messages.{ClosingReason}
use whdr.Server.DeliveryLog.Storage.{Store}
use whdr.Server.DeliveryLog.{Shared}
use whdr.Server.Subscribers.{Subscriber, SubscriberRegistry}
use whdr.Server.SubscriberWs.Socket.{
  Wire, Message, text, ping, pong, close, binary, Ready, tick, frame, changed, incoming, Turn,
  Socket, and_then, taken, waits_for_pong, on_tick, closed_for, on_changed, on_incoming, finish,
  select, socket_loop,
}
use whdr.Server.SubscriberWs.Socket.Same.{
  close_in, Keeps, Same, on_frame-Same, on_changed-Same, on_incoming-Same,
}
use whdr.Server.SubscriberWs.Socket.Ending.{IsStep, total, socket_loop-IsOver, finish-IsOver}

module _ (store : Store) where
  -- One connection stands under each id, and the one under `id` was told to close.
  abbrev pub IsTold : ℕ → SubscriberRegistry store → Type 0
  IsTold id r = UniqueKeys r.subscribers × (is_some (close_in (get r.subscribers id)) ≡ true)

  -- What a step of another task does to the registry keeps that.
  abbrev pub KeepsTold : ℕ → Turn store → Type 0
  KeepsTold id turn = (r : SubscriberRegistry store) → IsTold id r → IsTold id (turn.meanwhile r)

  abbrev change_count : Ready store → ℕ
  change_count changed = 1
  change_count _ = 0

  abbrev Told : ℕ → Socket store → Type 0
  Told id s = (s.id ≡ id) × IsTold id s.registry

abbrev one_needed : (awaiting_pong : Bool) → ℕ
one_needed awaiting_pong = 1

module _ (store : Store) (wire : Wire) (id : ℕ) where
  abbrev IsTellStep : Ready store → Socket store → Socket store × Bool → Type 0
  IsTellStep = IsStep store wire (Told store id) one_needed (change_count store)

  Keeps-Told :
      (s s' : Socket store)
      → s'.id ≡ s.id
      → Keeps s.registry.subscribers s'.registry.subscribers
      → Told store id s
      → Told store id s'
  Keeps-Told s s' same k (e, (u, told)) =
      (same ∙ e, (k.unique u, ap is_some (k.same_close id) ∙ told))

  IsTellStep-of_Same :
      (ready : Ready store) (s : Socket store) (r : Socket store × Bool)
      → change_count store ready ≡ 0
      → Told store id s
      → Same store s r.0
      → IsTellStep ready s r
  IsTellStep-of_Same ready s r z t a = record {
    same_id = a.same_id;
    invariant = Keeps-Told s r.0 a.same_id a.keeps t;
    used = λ h. rw z (omega arith);
  }

  ping-IsTellStep :
      (b : Bool) (s : Socket store)
      → Told store id s
      → IsTellStep tick s
          (and_then store wire (taken store wire b (ping []) s) (waits_for_pong store wire))
  ping-IsTellStep true s t = record { same_id = refl; invariant = t; used = λ e. refl }
  ping-IsTellStep false s t = record { same_id = refl; invariant = t; used = λ e. refl }

  on_tick-IsTellStep :
      (b : Bool) (s : Socket store) → Told store id s → IsTellStep tick s (on_tick store wire b s)
  on_tick-IsTellStep true s t = record { same_id = refl; invariant = t; used = λ e. absurd cc }
  on_tick-IsTellStep false s t = ping-IsTellStep (wire.accepts s.tries) s t

  on_changed_ends :
      (c : Option Subscriber) (s : Socket store)
      → is_some (close_in c) ≡ true
      → (on_changed store wire c s).1 ≡ false
  on_changed_ends none s h = refl
  on_changed_ends (some c) s h = closed_for_ends c.close h
    where
      closed_for_ends :
          (reason : Option ClosingReason)
          → is_some reason ≡ true
          → (closed_for store wire reason s).1 ≡ false
      closed_for_ends none h = absurd cc
      closed_for_ends (some reason) h = refl

  on_incoming-IsTellStep :
      (fault : Bool) (later : Shared store) (message : Option (Result Message (Unit {0})))
      (s : Socket store)
      → Told store id s
      → IsTellStep (incoming fault later message) s (on_incoming store wire fault later message s)
  on_incoming-IsTellStep fault later (some (ok (pong payload))) s t = record {
    same_id = refl;
    invariant = t;
    used = λ e. refl;
  }
  on_incoming-IsTellStep fault later (some (ok (text words))) s t =
      IsTellStep-of_Same (incoming fault later (some (ok (text words)))) s
        (on_incoming store wire fault later (some (ok (text words))) s) refl t
        (on_incoming-Same store wire fault later (some (ok (text words))) s refl)
  on_incoming-IsTellStep fault later (some (ok (ping payload))) s t =
      IsTellStep-of_Same (incoming fault later (some (ok (ping payload)))) s
        (on_incoming store wire fault later (some (ok (ping payload))) s) refl t
        (on_incoming-Same store wire fault later (some (ok (ping payload))) s refl)
  on_incoming-IsTellStep fault later (some (ok binary)) s t = record {
    same_id = refl;
    invariant = t;
    used = λ e. refl;
  }
  on_incoming-IsTellStep fault later (some (ok close)) s t = record {
    same_id = refl;
    invariant = t;
    used = λ e. refl;
  }
  on_incoming-IsTellStep fault later (some (err e)) s t = record {
    same_id = refl;
    invariant = t;
    used = λ e. refl;
  }
  on_incoming-IsTellStep fault later none s t = record {
    same_id = refl;
    invariant = t;
    used = λ e. refl;
  }

  select-IsTellStep :
      (ready : Ready store) (s : Socket store)
      → Told store id s
      → IsTellStep ready s (select store wire ready s)
  unfolding select
  select-IsTellStep tick s t = on_tick-IsTellStep s.awaiting_pong s t
  select-IsTellStep frame s t =
      IsTellStep-of_Same frame s (select store wire frame s) refl t
        (on_frame-Same store wire (get s.registry.subscribers s.id) s)
  select-IsTellStep changed s t =
      let c = get s.registry.subscribers s.id in
      let a = on_changed-Same store wire c s in
      record {
        same_id = a.same_id;
        invariant = Keeps-Told s (on_changed store wire c s).0 a.same_id a.keeps t;
        used = λ h.
            let ends =
              on_changed_ends c s
                (ap (λ i. is_some (close_in (get s.registry.subscribers i))) t.0 ∙ t.1.1) in
            absurd (let e = sym h ∙ ends in cc);
      }
  select-IsTellStep (incoming fault later message) s t =
      on_incoming-IsTellStep fault later message s t

  abbrev pub changes : List (Turn store) → ℕ
  changes = total store wire (Told store id) one_needed (change_count store)

-- A connection that was told to close, as those of a revoked or rotated token are, leaves: where the
-- turns of its socket hold one in which it sees the change, whatever else is ready in them and whatever
-- the other tasks do in between, as long as those take nothing back of what it was told, the loop has
-- ended before the turns are over and the connection is out of the registry.
pub told_connection_leaves :
    (store : Store) (wire : Wire) (s : Socket store) (turns : List (Turn store))
    → IsTold store s.id s.registry
    → All (KeepsTold store s.id) turns
    → 1 ≤ changes store wire s.id turns
    → let (s', goes_on) = finish store wire (socket_loop store wire turns s) in
      (goes_on ≡ false) × (get s'.registry.subscribers s.id ≡ none)
told_connection_leaves store wire s turns told k n =
    finish-IsOver store wire s.id (socket_loop store wire turns s) (
      socket_loop-IsOver store wire (Told store s.id) one_needed (change_count store)
        (KeepsTold store s.id) (λ b. omega arith) (λ s t. t.1.0)
        (λ turn s a t. (t.0, a s.registry t.1))
        (λ turn s a t. select-IsTellStep store wire _ turn.ready s t) turns s k (refl, told) n)
