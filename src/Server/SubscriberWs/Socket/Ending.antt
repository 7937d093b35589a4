-- ===== src/Server/SubscriberWs/Socket/Ending.antt =====
-- crates/whdr-server/src/subscriber_ws.rs: a loop whose turns use up what it needs to go on.
use whdr.Common.{
  ℕ, nat_eq, ◌+◌, ◌≤◌, ◌≡◌, refl, subst, List, [], ◌∷◌, none, Bool, true, false, arith, All, get,
  UniqueKeys, remove, get-remove,
}
use whdr.Server.DeliveryLog.Storage.{Store}
use whdr.Server.Subscribers.{remove_subscriber}
use whdr.Server.SubscriberWs.Socket.{
  Wire, Ready, Turn, Socket, and_then, finish, select, socket_loop,
}

module _ (store : Store) (wire : Wire) where
  -- The loop is over, under its id, and one connection stands under each id.
  pub record IsOver (id : ℕ) (r : Socket store × Bool) : Type 0 where
    pub over : r.1 ≡ false
    pub same_id : r.0.id ≡ id
    pub unique : UniqueKeys r.0.registry.subscribers

  pub finish-IsOver :
      (id : ℕ) (r : Socket store × Bool)
      → IsOver id r
      → ((finish store wire r).1 ≡ false)
        × (get (finish store wire r).0.registry.subscribers id ≡ none)
  unfolding remove_subscriber
  finish-IsOver id (t, false) o = (
    refl,
    subst (λ j. get (remove t.registry.subscribers t.id) j ≡ none) o.same_id
        (get-remove t.registry.subscribers t.id o.unique),
  )
  finish-IsOver id (t, true) o = absurd (let h = o.over in cc)

  -- `needed` is what is needed before the end, `uses` what a branch takes of it.
  module _ (Inv : Socket store → Type 0) (needed : (awaiting_pong : Bool) → ℕ)
      (uses : Ready store → ℕ) where
    pub record IsStep (ready : Ready store) (s : Socket store) (r : Socket store × Bool)
        : Type 0 where
      pub same_id : r.0.id ≡ s.id
      pub invariant : Inv r.0
      pub used : r.1 ≡ true → needed s.awaiting_pong ≡ uses ready + needed r.0.awaiting_pong

    abbrev pub total : List (Turn store) → ℕ
    total [] = 0
    total (turn ∷ turns) = uses turn.ready + total turns

    module _ (Allowed : Turn store → Type 0) (positive : (b : Bool) → 1 ≤ needed b)
        (unique : (s : Socket store) → Inv s → UniqueKeys s.registry.subscribers)
        (keeps : (turn : Turn store) (s : Socket store)
          → Allowed turn
          → Inv s
          → Inv (record s { registry = turn.meanwhile s.registry }))
        (step : (turn : Turn store) (s : Socket store)
          → Allowed turn
          → Inv s
          → IsStep turn.ready s (select store wire turn.ready s)) where
      go_on-IsOver :
          (turns : List (Turn store)) (s : Socket store) (ready : Ready store)
          (r : Socket store × Bool)
          → IsStep ready s r
          → needed s.awaiting_pong ≤ uses ready + total turns
          → (Inv r.0
              → needed r.0.awaiting_pong ≤ total turns
              → IsOver r.0.id (socket_loop store wire turns r.0))
          → IsOver s.id (and_then store wire r (socket_loop store wire turns))
      go_on-IsOver turns s ready (t, false) a n rest = record {
        over = refl;
        same_id = a.same_id;
        unique = unique t a.invariant;
      }
      go_on-IsOver turns s ready (t, true) a n rest =
          subst (λ id. IsOver id (socket_loop store wire turns t)) a.same_id
            (rest a.invariant (let used = a.used refl in omega arith))

      pub socket_loop-IsOver :
          (turns : List (Turn store)) (s : Socket store)
          → All Allowed turns
          → Inv s
          → needed s.awaiting_pong ≤ total turns
          → IsOver s.id (socket_loop store wire turns s)
      unfolding socket_loop
      socket_loop-IsOver [] s k i n = absurd (omega (arith, positive s.awaiting_pong))
      socket_loop-IsOver (turn ∷ turns) s k i n =
          let s' = record s { registry = turn.meanwhile s.registry } in
          go_on-IsOver turns s' turn.ready (select store wire turn.ready s')
            (step turn s' k.0 (keeps turn s k.0 i)) n
            (λ j m. socket_loop-IsOver turns (select store wire turn.ready s').0 k.1 j m)
