-- ===== src/Server/DispatchWindow.antt =====
-- crates/whdr-server/src/dispatch_window.rs: the requests that an extension has not answered. A task
-- that reserves takes its permit first and enters its request later, so the two are steps of their
-- own, and steps of other tasks may come between them.
pub mod Capacity
mod Tests
use whdr.Common.{
  ℕ, ◌+◌, ◌-◌, ◌≤◌, List, [], ◌∷◌, Option, none, some, Bool, true, false, ◌&&◌, ◌||◌, leb, ◌==◌,
  nat_eq, if◌then◌else◌, length, get, insert, remove, contains_key, saturating_sub, is_some,
}
use whdr.Proto.Messages.{Uuid}

module _ (Sender : Type 0) where
  -- `pending` maps a request to where its answer goes; each entry holds a permit.
  pub record DispatchWindow : Type 0 where
    pub pending : List (Uuid × Sender)
    pub in_flight : ℕ

  unfoldable pub new : DispatchWindow
  new = record { pending = []; in_flight = 0 }

  -- The loop of `reserve_in_flight`: `observed` are the values that exchanges which fail give back
  -- while other tasks move the counter. An exchange at rest succeeds if it expects the counter's value,
  -- and otherwise gives that value back for one more round.
  unfoldable pub reserve_in_flight : List ℕ → (current counter max : ℕ) → Bool × ℕ
  reserve_in_flight [] current counter max =
      if leb max current
      then (false, counter)
      else if current == counter
      then (true, current + 1)
      else if leb max counter
      then (false, counter)
      else (true, counter + 1)
  reserve_in_flight (next ∷ observed) current counter max =
      let rest = reserve_in_flight observed next counter max in
      if leb max current then (false, counter) else rest

  abbrev pub release_in_flight : ℕ → ℕ
  release_in_flight counter = saturating_sub counter 1

  -- The first step of `reserve`.
  unfoldable pub take_permit : DispatchWindow → List ℕ → (current max : ℕ) → Option DispatchWindow
  take_permit w observed current max =
      let (taken, counter) = reserve_in_flight observed current w.in_flight max in
      if taken then some (record w { in_flight = counter }) else none

  -- The second one: an entry that the id had before is dropped, with its permit.
  unfoldable pub insert_pending : DispatchWindow → Uuid → Sender → DispatchWindow
  insert_pending w req_id tx = record {
    pending = insert w.pending req_id tx;
    in_flight =
        (if contains_key w.pending req_id then release_in_flight w.in_flight else w.in_flight);
  }

  unfoldable pub remove_request : DispatchWindow → Uuid → DispatchWindow × Option Sender
  remove_request w req_id = (
    record {
      pending = remove w.pending req_id;
      in_flight =
          (if contains_key w.pending req_id then release_in_flight w.in_flight else w.in_flight);
    },
    get w.pending req_id,
  )

  abbrev release_all : List (Uuid × Sender) → ℕ → ℕ
  release_all [] counter = counter
  release_all (p ∷ pending) counter = release_all pending (release_in_flight counter)

  unfoldable pub clear : DispatchWindow → DispatchWindow
  clear w = record { pending = []; in_flight = release_all w.pending w.in_flight }

  unfoldable pub is_idle : DispatchWindow → Bool
  is_idle w = length w.pending == 0 && w.in_flight == 0

  pub record DispatchReservation : Type 0 where
    pub req_id : Uuid
    pub armed : Bool

  -- `remove_pending`, and `drop`, which throws its answer away
  unfoldable pub remove_pending :
      DispatchWindow → DispatchReservation → DispatchWindow × DispatchReservation × Bool
  remove_pending w r =
      if r.armed
      then (
        (remove_request w r.req_id).0,
        record r { armed = false },
        is_some (remove_request w r.req_id).1,
      )
      else (w, r, false)

  unfoldable pub drop_reservation : DispatchWindow → DispatchReservation → DispatchWindow
  drop_reservation w r = if r.armed then (remove_request w r.req_id).0 else w

  pub data DispatchWait (T : Type 0) : Type 0 where
    result : T → DispatchWait T
    dead : DispatchWait T
    timeout : DispatchWait T

  -- What the channel gives within the timeout: an answer, its sender's end, or nothing.
  pub data Outcome (T : Type 0) : Type 0 where
    answered : T → Outcome T
    dropped : Outcome T
    elapsed : Outcome T

  unfoldable pub wait :
      {T : Type 0}
      → DispatchWindow
      → DispatchReservation
      → Outcome T
      → DispatchWindow × DispatchReservation × DispatchWait T
  wait w r (answered t) = (w, record r { armed = false }, result t)
  wait w r dropped = (w, record r { armed = false }, dead)
  wait w r elapsed = let (w', r', removed) = remove_pending w r in (w', r', timeout)
