-- ===== src/Server/DispatchWindow/Capacity.antt =====
-- Over all interleavings of the tasks, the counter counts the requests that are pending and those that
-- are being entered, and stays within the maximum.
use whdr.Common.{
  ℕ, suc, ◌+◌, ◌-◌, ◌<◌, ◌≤◌, ◌≡◌, refl, subst, ap, List, [], ◌∷◌, some, true, ◌==◌, nat_eq,
  if◌then◌else◌, length, insert, remove, contains_key, arith, Bool-cases, inl, inr,
}
use mathlib.Core.Option.{some-injective}
use whdr.Proto.Messages.{Uuid}
use whdr.Server.DispatchWindow.{
  DispatchWindow, new, reserve_in_flight, take_permit, insert_pending, remove_request, clear,
  is_idle, DispatchReservation, drop_reservation, release_all,
}

module _ (Sender : Type 0) where
  -- The window and the number of tasks that hold a permit and have not entered their request.
  pub record State : Type 0 where
    pub window : DispatchWindow Sender
    pub entering : ℕ

  -- A step of one task; every maximum it uses is at most `bound`.
  pub data Reachable (bound : ℕ) : State → Type 0 where
    start : Reachable bound (record { window = new Sender; entering = 0 })
    takes :
        {s : State} (w : DispatchWindow Sender) (observed : List ℕ) (current max : ℕ)
        → Reachable bound s
        → max ≤ bound
        → take_permit Sender s.window observed current max ≡ some w
        → Reachable bound (record { window = w; entering = suc s.entering })
    enters :
        {s : State} (n : ℕ) (req_id : Uuid) (tx : Sender)
        → Reachable bound s
        → s.entering ≡ suc n
        → Reachable bound
            (record { window = insert_pending Sender s.window req_id tx; entering = n })
    removes :
        {s : State} (req_id : Uuid)
        → Reachable bound s
        → Reachable bound (record s { window = (remove_request Sender s.window req_id).0 })
    drops :
        {s : State} (r : DispatchReservation Sender)
        → Reachable bound s
        → Reachable bound (record s { window = drop_reservation Sender s.window r })
    clears :
        {s : State}
        → Reachable bound s
        → Reachable bound (record s { window = clear Sender s.window })

  pub record IsWithin (bound : ℕ) (s : State) : Type 0 where
    pub counted : s.window.in_flight ≡ length s.window.pending + s.entering
    pub bounded : s.window.in_flight ≤ bound

  length-insert :
      (m : List (Uuid × Sender)) (k : Uuid) (v : Sender)
      → length (insert m k v) ≡ (if contains_key m k then length m else suc (length m))
  length-insert [] k v = refl
  length-insert ((j, w) ∷ m) k v = ground (arith, length-insert m k v)

  length-remove :
      (m : List (Uuid × Sender)) (k : Uuid)
      → length m ≡ (if contains_key m k then suc (length (remove m k)) else length (remove m k))
  length-remove [] k = refl
  length-remove ((j, w) ∷ m) k = ground (arith, length-remove m k)

  release_all_lem :
      (pending : List (Uuid × Sender)) (counter n : ℕ)
      → counter ≡ length pending + n
      → release_all Sender pending counter ≡ n
  release_all_lem [] counter n h = omega (arith, h)
  release_all_lem (p ∷ pending) counter n h =
      release_all_lem pending (counter - 1) n (omega (arith, h))

  reserve_in_flight_lem :
      (observed : List ℕ) (current counter max taken : ℕ)
      → reserve_in_flight Sender observed current counter max ≡ (true, taken)
      → (taken ≡ suc counter) × (counter < max)
  unfolding reserve_in_flight
  reserve_in_flight_lem [] current counter max taken h = ground (arith, h)
  reserve_in_flight_lem (next ∷ observed) current counter max taken h =
      ground (arith, reserve_in_flight_lem observed next counter max taken, h)

  removed-IsWithin :
      (bound : ℕ) (s : State) (req_id : Uuid)
      → IsWithin bound s
      → IsWithin bound (record s { window = (remove_request Sender s.window req_id).0 })
  unfolding remove_request
  removed-IsWithin bound s req_id i = record {
    counted = ground (arith, i.counted, length-remove s.window.pending req_id);
    bounded = ground (arith, i.bounded);
  }

  entered-IsWithin :
      (bound n : ℕ) (s : State) (req_id : Uuid) (tx : Sender)
      → s.entering ≡ suc n
      → IsWithin bound s
      → IsWithin bound (record { window = insert_pending Sender s.window req_id tx; entering = n })
  unfolding insert_pending
  entered-IsWithin bound n s req_id tx e i = record {
    counted = ground (arith, i.counted, length-insert s.window.pending req_id tx, e);
    bounded = ground (arith, i.bounded);
  }

  taken-IsWithin :
      (bound current max : ℕ) (observed : List ℕ) (s : State) (w : DispatchWindow Sender)
      → max ≤ bound
      → take_permit Sender s.window observed current max ≡ some w
      → IsWithin bound s
      → IsWithin bound (record { window = w; entering = suc s.entering })
  unfolding take_permit
  taken-IsWithin bound current max observed s w b h i =
      elim (Bool-cases (reserve_in_flight Sender observed current s.window.in_flight max).0) [
        | inl good ↦
            let counter = (reserve_in_flight Sender observed current s.window.in_flight max).1 in
            let (up, free) =
              reserve_in_flight_lem observed current s.window.in_flight max counter
                (ap (λ b. (b, counter)) good) in
            let same : record s.window { in_flight = counter } ≡ w =
              some-injective _ _ (rw (good, take_permit) at h) in
            subst (λ v. IsWithin bound (record { window = v; entering = suc s.entering })) same
              (record {
                counted = omega (arith, up, i.counted);
                bounded = omega (arith, up, free, b);
              })
        | inr bad ↦ cc (rw (bad, take_permit) at h)
      ]

  dropped-IsWithin :
      (bound : ℕ) (s : State) (r : DispatchReservation Sender)
      → IsWithin bound s
      → IsWithin bound (record s { window = drop_reservation Sender s.window r })
  unfolding drop_reservation
  dropped-IsWithin bound s r i = elim (Bool-cases r.armed) [
    | inl armed ↦ rw armed (removed-IsWithin bound s r.req_id i)
    | inr disarmed ↦ rw disarmed i
  ]

  cleared-IsWithin :
      (bound : ℕ) (s : State)
      → IsWithin bound s
      → IsWithin bound (record s { window = clear Sender s.window })
  unfolding clear
  cleared-IsWithin bound s i =
      let left = release_all_lem s.window.pending s.window.in_flight s.entering i.counted in
      record { counted = omega (arith, left); bounded = omega (arith, left, i.counted, i.bounded) }

  Reachable-IsWithin : {bound : ℕ} {s : State} → Reachable bound s → IsWithin bound s
  unfolding new
  Reachable-IsWithin start = record { counted = refl; bounded = omega arith }
  Reachable-IsWithin (takes w observed current max r b h) =
      taken-IsWithin _ current max observed _ w b h (Reachable-IsWithin r)
  Reachable-IsWithin (enters n req_id tx r e) =
      entered-IsWithin _ n _ req_id tx e (Reachable-IsWithin r)
  Reachable-IsWithin (removes req_id r) = removed-IsWithin _ _ req_id (Reachable-IsWithin r)
  Reachable-IsWithin (drops v r) = dropped-IsWithin _ _ v (Reachable-IsWithin r)
  Reachable-IsWithin (clears r) = cleared-IsWithin _ _ (Reachable-IsWithin r)

-- Over every interleaving of reservations, entries, removals, dropped reservations and clears, with no
-- maximum above `bound`: `in_flight` is the number of requests that are pending plus the number of
-- tasks between their permit and their entry, and never more than `bound`; and a window with no such
-- task is idle exactly when nothing is in flight.
pub window-IsWithin :
    (Sender : Type 0) (bound : ℕ) (s : State Sender)
    → Reachable Sender bound s
    → IsWithin Sender bound s
      × (s.entering ≡ 0 → is_idle Sender s.window ≡ (s.window.in_flight == 0))
unfolding is_idle
window-IsWithin Sender bound s r =
    let i = Reachable-IsWithin Sender r in (i, λ e. ground (arith, i.counted, e))
