-- ===== src/Server/DispatchWindow/Tests.antt =====
-- A window for two requests, and the bound on it.
use whdr.Common.{ℕ, ◌≡◌, refl, [], ◌∷◌, some, arith, true, false, nat_beq}
use whdr.Server.DispatchWindow.{
  DispatchWindow, new, reserve_in_flight, take_permit, insert_pending, is_idle,
}
use whdr.Server.DispatchWindow.Capacity.{Reachable, start, takes, enters, IsWithin, window-IsWithin}

abbrev one : DispatchWindow ℕ
one = record { pending = (7, 70) ∷ []; in_flight = 1 }

abbrev permit : DispatchWindow ℕ
permit = record { pending = []; in_flight = 1 }

-- Another task took the last permit first.
reserve_tests :
    (reserve_in_flight ℕ [] 0 0 2 ≡ (true, 1))
    × (reserve_in_flight ℕ (1 ∷ []) 0 1 2 ≡ (true, 2))
    × (reserve_in_flight ℕ (2 ∷ []) 1 2 2 ≡ (false, 2))
    × (reserve_in_flight ℕ [] 1 2 2 ≡ (false, 2))
unfolding reserve_in_flight
reserve_tests = (refl, refl, refl, refl)

taken : take_permit ℕ (new ℕ) [] 0 2 ≡ some permit
unfolding take_permit reserve_in_flight new
taken = refl

reached : Reachable ℕ 2 (record { window = one; entering = 0 })
unfolding insert_pending
reached = enters 0 7 70 (takes permit [] 0 2 start (omega arith) taken) refl

window-IsWithin_example :
    IsWithin ℕ 2 (record { window = one; entering = 0 })
    × (◌≡◌ {A = ℕ} 0 0 → is_idle ℕ one ≡ nat_beq 1 0)
window-IsWithin_example = window-IsWithin ℕ 2 (record { window = one; entering = 0 }) reached
