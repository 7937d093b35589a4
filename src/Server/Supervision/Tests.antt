-- ===== src/Server/Supervision/Tests.antt =====
-- Runs of the respawn policy with the limits of LimitsConfig, at exits a second apart.
use whdr.Common.{ℕ, ◌≡◌, refl, List, [], ◌∷◌, length, ◌<◌, true, some, none, arith}
use whdr.Server.Supervision.{
  CrashloopLimits, default_state, next_respawn, respawns, respawn_delay_ms, saturating_mul,
  pop_expired, window, threshold,
}
use whdr.Server.Supervision.CrashLoop.{respawns_stop}

abbrev limits : CrashloopLimits
limits = record { crashloop_threshold = 5; crashloop_window_ms = 60000 }

abbrev five_exits : List ℕ
five_exits = 1000000000 ∷ 2000000000 ∷ 3000000000 ∷ 4000000000 ∷ 5000000000 ∷ []

five_exits_give_up : respawns limits default_state five_exits ≡ (250 ∷ 500 ∷ 1000 ∷ 2000 ∷ [], true)
unfolding respawns next_respawn respawn_delay_ms saturating_mul pop_expired window threshold
    whdr.Common.fetch_add
five_exits_give_up = refl

-- An exit of an hour ago no longer counts.
old_exit_forgotten :
    (next_respawn limits 3600000000000 (record { restarts = 9; recent_exits = 0 ∷ [] })).1
    ≡ some 30000
unfolding next_respawn respawn_delay_ms saturating_mul pop_expired window threshold
old_exit_forgotten = refl

respawns_stop_example :
    ((respawns limits default_state five_exits).1 ≡ true)
    × (length (respawns limits default_state five_exits).0 < threshold limits)
unfolding window threshold
respawns_stop_example =
    respawns_stop limits 1000000000 default_state five_exits (omega arith) (omega arith)
