-- ===== src/Server/Supervision/Backoff.antt =====
-- crates/whdr-server/src/daemon.rs: the delays that next_respawn_delay grants.
use whdr.Common.{
  ℕ, zero, suc, ◌+◌, ◌*◌, ◌<◌, ◌≡◌, List, [], ◌∷◌, some, arith, word_mod, fetch_add_exact,
  Option-cases, inl, inr, refl, length, sym,
}
use whdr.Server.Supervision.{
  min, saturating_mul, respawn_delay_ms, SupervisorState, CrashloopLimits, next_respawn, respawns,
}

-- The delay doubles with each restart, up to 30 seconds.
abbrev pub doubling : (restarts : ℕ) → ℕ
doubling zero = 250
doubling (suc restarts) = min (2 * doubling restarts) 30000

-- `n` delays from the given number of restarts on.
abbrev delays_from : (restarts n : ℕ) → List ℕ
delays_from restarts zero = []
delays_from restarts (suc n) = doubling restarts ∷ delays_from (suc restarts) n

doubling_capped : (k : ℕ) → doubling (suc (suc (suc (suc (suc (suc (suc k))))))) ≡ 30000
doubling_capped zero = refl
doubling_capped (suc k) = rw (doubling_capped k) refl

seven : (k : ℕ) → min (suc (suc (suc (suc (suc (suc (suc (suc k)))))))) 7 ≡ 7
seven k = ground arith

pub respawn_delay_ms-doubling : (restarts : ℕ) → respawn_delay_ms restarts ≡ doubling restarts
unfolding respawn_delay_ms saturating_mul
respawn_delay_ms-doubling zero = refl
respawn_delay_ms-doubling (suc zero) = refl
respawn_delay_ms-doubling (suc (suc zero)) = refl
respawn_delay_ms-doubling (suc (suc (suc zero))) = refl
respawn_delay_ms-doubling (suc (suc (suc (suc zero)))) = refl
respawn_delay_ms-doubling (suc (suc (suc (suc (suc zero))))) = refl
respawn_delay_ms-doubling (suc (suc (suc (suc (suc (suc zero)))))) = refl
respawn_delay_ms-doubling (suc (suc (suc (suc (suc (suc (suc zero))))))) = refl
respawn_delay_ms-doubling (suc (suc (suc (suc (suc (suc (suc (suc k)))))))) =
    rw (seven k) (sym (doubling_capped (suc k)))

next_respawn_lem :
    (limits : CrashloopLimits) (now ms : ℕ) (state : SupervisorState)
    → state.restarts + 1 < word_mod
    → (next_respawn limits now state).1 ≡ some ms
    → (ms ≡ respawn_delay_ms state.restarts)
      × ((next_respawn limits now state).0.restarts ≡ suc state.restarts)
unfolding next_respawn
next_respawn_lem limits now ms state h e = ground (arith, fetch_add_exact state.restarts 1 h)

-- The delays granted to an extension start at 250 milliseconds, double with each restart, and stay
-- at 30000 once they get there. They go on from the number of restarts, which stays below 2 ^ 64.
respawns-delays_from :
    (limits : CrashloopLimits) (state : SupervisorState) (exits : List ℕ)
    → state.restarts + length exits < word_mod
    → (respawns limits state exits).0
      ≡ delays_from state.restarts (length (respawns limits state exits).0)
unfolding respawns
respawns-delays_from limits state [] h = refl
respawns-delays_from limits state (now ∷ exits) h =
    elim (Option-cases (next_respawn limits now state).1) [
      | inl e ↦ rw (respawns, e) refl
      | inr (ms, e) ↦
          let (d, r) = next_respawn_lem limits now ms state (omega arith) e in
          let after = (next_respawn limits now state).0 in
          ground (
            arith,
            e,
            d,
            r,
            respawn_delay_ms-doubling state.restarts,
            respawns-delays_from limits after exits (omega (arith, r, h)),
          )
    ]
