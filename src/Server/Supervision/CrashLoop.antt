-- ===== src/Server/Supervision/CrashLoop.antt =====
-- crates/whdr-server/src/daemon.rs: next_respawn_delay grants fewer respawns than its threshold
-- within one window, so an extension that keeps exiting is given up.
use whdr.Common.{
  ℕ, ◌+◌, ◌≤◌, ◌<◌, ◌≡◌, List, [], ◌∷◌, some, arith, All, true, Bool, Option-cases, inl, inr, ap,
  refl, keep, leb, length, ◌⊎◌, keep-append, length-append,
}
use whdr.Server.Supervision.{
  SupervisorState, CrashloopLimits, next_respawn, respawns, window, threshold, pop_expired,
}

-- The exits from `start` on.
abbrev since : (start : ℕ) → List ℕ → List ℕ
since start exits = keep (leb start) exits

length-keep-le : (p : ℕ → Bool) (xs : List ℕ) → length (keep p xs) ≤ length xs
length-keep-le p [] = omega arith
length-keep-le p (x ∷ xs) = ground (arith, length-keep-le p xs)

since-pop_expired :
    (span start now : ℕ) (exits : List ℕ)
    → now ≤ start + span
    → since start (pop_expired span now exits) ≡ since start exits
unfolding pop_expired
since-pop_expired span start now [] h = refl
since-pop_expired span start now (exit ∷ exits) h =
    ground (arith, since-pop_expired span start now exits h)

module _ (limits : CrashloopLimits) (start : ℕ) where
  abbrev Within : ℕ → Type 0
  Within now = (start ≤ now) × (now ≤ start + window limits)

  -- An exit within the window that is followed by a respawn is one more, and they are below the
  -- threshold.
  next_respawn_granted :
      (now ms : ℕ) (state : SupervisorState)
      → Within now
      → (next_respawn limits now state).1 ≡ some ms
      → (length (since start (next_respawn limits now state).0.recent_exits)
          ≡ length (since start state.recent_exits) + 1)
        × (length (since start state.recent_exits) + 1 < threshold limits)
  unfolding next_respawn
  next_respawn_granted now ms state w h =
      let exits = pop_expired (window limits) now state.recent_exits in
      ground (
        arith,
        length-append exits (now ∷ []),
        length-append (since start exits) (now ∷ []),
        keep-append (leb start) exits (now ∷ []),
        ap length (since-pop_expired (window limits) start now state.recent_exits w.1),
        length-keep-le (leb start) exits,
        w.0,
      )

  -- Fewer respawns than the threshold, and as many exits as the threshold end in giving up.
  respawns_few :
      (exits : List ℕ) (state : SupervisorState)
      → All Within exits
      → (length (respawns limits state exits).0 ≡ 0)
        ⊎ (length (since start state.recent_exits) + length (respawns limits state exits).0
            < threshold limits)
  unfolding respawns
  respawns_few [] state w = inl refl
  respawns_few (now ∷ exits) state w = elim (Option-cases (next_respawn limits now state).1) [
    | inl e ↦ inl (rw (respawns, e) refl)
    | inr (ms, e) ↦ ground (
      arith,
      e,
      next_respawn_granted now ms state w.0 e,
      respawns_few exits (next_respawn limits now state).0 w.1,
    )
  ]

  respawns_given_up :
      (exits : List ℕ) (state : SupervisorState)
      → length (respawns limits state exits).0 < length exits
      → (respawns limits state exits).1 ≡ true
  unfolding respawns
  respawns_given_up [] state h = absurd (omega arith)
  respawns_given_up (now ∷ exits) state h =
      ground (arith, respawns_given_up exits (next_respawn limits now state).0)

pub respawns-lt-threshold :
    (limits : CrashloopLimits) (start : ℕ) (state : SupervisorState) (exits : List ℕ)
    → All (λ now. (start ≤ now) × (now ≤ start + window limits)) exits
    → length (respawns limits state exits).0 < threshold limits
unfolding threshold
respawns-lt-threshold limits start state exits w = elim (respawns_few limits start exits state w) [
  | inl e ↦ ground arith
  | inr lt ↦ omega arith
]

-- An extension that exits as often as the threshold within one crash-loop window is given up, after
-- fewer respawns than the threshold.
pub respawns_stop :
    (limits : CrashloopLimits) (start : ℕ) (state : SupervisorState) (exits : List ℕ)
    → All (λ now. (start ≤ now) × (now ≤ start + window limits)) exits
    → threshold limits ≤ length exits
    → ((respawns limits state exits).1 ≡ true)
      × (length (respawns limits state exits).0 < threshold limits)
respawns_stop limits start state exits w many =
    let few = respawns-lt-threshold limits start state exits w in
    (respawns_given_up limits start exits state (omega arith), few)
