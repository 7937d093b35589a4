-- ===== src/Server/Supervision.antt =====
-- The respawn policy of crates/whdr-server/src/daemon.rs: SupervisorState, and next_respawn_delay on
-- one entry of the supervisor's map. An `Instant` is its nanoseconds, a `Duration` too.
pub mod Backoff
pub mod CrashLoop
mod Tests
use whdr.Common.{
  ℕ, ◌+◌, ◌-◌, ◌*◌, ◌^◌, List, [], ◌∷◌, ◌++◌, Option, none, some, Bool, true, false, ltb, leb,
  if◌then◌else◌, length, fetch_add, word_mod,
}

abbrev pub initial_respawn_backoff_ms : ℕ
initial_respawn_backoff_ms = 250

abbrev pub max_respawn_backoff_ms : ℕ
max_respawn_backoff_ms = 30000

abbrev pub nanos_per_ms : ℕ
nanos_per_ms = 1000000

-- `min` and `max`
abbrev pub min : ℕ → ℕ → ℕ
min a b = if ltb b a then b else a

abbrev pub max : ℕ → ℕ → ℕ
max a b = if ltb a b then b else a

-- `saturating_mul` of `u64`
unfoldable pub saturating_mul : ℕ → ℕ → ℕ
saturating_mul a b = min (a * b) (word_mod - 1)

pub record SupervisorState : Type 0 where
  pub restarts : ℕ
  pub recent_exits : List ℕ

abbrev pub default_state : SupervisorState
default_state = record { restarts = 0; recent_exits = [] }

-- The two limits that the policy reads.
pub record CrashloopLimits : Type 0 where
  pub crashloop_threshold : ℕ
  pub crashloop_window_ms : ℕ

unfoldable pub threshold : CrashloopLimits → ℕ
threshold limits = max limits.crashloop_threshold 1

unfoldable pub window : CrashloopLimits → ℕ
window limits = max limits.crashloop_window_ms 1 * nanos_per_ms

-- The loop that takes the old exits off the front; `duration_since` stops at 0.
unfoldable pub pop_expired : (window now : ℕ) → List ℕ → List ℕ
pop_expired window now [] = []
pop_expired window now (exit ∷ exits) =
    let rest = pop_expired window now exits in
    if ltb window (now - exit) then rest else exit ∷ exits

unfoldable pub respawn_delay_ms : (restarts : ℕ) → ℕ
respawn_delay_ms restarts =
    min (saturating_mul initial_respawn_backoff_ms (2 ^ min restarts 7)) max_respawn_backoff_ms

-- `none`: the extension is in a crash loop. The counter of restarts is a `usize` and wraps.
unfoldable pub next_respawn :
    CrashloopLimits → (now : ℕ) → SupervisorState → SupervisorState × Option ℕ
next_respawn limits now state =
    let recent_exits = pop_expired (window limits) now state.recent_exits ++ now ∷ [] in
    if leb (threshold limits) (length recent_exits)
    then (record state { recent_exits = recent_exits }, none)
    else (
      record { restarts = fetch_add state.restarts 1; recent_exits = recent_exits },
      some (respawn_delay_ms state.restarts),
    )

-- Exits at the given times, until one of them is not followed by a respawn: the delays granted, and
-- whether the extension was given up.
unfoldable pub respawns : CrashloopLimits → SupervisorState → (exits : List ℕ) → List ℕ × Bool
respawns limits state [] = ([], false)
respawns limits state (now ∷ exits) =
    let (after, delay) = next_respawn limits now state in
    elim delay [
      | none ↦ ([], true)
      | some ms ↦ let (granted, given_up) = respawns limits after exits in (ms ∷ granted, given_up)
    ]
