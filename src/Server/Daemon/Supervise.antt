-- ===== src/Server/Daemon/Supervise.antt =====
-- crates/whdr-server/src/daemon.rs: what supervise_extension does once the process has ended, and
-- shutdown_state. The instants are arguments, and what other tasks do while it sleeps is `later`.
use whdr.Common.{
  ℕ, List, Option, none, some, Bool, true, false, not, ◌&&◌, ◌||◌, Text, Result, text_eq,
  if◌then◌else◌, get, insert, contains_key, saturating_add, map,
}
use whdr.Proto.Messages.{Uuid}
use whdr.Server.Supervision.{
  SupervisorState, default_state, next_respawn, threshold, max, saturating_mul,
}
use whdr.Server.Daemon.{
  StartError, Reason, crashloop, server_shutdown, commands_closed, exited, SupervisorCommand,
  drain_stop, kill_and_respawn, Inner, enables, extension_candidate_is_active,
  cleanup_extension_generation,
}
use whdr.Server.Daemon.Starting.{Registration, start_extension, record_start}

unfoldable pub should_respawn : Inner → (id : Text) → Bool
should_respawn s id =
    not s.shutting_down
    && not (contains_key s.failed_extensions id)
    && (s.config.autostart_all || enables s.config id)

abbrev pub state_of : Inner → (id : Text) → SupervisorState
state_of s id = elim (get s.supervisor id) [ none ↦ default_state | some state ↦ state ]

unfoldable pub restart_count : Inner → (id : Text) → ℕ
restart_count s id = (state_of s id).restarts

abbrev or_insert : List (Text × Reason) → Text → Reason → List (Text × Reason)
or_insert m id reason = if contains_key m id then m else insert m id reason

unfoldable pub next_respawn_delay : (id : Text) → (now : ℕ) → Inner → Inner × Option ℕ
next_respawn_delay id now s =
    let (state, delay) = next_respawn s.limits now (state_of s id) in
    let recorded = record s { supervisor = insert s.supervisor id state } in
    let reason = crashloop (threshold s.limits) (max s.limits.crashloop_window_ms 1) in
    elim delay [
      | some ms ↦ (recorded, some ms)
      | none ↦ (
        record recorded {
          failed_extensions = insert s.failed_extensions id reason;
          unavailable_routes = or_insert s.unavailable_routes id reason;
        },
        none,
      )
    ]

-- How the process ended: by itself, or by a command.
pub data Ending : Type 0 where
  by_itself : (status : Text) → Ending
  by_command : SupervisorCommand → Ending
  by_closed_channel : Ending

-- The reason, and whether a respawn is considered.
unfoldable pub verdict : Ending → Reason × Bool
verdict (by_itself status) = (exited status, true)
verdict (by_command (drain_stop reason)) = (reason, false)
verdict (by_command (kill_and_respawn reason)) = (reason, true)
verdict by_closed_channel = (commands_closed, false)

-- Up to the sleep: the delay of the respawn, if there is to be one.
unfoldable pub after_end :
    (candidate_id id : Text) → Uuid → Ending → (now : ℕ) → Inner → Inner × Option ℕ
after_end candidate_id id generation ending now s =
    let (reason, considered) = verdict ending in
    let (cleaned, removed) = cleanup_extension_generation id generation reason considered s in
    elim removed [
      | none ↦ (cleaned, none)
      | some handle ↦
          if not considered || not (should_respawn cleaned candidate_id)
          then (cleaned, none)
          else next_respawn_delay candidate_id now cleaned
    ]

-- After the sleep.
unfoldable pub after_sleep :
    (candidate_id : Text) → Uuid → Result Registration StartError → (later : Inner) → Inner
after_sleep candidate_id generation spawned later =
    if not (should_respawn later candidate_id) || extension_candidate_is_active later candidate_id
    then later
    else record_start candidate_id later (start_extension candidate_id generation spawned later)

-- The flag of `shutdown_state`, and the commands of `send_shutdown_to_extensions`.
unfoldable pub shut_down : Inner → Inner × List (Uuid × SupervisorCommand)
shut_down s = (
  record s { shutting_down = true },
  map (λ entry. (entry.1.generation, drain_stop server_shutdown)) s.extensions,
)

-- How long `send_shutdown_to_extensions` waits for each of them.
unfoldable pub shutdown_wait_ms : (drain_ms term_grace_ms : ℕ) → ℕ
shutdown_wait_ms drain_ms term_grace_ms =
    max (saturating_add (saturating_add drain_ms (saturating_mul term_grace_ms 2)) 100) 1
