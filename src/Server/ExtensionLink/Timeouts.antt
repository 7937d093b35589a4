-- ===== src/Server/ExtensionLink/Timeouts.antt =====
-- crates/whdr-server/src/daemon.rs: an extension that hangs is killed once for a run of timeouts.
use whdr.Common.{
  ℕ, zero, suc, ◌+◌, ◌<◌, ◌≤◌, ◌≡◌, refl, true, arith, leb, if◌then◌else◌, fetch_add_exact,
  word_mod, ◌==◌, nat_eq, nat_beq_iff, Bool-cases, inl, inr, ◌∙◌,
}
use whdr.Server.DispatchWindow.{DispatchWait}
use whdr.Server.Supervision.{max}
use whdr.Server.Daemon.{kill_and_respawn, dispatch_timeouts}
use whdr.Server.ExtensionLink.{ExtensionLink, DispatchLimits, finish_dispatch, try_send}

-- `n` dispatches in a row that run out of time.
abbrev pub time_out : DispatchLimits → ℕ → ExtensionLink → ExtensionLink
time_out limits zero link = link
time_out limits (suc n) link =
    time_out limits n (finish_dispatch limits 0 DispatchWait.timeout link).0

finish_dispatch_timeout :
    (limits : DispatchLimits) (link : ExtensionLink)
    → link.consecutive_timeouts + 1 < word_mod
    → ((finish_dispatch limits 0 DispatchWait.timeout link).0.consecutive_timeouts
        ≡ link.consecutive_timeouts + 1)
      × ((finish_dispatch limits 0 DispatchWait.timeout link).0.commands ≡ (
          if link.consecutive_timeouts + 1 == max limits.hang_kill_threshold 1
          then try_send link.commands
              (kill_and_respawn (dispatch_timeouts (link.consecutive_timeouts + 1)))
          else link.commands))
unfolding finish_dispatch
finish_dispatch_timeout limits link h =
    rw (fetch_add_exact link.consecutive_timeouts 1 h) (refl, refl)

time_out_past :
    (limits : DispatchLimits) (n : ℕ) (link : ExtensionLink)
    → link.consecutive_timeouts + n < word_mod
    → max limits.hang_kill_threshold 1 ≤ link.consecutive_timeouts
    → (time_out limits n link).commands ≡ link.commands
time_out_past limits zero link h past = refl
time_out_past limits (suc n) link h past =
    let (t, c) = finish_dispatch_timeout limits link (omega arith) in
    let next = (finish_dispatch limits 0 DispatchWait.timeout link).0 in
    ground (arith, t, c, time_out_past limits n next (omega (arith, t, h)) (omega (arith, t, past)))

-- In a run of dispatches that time out, with no answer between them, the kill is sent to the
-- supervisor once: by the timeout that brings the count to the threshold, if its channel has room,
-- and by none before or after it. The count stays below 2 ^ 64.
pub time_out_kills :
    (limits : DispatchLimits) (n : ℕ) (link : ExtensionLink)
    → link.consecutive_timeouts + n < word_mod
    → link.consecutive_timeouts < max limits.hang_kill_threshold 1
    → (time_out limits n link).commands ≡ (
        if leb (max limits.hang_kill_threshold 1) (link.consecutive_timeouts + n)
        then try_send link.commands
            (kill_and_respawn (dispatch_timeouts (max limits.hang_kill_threshold 1)))
        else link.commands)
time_out_kills limits zero link h below = ground arith
time_out_kills limits (suc n) link h below =
    let (t, c) = finish_dispatch_timeout limits link (omega arith) in
    let next = (finish_dispatch limits 0 DispatchWait.timeout link).0 in
    elim (Bool-cases (link.consecutive_timeouts + 1 == max limits.hang_kill_threshold 1)) [
      | inl now ↦
          let e : link.consecutive_timeouts + 1 ≡ max limits.hang_kill_threshold 1 =
            (nat_beq_iff _ _).0 now in
          let past = time_out_past limits n next (omega (arith, t, h)) (omega (arith, t, e)) in
          let reached : leb (max limits.hang_kill_threshold 1) (link.consecutive_timeouts + suc n)
              ≡ true =
            ground (arith, e) in
          past ∙ c ∙ rw (now, reached, e) refl
      | inr not_yet ↦
          let later =
            time_out_kills limits n next (omega (arith, t, h)) (ground (arith, t, not_yet)) in
          let same : next.commands ≡ link.commands = c ∙ rw not_yet refl in
          let count : next.consecutive_timeouts + n ≡ link.consecutive_timeouts + suc n =
            omega (arith, t) in
          later ∙ rw (same, count) refl
    ]
