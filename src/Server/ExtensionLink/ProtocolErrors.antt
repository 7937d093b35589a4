-- ===== src/Server/ExtensionLink/ProtocolErrors.antt =====
-- crates/whdr-server/src/daemon.rs: the reader stops at the malformed line that reaches the limit.
use whdr.Common.{
  ℕ, suc, ◌+◌, ◌<◌, ◌≡◌, refl, List, [], ◌∷◌, ◌++◌, Bool, true, false, arith, leb, if◌then◌else◌,
  fetch_add_exact, word_mod, ap, Bool-cases, inl, inr, sym, ◌∙◌, Option, none, some, All,
}
use whdr.Proto.Messages.{ExtMsg, Uuid, HttpReply, Event}
use whdr.Server.DispatchWindow
use whdr.Server.Supervision.{max}
use whdr.Server.Daemon.{Sender, kill_and_respawn, protocol_errors}
use whdr.Server.ExtensionLink.{
  ExtensionLink, DispatchLimits, Line, message, blank, malformed, read_line, run_reader,
  take_result, handle_protocol_error, owned_events,
}

-- What no line but a malformed one changes.
abbrev Unchanged : ExtensionLink → ExtensionLink → Type 0
Unchanged link read =
    (read.malformed_lines ≡ link.malformed_lines) × (read.commands ≡ link.commands)

take_result-Unchanged :
    (link : ExtensionLink) (req_id : Uuid) (http : HttpReply) (events : List Event)
    (tx : Option Sender)
    → Unchanged link (take_result link req_id http events tx).0
unfolding owned_events
take_result-Unchanged link req_id http events none = (refl, refl)
take_result-Unchanged link req_id http events (some tx) = (refl, refl)

module _ (Value : Type 0) where
  abbrev pub count_malformed : List (Line Value × ℕ × Bool) → ℕ
  count_malformed [] = 0
  count_malformed ((malformed, now_ms, active) ∷ lines) = suc (count_malformed lines)
  count_malformed ((blank, now_ms, active) ∷ lines) = count_malformed lines
  count_malformed ((message msg, now_ms, active) ∷ lines) = count_malformed lines

  -- Every line finds the generation still running.
  abbrev pub AllActive : List (Line Value × ℕ × Bool) → Type 0
  AllActive lines = All (λ l. l.2 ≡ true) lines

  read_line-Unchanged :
      (limits : DispatchLimits) (now_ms : ℕ) (msg : ExtMsg Value) (link : ExtensionLink)
      → Unchanged link (read_line limits now_ms (message msg) link).0
        × ((read_line limits now_ms (message msg) link).2 ≡ false)
  unfolding read_line owned_events
  read_line-Unchanged limits now_ms (ExtMsg.result req_id http events) link =
      let (dispatches, tx) = DispatchWindow.remove_request Sender link.dispatches req_id in
      (take_result-Unchanged (record link { dispatches = dispatches }) req_id http events tx, refl)
  read_line-Unchanged limits now_ms (ExtMsg.event ev) link = ((refl, refl), refl)
  read_line-Unchanged limits now_ms (ExtMsg.log level msg) link = ((refl, refl), refl)
  read_line-Unchanged limits now_ms (ExtMsg.register protocol id paths channels meta) link =
      ((refl, refl), refl)

  run_reader_goes :
      (limits : DispatchLimits) (line : Line Value) (now_ms : ℕ) (active : Bool)
      (lines : List (Line Value × ℕ × Bool)) (link : ExtensionLink)
      → active ≡ true
      → (read_line limits now_ms line link).2 ≡ false
      → ((run_reader limits ((line, now_ms, active) ∷ lines) link).2
          ≡ (run_reader limits lines (read_line limits now_ms line link).0).2)
        × ((run_reader limits ((line, now_ms, active) ∷ lines) link).0
            ≡ (run_reader limits lines (read_line limits now_ms line link).0).0)
  unfolding run_reader
  run_reader_goes limits line now_ms active lines link a s = rw (run_reader, a, s) (refl, refl)

  run_reader_stops :
      (limits : DispatchLimits) (line : Line Value) (now_ms : ℕ) (active : Bool)
      (lines : List (Line Value × ℕ × Bool)) (link : ExtensionLink)
      → active ≡ true
      → (read_line limits now_ms line link).2 ≡ true
      → ((run_reader limits ((line, now_ms, active) ∷ lines) link).2 ≡ true)
        × ((run_reader limits ((line, now_ms, active) ∷ lines) link).0
            ≡ (read_line limits now_ms line link).0)
  unfolding run_reader
  run_reader_stops limits line now_ms active lines link a s = rw (run_reader, a, s) (refl, refl)

  read_malformed :
      (limits : DispatchLimits) (now_ms : ℕ) (link : ExtensionLink)
      → link.malformed_lines + 1 < word_mod
      → ((read_line {Value = Value} limits now_ms malformed link).2
          ≡ leb (max limits.max_protocol_errors 1) (link.malformed_lines + 1))
        × ((read_line {Value = Value} limits now_ms malformed link).0.malformed_lines
            ≡ link.malformed_lines + 1)
        × ((read_line {Value = Value} limits now_ms malformed link).0.commands ≡ (
            if leb (max limits.max_protocol_errors 1) (link.malformed_lines + 1)
            then link.commands ++ kill_and_respawn (protocol_errors (link.malformed_lines + 1)) ∷ []
            else link.commands))
  unfolding read_line handle_protocol_error
  read_malformed limits now_ms link h = ground (arith, fetch_add_exact link.malformed_lines 1 h)

  read_blank :
      (limits : DispatchLimits) (now_ms : ℕ) (link : ExtensionLink)
      → ((read_line {Value = Value} limits now_ms blank link).2 ≡ false)
        × ((read_line {Value = Value} limits now_ms blank link).0 ≡ link)
  unfolding read_line
  read_blank limits now_ms link = (refl, refl)

-- A reader whose lines all find the generation running stops just where the malformed lines are as
-- many as the limit, whatever stands between them, and then it has asked once for a kill; where it
-- does not stop it has asked for none. The count stays below 2 ^ 64.
pub stops_at_limit :
    (Value : Type 0) (limits : DispatchLimits) (lines : List (Line Value × ℕ × Bool))
    (link : ExtensionLink)
    → AllActive Value lines
    → link.malformed_lines + count_malformed Value lines < word_mod
    → link.malformed_lines < max limits.max_protocol_errors 1
    → ((run_reader limits lines link).2
        ≡ leb
            (max limits.max_protocol_errors 1)
            (link.malformed_lines + count_malformed Value lines))
      × ((run_reader limits lines link).0.commands ≡ (
          if leb
            (max limits.max_protocol_errors 1)
            (link.malformed_lines + count_malformed Value lines)
          then link.commands
            ++ kill_and_respawn (protocol_errors (max limits.max_protocol_errors 1)) ∷ []
          else link.commands))
unfolding run_reader
stops_at_limit Value limits [] link a h below = (ground arith, ground arith)
stops_at_limit Value limits ((blank, now_ms, active) ∷ lines) link a h below =
    let (stop, last) =
      run_reader_goes Value limits blank now_ms active lines link a.0
        (read_blank Value limits now_ms link).0 in
    let same = (read_blank Value limits now_ms link).1 in
    let (later, commands) = stops_at_limit Value limits lines link a.1 h below in
    (
      stop ∙ ap (λ l. (run_reader limits lines l).2) same ∙ later,
      ap (λ l. l.commands) last ∙ ap (λ l. (run_reader limits lines l).0.commands) same ∙ commands,
    )
stops_at_limit Value limits ((message msg, now_ms, active) ∷ lines) link a h below =
    let ((m, c), s) = read_line-Unchanged Value limits now_ms msg link in
    let read = (read_line limits now_ms (message msg) link).0 in
    let (stop, last) = run_reader_goes Value limits (message msg) now_ms active lines link a.0 s in
    let (later, commands) =
      stops_at_limit Value limits lines read a.1 (omega (arith, m, h)) (omega (arith, m, below)) in
    (stop ∙ later ∙ rw m refl, ap (λ l. l.commands) last ∙ commands ∙ rw (m, c) refl)
stops_at_limit Value limits ((malformed, now_ms, active) ∷ lines) link a h below =
    let (s, m, c) = read_malformed Value limits now_ms link (omega arith) in
    let read = (read_line {Value = Value} limits now_ms malformed link).0 in
    elim (Bool-cases (leb (max limits.max_protocol_errors 1) (link.malformed_lines + 1))) [
      | inl now ↦
          let (stop, last) =
            run_reader_stops Value limits malformed now_ms active lines link a.0 (s ∙ now) in
          let e : max limits.max_protocol_errors 1 ≡ link.malformed_lines + 1 =
            ground (arith, now) in
          let reached : leb (max limits.max_protocol_errors 1)
                (link.malformed_lines + suc (count_malformed Value lines))
              ≡ true =
            ground (arith, e) in
          (
            stop ∙ sym reached,
            ap (λ l. l.commands) last
                ∙ c
                ∙ rw (now, reached)
                    (ap (λ t. link.commands ++ kill_and_respawn (protocol_errors t) ∷ []) (sym e)),
          )
      | inr not_yet ↦
          let (stop, last) =
            run_reader_goes Value limits malformed now_ms active lines link a.0 (s ∙ not_yet) in
          let (later, commands) =
            stops_at_limit Value limits lines read a.1 (omega (arith, m, h))
              (ground (arith, m, not_yet)) in
          let count : read.malformed_lines + count_malformed Value lines
              ≡ link.malformed_lines + suc (count_malformed Value lines) =
            omega (arith, m) in
          let same : read.commands ≡ link.commands = c ∙ rw not_yet refl in
          (
            stop ∙ later ∙ rw count refl,
            ap (λ l. l.commands) last ∙ commands ∙ rw (same, count) refl,
          )
    ]
