-- ===== src/Server/ExtensionLink/Tests.antt =====
-- Runs of the dispatch and the reader of an extension.
use whdr.Common.{
  ℕ, ◌≡◌, refl, List, [], ◌∷◌, some, none, true, false, codes, ok, err, arith, fetch_add, length,
  keep, not, Bool,
}
use whdr.Proto.Messages.{Event, HttpReply, Dispatch, ExtMsg, SrvMsg}
use whdr.Server.DispatchWindow
use whdr.Server.DispatchWindow.{
  DispatchWait, DispatchReservation, remove_request, take_permit, reserve_in_flight, insert_pending,
  remove_pending,
}
use whdr.Server.Daemon.{kill_and_respawn, dispatch_timeouts, protocol_errors, busy, dead}
use whdr.Server.ExtensionLink.{
  ExtensionLink, ExtResult, DispatchLimits, Line, message, blank, malformed, fresh_link, read_line,
  run_reader, finish_dispatch, begin_dispatch,
}
use whdr.Server.ExtensionLink.Timeouts.{time_out, time_out_kills}
use whdr.Server.ExtensionLink.ProtocolErrors.{stops_at_limit}
use whdr.Server.ExtensionLink.Answers.{owned_by, result_fans_out}

abbrev limits : DispatchLimits
limits = record { max_in_flight = 1; max_protocol_errors = 3; hang_kill_threshold = 3 }

abbrev link : ExtensionLink
link = fresh_link (codes "github") (codes "github" ∷ []) []

abbrev request : Dispatch
request = record {
  req_id = 7;
  method = codes "POST";
  path = codes "/github";
  query = none;
  headers = [];
  body_b64 = codes "e30=";
  secret = none;
}

abbrev waiting : ExtensionLink
waiting = record link { dispatches = record { pending = (7, 1) ∷ []; in_flight = 1 } }

abbrev push : Event
push = record { channel = codes "github.push"; payload_b64 = codes "e30=" }

abbrev foreign : Event
foreign = record { channel = codes "teams.chat"; payload_b64 = codes "e30=" }

abbrev reply : HttpReply
reply = record { status = 200; headers = []; body = codes "ok" }

-- A second dispatch finds the window full, and a closed writer withdraws the request.
begins :
    ((begin_dispatch limits [] true request 2 waiting).1 ≡ err busy)
    × ((begin_dispatch limits [] false request 1 link).1 ≡ err dead)
    × ((begin_dispatch limits [] false request 1 link).0.dispatches.in_flight ≡ 0)
    × ((begin_dispatch limits ((codes "github", codes "k") ∷ []) true request 1 link).0.sent
        ≡ SrvMsg.dispatch (record request { secret = some (codes "k") }) ∷ [])
unfolding begin_dispatch take_permit reserve_in_flight insert_pending remove_pending remove_request
    DispatchWindow.new
begins = (refl, refl, refl, refl)

time_out_kills_example :
    (time_out limits 5 link).commands ≡ kill_and_respawn (dispatch_timeouts 3) ∷ []
time_out_kills_example = time_out_kills limits 5 link (omega arith) (omega arith)

abbrev lines : List (Line (Unit {0}) × ℕ × Bool)
lines =
    (malformed, 0, true)
    ∷ (blank, 0, true)
    ∷ (malformed, 0, true)
    ∷ (message (ExtMsg.event push), 9, true)
    ∷ (malformed, 0, true)
    ∷ (blank, 0, true)
    ∷ []

stops_at_limit_example :
    ((run_reader limits lines link).2 ≡ true)
    × ((run_reader limits lines link).0.commands ≡ kill_and_respawn (protocol_errors 3) ∷ [])
stops_at_limit_example =
    stops_at_limit (Unit {0}) limits lines link (refl, (refl, (refl, (refl, (refl, (refl, tt))))))
      (omega arith) (omega arith)

result_fans_out_example :
    (answer : ExtResult) × (answer
      ≡ record { http = reply; events = keep (owned_by waiting) (push ∷ foreign ∷ []) })
    × ((read_line {Value = Unit {0}} limits 5
          (message (ExtMsg.result 7 reply (push ∷ foreign ∷ [])))
          waiting).1.answered
        ≡ some (1, answer))
    × ((read_line {Value = Unit {0}} limits 5
          (message (ExtMsg.result 7 reply (push ∷ foreign ∷ [])))
          waiting).0.namespace_violations
        ≡ fetch_add 0 (length (keep (λ e. not (owned_by waiting e)) (push ∷ foreign ∷ []))))
    × ((read_line {Value = Unit {0}} limits 5
          (message (ExtMsg.result 7 reply (push ∷ foreign ∷ [])))
          waiting).0.consecutive_timeouts
        ≡ 0)
    × (((finish_dispatch limits 9 (DispatchWait.result answer) link).1.fanned_out ≡ answer.events)
        × ((finish_dispatch limits 9 (DispatchWait.result answer) link).2 ≡ ok answer)
        × ((finish_dispatch limits 9 (DispatchWait.result answer) link).0.namespace_violations ≡ 0))
result_fans_out_example =
    result_fans_out (Unit {0}) limits 5 9 waiting link 7 reply (push ∷ foreign ∷ []) 1 (omega arith)
      (omega arith) refl refl refl refl
