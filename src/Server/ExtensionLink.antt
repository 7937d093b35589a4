-- ===== src/Server/ExtensionLink.antt =====
-- crates/whdr-server/src/daemon.rs: ExtHandle::dispatch and ExtensionReaderTask, on the state that the
-- handle of an extension shares with its tasks. A line that was read is a message, blank or malformed;
-- what a step sends to the subscribers and to a waiting dispatch is in its effects. The log output is
-- left out.
pub mod Answers
pub mod Timeouts
pub mod ProtocolErrors
mod Tests
use whdr.Common.{
  ℕ, ◌+◌, List, [], ◌∷◌, ◌++◌, Option, none, some, Bool, true, false, not, Text, Result, ok, err,
  ◌==◌, nat_eq, text_eq, leb, ltb, if◌then◌else◌, length, fetch_add, get,
}
use whdr.Proto.Messages.{Uuid, Headers, HttpReply, Event, ExtMsg, Dispatch, SrvMsg}
use whdr.Server.ChannelClaims.{filter_owned_events}
use whdr.Server.DispatchWindow
use whdr.Server.DispatchWindow.{DispatchWindow, DispatchReservation, DispatchWait}
use whdr.Server.Supervision.{max}
use whdr.Server.Daemon.{
  Sender, Reason, protocol_errors, dispatch_timeouts, SupervisorCommand, kill_and_respawn,
  DispatchError, busy, timeout, dead,
}

pub record ExtResult : Type 0 where
  pub http : HttpReply
  pub events : List Event

pub record EventStats : Type 0 where
  pub emitted : ℕ
  pub last_event_at_ms : ℕ

-- `EventStats::record`
unfoldable pub record_events : EventStats → (count now_ms : ℕ) → EventStats
record_events stats count now_ms =
    if count == 0
    then stats
    else record { emitted = fetch_add stats.emitted count; last_event_at_ms = now_ms }

unfoldable pub last_event_at : EventStats → Option ℕ
last_event_at stats = if stats.last_event_at_ms == 0 then none else some stats.last_event_at_ms

-- `commands` is what waits in the supervisor's channel, `sent` what was written for the process.
pub record ExtensionLink : Type 0 where
  pub id : Text
  pub paths : List Text
  pub channels : List Text
  pub dispatches : DispatchWindow Sender
  pub malformed_lines : ℕ
  pub namespace_violations : ℕ
  pub consecutive_timeouts : ℕ
  pub event_stats : EventStats
  pub commands : List SupervisorCommand
  pub sent : List SrvMsg

-- The capacity of the supervisor's channel.
abbrev pub command_capacity : ℕ
command_capacity = 4

abbrev pub fresh_link : (id : Text) (paths channels : List Text) → ExtensionLink
fresh_link id paths channels = record {
  id = id;
  paths = paths;
  channels = channels;
  dispatches = DispatchWindow.new Sender;
  malformed_lines = 0;
  namespace_violations = 0;
  consecutive_timeouts = 0;
  event_stats = record { emitted = 0; last_event_at_ms = 0 };
  commands = [];
  sent = [];
}

-- `try_send` drops the command where the channel is full; `send` waits for room.
abbrev pub try_send : List SupervisorCommand → SupervisorCommand → List SupervisorCommand
try_send commands command =
    if ltb (length commands) command_capacity then commands ++ command ∷ [] else commands

-- The events that pass the filter, and the link with the others counted.
unfoldable pub owned_events : ExtensionLink → List Event → ExtensionLink × List Event
owned_events link events =
    let (owned, violations) =
      filter_owned_events link.id link.paths link.channels link.namespace_violations events in
    (record link { namespace_violations = violations }, owned)

pub record DispatchLimits : Type 0 where
  pub max_in_flight : ℕ
  pub max_protocol_errors : ℕ
  pub hang_kill_threshold : ℕ

-- `reserve`, where no other task moves the counter meanwhile.
abbrev reserve : ExtensionLink → DispatchLimits → Uuid → Sender → Option ExtensionLink
reserve link limits req_id tx =
    elim (DispatchWindow.take_permit Sender link.dispatches [] link.dispatches.in_flight
      limits.max_in_flight) [
        | none ↦ none
        | some taken ↦
            some (record link { dispatches = DispatchWindow.insert_pending Sender taken req_id tx })
      ]

-- `dispatch` up to its wait. The request comes with its body in base64 and its new id; `writable` says
-- whether the writer task still takes messages.
unfoldable pub begin_dispatch :
    DispatchLimits
    → (secrets : List (Text × Text)) → (writable : Bool) → Dispatch
    → Sender
    → ExtensionLink
    → ExtensionLink × Result (DispatchReservation Sender) DispatchError
begin_dispatch limits secrets writable request tx link =
    let reservation : DispatchReservation Sender = record {
      req_id = request.req_id;
      armed = true;
    } in
    let message = SrvMsg.dispatch (record request { secret = get secrets link.id }) in
    elim (reserve link limits request.req_id tx) [
      | none ↦ (link, err busy)
      | some reserved ↦
          if writable
          then (record reserved { sent = reserved.sent ++ message ∷ [] }, ok reservation)
          else (
            record reserved {
              dispatches = (DispatchWindow.remove_pending Sender reserved.dispatches reservation).0;
            },
            err dead,
          )
    ]

-- The events that a step hands to the subscribers, and its answer to a waiting dispatch.
pub record Effects : Type 0 where
  pub fanned_out : List Event
  pub answered : Option (Sender × ExtResult)

abbrev pub no_effects : Effects
no_effects = record { fanned_out = []; answered = none }

abbrev after_timeout : DispatchLimits → ExtensionLink → ExtensionLink
after_timeout limits link =
    let timeouts = fetch_add link.consecutive_timeouts 1 in
    record link {
      consecutive_timeouts = timeouts;
      commands =
          (if timeouts == max limits.hang_kill_threshold 1
            then try_send link.commands (kill_and_respawn (dispatch_timeouts timeouts))
            else link.commands);
    }

-- `dispatch` after its wait.
unfoldable pub finish_dispatch :
    DispatchLimits
    → (now_ms : ℕ) → DispatchWait Sender ExtResult
    → ExtensionLink
    → ExtensionLink × Effects × Result ExtResult DispatchError
finish_dispatch limits now_ms (DispatchWait.result r) link =
    let (filtered, owned) = owned_events link r.events in
    (
      record filtered { event_stats = record_events filtered.event_stats (length owned) now_ms },
      record { fanned_out = owned; answered = none },
      ok (record r { events = owned }),
    )
finish_dispatch limits now_ms DispatchWait.dead link = (link, no_effects, err dead)
finish_dispatch limits now_ms DispatchWait.timeout link =
    (after_timeout limits link, no_effects, err timeout)

pub data Line (Value : Type 0) : Type 0 where
  message : ExtMsg Value → Line Value
  blank : Line Value
  malformed : Line Value

-- `handle_protocol_error`: whether the reader stops.
unfoldable pub handle_protocol_error : DispatchLimits → ExtensionLink → ExtensionLink × Bool
handle_protocol_error limits link =
    let count = fetch_add link.malformed_lines 1 in
    let counted = record link { malformed_lines = count } in
    if leb (max limits.max_protocol_errors 1) count
    then (
      record counted { commands = link.commands ++ kill_and_respawn (protocol_errors count) ∷ [] },
      true,
    )
    else (counted, false)

abbrev take_result :
    ExtensionLink → Uuid → HttpReply → List Event → Option Sender → ExtensionLink × Effects
take_result link req_id http events none = (link, no_effects)
take_result link req_id http events (some tx) =
    let (filtered, owned) = owned_events (record link { consecutive_timeouts = 0 }) events in
    (
      filtered,
      record { fanned_out = []; answered = some (tx, record { http = http; events = owned }) },
    )

module _ {Value : Type 0} where
  -- The body of the loop of `ExtensionReaderTask::run`, for an extension that is active.
  unfoldable pub read_line :
      DispatchLimits → (now_ms : ℕ) → Line Value → ExtensionLink → ExtensionLink × Effects × Bool
  read_line limits now_ms (message (ExtMsg.result req_id http events)) link =
      let (dispatches, tx) = DispatchWindow.remove_request Sender link.dispatches req_id in
      let (read, effects) =
        take_result (record link { dispatches = dispatches }) req_id http events tx in
      (read, effects, false)
  read_line limits now_ms (message (ExtMsg.event ev)) link =
      let (filtered, owned) = owned_events link (ev ∷ []) in
      (
        record filtered { event_stats = record_events filtered.event_stats (length owned) now_ms },
        record { fanned_out = owned; answered = none },
        false,
      )
  read_line limits now_ms (message (ExtMsg.log level msg)) link = (link, no_effects, false)
  read_line limits now_ms (message (ExtMsg.register protocol id paths channels meta)) link =
      (link, no_effects, false)
  read_line limits now_ms blank link = (link, no_effects, false)
  read_line limits now_ms malformed link =
      let (counted, stops) = handle_protocol_error limits link in (counted, no_effects, stops)

  -- The loop, until it stops or no line is left. With each line come the time, and whether the
  -- generation of the extension still runs when it has been read.
  unfoldable pub run_reader :
      DispatchLimits
      → List (Line Value × ℕ × Bool)
      → ExtensionLink
      → ExtensionLink × List Effects × Bool
  run_reader limits [] link = (link, [], false)
  run_reader limits ((line, now_ms, active) ∷ lines) link =
      let (read, effects, stops) = read_line limits now_ms line link in
      let rest = run_reader limits lines read in
      if not active
      then (link, [], true)
      else if stops
      then (read, effects ∷ [], true)
      else (rest.0, effects ∷ rest.1, rest.2)
