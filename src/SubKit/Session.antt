-- ===== src/SubKit/Session.antt =====
-- crates/whdr-sub-kit/src/lib.rs, connection.rs, frame.rs, error.rs: one session of `Client::run` and
-- the loop around it. What the application, the cursor store and the socket answer is a parameter:
-- `env` says from the calls made so far whether the next one succeeds. Delays are left out.
pub mod Ascent
pub mod Handling
pub mod Run
pub mod Fatal
mod Tests
use whdr.Common.{
  ℕ, ◌+◌, List, [], ◌∷◌, ◌++◌, Option, none, some, Bool, true, false, not, ◌&&◌, Text, codes,
  Result, ok, err, ◌==◌, nat_eq, text_eq, if◌then◌else◌, ltb, ◌^◌, ◌-◌,
}
use mathlib.Core.Option
use whdr.Proto.Messages.{Uuid, SubServerMsg, SubClientMsg, ReplayRequest, ClosingReason}
use whdr.SubKit.Resume.{ResumeState, new, should_process, record_event}

pub data Error : Type 0 where
  auth : Error
  http : ℕ → Error
  revoked : Error
  handler : Error
  cursor_store : Error
  transport : Error
  connection_closed : Error
  request : Text → Error

unfoldable pub is_fatal : Error → Bool
is_fatal Error.auth = true
is_fatal Error.revoked = true
is_fatal Error.handler = true
is_fatal Error.cursor_store = true
is_fatal (Error.request msg) = true
is_fatal _ = false

-- A WebSocket message, as tungstenite gives it.
pub data Message : Type 0 where
  text : Text → Message
  binary : Text → Message
  ping : Text → Message
  pong : Text → Message
  close : Message
  frame : Message

pub data WsAction : Type 0 where
  text : Text → WsAction
  pong : Text → WsAction
  closed : WsAction
  ignore : WsAction

unfoldable pub classify : Message → WsAction
classify (Message.text t) = WsAction.text t
classify (Message.ping payload) = WsAction.pong payload
classify Message.close = WsAction.closed
classify _ = WsAction.ignore

pub closing_is_fatal : ClosingReason → Bool
closing_is_fatal ClosingReason.revoked = true
closing_is_fatal ClosingReason.shutdown = false

-- `map_connect_error` on an HTTP status, or on any other error of the handshake
pub map_connect_error : Option ℕ → Error
map_connect_error (some status) = if status == 401 then Error.auth else Error.http status
map_connect_error none = Error.transport

pub subscribe_msg : List Text → Option ℕ → SubClientMsg
subscribe_msg patterns after_seq =
    SubClientMsg.subscribe patterns (Option.map (λ n. record { after_seq = n }) after_seq)

pub record DeliveredEvent : Type 0 where
  pub id : Uuid
  pub seq : ℕ
  pub ts_ms : ℕ
  pub channel : Text
  pub payload_b64 : Text

-- A call of a hook of the handler, of the cursor store or of the socket.
pub data Call : Type 0 where
  on_event : DeliveredEvent → Call
  on_replayed : (through_seq : ℕ) → Call
  on_replay_gap : (from_seq earliest_seq : ℕ) → Call
  on_lagged : (dropped : ℕ) → Call
  on_replay_unavailable : (msg : Text) → Call
  save : (cursor : ℕ) → Call
  send : SubClientMsg → Call
  send_pong : (payload : Text) → Call

-- The state that outlives a session, with the calls made, in order.
pub record World : Type 0 where
  pub resume : ResumeState
  pub attempt : ℕ
  pub calls : List Call

-- `run` after the cursor is loaded
abbrev pub initial : ℕ → ℕ → World
initial cursor capacity = record { resume = new cursor capacity; attempt = 0; calls = [] }

-- What `recv` makes of one item of the stream.
pub data Received : Type 0 where
  message : SubServerMsg → Received
  skipped : Received
  failed : Error → Received

-- Where the session goes on, and where it ends.
pub data Next : Type 0 where
  goes_on : Next
  ends : Result (Unit {0}) Error → Next

abbrev pub is_welcome : SubServerMsg → Bool
is_welcome (SubServerMsg.welcome name) = true
is_welcome _ = false

module _ (env : List Call → Call → Bool) (parse_frame : Text → Option SubServerMsg) where
  abbrev pub called : World → Call → World
  called w call = record w { calls = w.calls ++ call ∷ [] }

  -- A call whose failure is an error that ends the session.
  abbrev pub attempt_call : World → Call → Error → World × Next
  attempt_call w call e = (called w call, (if env w.calls call then goes_on else ends (err e)))

  abbrev pub receive_action : World → WsAction → World × Received
  receive_action w (WsAction.text t) =
      (w, elim (parse_frame t) [ some msg ↦ message msg | none ↦ skipped ])
  receive_action w (WsAction.pong payload) = (
    called w (send_pong payload),
    (if env w.calls (send_pong payload) then skipped else failed Error.transport),
  )
  receive_action w WsAction.closed = (w, failed Error.connection_closed)
  receive_action w WsAction.ignore = (w, skipped)

  -- One round of `recv`; `none` is an error of the stream.
  unfoldable pub receive : World → Option Message → World × Received
  receive w none = (w, failed Error.transport)
  receive w (some m) = receive_action w (classify m)

  -- The steps past a successful `on_event`.
  abbrev pub commit_event : World → DeliveredEvent → World × Next
  commit_event w event =
      let resume = record_event w.resume event.id event.seq in
      attempt_call (record w { resume = resume }) (save resume.cursor) Error.cursor_store

  abbrev pub handle_event : World → DeliveredEvent → World × Next
  handle_event w event =
      if not (should_process w.resume event.id event.seq)
      then (w, goes_on)
      else if env w.calls (on_event event)
      then commit_event (called w (on_event event)) event
      else (called w (on_event event), ends (err Error.handler))

  abbrev pub ends_after : World × Next → World × Next
  ends_after (w, goes_on) = (w, ends (ok tt))
  ends_after (w, ends r) = (w, ends r)

  -- The `match` of `run_session`.
  unfoldable pub handle_message : World → SubServerMsg → World × Next
  handle_message w (SubServerMsg.event id seq ts_ms channel payload_b64) =
      handle_event w
        (record { id = id; seq = seq; ts_ms = ts_ms; channel = channel; payload_b64 = payload_b64 })
  handle_message w (SubServerMsg.replayed through_seq) =
      attempt_call w (on_replayed through_seq) Error.handler
  handle_message w (SubServerMsg.replay_gap from_seq earliest_seq) =
      attempt_call w (on_replay_gap from_seq earliest_seq) Error.handler
  handle_message w (SubServerMsg.lagged dropped) =
      ends_after (attempt_call w (on_lagged dropped) Error.handler)
  handle_message w (SubServerMsg.error op msg) =
      if op == codes "replay"
      then attempt_call w (on_replay_unavailable msg) Error.handler
      else (w, goes_on)
  handle_message w (SubServerMsg.closing reason) =
      (w, ends (if closing_is_fatal reason then err Error.revoked else ok tt))
  handle_message w (SubServerMsg.welcome name) = (w, goes_on)
  handle_message w (SubServerMsg.ok op) = (w, goes_on)
  handle_message w SubServerMsg.pong = (w, goes_on)

  -- The loop of `run_session`; the end of the stream is a closed connection.
  unfoldable pub session_loop : World → List (Option Message) → World × Result (Unit {0}) Error
  session_loop w [] = (w, err Error.connection_closed)
  session_loop w (item ∷ items) =
      let (w', r) = receive w item in
      elim r [
        | failed e ↦ (w', err e)
        | skipped ↦ session_loop w' items
        | message msg ↦
            let (w'', next) = handle_message w' msg in
            elim next [ goes_on ↦ session_loop w'' items | ends result ↦ (w'', result) ]
      ]

  -- The loop of `Connection::connect`, which gives the rest of the stream.
  pub await_welcome : World → List (Option Message) → World × Result (List (Option Message)) Error
  await_welcome w [] = (w, err Error.connection_closed)
  await_welcome w (item ∷ items) =
      let (w', r) = receive w item in
      elim r [
        | failed e ↦ (w', err e)
        | skipped ↦ await_welcome w' items
        | message msg ↦ elim (is_welcome msg) [
          | true ↦ (w', ok items)
          | false ↦ await_welcome w' items
        ]
      ]

  -- `backoff.reset`, the subscription from the cursor, and the loop
  abbrev pub subscribed :
      List Text → World → List (Option Message) → World × Result (Unit {0}) Error
  subscribed patterns w items =
      let subscribe = send (subscribe_msg patterns (some w.resume.cursor)) in
      let reset = record w { attempt = 0 } in
      if env w.calls subscribe
      then session_loop (called reset subscribe) items
      else (called reset subscribe, err Error.transport)

  abbrev pub connected :
      List Text → World × Result (List (Option Message)) Error → World × Result (Unit {0}) Error
  connected patterns (w, err e) = (w, err e)
  connected patterns (w, ok items) = subscribed patterns w items

  -- A session on an upgrade that failed, or on the stream that it opened.
  pub run_session :
      List Text
      → World
      → Result (List (Option Message)) (Option ℕ)
      → World × Result (Unit {0}) Error
  run_session patterns w (err status) = (w, err (map_connect_error status))
  run_session patterns w (ok items) = connected patterns (await_welcome w items)

  -- `saturating_add` of `u32`
  abbrev pub next_attempt : World → World
  next_attempt w = record w {
    attempt = (if ltb w.attempt (2 ^ 32 - 1) then w.attempt + 1 else w.attempt);
  }

  abbrev pub is_over : Result (Unit {0}) Error → Bool
  is_over (ok u) = false
  is_over (err e) = is_fatal e

  -- `run` over the connections that the network offers; `none` where it still goes on after them.
  pub run :
      List Text
      → World
      → List (Result (List (Option Message)) (Option ℕ))
      → World × Option (Result (Unit {0}) Error)
  run patterns w [] = (w, none)
  run patterns w (connection ∷ connections) =
      let (w', result) = run_session patterns w connection in
      elim (is_over result) [
        | true ↦ (w', some result)
        | false ↦ run patterns (next_attempt w') connections
      ]

  -- `run` with the load of the cursor: the calls made, and the answer.
  unfoldable pub load_and_run :
      List Text
      → Result ℕ Error
      → (capacity : ℕ) → List (Result (List (Option Message)) (Option ℕ))
      → List Call × Option (Result (Unit {0}) Error)
  load_and_run patterns (err e) capacity connections = ([], some (err e))
  load_and_run patterns (ok cursor) capacity connections =
      let (w, answer) = run patterns (initial cursor capacity) connections in (w.calls, answer)
