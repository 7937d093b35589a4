-- ===== src/Proto/Messages.antt =====
-- crates/whdr-proto/src/messages.rs: the messages of the extension, subscriber and control planes.
-- `Value` is the JSON value of serde_json, which the program passes through.
pub mod Redaction
mod Tests
use whdr.Common.{ℕ, List, Option, some, none, Text, codes, Bool}
use mathlib.Core.Option

abbrev pub protocol_version : ℕ
protocol_version = 1

-- A UUID as the number that its 128 bits spell.
abbrev pub Uuid : Type 0
Uuid = ℕ

-- A `BTreeMap<String, String>`, in key order.
abbrev pub Headers : Type 0
Headers = List (Text × Text)

pub data LogLevel : Type 0 where
  trace debug info warn error : LogLevel

pub record Event : Type 0 where
  pub channel : Text
  pub payload_b64 : Text

pub record HttpReply : Type 0 where
  pub status : ℕ
  pub headers : Headers
  pub body : Text

pub data ExtMsg (Value : Type 0) : Type 0 where
  register :
      (protocol : ℕ) (id : Option Text) (paths channels : List Text) (meta : Value) → ExtMsg Value
  result : (req_id : Uuid) (http : HttpReply) (events : List Event) → ExtMsg Value
  event : (ev : Event) → ExtMsg Value
  log : (level : LogLevel) (msg : Text) → ExtMsg Value

pub record Dispatch : Type 0 where
  pub req_id : Uuid
  pub method : Text
  pub path : Text
  pub query : Option Text
  pub headers : Headers
  pub body_b64 : Text
  pub secret : Option Text

pub data SrvMsg : Type 0 where
  dispatch : Dispatch → SrvMsg
  shutdown : SrvMsg

pub record ReplayRequest : Type 0 where
  pub after_seq : ℕ

pub data SubClientMsg : Type 0 where
  subscribe : (patterns : List Text) (replay : Option ReplayRequest) → SubClientMsg
  unsubscribe : (patterns : List Text) → SubClientMsg
  ping : SubClientMsg

pub data ClosingReason : Type 0 where
  shutdown revoked : ClosingReason

pub data SubServerMsg : Type 0 where
  welcome : (name : Text) → SubServerMsg
  ok : (op : Text) → SubServerMsg
  error : (op msg : Text) → SubServerMsg
  event : (id : Uuid) (seq ts_ms : ℕ) (channel payload_b64 : Text) → SubServerMsg
  replayed : (through_seq : ℕ) → SubServerMsg
  replay_gap : (from_seq earliest_seq : ℕ) → SubServerMsg
  lagged : (dropped : ℕ) → SubServerMsg
  pong : SubServerMsg
  closing : (reason : ClosingReason) → SubServerMsg

pub data ControlRequest : Type 0 where
  status : ControlRequest
  token_add token_rotate token_revoke : (name : Text) → ControlRequest
  token_list : ControlRequest

pub record TokenSummary : Type 0 where
  pub name : Text
  pub fingerprint : Text
  pub created : Text
  pub active_conns : ℕ

pub data ControlResponse (Value : Type 0) : Type 0 where
  status : (status : Value) → ControlResponse Value
  token : (name token : Text) → ControlResponse Value
  tokens : (tokens : List TokenSummary) → ControlResponse Value
  ok : ControlResponse Value
  error : (msg : Text) → ControlResponse Value

-- What the `Debug` of `SrvMsg` prints: the struct's name and its fields.
pub data DebugOutput : Type 0 where
  debug_struct : Dispatch → DebugOutput
  text : Text → DebugOutput

unfoldable pub srv_msg_debug : SrvMsg → DebugOutput
srv_msg_debug (SrvMsg.dispatch d) =
    debug_struct (record d { secret = Option.map (λ _. codes "<redacted>") d.secret })
srv_msg_debug SrvMsg.shutdown = text (codes "Shutdown")
