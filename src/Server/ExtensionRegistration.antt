-- ===== src/Server/ExtensionRegistration.antt =====
-- crates/whdr-server/src/extension_registration.rs: the first line of an extension.
pub mod KitRegisters
mod Tests
use whdr.Common.{
  ℕ, List, Option, none, some, Bool, true, false, not, Text, Result, ok, err, ◌==◌, nat_eq,
  if◌then◌else◌, ◌>>=◌,
}
use whdr.Proto.Messages.{ExtMsg, protocol_version}
use whdr.Proto.Ndjson.{NdjsonError, Json, decode_line}
use whdr.Server.Daemon.Starting.{Registration}

-- What `next_line` gives within the timeout.
pub data FirstLine : Type 0 where
  line : Text → FirstLine
  timed_out unreadable closed : FirstLine

pub data RegistrationError (Value : Type 0) : Type 0 where
  register_timeout read_failed exited_before_register : RegistrationError Value
  malformed_line : NdjsonError → RegistrationError Value
  unsupported_protocol : ℕ → RegistrationError Value
  expected_register : ExtMsg Value → RegistrationError Value
  blank_register_line : RegistrationError Value

abbrev or_candidate : (candidate_id : Text) → Option Text → Text
or_candidate candidate_id none = candidate_id
or_candidate candidate_id (some id) = id

module _ {Value : Type 0} where
  -- The match on the message of the line.
  unfoldable pub accept_registration :
      (candidate_id : Text) → Option (ExtMsg Value) → Result Registration (RegistrationError Value)
  accept_registration candidate_id none = err blank_register_line
  accept_registration candidate_id (some (ExtMsg.register protocol id paths channels meta)) =
      if not (protocol == protocol_version)
      then err (unsupported_protocol protocol)
      else ok (record { id = or_candidate candidate_id id; paths = paths; channels = channels })
  accept_registration candidate_id (some (ExtMsg.result req_id http events)) =
      err (expected_register (ExtMsg.result req_id http events))
  accept_registration candidate_id (some (ExtMsg.event ev)) =
      err (expected_register (ExtMsg.event ev))
  accept_registration candidate_id (some (ExtMsg.log level msg)) =
      err (expected_register (ExtMsg.log level msg))

  unfoldable pub read_registration :
      Json (ExtMsg Value)
      → (candidate_id : Text) → FirstLine
      → Result Registration (RegistrationError Value)
  read_registration json candidate_id (line first_line) = elim (decode_line json first_line) [
    | err e ↦ err (malformed_line e)
    | ok msg ↦ accept_registration candidate_id msg
  ]
  read_registration json candidate_id timed_out = err register_timeout
  read_registration json candidate_id unreadable = err read_failed
  read_registration json candidate_id closed = err exited_before_register
