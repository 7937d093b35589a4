-- ===== src/Exts/Kit.antt =====
-- crates/whdr-ext-kit/src/lib.rs: the loop of run_extension over the lines of standard input, for a
-- handler of dispatches. A line is a message, blank or malformed; writing works.
mod Tests
use whdr.Common.{
  ℕ, List, [], ◌∷◌, ◌++◌, Option, none, some, Bool, true, false, Text, Result, ok, err,
}
use whdr.Proto.Messages.{Uuid, Event, HttpReply, ExtMsg, Dispatch, SrvMsg, protocol_version}

pub data Line : Type 0 where
  message : SrvMsg → Line
  blank : Line
  malformed : Line

-- How the process ends: at a shutdown, at the end of its input, or with an error.
pub data Ended : Type 0 where
  shut_down input_closed failed : Ended

module _ {Value Error : Type 0}
    (handle_dispatch : SrvMsg → Result (HttpReply × List Event) Error) where
  abbrev answered :
      Uuid → HttpReply × List Event → List (ExtMsg Value) × Ended → List (ExtMsg Value) × Ended
  answered req_id (http, events) (later, ended) = (ExtMsg.result req_id http events ∷ later, ended)

  -- The loop: the messages written, and the end.
  unfoldable pub run_lines : List Line → List (ExtMsg Value) × Ended
  run_lines [] = ([], input_closed)
  run_lines (blank ∷ lines) = run_lines lines
  run_lines (malformed ∷ lines) = ([], failed)
  run_lines (message SrvMsg.shutdown ∷ lines) = ([], shut_down)
  run_lines (message (SrvMsg.dispatch d) ∷ lines) =
      let rest = run_lines lines in
      elim (handle_dispatch (SrvMsg.dispatch d)) [
        | err e ↦ ([], failed)
        | ok reply ↦ answered d.req_id reply rest
      ]

  unfoldable pub run_extension :
      (id : Text) (paths channels : List Text) (meta : Value)
      → List Line
      → List (ExtMsg Value) × Ended
  run_extension id paths channels meta lines =
      let (written, ended) = run_lines lines in
      (ExtMsg.register protocol_version (some id) paths channels meta ∷ written, ended)
