-- ===== src/Exts/Kit/Tests.antt =====
-- Runs of the loop of the kit with a handler that refuses the empty path.
use whdr.Common.{
  ◌≡◌, refl, List, [], ◌∷◌, none, some, codes, Result, ok, err, is_empty, if◌then◌else◌,
}
use whdr.Proto.Messages.{Event, HttpReply, ExtMsg, Dispatch, SrvMsg}
use whdr.Exts.Kit.{
  message, blank, malformed, shut_down, input_closed, failed, run_lines, run_extension,
}

abbrev reply : HttpReply
reply = record { status = 200; headers = []; body = [] }

abbrev picky : SrvMsg → Result (HttpReply × List Event) (Unit {0})
picky SrvMsg.shutdown = ok (reply, [])
picky (SrvMsg.dispatch d) = if is_empty d.path then err tt else ok (reply, [])

abbrev request : Dispatch
request = record {
  req_id = 7;
  method = [];
  path = codes "/";
  query = none;
  headers = [];
  body_b64 = [];
  secret = none;
}

loop_tests :
    (run_extension {Value = Unit {0}} picky
        (codes "x")
        []
        []
        tt
        (blank ∷ message (SrvMsg.dispatch request) ∷ message SrvMsg.shutdown ∷ malformed ∷ [])
      ≡ (ExtMsg.register 1 (some (codes "x")) [] [] tt ∷ ExtMsg.result 7 reply [] ∷ [], shut_down))
    × (run_lines {Value = Unit {0}} picky (message (SrvMsg.dispatch request) ∷ [])
        ≡ (ExtMsg.result 7 reply [] ∷ [], input_closed))
    × (run_lines {Value = Unit {0}} picky (
          message (SrvMsg.dispatch (record request { path = [] }))
          ∷ message (SrvMsg.dispatch request)
          ∷ [])
        ≡ ([], failed))
unfolding run_extension run_lines
loop_tests = (refl, refl, refl)
