-- ===== src/SubKit/Session/Tests.antt =====
-- Runs of the client on concrete frames, and its theorems at them.
use whdr.Common.{
  ℕ, zero, suc, ◌+◌, ◌≡◌, refl, List, [], ◌∷◌, Option, some, none, Text, codes, Bool, true, Result,
  ok, err,
}
use whdr.Proto.Messages.{SubServerMsg, ClosingReason}
use whdr.SubKit.Resume.{new, should_process, record_event}
use whdr.SubKit.Session.{
  Call, Message, Error, map_connect_error, initial, subscribe_msg, run, run_session, session_loop,
  load_and_run, await_welcome, receive, classify, handle_message, is_fatal, closing_is_fatal,
}
use whdr.SubKit.Session.Ascent.{Ascending, seqs, saves, succeeded}
use whdr.SubKit.Session.Run.{run_ascends}
use whdr.SubKit.Session.Fatal.{Loads, load_and_run-Loads}

-- Every call succeeds.
abbrev willing : List Call → Call → Bool
willing past call = true

-- The frames `[]` and `[0]` are a welcome and a revocation, `[n]` is an event numbered `n`.
abbrev parse : Text → Option SubServerMsg
parse [] = some (SubServerMsg.welcome (codes "project"))
parse (zero ∷ []) = some (SubServerMsg.closing ClosingReason.revoked)
parse (suc n ∷ []) = some (SubServerMsg.event (n + 100) (suc n) 1500 (codes "a") [])
parse _ = none

abbrev frames : List ℕ → List (Option Message)
frames [] = []
frames (n ∷ ns) = some (Message.text (n ∷ [])) ∷ frames ns

-- A connection with a replay that overlaps, and one that ends with a revocation.
abbrev connections : List (Result (List (Option Message)) (Option ℕ))
connections =
    ok (some (Message.text []) ∷ frames (4 ∷ 5 ∷ 5 ∷ 7 ∷ []))
    ∷ err (some 503)
    ∷ ok (some (Message.text []) ∷ frames (5 ∷ 7 ∷ 9 ∷ 0 ∷ []))
    ∷ []

handled_once :
    (seqs (run willing parse [] (initial 4 10) connections).0.calls ≡ 5 ∷ 7 ∷ 9 ∷ [])
    × (saves (run willing parse [] (initial 4 10) connections).0.calls ≡ 5 ∷ 7 ∷ 9 ∷ [])
    × ((run willing parse [] (initial 4 10) connections).1 ≡ some (err Error.revoked))
unfolding run run_session session_loop await_welcome receive classify handle_message is_fatal
    closing_is_fatal subscribe_msg should_process record_event new map_connect_error
handled_once = (refl, refl, refl)

run_ascends_example :
    Ascending 4 (seqs (run willing parse [] (initial 4 10) connections).0.calls)
    × (saves (run willing parse [] (initial 4 10) connections).0.calls
        ≡ succeeded willing [] (run willing parse [] (initial 4 10) connections).0.calls)
run_ascends_example = run_ascends willing parse [] 4 10 connections

load_and_run-Loads_example :
    Loads willing parse [] 10 connections
      (ok 4)
      (load_and_run willing parse [] (ok 4) 10 connections)
load_and_run-Loads_example = load_and_run-Loads willing parse [] (ok 4) 10 connections
