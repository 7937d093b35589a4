-- ===== src/Server/OutboundQueue/Tests.antt =====
-- Runs of the outbound queue, and its theorems at concrete queues.
use whdr.Common.{◌≡◌, refl, [], ◌∷◌, Option, some, none, Text, codes, false, fetch_add}
use whdr.Proto.Messages.{SubServerMsg}
use whdr.Server.OutboundQueue.{OutboundQueue, Frame, push_event, event_frame, evict, over_budget}
use whdr.Server.OutboundQueue.Accounting.{
  run, start, IsAccounted, pushes, pops, takes_lag, run-start-IsAccounted,
}

abbrev encode : SubServerMsg → Option Text
encode (SubServerMsg.welcome name) = some name
encode _ = none

abbrev welcome_frame : Frame
welcome_frame = record { text = codes "w"; closing = false; is_event = false }

-- Two events, and a control frame between them, in a queue for two.
abbrev full : OutboundQueue
full = record {
  inner = event_frame (codes "one") ∷ welcome_frame ∷ event_frame (codes "two") ∷ [];
  max_events = 2;
  max_event_bytes = 100;
  delivered = 0;
  dropped = 0;
  lag_pending = 0;
}

-- The oldest event goes.
push_full : push_event full (codes "three") ≡ record full {
  inner = welcome_frame ∷ event_frame (codes "two") ∷ event_frame (codes "three") ∷ [];
  dropped = 1;
  lag_pending = 1;
}
unfolding push_event evict over_budget fetch_add
push_full = refl

run-start-IsAccounted_example :
    IsAccounted (
      run encode
        (start 1 100)
        (pushes (codes "one") ∷ pushes (codes "two") ∷ takes_lag ∷ pops ∷ []))
run-start-IsAccounted_example =
    run-start-IsAccounted encode 1 100
      (pushes (codes "one") ∷ pushes (codes "two") ∷ takes_lag ∷ pops ∷ [])
