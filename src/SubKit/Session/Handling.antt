-- ===== src/SubKit/Session/Handling.antt =====
-- Each message of the server keeps the progress of the cursor.
use whdr.Common.{
  ℕ, ◌<◌, ◌≡◌, refl, List, [], ◌∷◌, ◌++◌, Option, Bool, true, false, Text, codes, ◌==◌, nat_eq,
  text_eq, arith, Bool-cases, inl, inr,
}
use whdr.Proto.Messages.{SubServerMsg}
use whdr.SubKit.Resume.{ResumeState, new, should_process, record_event}
use whdr.SubKit.Resume.Window.{record_event_cursor}
use whdr.SubKit.Session.{
  Error, Call, on_event, on_replayed, on_replay_gap, on_lagged, on_replay_unavailable, save, World,
  DeliveredEvent, Next, goes_on, ends, called, attempt_call, handle_event, commit_event,
  handle_message, ends_after, is_over, is_fatal,
}
use whdr.SubKit.Session.Ascent.{
  Progress, Outcome, Outcome-of_Progress, Quiet, called-Progress, failed-Outcome,
  committed-Progress,
}

module _ (env : List Call → Call → Bool) (parse_frame : Text → Option SubServerMsg)
    (start : ℕ) where
  abbrev pub Holds : World × Next → Type 0
  Holds (w, goes_on) = Progress env start w
  Holds (w, ends r) =
      Outcome env start w × (is_over env parse_frame r ≡ false → Progress env start w)

  attempt-Holds :
      (w : World) (c : Call) (e : Error)
      → Quiet env c
      → Progress env start w
      → Holds (attempt_call env parse_frame w c e)
  attempt-Holds w c e q p = elim (Bool-cases (env w.calls c)) [
    | inl good ↦ rw good (called-Progress env start w.attempt w c q p)
    | inr bad ↦
        let p' = called-Progress env start w.attempt w c q p in
        rw bad (Outcome-of_Progress env start _ p', λ _. p')
  ]

  commit-Holds :
      (w : World) (event : DeliveredEvent)
      → w.resume.cursor < event.seq
      → env w.calls (on_event event) ≡ true
      → Progress env start w
      → Holds (commit_event env parse_frame (called env parse_frame w (on_event event)) event)
  commit-Holds w event new h p =
      elim (Bool-cases (env (w.calls ++ on_event event ∷ []) (save resume.cursor))) [
        | inl good ↦ rw good done
        | inr bad ↦ rw bad (Outcome-of_Progress env start _ done, λ _. done)
      ]
    where
      resume : ResumeState
      resume = record_event w.resume event.id event.seq

      done : Progress env start (record w {
        resume = resume;
        calls = (w.calls ++ on_event event ∷ []) ++ save resume.cursor ∷ [];
      })
      done =
          committed-Progress env start w event resume new
            (omega (arith, record_event_cursor w.resume event.id event.seq)) h p

  handle_event-Holds :
      (w : World) (event : DeliveredEvent)
      → Progress env start w
      → Holds (handle_event env parse_frame w event)
  unfolding should_process is_fatal
  handle_event-Holds w event p = elim (Bool-cases (should_process w.resume event.id event.seq)) [
    | inr old ↦ rw old p
    | inl new ↦ elim (Bool-cases (env w.calls (on_event event))) [
      | inr bad ↦ rw (new, bad) (failed-Outcome env start w event (ground arith) bad p, λ f. cc)
      | inl good ↦ rw (new, good) (commit-Holds w event (ground arith) good p)
    ]
  ]

  ends_after-Holds : (r : World × Next) → Holds r → Holds (ends_after env parse_frame r)
  ends_after-Holds (w, goes_on) h = (Outcome-of_Progress env start w h, λ _. h)
  ends_after-Holds (w, ends r) h = h

  pub handle_message-Holds :
      (w : World) (msg : SubServerMsg)
      → Progress env start w
      → Holds (handle_message env parse_frame w msg)
  unfolding handle_message
  handle_message-Holds w (SubServerMsg.event id seq ts_ms channel payload_b64) p =
      handle_event-Holds w _ p
  handle_message-Holds w (SubServerMsg.replayed through_seq) p =
      attempt-Holds w (on_replayed through_seq) Error.handler (refl, refl) p
  handle_message-Holds w (SubServerMsg.replay_gap from_seq earliest_seq) p =
      attempt-Holds w (on_replay_gap from_seq earliest_seq) Error.handler (refl, refl) p
  handle_message-Holds w (SubServerMsg.lagged dropped) p =
      ends_after-Holds (attempt_call env parse_frame w (on_lagged dropped) Error.handler)
        (attempt-Holds w (on_lagged dropped) Error.handler (refl, refl) p)
  handle_message-Holds w (SubServerMsg.error op msg) p = elim (Bool-cases (op == codes "replay")) [
    | inl good ↦ rw good (attempt-Holds w (on_replay_unavailable msg) Error.handler (refl, refl) p)
    | inr bad ↦ rw bad p
  ]
  handle_message-Holds w (SubServerMsg.closing reason) p =
      (Outcome-of_Progress env start w p, λ _. p)
  handle_message-Holds w (SubServerMsg.welcome name) p = p
  handle_message-Holds w (SubServerMsg.ok op) p = p
  handle_message-Holds w SubServerMsg.pong p = p
