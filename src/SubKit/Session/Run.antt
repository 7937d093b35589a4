-- ===== src/SubKit/Session/Run.antt =====
-- The loops of the client keep the progress of the cursor, whatever the server sends.
use whdr.Common.{
  ℕ, ◌≡◌, refl, sym, subst, List, [], ◌∷◌, ◌++◌, Option, none, some, Bool, true, false, Text,
  Result, ok, err, nat_eq, text_eq, arith, Bool-cases, inl, inr,
}
use whdr.Proto.Messages.{SubServerMsg}
use whdr.SubKit.Resume.{new}
use whdr.SubKit.Session.{
  Error, Call, send, send_pong, World, initial, Message, Received, message, skipped, failed, Next,
  goes_on, ends, receive, handle_message, receive_action, connected, next_attempt, session_loop,
  await_welcome, run_session, run, subscribed, is_over, is_welcome, is_fatal, subscribe_msg,
  classify, WsAction,
}
use whdr.SubKit.Session.Ascent.{
  Ascending, seqs, saves, succeeded, Progress, Outcome, Outcome-of_Progress, called-Progress,
}
use whdr.SubKit.Session.Handling.{Holds, handle_message-Holds}

module _ (env : List Call → Call → Bool) (parse_frame : Text → Option SubServerMsg)
    (start : ℕ) where
  abbrev Finished : (A : Type 0) → World × Result A Error → Type 0
  Finished A (w, ok a) = Progress env start w
  Finished A (w, err e) = Outcome env start w × (is_fatal e ≡ false → Progress env start w)

  receive-Progress :
      (w : World) (item : Option Message)
      → Progress env start w
      → Progress env start (receive env parse_frame w item).0
  unfolding receive
  receive-Progress w none p = p
  receive-Progress w (some m) p = by_action (classify m)
    where
      by_action : (a : WsAction) → Progress env start (receive_action env parse_frame w a).0
      by_action (WsAction.text t) = p
      by_action (WsAction.pong payload) =
          called-Progress env start w.attempt w (send_pong payload) (refl, refl) p
      by_action WsAction.closed = p
      by_action WsAction.ignore = p

  session_loop-Finished :
      (w : World) (items : List (Option Message))
      → Progress env start w
      → Finished Unit (session_loop env parse_frame w items)
  unfolding session_loop
  session_loop-Finished w [] p = (Outcome-of_Progress env start w p, λ _. p)
  session_loop-Finished w (item ∷ items) p =
      by_received (λ v. session_loop-Finished v items) (receive env parse_frame w item)
        (receive-Progress w item p)
    where
      by_next :
          ((v : World)
            → Progress env start v
            → Finished Unit (session_loop env parse_frame v items))
          → (r : World × Next) → Holds env parse_frame start r
          → Finished Unit (elim r.1 [
            | goes_on ↦ session_loop env parse_frame r.0 items
            | ends result ↦ (r.0, result)
          ])
      by_next rest (v, goes_on) h = rest v h
      by_next rest (v, ends (ok u)) h = h.1 refl
      by_next rest (v, ends (err e)) h = h

      by_received :
          ((v : World)
            → Progress env start v
            → Finished Unit (session_loop env parse_frame v items))
          → (r : World × Received) → Progress env start r.0
          → Finished Unit (elim r.1 [
            | failed e ↦ (r.0, err e)
            | skipped ↦ session_loop env parse_frame r.0 items
            | message msg ↦
                let (v, next) = handle_message env parse_frame r.0 msg in
                elim next [
                  | goes_on ↦ session_loop env parse_frame v items
                  | ends result ↦ (v, result)
                ]
          ])
      by_received rest (v, failed e) q = (Outcome-of_Progress env start v q, λ _. q)
      by_received rest (v, skipped) q = rest v q
      by_received rest (v, message msg) q =
          by_next rest (handle_message env parse_frame v msg)
            (handle_message-Holds env parse_frame start v msg q)

  await_welcome-Finished :
      (w : World) (items : List (Option Message))
      → Progress env start w
      → Finished (List (Option Message)) (await_welcome env parse_frame w items)
  unfolding await_welcome
  await_welcome-Finished w [] p = (Outcome-of_Progress env start w p, λ _. p)
  await_welcome-Finished w (item ∷ items) p =
      by_received (λ v. await_welcome-Finished v items) (receive env parse_frame w item)
        (receive-Progress w item p)
    where
      by_received :
          ((v : World)
            → Progress env start v
            → Finished (List (Option Message)) (await_welcome env parse_frame v items))
          → (r : World × Received) → Progress env start r.0
          → Finished (List (Option Message)) (elim r.1 [
            | failed e ↦ (r.0, err e)
            | skipped ↦ await_welcome env parse_frame r.0 items
            | message msg ↦ elim (is_welcome msg) [
              | true ↦ (r.0, ok items)
              | false ↦ await_welcome env parse_frame r.0 items
            ]
          ])
      by_received rest (v, failed e) q = (Outcome-of_Progress env start v q, λ _. q)
      by_received rest (v, skipped) q = rest v q
      by_received rest (v, message msg) q = elim (Bool-cases (is_welcome msg)) [
        | inl first ↦ rw first q
        | inr other ↦ rw other (rest v q)
      ]

  subscribed-Finished :
      (patterns : List Text) (w : World) (items : List (Option Message))
      → Progress env start w
      → Finished Unit (subscribed env parse_frame patterns w items)
  subscribed-Finished patterns w items p =
      elim (Bool-cases (env w.calls (send (subscribe_msg patterns (some w.resume.cursor))))) [
        | inl good ↦ rw good (session_loop-Finished _ items sent)
        | inr bad ↦ rw bad (Outcome-of_Progress env start _ sent, λ _. sent)
      ]
    where
      sent : Progress env start (record w {
        attempt = 0;
        calls = w.calls ++ send (subscribe_msg patterns (some w.resume.cursor)) ∷ [];
      })
      sent =
          called-Progress env start 0 w (send (subscribe_msg patterns (some w.resume.cursor)))
            (refl, refl) p

  connected-Finished :
      (patterns : List Text) (r : World × Result (List (Option Message)) Error)
      → Finished (List (Option Message)) r
      → Finished Unit (connected env parse_frame patterns r)
  connected-Finished patterns (w, err e) h = h
  connected-Finished patterns (w, ok items) h = subscribed-Finished patterns w items h

  run_session-Finished :
      (patterns : List Text) (w : World) (c : Result (List (Option Message)) (Option ℕ))
      → Progress env start w
      → Finished Unit (run_session env parse_frame patterns w c)
  unfolding run_session
  run_session-Finished patterns w (err status) p = (Outcome-of_Progress env start w p, λ _. p)
  run_session-Finished patterns w (ok items) p =
      connected-Finished patterns (await_welcome env parse_frame w items)
        (await_welcome-Finished w items p)

  next_attempt-Progress :
      (w : World) → Progress env start w → Progress env start (next_attempt env parse_frame w)
  next_attempt-Progress w p = record { ascending = p.ascending; saved_eq = p.saved_eq }

  run-Outcome :
      (patterns : List Text) (w : World) (cs : List (Result (List (Option Message)) (Option ℕ)))
      → Progress env start w
      → Outcome env start (run env parse_frame patterns w cs).0
  unfolding run
  run-Outcome patterns w [] p = Outcome-of_Progress env start w p
  run-Outcome patterns w (c ∷ cs) p =
      by_session (λ v. run-Outcome patterns (next_attempt env parse_frame v) cs)
        (run_session env parse_frame patterns w c) (run_session-Finished patterns w c p)
    where
      continued : Bool → Result (Unit {0}) Error → World → World × Option (Result (Unit {0}) Error)
      continued over result v = elim over [
        | true ↦ (v, some result)
        | false ↦ run env parse_frame patterns (next_attempt env parse_frame v) cs
      ]

      by_session :
          ((v : World)
            → Progress env start (next_attempt env parse_frame v)
            → Outcome env start
                (run env parse_frame patterns (next_attempt env parse_frame v) cs).0)
          → (r : World × Result Unit Error) → Finished Unit r
          → Outcome env start (continued (is_over env parse_frame r.1) r.1 r.0).0
      by_session rest (v, ok u) h = rest v (next_attempt-Progress v h)
      by_session rest (v, err e) h = elim (Bool-cases (is_over env parse_frame (err e))) [
        | inl over ↦ subst (λ b. Outcome env start (continued b (err e) v).0) (sym over) h.0
        | inr more ↦
            subst (λ b. Outcome env start (continued b (err e) v).0) (sym more)
              (rest v (next_attempt-Progress v (h.1 more)))
      ]

-- The client over any connections, whatever the server sends and whichever calls fail: the numbers of
-- the events handed to the handler go up strictly and lie above the cursor it started from, so no
-- number is handed over twice; and the cursors handed to the store are the numbers of the events on
-- which the handler succeeded, in their order.
pub run_ascends :
    (env : List Call → Call → Bool) (parse_frame : Text → Option SubServerMsg)
    (patterns : List Text) (cursor capacity : ℕ)
    (cs : List (Result (List (Option Message)) (Option ℕ)))
    → Ascending cursor (seqs (run env parse_frame patterns (initial cursor capacity) cs).0.calls)
      × (saves (run env parse_frame patterns (initial cursor capacity) cs).0.calls
          ≡ succeeded env [] (run env parse_frame patterns (initial cursor capacity) cs).0.calls)
unfolding new
run_ascends env parse_frame patterns cursor capacity cs =
    let r =
      run-Outcome env parse_frame cursor patterns (initial cursor capacity) cs
        (record { ascending = omega arith; saved_eq = refl }) in
    (r.ascending, r.saved_eq)
