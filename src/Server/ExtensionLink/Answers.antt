-- ===== src/Server/ExtensionLink/Answers.antt =====
-- crates/whdr-server/src/daemon.rs: from a result that the reader task takes to the dispatch that waits
-- for it and the fan-out.
use whdr.Common.{
  ℕ, ◌<◌, ◌≡◌, refl, List, [], ◌∷◌, Bool, false, not, arith, length, keep, fetch_add,
  fetch_add_exact, word_mod, ap, ◌∙◌, some, get, ok, nat_eq, subst,
}
use whdr.Proto.Messages.{Uuid, HttpReply, Event, ExtMsg}
use whdr.Server.ChannelClaims.Filter.{is_owned, filter_owned_events-keep}
use whdr.Server.DispatchWindow.{DispatchWait, remove_request}
use whdr.Server.Daemon.{Sender}
use whdr.Server.ExtensionLink.{
  ExtensionLink, ExtResult, DispatchLimits, message, read_line, finish_dispatch, owned_events,
  take_result,
}

module _ {ℓ} {A : Type ℓ} (p : A → Bool) where
  keep-keep : (xs : List A) → keep p (keep p xs) ≡ keep p xs
  keep-keep [] = refl
  keep-keep (x ∷ xs) = ground (arith, keep-keep xs)

  none_dropped : (xs : List A) → length (keep (λ x. not (p x)) (keep p xs)) ≡ 0
  none_dropped [] = refl
  none_dropped (x ∷ xs) = ground (arith, none_dropped xs)

-- The events of the link's extension, by its own claims.
abbrev pub owned_by : ExtensionLink → Event → Bool
owned_by link = is_owned link.id link.paths link.channels

owned_events_lem :
    (link : ExtensionLink) (events : List Event)
    → link.namespace_violations < word_mod
    → owned_events link events ≡ (
      record link {
        namespace_violations =
            fetch_add link.namespace_violations (length (keep (λ e. not (owned_by link e)) events));
      },
      keep (owned_by link) events,
    )
unfolding owned_events
owned_events_lem link events v =
    rw
      (filter_owned_events-keep link.id link.paths link.channels link.namespace_violations events v)
      refl

-- Filtering again changes nothing and counts nothing.
owned_events_again :
    (link : ExtensionLink) (events : List Event)
    → link.namespace_violations < word_mod
    → owned_events link (keep (owned_by link) events) ≡ (link, keep (owned_by link) events)
owned_events_again link events v =
    owned_events_lem link (keep (owned_by link) events) v
    ∙ rw
        (
          keep-keep (owned_by link) events,
          none_dropped (owned_by link) events,
          fetch_add_exact link.namespace_violations 0 (omega arith),
        )
        (ap (λ n. (record link { namespace_violations = n }, keep (owned_by link) events))
          (omega arith))

take_result_answers :
    (link : ExtensionLink) (req_id : Uuid) (http : HttpReply) (events : List Event) (tx : Sender)
    → link.namespace_violations < word_mod
    → ((take_result link req_id http events (some tx)).1.answered
        ≡ some (tx, record { http = http; events = keep (owned_by link) events }))
      × ((take_result link req_id http events (some tx)).0 ≡ record link {
        consecutive_timeouts = 0;
        namespace_violations =
            fetch_add link.namespace_violations (length (keep (λ e. not (owned_by link e)) events));
      })
take_result_answers link req_id http events tx v =
    let e = owned_events_lem (record link { consecutive_timeouts = 0 }) events v in
    (ap (λ r. some (tx, record { http = http; events = r.1 })) e, ap (λ r. r.0) e)

abbrev cleared : ExtensionLink → Uuid → ExtensionLink
cleared link req_id = record link { dispatches = (remove_request Sender link.dispatches req_id).0 }

read_line_result :
    (Value : Type 0) (limits : DispatchLimits) (now_ms : ℕ) (link : ExtensionLink) (req_id : Uuid)
    (http : HttpReply) (events : List Event) (tx : Sender)
    → get link.dispatches.pending req_id ≡ some tx
    → read_line {Value = Value} limits now_ms (message (ExtMsg.result req_id http events)) link ≡ (
      (take_result (cleared link req_id) req_id http events (some tx)).0,
      (take_result (cleared link req_id) req_id http events (some tx)).1,
      false,
    )
unfolding read_line remove_request
read_line_result Value limits now_ms link req_id http events tx pending =
    ap
      (λ o. (
        (take_result (cleared link req_id) req_id http events o).0,
        (take_result (cleared link req_id) req_id http events o).1,
        false,
      ))
      pending

finish_dispatch_result :
    (limits : DispatchLimits) (now_ms : ℕ) (answer : ExtResult) (link : ExtensionLink)
    → owned_events link answer.events ≡ (link, answer.events)
    → ((finish_dispatch limits now_ms (DispatchWait.result answer) link).1.fanned_out
        ≡ answer.events)
      × ((finish_dispatch limits now_ms (DispatchWait.result answer) link).2 ≡ ok answer)
      × ((finish_dispatch limits now_ms (DispatchWait.result answer) link).0.namespace_violations
          ≡ link.namespace_violations)
unfolding finish_dispatch
finish_dispatch_result limits now_ms answer link e = (
  ap (λ r. r.1) e,
  ap (λ r. ok (record answer { events = r.1 })) e,
  ap (λ r. r.0.namespace_violations) e,
)

-- A result for a pending request: the dispatch that waits for it is handed the events on channels the
-- extension owns, in their order, with the reply as it was; the others are counted once, modulo
-- 2 ^ 64, and the run of timeouts ends. When that dispatch goes on, whatever other tasks have done to
-- the link meanwhile, it fans out those very events, answers with them, and counts none again.
pub result_fans_out :
    (Value : Type 0) (limits : DispatchLimits) (now_ms later_ms : ℕ) (link later : ExtensionLink)
    (req_id : Uuid) (http : HttpReply) (events : List Event) (tx : Sender)
    → link.namespace_violations < word_mod
    → later.namespace_violations < word_mod
    → later.id ≡ link.id
    → later.paths ≡ link.paths
    → later.channels ≡ link.channels
    → get link.dispatches.pending req_id ≡ some tx
    → (answer : ExtResult) × (answer ≡ record { http = http; events = keep (owned_by link) events })
      × ((read_line {Value = Value} limits now_ms
            (message (ExtMsg.result req_id http events))
            link).1.answered
          ≡ some (tx, answer))
      × ((read_line {Value = Value} limits now_ms
            (message (ExtMsg.result req_id http events))
            link).0.namespace_violations
          ≡ fetch_add link.namespace_violations (length (keep (λ e. not (owned_by link e)) events)))
      × ((read_line {Value = Value} limits now_ms
            (message (ExtMsg.result req_id http events))
            link).0.consecutive_timeouts
          ≡ 0)
      × (((finish_dispatch limits later_ms (DispatchWait.result answer) later).1.fanned_out
            ≡ answer.events)
          × ((finish_dispatch limits later_ms (DispatchWait.result answer) later).2 ≡ ok answer)
          × ((finish_dispatch limits later_ms
                (DispatchWait.result answer)
                later).0.namespace_violations
              ≡ later.namespace_violations))
result_fans_out Value limits now_ms later_ms link later req_id http events tx v w i p c pending =
    let answer : ExtResult = record { http = http; events = keep (owned_by link) events } in
    let read = read_line_result Value limits now_ms link req_id http events tx pending in
    let (a, b) = take_result_answers (cleared link req_id) req_id http events tx v in
    let same : owned_by later ≡ owned_by link = rw (i, p, c) refl in
    let again =
      subst (λ q. owned_events later (keep q events) ≡ (later, keep q events)) same
        (owned_events_again later events w) in
    (
      answer,
      refl,
      ap (λ r. r.1.answered) read ∙ a,
      ap (λ r. r.0.namespace_violations) read ∙ ap (λ l. l.namespace_violations) b,
      ap (λ r. r.0.consecutive_timeouts) read ∙ ap (λ l. l.consecutive_timeouts) b,
      finish_dispatch_result limits later_ms answer later again,
    )
