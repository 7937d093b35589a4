-- ===== src/SubKit/Session/Fatal.antt =====
-- crates/whdr-sub-kit/src/lib.rs and error.rs: which errors end the client, and which it reconnects on.
use whdr.Common.{
  ℕ, List, [], ◌∷◌, Option, none, some, Text, Bool, true, false, Result, ◌≢◌, ◌==◌, nat_eq,
  nat_beq_iff, if◌then◌else◌, ok, err, ◌≡◌, refl,
}
use mathlib.Core.Option.{some-injective}
use whdr.Proto.Messages.{SubServerMsg}
use whdr.SubKit.Session.{
  Error, Call, World, Message, initial, is_fatal, is_over, run, run_session, map_connect_error,
  next_attempt, load_and_run,
}

-- The errors that the comments of error.rs call fatal, and the rest.
pub data Fatal : Error → Type 0 where
  token_refused : Fatal Error.auth
  token_revoked : Fatal Error.revoked
  handler_failed : Fatal Error.handler
  store_failed : Fatal Error.cursor_store
  bad_request : (msg : Text) → Fatal (Error.request msg)

pub data Transient : Error → Type 0 where
  http_status : (status : ℕ) → Transient (Error.http status)
  transport_failed : Transient Error.transport
  stream_closed : Transient Error.connection_closed

-- A connection that the network offers: the status of an upgrade that failed, or the stream.
abbrev Connection : Type 0
Connection = Result (List (Option Message)) (Option ℕ)

module _ (env : List Call → Call → Bool) (parse_frame : Text → Option SubServerMsg)
    (patterns : List Text) where
  -- The sessions one after another, and how they come to an end.
  pub data Runs : World → List Connection → World × Option (Result (Unit {0}) Error) → Type 0 where
    waits : {w : World} → Runs w [] (w, none)
    unauthorized :
        {w : World} {cs : List Connection} (status : ℕ)
        → status ≡ 401
        → Runs w (err (some status) ∷ cs) (w, some (err Error.auth))
    not_open :
        {w : World} {cs : List Connection} {answer : World × Option (Result (Unit {0}) Error)}
        (status : Option ℕ)
        → status ≢ some 401
        → Runs (next_attempt env parse_frame w) cs answer
        → Runs w (err status ∷ cs) answer
    stops :
        {w : World} {items : List (Option Message)} {cs : List Connection} (w' : World) (e : Error)
        → run_session env parse_frame patterns w (ok items) ≡ (w', err e)
        → Fatal e
        → Runs w (ok items ∷ cs) (w', some (err e))
    reconnects :
        {w : World} {items : List (Option Message)} {cs : List Connection}
        {answer : World × Option (Result (Unit {0}) Error)} (w' : World) (e : Error)
        → run_session env parse_frame patterns w (ok items) ≡ (w', err e)
        → Transient e
        → Runs (next_attempt env parse_frame w') cs answer
        → Runs w (ok items ∷ cs) answer
    resumes :
        {w : World} {items : List (Option Message)} {cs : List Connection}
        {answer : World × Option (Result (Unit {0}) Error)} (w' : World)
        → run_session env parse_frame patterns w (ok items) ≡ (w', ok tt)
        → Runs (next_attempt env parse_frame w') cs answer
        → Runs w (ok items ∷ cs) answer

  pub data Loads (capacity : ℕ) (cs : List Connection)
      : Result ℕ Error → List Call × Option (Result (Unit {0}) Error) → Type 0 where
    load_failed : (e : Error) → Loads capacity cs (err e) ([], some (err e))
    loaded :
        (cursor : ℕ) (w : World) (answer : Option (Result (Unit {0}) Error))
        → Runs (initial cursor capacity) cs (w, answer)
        → Loads capacity cs (ok cursor) (w.calls, answer)

  after_session :
      (w : World) (items : List (Option Message)) (cs : List Connection)
      (p : World × Result (Unit {0}) Error)
      → run_session env parse_frame patterns w (ok items) ≡ p
      → ((w : World) → Runs w cs (run env parse_frame patterns w cs))
      → Runs w (ok items ∷ cs) (elim (is_over env parse_frame p.1) [
        | true ↦ (p.0, some p.1)
        | false ↦ run env parse_frame patterns (next_attempt env parse_frame p.0) cs
      ])
  unfolding is_fatal
  after_session w items cs (w', ok u) s rest = resumes w' s (rest (next_attempt env parse_frame w'))
  after_session w items cs (w', err Error.auth) s rest = stops w' Error.auth s token_refused
  after_session w items cs (w', err Error.revoked) s rest = stops w' Error.revoked s token_revoked
  after_session w items cs (w', err Error.handler) s rest = stops w' Error.handler s handler_failed
  after_session w items cs (w', err Error.cursor_store) s rest =
      stops w' Error.cursor_store s store_failed
  after_session w items cs (w', err (Error.request msg)) s rest =
      stops w' (Error.request msg) s (bad_request msg)
  after_session w items cs (w', err (Error.http status)) s rest =
      reconnects w' (Error.http status) s (http_status status)
        (rest (next_attempt env parse_frame w'))
  after_session w items cs (w', err Error.transport) s rest =
      reconnects w' Error.transport s transport_failed (rest (next_attempt env parse_frame w'))
  after_session w items cs (w', err Error.connection_closed) s rest =
      reconnects w' Error.connection_closed s stream_closed (rest (next_attempt env parse_frame w'))

  after_status :
      (w : World) (status : ℕ) (cs : List Connection) (b : Bool)
      → (status == 401) ≡ b
      → ((w : World) → Runs w cs (run env parse_frame patterns w cs))
      → Runs w
          (err (some status) ∷ cs)
          (elim (is_over env parse_frame (err (if b then Error.auth else Error.http status))) [
            | true ↦ (w, some (err (if b then Error.auth else Error.http status)))
            | false ↦ run env parse_frame patterns (next_attempt env parse_frame w) cs
          ])
  unfolding is_fatal
  after_status w status cs true h rest = unauthorized status ((nat_beq_iff status 401).0 h)
  after_status w status cs false h rest =
      not_open (some status)
        (λ e. let same = (nat_beq_iff status 401).1 (some-injective status 401 e) in cc)
        (rest (next_attempt env parse_frame w))

  after_upgrade :
      (w : World) (status : Option ℕ) (cs : List Connection)
      → ((w : World) → Runs w cs (run env parse_frame patterns w cs))
      → Runs w (err status ∷ cs) (run env parse_frame patterns w (err status ∷ cs))
  unfolding run run_session map_connect_error is_fatal
  after_upgrade w none cs rest = not_open none (λ e. cc) (rest (next_attempt env parse_frame w))
  after_upgrade w (some status) cs rest = after_status w status cs (status == 401) refl rest

  run-Runs : (cs : List Connection) (w : World) → Runs w cs (run env parse_frame patterns w cs)
  unfolding run
  run-Runs [] w = waits
  run-Runs (err status ∷ cs) w = after_upgrade w status cs (run-Runs cs)
  run-Runs (ok items ∷ cs) w =
      after_session w items cs (run_session env parse_frame patterns w (ok items)) refl
        (run-Runs cs)

-- The client over any connections: where the cursor cannot be loaded, it returns that error at once and
-- makes no call. Otherwise it takes one connection after another. It stops where the upgrade is answered
-- 401, and with the first session that ends in a refused or revoked token, a failure of the handler or
-- of the cursor store, or an invalid request, and returns that error; after every other end, be it
-- another failure of the upgrade, a transport error, a closed stream, or a session that ended without an
-- error, it goes on with the next connection.
pub load_and_run-Loads :
    (env : List Call → Call → Bool) (parse_frame : Text → Option SubServerMsg)
    (patterns : List Text) (load : Result ℕ Error) (capacity : ℕ) (cs : List Connection)
    → Loads env parse_frame patterns capacity cs load
        (load_and_run env parse_frame patterns load capacity cs)
unfolding load_and_run
load_and_run-Loads env parse_frame patterns (err e) capacity cs = load_failed e
load_and_run-Loads env parse_frame patterns (ok cursor) capacity cs =
    let (w, answer) = run env parse_frame patterns (initial cursor capacity) cs in
    loaded cursor w answer (run-Runs env parse_frame patterns cs (initial cursor capacity))
