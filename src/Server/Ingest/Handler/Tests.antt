-- ===== src/Server/Ingest/Handler/Tests.antt =====
-- Requests to a daemon with one extension, and the theorem applied to one of them.
use whdr.Common.{
  ◌≡◌, refl, arith, [], ◌∷◌, none, some, false, Text, codes, Result, ok, err, split, ◌==◌, nat_eq,
  length, if◌then◌else◌,
}
use whdr.Server.Daemon.{ExtHandle, Inner, Reads, at_once, DispatchError, busy, new_state, route}
use whdr.Server.Daemon.Starting.{Registration, new_handle}
use whdr.Server.ExtensionLink.{ExtResult}
use whdr.Server.Ingest.{trim_start_slashes, find_segment, route_key_from_path}
use whdr.Server.Ingest.RouteKey.{at_slash}
use whdr.Server.Ingest.Handler.{
  Http, Response, Request, collect_headers, header_map_to_btree, status_response, retry_response,
  add_headers, http_reply_to_response, error_response, ingest_handler,
}
use whdr.Server.Ingest.Handler.Answers.{Answers, ingest_handler-Answers}

-- A header name of one byte is refused, and so is the status 7.
abbrev http : Http
http = record {
  from_u16 = λ status. if status == 7 then none else some status;
  header_name = λ name. if length name == 1 then none else some name;
  header_value = some;
  text_headers = (codes "content-type", codes "text/plain") ∷ [];
}

abbrev registration : Registration
registration = record { id = codes "github"; paths = codes "gh" ∷ []; channels = [] }

abbrev handle : ExtHandle
handle = new_handle (codes "github") 1 registration

-- `teams` is enabled and does not run.
abbrev state : Inner
state =
    record (new_state (record { enabled = codes "teams" ∷ []; autostart_all = false })
      (record { crashloop_threshold = 5; crashloop_window_ms = 60000 })) {
        claims = record { routes = (codes "gh", codes "github") ∷ []; channel_prefixes = [] };
        extensions = (codes "github", handle) ∷ [];
      }

abbrev reads : Reads
reads = at_once state

-- The extension answers with the headers that it has seen, and is busy for an empty body.
abbrev answer : ExtHandle → Request → Result ExtResult DispatchError
answer h request = elim request.body [
  | [] ↦ err busy
  | b ∷ s ↦
      ok (record {
        http = record { status = b; headers = request.headers; body = h.id };
        events = [];
      })
]

abbrev request : Text → Text → Request
request path body = record {
  method = codes "POST";
  path = path;
  query = none;
  headers =
      (codes "X-Event", codes "push")
      ∷ (codes "b", codes "1")
      ∷ (codes "X-Event", codes "fork")
      ∷ (codes "raw", 200 ∷ [])
      ∷ [];
  body = body;
}

abbrev respond_to : Text → Text → Response
respond_to path body = ingest_handler http 2 reads answer (request path body)

responses :
    (respond_to (codes "//gh/hook") (codes "123") ≡ status_response 413)
    × (respond_to (codes "/") (codes "1") ≡ status_response 404)
    × (respond_to (codes "/other") (codes "1") ≡ status_response 404)
    × (respond_to (codes "/teams") (codes "1") ≡ retry_response)
    × (respond_to (codes "/gh") [] ≡ status_response 429)
    × (respond_to (codes "//gh/hook") (codes "1") ≡ record {
      status = 49;
      headers = (codes "content-type", codes "text/plain") ∷ (codes "x-event", codes "fork") ∷ [];
      body = codes "github";
    })
    × ((respond_to (codes "/gh") (7 ∷ [])).status ≡ 500)
unfolding ingest_handler header_map_to_btree collect_headers error_response http_reply_to_response
    add_headers route route_key_from_path trim_start_slashes find_segment split new_state
responses = (refl, refl, refl, refl, refl, refl, refl)

ingest_handler-Answers_example :
    Answers http reads answer
      (codes "gh")
      (request (codes "//gh/hook") (codes "1"))
      (respond_to (codes "//gh/hook") (codes "1"))
ingest_handler-Answers_example =
    ingest_handler-Answers http 2 reads answer (request (codes "//gh/hook") (codes "1")) 2
      (codes "gh") (codes "/hook") (omega arith) (refl, refl) (at_slash (codes "hook")) refl
