-- ===== src/Server/Ingest/Handler.antt =====
-- The handler of crates/whdr-server/src/ingest.rs, from the path of a request to the response. What
-- the http crate takes for a status and for a header, and the headers that axum gives a text body, are
-- arguments, as is what the handle of an extension answers (Server/ExtensionLink).
pub mod Answers
mod Tests
use whdr.Common.{
  ℕ, List, [], ◌∷◌, map, Option, none, some, Bool, true, false, not, ◌&&◌, ◌||◌, Text, codes,
  Result, ok, err, ◌>>=◌, ◌==◌, nat_eq, text_eq, leb, ltb, if◌then◌else◌, length, insert, all,
  to_ascii_lowercase,
}
use whdr.Proto.Messages.{Headers, HttpReply}
use whdr.Server.Daemon.{
  ExtHandle, Reads, DispatchError, busy, starting, timeout, dead, not_found, route,
}
use whdr.Server.ExtensionLink.{ExtResult}
use whdr.Server.Ingest.{route_key_from_path}

pub record Http : Type 0 where
  pub from_u16 : ℕ → Option ℕ
  pub header_name : Text → Option Text
  pub header_value : Text → Option Text
  pub text_headers : Headers

pub record Response : Type 0 where
  pub status : ℕ
  pub headers : Headers
  pub body : Text

-- A request; a name may have several headers, whose values are any bytes.
pub record Request : Type 0 where
  pub method : Text
  pub path : Text
  pub query : Option Text
  pub headers : Headers
  pub body : Text

-- `HeaderValue::to_str` gives a text of visible bytes, spaces and tabs.
abbrev pub is_visible : ℕ → Bool
is_visible b = (leb 32 b && ltb b 127) || b == b'\t'

-- The map keeps the last value of a name.
unfoldable pub collect_headers : Headers → Headers → Headers
collect_headers collected [] = collected
collect_headers collected ((name, value) ∷ headers) =
    collect_headers
      (if all is_visible value
        then insert collected (map to_ascii_lowercase name) value
        else collected)
      headers

unfoldable pub header_map_to_btree : Headers → Headers
header_map_to_btree headers = collect_headers [] headers

-- `StatusCode::into_response`
abbrev pub status_response : ℕ → Response
status_response status = record { status = status; headers = []; body = [] }

abbrev pub retry_response : Response
retry_response = record (status_response 503) { headers = (codes "retry-after", codes "1") ∷ [] }

unfoldable pub error_response : DispatchError → Response
error_response busy = status_response 429
error_response starting = retry_response
error_response timeout = status_response 504
error_response dead = status_response 503
error_response not_found = status_response 404

module _ (http : Http) where
  abbrev pub add_header : Headers → Option Text → Option Text → Headers
  add_header headers (some name) (some value) = insert headers name value
  add_header headers (some name) none = headers
  add_header headers none value = headers

  unfoldable pub add_headers : Headers → Headers → Headers
  add_headers headers [] = headers
  add_headers headers ((name, value) ∷ rest) =
      add_headers (add_header headers (http.header_name name) (http.header_value value)) rest

  abbrev pub status_or_500 : Option ℕ → ℕ
  status_or_500 none = 500
  status_or_500 (some status) = status

  unfoldable pub http_reply_to_response : HttpReply → Response
  http_reply_to_response reply = record {
    status = status_or_500 (http.from_u16 reply.status);
    headers = add_headers http.text_headers reply.headers;
    body = reply.body;
  }

  abbrev pub respond : Result ExtResult DispatchError → Response
  respond (ok result) = http_reply_to_response result.http
  respond (err e) = error_response e

  -- `AppState::dispatch`
  abbrev pub dispatch :
      Reads
      → (answer : ExtHandle → Request → Result ExtResult DispatchError) → (route_key : Text)
      → Request
      → Result ExtResult DispatchError
  dispatch reads answer route_key request =
      route reads route_key >>= λ handle. answer handle request

  unfoldable pub ingest_handler :
      (max_body_bytes : ℕ) (reads : Reads)
      (answer : ExtHandle → Request → Result ExtResult DispatchError)
      → Request
      → Response
  ingest_handler max_body_bytes reads answer request =
      if ltb max_body_bytes (length request.body)
      then status_response 413
      else elim (route_key_from_path request.path) [
        | none ↦ status_response 404
        | some route_key ↦ respond (
            dispatch reads answer route_key
              (record request { headers = header_map_to_btree request.headers }))
      ]
