-- ===== src/Server/Ingest/Handler/Answers.antt =====
-- The responses of crates/whdr-server/src/ingest.rs, by what the path names: what an extension is sent,
-- and what its reply or an error is as a response.
use whdr.Common.{
  ℕ, ◌≤◌, arith, ◌≡◌, refl, ap, ◌∙◌, ◌++◌, [], ◌∷◌, map, Option, none, some, Bool, true, false,
  ◌&&◌, ◌||◌, Text, codes, Result, ok, err, leb, ltb, length, get, insert, get-insert, all,
  if◌then◌else◌, ◌==◌, nat_eq, text_eq, to_ascii_lowercase, inl, inr, Bool-cases, Option-cases,
}
use whdr.Proto.Messages.{Headers, HttpReply}
use whdr.Server.Daemon.{
  ExtHandle, DispatchError, busy, starting, timeout, dead, not_found, Reads, route,
}
use whdr.Server.Daemon.Routing.{IsKnown, is_known, is_known-IsKnown, IsKnown-is_known}
use whdr.Server.ExtensionLink.{ExtResult}
use whdr.Server.Ingest.{route_key_from_path}
use whdr.Server.Ingest.RouteKey.{slashes, IsSegment, EndsSegment, route_key_of_segment}
use whdr.Server.Ingest.Handler.{
  Http, Response, Request, is_visible, add_header, collect_headers, header_map_to_btree,
  add_headers, http_reply_to_response, error_response, ingest_handler, status_or_500, respond,
  dispatch,
}

-- The first of two, where it is there.
abbrev or_else : Option Text → Option Text → Option Text
or_else (some v) o = some v
or_else none o = o

-- The value of the last header with the name, in lower case, whose value is visible ASCII or tabs.
abbrev pub last_visible : (name : Text) → Headers → Option Text
last_visible name [] = none
last_visible name ((n, v) ∷ headers) = or_else (last_visible name headers) (
    if all (λ b. (leb 32 b && ltb b 127) || b == b'\t') v && map to_ascii_lowercase n == name
    then some v
    else none)

-- The request as the extension gets it.
pub record IsForwarded (request sent : Request) : Type 0 where
  pub method : sent.method ≡ request.method
  pub path : sent.path ≡ request.path
  pub query : sent.query ≡ request.query
  pub body : sent.body ≡ request.body
  pub headers : (name : Text) → get sent.headers name ≡ last_visible name request.headers

abbrev named_value : (name : Text) → Option Text → Option Text → Option Text
named_value name (some n) (some v) = if n == name then some v else none
named_value name (some n) none = none
named_value name none v = none

-- The value of the last header of a reply with the name, of those that the http crate accepts.
abbrev pub last_accepted : Http → (name : Text) → Headers → Option Text
last_accepted http name [] = none
last_accepted http name ((n, v) ∷ headers) =
    or_else (last_accepted http name headers)
      (named_value name (http.header_name n) (http.header_value v))

-- A reply as a response: its body, its status or 500, and its headers over those of a text body.
pub record IsReply (http : Http) (reply : HttpReply) (response : Response) : Type 0 where
  pub status :
      response.status ≡ (elim (http.from_u16 reply.status) [ none ↦ 500 | some status ↦ status ])
  pub body : response.body ≡ reply.body
  pub headers :
      (name : Text)
      → get response.headers name
        ≡ or_else (last_accepted http name reply.headers) (get http.text_headers name)

abbrev empty_response : (status : ℕ) → Headers → Response
empty_response status headers = record { status = status; headers = headers; body = [] }

abbrev pub retry_later : Response
retry_later = empty_response 503 ((codes "retry-after", codes "1") ∷ [])

pub data IsRefusal : DispatchError → Response → Type 0 where
  too_many : IsRefusal busy (empty_response 429 [])
  not_yet : IsRefusal starting retry_later
  too_slow : IsRefusal timeout (empty_response 504 [])
  has_died : IsRefusal dead (empty_response 503 [])
  no_route : IsRefusal not_found (empty_response 404 [])

-- The response to a request whose path names the key, with the states that the locks have found.
pub data Answers (http : Http) (reads : Reads)
    (answer : ExtHandle → Request → Result ExtResult DispatchError) (key : Text) (request : Request)
    (response : Response) : Type 0 where
  unknown_key :
      get reads.at_routes.claims.routes key ≡ none
      → ¬ IsKnown reads key
      → response ≡ empty_response 404 []
      → Answers http reads answer key request response
  known_key :
      get reads.at_routes.claims.routes key ≡ none
      → IsKnown reads key
      → response ≡ retry_later
      → Answers http reads answer key request response
  owner_left :
      (owner : Text)
      → get reads.at_routes.claims.routes key ≡ some owner
      → get reads.at_extensions.extensions owner ≡ none
      → response ≡ retry_later
      → Answers http reads answer key request response
  replied :
      (owner : Text) (h : ExtHandle) (sent : Request) (result : ExtResult)
      → get reads.at_routes.claims.routes key ≡ some owner
      → get reads.at_extensions.extensions owner ≡ some h
      → IsForwarded request sent
      → answer h sent ≡ ok result
      → IsReply http result.http response
      → Answers http reads answer key request response
  refused :
      (owner : Text) (h : ExtHandle) (sent : Request) (e : DispatchError)
      → get reads.at_routes.claims.routes key ≡ some owner
      → get reads.at_extensions.extensions owner ≡ some h
      → IsForwarded request sent
      → answer h sent ≡ err e
      → IsRefusal e response
      → Answers http reads answer key request response

or_else_assoc : (a b c : Option Text) → or_else a (or_else b c) ≡ or_else (or_else a b) c
or_else_assoc (some v) b c = refl
or_else_assoc none b c = refl

if-or_else :
    (x : Bool) (v : Text) (o : Option Text)
    → (if x then some v else o) ≡ or_else (if x then some v else none) o
if-or_else true v o = refl
if-or_else false v o = refl

get-insert_if :
    (x : Bool) (m : Headers) (k v name : Text)
    → get (if x then insert m k v else m) name
      ≡ or_else (if x && k == name then some v else none) (get m name)
get-insert_if true m k v name = get-insert m k name v ∙ if-or_else (k == name) v (get m name)
get-insert_if false m k v name = refl

get-add_header :
    (http : Http) (name : Text) (m : Headers) (n v : Option Text)
    → get (add_header http m n v) name ≡ or_else (named_value name n v) (get m name)
get-add_header http name m (some n) (some v) =
    get-insert m n name v ∙ if-or_else (n == name) v (get m name)
get-add_header http name m (some n) none = refl
get-add_header http name m none v = refl

get-collect_headers :
    (name : Text) (collected headers : Headers)
    → get (collect_headers collected headers) name
      ≡ or_else (last_visible name headers) (get collected name)
unfolding collect_headers
get-collect_headers name collected [] = refl
get-collect_headers name collected ((n, v) ∷ headers) =
    get-collect_headers name
      (if all is_visible v then insert collected (map to_ascii_lowercase n) v else collected)
      headers
    ∙ ap (or_else (last_visible name headers))
        (get-insert_if (all is_visible v) collected (map to_ascii_lowercase n) v name)
    ∙ or_else_assoc (last_visible name headers) _ (get collected name)

get-add_headers :
    (http : Http) (name : Text) (headers reply : Headers)
    → get (add_headers http headers reply) name
      ≡ or_else (last_accepted http name reply) (get headers name)
unfolding add_headers
get-add_headers http name headers [] = refl
get-add_headers http name headers ((n, v) ∷ reply) =
    get-add_headers http name (add_header http headers (http.header_name n) (http.header_value v))
      reply
    ∙ ap (or_else (last_accepted http name reply))
        (get-add_header http name headers (http.header_name n) (http.header_value v))
    ∙ or_else_assoc (last_accepted http name reply)
        (named_value name (http.header_name n) (http.header_value v)) (get headers name)

header_map_to_btree-IsForwarded :
    (request : Request)
    → IsForwarded request (record request { headers = header_map_to_btree request.headers })
unfolding header_map_to_btree
header_map_to_btree-IsForwarded request = record {
  method = refl;
  path = refl;
  query = refl;
  body = refl;
  headers = λ name.
      get-collect_headers name [] request.headers
      ∙ or_else_none (last_visible name request.headers);
}
  where
    or_else_none : (o : Option Text) → or_else o none ≡ o
    or_else_none none = refl
    or_else_none (some v) = refl

http_reply_to_response-IsReply :
    (http : Http) (reply : HttpReply) → IsReply http reply (http_reply_to_response http reply)
unfolding http_reply_to_response
http_reply_to_response-IsReply http reply = record {
  status = status_of (http.from_u16 reply.status);
  body = refl;
  headers = λ name. get-add_headers http name http.text_headers reply.headers;
}
  where
    status_of :
        (o : Option ℕ) → status_or_500 http o ≡ (elim o [ none ↦ 500 | some status ↦ status ])
    status_of none = refl
    status_of (some status) = refl

error_response-IsRefusal : (e : DispatchError) → IsRefusal e (error_response e)
unfolding error_response
error_response-IsRefusal busy = too_many
error_response-IsRefusal starting = not_yet
error_response-IsRefusal timeout = too_slow
error_response-IsRefusal dead = has_died
error_response-IsRefusal not_found = no_route

module _ (http : Http) (reads : Reads)
    (answer : ExtHandle → Request → Result ExtResult DispatchError) (key : Text)
    (request : Request) where
  abbrev sent_request : Request
  sent_request = record request { headers = header_map_to_btree request.headers }

  handle-Answers :
      (owner : Text) (h : ExtHandle) (r : Result ExtResult DispatchError)
      → get reads.at_routes.claims.routes key ≡ some owner
      → get reads.at_extensions.extensions owner ≡ some h
      → answer h sent_request ≡ r
      → Answers http reads answer key request (respond http r)
  handle-Answers owner h (ok result) routed runs a =
      replied owner h sent_request result routed runs (header_map_to_btree-IsForwarded request) a
        (http_reply_to_response-IsReply http result.http)
  handle-Answers owner h (err e) routed runs a =
      refused owner h sent_request e routed runs (header_map_to_btree-IsForwarded request) a
        (error_response-IsRefusal e)

  dispatch-Answers :
      Answers http reads answer key request
        (respond http (dispatch http reads answer key sent_request))
  unfolding route error_response
  dispatch-Answers = elim (Option-cases (get reads.at_routes.claims.routes key)) [
    | inl none_routed ↦ elim (Bool-cases (is_known reads key)) [
      | inl known ↦
          rw (route, none_routed, known)
            (known_key none_routed (is_known-IsKnown reads key known) refl)
      | inr unknown ↦
          rw (route, none_routed, unknown)
            (unknown_key none_routed (λ k. let known = IsKnown-is_known reads key k in cc) refl)
    ]
    | inr (owner, routed) ↦ elim (Option-cases (get reads.at_extensions.extensions owner)) [
      | inl left ↦ rw (route, routed, left) (owner_left owner routed left refl)
      | inr (h, runs) ↦
          rw (route, routed, runs) (handle-Answers owner h (answer h sent_request) routed runs refl)
    ]
  ]

-- A request whose path names a key, between any number of slashes and the end or a slash, and whose
-- body is within the limit, whatever the states that the locks of its dispatch find: a key without a
-- route is answered 404, or 503 with Retry-After where the configuration, an exit or a failure names
-- it, and so is one whose owner has left. The owner that runs is sent the request with the last visible
-- value of each header name; its reply becomes the response, with its body, its status or 500, and its
-- last accepted value of each header name over those of a text; an error of it is 429, 504 or 503.
pub ingest_handler-Answers :
    (http : Http) (max_body_bytes : ℕ) (reads : Reads)
    (answer : ExtHandle → Request → Result ExtResult DispatchError) (request : Request) (n : ℕ)
    (key rest : Text)
    → length request.body ≤ max_body_bytes
    → IsSegment key
    → EndsSegment rest
    → request.path ≡ slashes n ++ (key ++ rest)
    → Answers http reads answer key request
        (ingest_handler http max_body_bytes reads answer request)
unfolding ingest_handler
ingest_handler-Answers http max_body_bytes reads answer request n key rest fits segment end named =
    let small : ltb max_body_bytes (length request.body) ≡ false = ground arith in
    let routed = ap route_key_from_path named ∙ route_key_of_segment n key rest segment end in
    rw (ingest_handler, small, routed) (dispatch-Answers http reads answer key request)
