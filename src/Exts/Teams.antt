-- ===== src/Exts/Teams.antt =====
-- exts/whdr-ext-teams/src/lib.rs: the validation handshake, the check of clientState and the channels.
-- What serde_json reads of a body is an argument: nothing where it is no JSON, otherwise the items of
-- its `value`, where that is an array. A text is its bytes; where the program would panic at the end
-- of a slice inside a character, the decoding gives nothing.
pub mod Notified
mod Tests
use whdr.Common.{
  trim_matches, ℕ, ◌+◌, ◌*◌, ◌/◌, ◌%◌, ◌-◌, List, [], ◌∷◌, ◌++◌, Option, none, some, Bool, true,
  false, not, ◌&&◌, ◌||◌, Text, codes, Result, ok, err, ◌==◌, nat_eq, text_eq, leb, if◌then◌else◌,
  split, is_ascii_lowercase, is_ascii_digit, is_ascii_uppercase, to_ascii_lowercase,
}
use mathlib.Core.Option
use whdr.Proto.Messages.{Event, HttpReply, Dispatch, SrvMsg}
use whdr.Exts.Hmac.{Crypto, base64, text_reply, eq_ignore_ascii_case}
use whdr.Exts.Github.{unwrap_or}

pub data TeamsError : Type 0 where
  invalid_base64 : TeamsError
  invalid_json : TeamsError
  -- A panic of the handler.
  panicked : TeamsError

-- The fields of an item that are strings.
pub record Item : Type 0 where
  pub client_state : Option Text
  pub resource : Option Text

abbrev pub is_continuation : ℕ → Bool
is_continuation b = leb 128 b && leb b 191

abbrev hex_digit : ℕ → Option ℕ
hex_digit b =
    if is_ascii_digit b
    then some (b - b'0')
    else if leb b'a' b && leb b b'f'
    then some (b - 87)
    else if leb b'A' b && leb b b'F'
    then some (b - 55)
    else none

-- `u8::from_str_radix(_, 16)` of two bytes, which takes a sign in front.
unfoldable pub from_hex : (high low : ℕ) → Option ℕ
from_hex high low = elim (hex_digit low) [
  | none ↦ none
  | some l ↦ if high == b'+' then some l else Option.map (λ h. 16 * h + l) (hex_digit high)
]

-- A byte pushed as a `char`.
abbrev push_char : ℕ → Text → Text
push_char b out = if leb 128 b then (192 + b / 64) ∷ (128 + b % 64) ∷ out else b ∷ out

abbrev starts_character : Text → Bool
starts_character [] = true
starts_character (b ∷ s) = not (is_continuation b)

abbrev plain_char : ℕ → Text → Text
plain_char c out = if c == b'+' then b' ' ∷ out else push_char c out

-- `none` is the panic of a slice that ends inside a character.
unfoldable pub percent_decode : Text → Option Text
percent_decode [] = some []
percent_decode (c ∷ []) = some (plain_char c [])
percent_decode (c ∷ d ∷ []) = some (plain_char c (plain_char d []))
percent_decode (c ∷ high ∷ low ∷ s) =
    let next = Option.map (plain_char c) (percent_decode (high ∷ low ∷ s)) in
    let after = percent_decode s in
    if c == b'%'
    then (if starts_character s
        then elim (from_hex high low) [ none ↦ next | some b ↦ Option.map (push_char b) after ]
        else none)
    else next

-- `split_once('=')`, with the whole text and an empty one where there is none
abbrev split_pair : Text → Text × Text
split_pair [] = ([], [])
split_pair (c ∷ s) =
    let (key, value) = split_pair s in if c == b'=' then ([], s) else (c ∷ key, value)

-- The loop over the pairs of the query; the inner option is the panic of the decoding.
unfoldable pub find_token : List Text → Option (Option Text)
find_token [] = none
find_token (pair ∷ pairs) =
    if (split_pair pair).0 == codes "validationToken"
    then some (percent_decode (split_pair pair).1)
    else find_token pairs

unfoldable pub validation_token : Option Text → Option (Option Text)
validation_token none = none
validation_token (some query) = find_token (split b'&' query)

-- The map over the characters: one that takes several bytes becomes one dash.
unfoldable pub resource_bytes : Text → Text
resource_bytes [] = []
resource_bytes (b ∷ s) =
    let rest = resource_bytes s in
    if is_ascii_lowercase b || is_ascii_digit b || b == b'_' || b == b'-'
    then b ∷ rest
    else if is_ascii_uppercase b
    then to_ascii_lowercase b ∷ rest
    else if b == b'/' || b == b'.' || b == b':'
    then b'.' ∷ rest
    else if is_continuation b
    then rest
    else b'-' ∷ rest

-- `replace("..", ".")`, one pass
unfoldable pub replace_dots : Text → Text
replace_dots [] = []
replace_dots (c ∷ []) = c ∷ []
replace_dots (c ∷ d ∷ s) =
    let single = c ∷ replace_dots (d ∷ s) in
    let double = b'.' ∷ replace_dots s in if c == b'.' && d == b'.' then double else single

unfoldable pub resource_to_channel : Text → Text
resource_to_channel resource =
    replace_dots (trim_matches (λ b. b == b'.') (resource_bytes resource))

module _ (crypto : Crypto) (parse_items : Text → Option (Option (List Item))) where
  abbrev pub event_of_item : (body : Text) → Option Text → List Event
  event_of_item body none = []
  event_of_item body (some resource) =
      record {
        channel = codes "teams" ++ b'.' ∷ resource_to_channel resource;
        payload_b64 = crypto.encode base64 body;
      }
      ∷ []

  -- The loop over the notifications.
  unfoldable pub take_items : (secret body : Text) → List Event → List Item → HttpReply × List Event
  take_items secret body events [] = (text_reply 202 (codes "accepted"), events)
  take_items secret body events (item ∷ items) =
      let rest = take_items secret body (events ++ event_of_item body item.resource) items in
      if not (unwrap_or item.client_state [] == secret)
      then (text_reply 401 (codes "invalid clientState"), [])
      else rest

  abbrev pub items_of : Option (List Item) → List Item
  items_of none = []
  items_of (some items) = items

  -- Past the handshake.
  unfoldable pub take_notification : Dispatch → Result (HttpReply × List Event) TeamsError
  take_notification d = elim (crypto.decode base64 d.body_b64) [
    | none ↦ err invalid_base64
    | some body ↦ elim (parse_items body) [
      | none ↦ err invalid_json
      | some value ↦ elim d.secret [
        | none ↦ ok (text_reply 401 (codes "missing clientState secret"), [])
        | some secret ↦ ok (take_items secret body [] (items_of value))
      ]
    ]
  ]

  abbrev is_handshake_method : Text → Bool
  is_handshake_method method =
      eq_ignore_ascii_case method (codes "GET") || eq_ignore_ascii_case method (codes "POST")

  abbrev pub handshake : Dispatch → Option (Option Text)
  handshake d = if is_handshake_method d.method then validation_token d.query else none

  abbrev pub echo : Option Text → Result (HttpReply × List Event) TeamsError
  echo none = err panicked
  echo (some token) = ok (
    record {
      status = 200;
      headers = (codes "content-type", codes "text/plain") ∷ [];
      body = token;
    },
    [],
  )

  unfoldable pub handle_teams_dispatch : SrvMsg → Result (HttpReply × List Event) TeamsError
  handle_teams_dispatch SrvMsg.shutdown = ok (text_reply 200 (codes "shutdown ignored"), [])
  handle_teams_dispatch (SrvMsg.dispatch d) = elim (handshake d) [
    | none ↦ take_notification d
    | some token ↦ echo token
  ]
