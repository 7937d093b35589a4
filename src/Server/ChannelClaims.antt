-- ===== src/Server/ChannelClaims.antt =====
-- crates/whdr-server/src/channel_claims.rs: which extension may claim which paths and channel
-- prefixes, and which channels it may emit on; with the part of `start_extension` and
-- `unroute_extension` (crates/whdr-server/src/daemon.rs) that keeps the two maps of claims.
pub mod Prefixes
pub mod Isolation
pub mod Registration
pub mod Filter
pub mod Unrouted
mod Tests
use whdr.Common.{
  ℕ, ◌+◌, List, [], ◌∷◌, ◌++◌, Option, none, some, Bool, true, false, not, ◌&&◌, ◌||◌, Text, Result,
  ok, err, ◌>>=◌, ◌>>◌, guard, is_ok, is_empty, all, any, split, strip_prefix, starts_with,
  first_of, is_ascii_lowercase, is_ascii_digit, ◌==◌, nat_eq, text_eq, if◌then◌else◌, get, insert,
  keep, fetch_add,
}
use whdr.Proto.Channel.{ChannelError, validate_channel}
use whdr.Proto.Messages.{Event}

pub data ClaimError : Type 0 where
  invalid_path_claim : (claim : Text) → ClaimError
  duplicate_path_claim : (claim : Text) → ClaimError
  path_collision : (claim owner : Text) → ClaimError
  claim_collides_with_prefix : (claim prefix owner : Text) → ClaimError
  invalid_prefix : (prefix : Text) (error : ChannelError) → ClaimError
  prefixes_collide : (prefix seen : Text) → ClaimError
  prefix_collides_with_route : (prefix first owner : Text) → ClaimError
  prefix_collides_with_prefix : (prefix existing owner : Text) → ClaimError
  invalid_event_channel : (channel : Text) (error : ChannelError) → ClaimError
  not_owned : (channel ext_id : Text) → ClaimError

-- A `HashMap<String, String>` from a claim to its owner.
abbrev pub Owners : Type 0
Owners = List (Text × Text)

unfoldable pub first_channel_segment : Text → Text
first_channel_segment channel = first_of (split b'.' channel)

unfoldable pub channel_is_in_prefix : Text → Text → Bool
channel_is_in_prefix channel prefix =
    channel == prefix
    || elim (strip_prefix prefix channel) [ none ↦ false | some suffix ↦ starts_with b'.' suffix ]

unfoldable pub channel_prefixes_overlap : Text → Text → Bool
channel_prefixes_overlap left right =
    channel_is_in_prefix left right || channel_is_in_prefix right left

abbrev pub claim_byte : ℕ → Bool
claim_byte b = is_ascii_lowercase b || is_ascii_digit b || b == b'-' || b == b'_'

unfoldable pub validate_path_claim : Text → Result (Unit {0}) ClaimError
validate_path_claim claim =
    if is_empty claim || any (λ b. b == b'/') claim || not (all claim_byte claim)
    then err (invalid_path_claim claim)
    else ok tt

-- The loop over the existing prefixes for one path claim.
unfoldable pub check_claim_prefixes : Text → Text → Owners → Result (Unit {0}) ClaimError
check_claim_prefixes id claim [] = ok tt
check_claim_prefixes id claim ((prefix, owner) ∷ existing) =
    if not (owner == id) && first_channel_segment prefix == claim
    then err (claim_collides_with_prefix claim prefix owner)
    else check_claim_prefixes id claim existing

abbrev check_claim_route : Text → Option Text → Result (Unit {0}) ClaimError
check_claim_route claim none = ok tt
check_claim_route claim (some owner) = err (path_collision claim owner)

-- The loop over the path claims; `seen` is `seen_claims`.
unfoldable pub validate_claims :
    Text → Owners → Owners → List Text → List Text → Result (Unit {0}) ClaimError
validate_claims id routes existing seen [] = ok tt
validate_claims id routes existing seen (claim ∷ claims) = do
  validate_path_claim claim
  guard (not (any (λ s. s == claim) seen)) (duplicate_path_claim claim)
  check_claim_route claim (get routes claim)
  check_claim_prefixes id claim existing
  validate_claims id routes existing (claim ∷ seen) claims

abbrev in_context : Text → Result (Unit {0}) ChannelError → Result (Unit {0}) ClaimError
in_context prefix (ok t) = ok t
in_context prefix (err e) = err (invalid_prefix prefix e)

unfoldable pub check_seen : Text → List Text → Result (Unit {0}) ClaimError
check_seen prefix [] = ok tt
check_seen prefix (seen ∷ seen_prefixes) =
    if channel_prefixes_overlap prefix seen
    then err (prefixes_collide prefix seen)
    else check_seen prefix seen_prefixes

abbrev check_prefix_route : Text → Text → Option Text → Result (Unit {0}) ClaimError
check_prefix_route id prefix none = ok tt
check_prefix_route id prefix (some owner) =
    if not (owner == id)
    then err (prefix_collides_with_route prefix (first_channel_segment prefix) owner)
    else ok tt

-- The loop over the existing prefixes for one channel prefix.
unfoldable pub check_existing : Text → Text → Owners → Result (Unit {0}) ClaimError
check_existing id prefix [] = ok tt
check_existing id prefix ((seen, owner) ∷ existing) =
    if not (owner == id) && channel_prefixes_overlap prefix seen
    then err (prefix_collides_with_prefix prefix seen owner)
    else check_existing id prefix existing

-- The loop over the channel prefixes; `seen` is `seen_prefixes`.
unfoldable pub validate_prefixes :
    Text → Owners → Owners → List Text → List Text → Result (Unit {0}) ClaimError
validate_prefixes id routes existing seen [] = ok tt
validate_prefixes id routes existing seen (prefix ∷ prefixes) = do
  in_context prefix (validate_channel prefix)
  check_seen prefix seen
  check_prefix_route id prefix (get routes (first_channel_segment prefix))
  check_existing id prefix existing
  validate_prefixes id routes existing (seen ++ prefix ∷ []) prefixes

unfoldable pub validate_registration_claims :
    Text → List Text → List Text → Owners → Owners → Result (Unit {0}) ClaimError
validate_registration_claims id claims channel_prefixes routes existing_prefixes = do
  validate_claims id routes existing_prefixes [] claims
  validate_prefixes id routes existing_prefixes [] channel_prefixes

abbrev in_event : Text → Result (Unit {0}) ChannelError → Result (Unit {0}) ClaimError
in_event channel (ok t) = ok t
in_event channel (err e) = err (invalid_event_channel channel e)

unfoldable pub validate_emitted_channel :
    Text → Text → List Text → List Text → Result (Unit {0}) ClaimError
validate_emitted_channel channel ext_id claims registered_prefixes = do
  in_event channel (validate_channel channel)
  if any (λ claim. claim == first_channel_segment channel) claims
        || any (channel_is_in_prefix channel) registered_prefixes
      then ok tt
      else err (not_owned channel ext_id)

-- The events that pass, and the violations counted.
pub filter_owned_events : Text → List Text → List Text → ℕ → List Event → List Event × ℕ
filter_owned_events ext_id paths registered_prefixes violations [] = ([], violations)
filter_owned_events ext_id paths registered_prefixes violations (event ∷ events) =
    elim (validate_emitted_channel event.channel ext_id paths registered_prefixes) [
      | ok _ ↦
          let (rest, count) =
            filter_owned_events ext_id paths registered_prefixes violations events in
          (event ∷ rest, count)
      | err _ ↦ filter_owned_events ext_id paths registered_prefixes (fetch_add violations 1) events
    ]

-- The two maps of claims that the daemon keeps.
pub record Claims : Type 0 where
  pub routes : Owners
  pub channel_prefixes : Owners

unfoldable pub insert_all : Text → List Text → Owners → Owners
insert_all id [] owners = owners
insert_all id (claim ∷ claims) owners = insert_all id claims (insert owners claim id)

-- The registration block of `start_extension`, past its two tests for a running extension.
unfoldable pub register : Text → List Text → List Text → Claims → Result Claims ClaimError
register id claims channels s = do
  validate_registration_claims id claims channels s.routes s.channel_prefixes
  ok (record {
    routes = insert_all id claims s.routes;
    channel_prefixes = insert_all id channels s.channel_prefixes;
  })

unfoldable pub unroute : Text → Claims → Claims
unroute id s = record {
  routes = keep (λ r. not (r.1 == id)) s.routes;
  channel_prefixes = keep (λ r. not (r.1 == id)) s.channel_prefixes;
}
