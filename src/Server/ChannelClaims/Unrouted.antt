-- ===== src/Server/ChannelClaims/Unrouted.antt =====
-- A registration is refused where one of its path claims is routed already, so it leaves the routes
-- of the other extensions as they were.
use whdr.Common.{
  ◌≡◌, refl, List, [], ◌∷◌, Option, none, some, false, not, Text, arith, ok, guard, any, ◌==◌,
  text_eq, text_beq_iff, inl, inr, Bool-cases, get, insert, get-insert, All, bind_ok, ap, sym, ◌∙◌,
  ok-injective,
}
use whdr.Server.ChannelClaims.{
  Owners, Claims, check_claim_prefixes, check_claim_route, validate_claims, validate_path_claim,
  duplicate_path_claim, insert_all, register, validate_registration_claims,
}

check_claim_route_lem :
    (claim : Text) (owner : Option Text) → check_claim_route claim owner ≡ ok tt → owner ≡ none
check_claim_route_lem claim none h = refl
check_claim_route_lem claim (some owner) h = cc

validate_claims_unrouted :
    (id : Text) (routes existing : Owners) (seen claims : List Text)
    → validate_claims id routes existing seen claims ≡ ok tt
    → All (λ claim. get routes claim ≡ none) claims
unfolding validate_claims
validate_claims_unrouted id routes existing seen [] h = tt
validate_claims_unrouted id routes existing seen (claim ∷ claims) h =
    let (_, _, h1) = bind_ok (validate_path_claim claim) _ h in
    let (_, _, h2) =
      bind_ok (guard (not (any (λ s. s == claim) seen)) (duplicate_path_claim claim)) _ h1 in
    let (_, free, h3) = bind_ok (check_claim_route claim (get routes claim)) _ h2 in
    let (_, _, h4) = bind_ok (check_claim_prefixes id claim existing) _ h3 in
    (
      check_claim_route_lem claim (get routes claim) free,
      validate_claims_unrouted id routes existing (claim ∷ seen) claims h4,
    )

-- What a registration that succeeds found and made of the routes.
pub register_unrouted :
    (id : Text) (claims channels : List Text) (s s' : Claims)
    → register id claims channels s ≡ ok s'
    → All (λ claim. get s.routes claim ≡ none) claims × (s'.routes ≡ insert_all id claims s.routes)
unfolding register validate_registration_claims
register_unrouted id claims channels s s' h =
    let (_, valid, e) =
      bind_ok (validate_registration_claims id claims channels s.routes s.channel_prefixes) _ h in
    let (_, cs, _) = bind_ok (validate_claims id s.routes s.channel_prefixes [] claims) _ valid in
    (
      validate_claims_unrouted id s.routes s.channel_prefixes [] claims cs,
      ap (λ t. t.routes) (sym (ok-injective e)),
    )

get-insert_all_other :
    (id : Text) (claims : List Text) (owners : Owners) (k v : Text)
    → All (λ claim. (claim == k) ≡ false) claims
    → get owners k ≡ some v
    → get (insert_all id claims owners) k ≡ some v
unfolding insert_all
get-insert_all_other id [] owners k v d h = h
get-insert_all_other id (claim ∷ claims) owners k v d h =
    get-insert_all_other id claims (insert owners claim id) k v d.1
      (ground (arith, get-insert owners claim k id, d.0, h))

unrouted_other :
    (owners : Owners) (claims : List Text) (k v : Text)
    → All (λ claim. get owners claim ≡ none) claims
    → get owners k ≡ some v
    → All (λ claim. (claim == k) ≡ false) claims
unrouted_other owners [] k v u h = tt
unrouted_other owners (claim ∷ claims) k v u h = (
  elim (Bool-cases (claim == k)) [
    | inl same ↦ let e = sym (ap (get owners) ((text_beq_iff claim k).0 same)) ∙ u.0 in cc
    | inr other ↦ other
  ],
  unrouted_other owners claims k v u.1 h,
)

-- The routes that stood before a registration stand after it.
pub get-register_kept :
    (id : Text) (claims channels : List Text) (s s' : Claims) (k v : Text)
    → register id claims channels s ≡ ok s'
    → get s.routes k ≡ some v
    → get s'.routes k ≡ some v
get-register_kept id claims channels s s' k v h g =
    let (free, e) = register_unrouted id claims channels s s' h in
    ap (λ m. get m k) e
    ∙ get-insert_all_other id claims s.routes k v (unrouted_other s.routes claims k v free g) g
