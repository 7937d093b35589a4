-- ===== src/Server/ChannelClaims/Isolation.antt =====
-- Namespace isolation: the claims that pass the validation leave no channel that two extensions may
-- emit on.
use whdr.Common.{
  ◌≡◌, subst, List, [], ◌∷◌, ◌++◌, Option, none, some, true, not, Text, arith, ok, guard, any, ◌==◌,
  nat_eq, text_eq, text_beq, text_beq_iff, ◌⊎◌, inl, inr, Bool-cases, Memᴰ, get, insert, UniqueKeys,
  get-insert, insert-UniqueKeys, mem_of_get, All, bind_ok,
}
use mathlib.Core.List.Memᴰ
use whdr.Proto.Channel.{validate_channel}
use whdr.Server.ChannelClaims.{
  Owners, Claims, first_channel_segment, channel_prefixes_overlap, check_claim_prefixes,
  check_claim_route, validate_claims, validate_path_claim, check_existing, check_prefix_route,
  check_seen, validate_prefixes, duplicate_path_claim, insert_all, in_context,
}
use whdr.Server.ChannelClaims.Prefixes.{InPrefix}

-- The routes and the prefixes of different extensions do not touch.
pub record IsIsolated (s : Claims) : Type 0 where
  pub unique_routes : UniqueKeys s.routes
  pub unique_prefixes : UniqueKeys s.channel_prefixes
  pub cross :
      (route prefix a b : Text)
      → get s.routes route ≡ some a
      → get s.channel_prefixes prefix ≡ some b
      → first_channel_segment prefix ≡ route
      → a ≡ b
  pub apart :
      (p q a b : Text)
      → get s.channel_prefixes p ≡ some a
      → get s.channel_prefixes q ≡ some b
      → channel_prefixes_overlap p q ≡ true
      → a ≡ b

-- `ext` may emit on the channel: its first segment is a route of `ext`, or it is in a prefix of it.
abbrev pub Owns : Claims → Text → Text → Type 0
Owns s ext channel =
    (get s.routes (first_channel_segment channel) ≡ some ext)
    ⊎ ((prefix : Text) × (get s.channel_prefixes prefix ≡ some ext) × InPrefix channel prefix)

check_claim_prefixes_lem :
    (id claim : Text) (existing : Owners)
    → check_claim_prefixes id claim existing ≡ ok tt
    → (prefix owner : Text) → Memᴰ (prefix, owner) existing
    → first_channel_segment prefix ≡ claim
    → owner ≡ id
unfolding check_claim_prefixes
check_claim_prefixes_lem id claim [] h prefix owner m e = absurd (Memᴰ.not-nil m)
check_claim_prefixes_lem id claim ((p, o) ∷ existing) h prefix owner m e =
    elim (Memᴰ.cases_cons m) [
      | inl same ↦
          ground
            (arith, text_beq_iff o id, text_beq_iff (first_channel_segment p) claim, same, e, h)
      | inr later ↦ check_claim_prefixes_lem id claim existing (ground arith) prefix owner later e
    ]

-- What the check of one prefix against the existing prefixes has established.
abbrev pub PrefixApart : Text → Owners → Text → Type 0
PrefixApart id existing prefix =
    (seen owner : Text)
    → get existing seen ≡ some owner
    → channel_prefixes_overlap prefix seen ≡ true
    → owner ≡ id

check_existing_lem :
    (id prefix : Text) (existing : Owners)
    → check_existing id prefix existing ≡ ok tt
    → (seen owner : Text) → Memᴰ (seen, owner) existing
    → channel_prefixes_overlap prefix seen ≡ true
    → owner ≡ id
unfolding check_existing
check_existing_lem id prefix [] h seen owner m e = absurd (Memᴰ.not-nil m)
check_existing_lem id prefix ((p, o) ∷ existing) h seen owner m e = elim (Memᴰ.cases_cons m) [
  | inl same ↦ ground (arith, text_beq_iff o id, same, e, h)
  | inr later ↦ check_existing_lem id prefix existing (ground arith) seen owner later e
]

-- What the loop over the path claims has established for each of them.
abbrev pub ClaimFree : Text → Owners → Text → Type 0
ClaimFree id existing claim =
    (prefix owner : Text)
    → get existing prefix ≡ some owner
    → first_channel_segment prefix ≡ claim
    → owner ≡ id

pub validate_claims-free :
    (id : Text) (routes existing : Owners) (seen claims : List Text)
    → validate_claims id routes existing seen claims ≡ ok tt
    → All (ClaimFree id existing) claims
unfolding validate_claims
validate_claims-free id routes existing seen [] h = tt
validate_claims-free id routes existing seen (claim ∷ claims) h =
    let (_, _, h1) = bind_ok (validate_path_claim claim) _ h in
    let (_, _, h2) =
      bind_ok (guard (not (any (λ s. s == claim) seen)) (duplicate_path_claim claim)) _ h1 in
    let (_, _, h3) = bind_ok (check_claim_route claim (get routes claim)) _ h2 in
    let (_, free, h4) = bind_ok (check_claim_prefixes id claim existing) _ h3 in
    (
      λ prefix owner g.
          check_claim_prefixes_lem id claim existing free prefix owner
            (mem_of_get existing prefix owner g),
      validate_claims-free id routes existing (claim ∷ seen) claims h4,
    )

-- What the loop over the channel prefixes has established for each of them.
abbrev pub PrefixFree : Text → Owners → Owners → Text → Type 0
PrefixFree id routes existing prefix =
    ((owner : Text) → get routes (first_channel_segment prefix) ≡ some owner → owner ≡ id)
    × PrefixApart id existing prefix

check_prefix_route_lem :
    (id prefix owner : Text) (found : Option Text)
    → check_prefix_route id prefix found ≡ ok tt
    → found ≡ some owner
    → owner ≡ id
check_prefix_route_lem id prefix owner none h e = cc
check_prefix_route_lem id prefix owner (some o) h e = ground (arith, text_beq_iff o id, h, e)

pub validate_prefixes-free :
    (id : Text) (routes existing : Owners) (seen prefixes : List Text)
    → validate_prefixes id routes existing seen prefixes ≡ ok tt
    → All (PrefixFree id routes existing) prefixes
unfolding validate_prefixes
validate_prefixes-free id routes existing seen [] h = tt
validate_prefixes-free id routes existing seen (prefix ∷ prefixes) h =
    let (_, _, h1) = bind_ok (in_context prefix (validate_channel prefix)) _ h in
    let (_, _, h2) = bind_ok (check_seen prefix seen) _ h1 in
    let (_, route, h3) =
      bind_ok (check_prefix_route id prefix (get routes (first_channel_segment prefix))) _ h2 in
    let (_, apart, h4) = bind_ok (check_existing id prefix existing) _ h3 in
    (
      (
        λ owner. check_prefix_route_lem id prefix owner _ route,
        λ q owner g.
            check_existing_lem id prefix existing apart q owner (mem_of_get existing q owner g),
      ),
      validate_prefixes-free id routes existing (seen ++ prefix ∷ []) prefixes h4,
    )

-- An entry of a map after the insertions is new, and one of the claims, or was there before.
pub get-insert_all :
    (P : Text → Type 0) (id : Text) (claims : List Text) (owners : Owners) (k a : Text)
    → All P claims
    → get (insert_all id claims owners) k ≡ some a
    → (P k × (a ≡ id)) ⊎ (get owners k ≡ some a)
unfolding insert_all
get-insert_all P id [] owners k a h e = inr e
get-insert_all P id (claim ∷ claims) owners k a h e =
    elim (get-insert_all P id claims (insert owners claim id) k a h.1 e) [
      | inl new ↦ inl new
      | inr old ↦ elim (Bool-cases (text_beq claim k)) [
        | inl same ↦
            let here : claim ≡ k = (text_beq_iff claim k).0 same in
            inl (subst P here h.0, ground (arith, get-insert owners claim k id, old, same))
        | inr other ↦ inr (ground (arith, get-insert owners claim k id, old, other))
      ]
    ]

pub insert_all-UniqueKeys :
    (id : Text) (claims : List Text) (owners : Owners)
    → UniqueKeys owners
    → UniqueKeys (insert_all id claims owners)
unfolding insert_all
insert_all-UniqueKeys id [] owners u = u
insert_all-UniqueKeys id (claim ∷ claims) owners u =
    insert_all-UniqueKeys id claims (insert owners claim id) (insert-UniqueKeys owners claim id u)

pub overlap_comm : (p q : Text) → channel_prefixes_overlap p q ≡ channel_prefixes_overlap q p
unfolding channel_prefixes_overlap
overlap_comm p q = ground arith
