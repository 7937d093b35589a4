-- ===== src/Server/ChannelClaims/Registration.antt =====
-- Registration and unrouting keep the claims of different extensions apart, so the channel filter
-- lets no two extensions emit on one channel.
use whdr.Common.{
  ◌≡◌, sym, ap, ◌∙◌, List, [], ◌∷◌, some, not, Text, arith, subst, ok, any, any-witness, ◌==◌,
  nat_eq, text_eq, text_beq_iff, inl, inr, Bool-cases, Memᴰ, Result-cases, get, insert, get-insert,
  get-keep, keep-UniqueKeys, All, bind_ok, ok-injective,
}
use mathlib.Core.List.Memᴰ
use mathlib.Core.Option.{some-injective}
use whdr.Proto.Channel.{validate_channel}
use whdr.Proto.Channel.Grammar.{IsChannel, validate_channel_iff}
use whdr.Server.ChannelClaims.{
  Owners, Claims, first_channel_segment, channel_is_in_prefix, validate_claims,
  validate_registration_claims, insert_all, register, unroute, in_event, validate_emitted_channel,
}
use whdr.Server.ChannelClaims.Prefixes.{
  channel_is_in_prefix_iff, overlap_of_shared, first_channel_segment_of_in,
}
use whdr.Server.ChannelClaims.Isolation.{
  IsIsolated, Owns, ClaimFree, PrefixFree, validate_claims-free, validate_prefixes-free,
  get-insert_all, insert_all-UniqueKeys, overlap_comm,
}

registered-IsIsolated :
    (id : Text) (claims channels : List Text) (s : Claims)
    → IsIsolated s
    → All (ClaimFree id s.channel_prefixes) claims
    → All (PrefixFree id s.routes s.channel_prefixes) channels
    → IsIsolated (record {
      routes = insert_all id claims s.routes;
      channel_prefixes = insert_all id channels s.channel_prefixes;
    })
registered-IsIsolated id claims channels s i c p = record {
  unique_routes = insert_all-UniqueKeys id claims s.routes i.unique_routes;
  unique_prefixes = insert_all-UniqueKeys id channels s.channel_prefixes i.unique_prefixes;
  cross = λ route prefix a b g h e.
      elim (get-insert_all (ClaimFree id s.channel_prefixes) id claims s.routes route a c g) [
        | inl (free, same) ↦
            elim (get-insert_all (PrefixFree id s.routes s.channel_prefixes) id channels
              s.channel_prefixes prefix b p h) [
                | inl (_, also) ↦ same ∙ sym also
                | inr old ↦ same ∙ sym (free prefix b old e)
              ]
        | inr route_old ↦
            elim (get-insert_all (PrefixFree id s.routes s.channel_prefixes) id channels
              s.channel_prefixes prefix b p h) [
                | inl (free, also) ↦ free.0 a (ap (get s.routes) e ∙ route_old) ∙ sym also
                | inr old ↦ i.cross route prefix a b route_old old e
              ]
      ];
  apart = λ x y a b g h o.
      elim (get-insert_all (PrefixFree id s.routes s.channel_prefixes) id channels
        s.channel_prefixes x a p g) [
          | inl (free, same) ↦
              elim (get-insert_all (PrefixFree id s.routes s.channel_prefixes) id channels
                s.channel_prefixes y b p h) [
                  | inl (_, also) ↦ same ∙ sym also
                  | inr old ↦ same ∙ sym (free.1 y b old o)
                ]
          | inr x_old ↦
              elim (get-insert_all (PrefixFree id s.routes s.channel_prefixes) id channels
                s.channel_prefixes y b p h) [
                  | inl (free, also) ↦ free.1 x a x_old (overlap_comm y x ∙ o) ∙ sym also
                  | inr old ↦ i.apart x y a b x_old old o
                ]
        ];
}

-- A registration that passes the validation keeps the claims of different extensions apart.
pub register-IsIsolated :
    (id : Text) (claims channels : List Text) (s s' : Claims)
    → IsIsolated s
    → register id claims channels s ≡ ok s'
    → IsIsolated s'
unfolding register validate_registration_claims
register-IsIsolated id claims channels s s' i h =
    let (_, valid, e) =
      bind_ok (validate_registration_claims id claims channels s.routes s.channel_prefixes) _ h in
    let (_, cs, ps) = bind_ok (validate_claims id s.routes s.channel_prefixes [] claims) _ valid in
    subst IsIsolated (ok-injective e) (
      registered-IsIsolated id claims channels s i
        (validate_claims-free id s.routes s.channel_prefixes [] claims cs)
        (validate_prefixes-free id s.routes s.channel_prefixes [] channels ps))

-- Taking an extension's routes and prefixes away keeps the rest apart.
pub unroute-IsIsolated : (id : Text) (s : Claims) → IsIsolated s → IsIsolated (unroute id s)
unfolding unroute
unroute-IsIsolated id s i = record {
  unique_routes = keep-UniqueKeys (λ r. not (r.1 == id)) s.routes i.unique_routes;
  unique_prefixes = keep-UniqueKeys (λ r. not (r.1 == id)) s.channel_prefixes i.unique_prefixes;
  cross = λ route prefix a b g h.
      i.cross route prefix a b (get-keep (λ r. not (r.1 == id)) s.routes route a i.unique_routes g)
        (get-keep (λ r. not (r.1 == id)) s.channel_prefixes prefix b i.unique_prefixes h);
  apart = λ p q a b g h.
      i.apart p q a b (get-keep (λ r. not (r.1 == id)) s.channel_prefixes p a i.unique_prefixes g)
        (get-keep (λ r. not (r.1 == id)) s.channel_prefixes q b i.unique_prefixes h);
}

-- No channel has two owners.
pub Owns-injective :
    (s : Claims) (channel a b : Text) → IsIsolated s → Owns s a channel → Owns s b channel → a ≡ b
Owns-injective s channel a b i (inl g) (inl h) = some-injective _ _ (sym g ∙ h)
Owns-injective s channel a b i (inl g) (inr (q, h, m)) =
    i.cross (first_channel_segment channel) q a b g h
      (sym (first_channel_segment_of_in channel q m))
Owns-injective s channel a b i (inr (p, g, m)) (inl h) = sym (
    i.cross (first_channel_segment channel) p b a h g
      (sym (first_channel_segment_of_in channel p m)))
Owns-injective s channel a b i (inr (p, g, m)) (inr (q, h, n)) =
    i.apart p q a b g h (overlap_of_shared channel p q m n)

-- The claims that a running extension's handle keeps are registered under its id.
pub record AreRegistered (s : Claims) (id : Text) (paths prefixes : List Text) : Type 0 where
  pub paths_of : (p : Text) → Memᴰ p paths → get s.routes p ≡ some id
  pub prefixes_of : (p : Text) → Memᴰ p prefixes → get s.channel_prefixes p ≡ some id

get-insert_all_kept :
    (id : Text) (claims : List Text) (owners : Owners) (k : Text)
    → get owners k ≡ some id
    → get (insert_all id claims owners) k ≡ some id
unfolding insert_all
get-insert_all_kept id [] owners k h = h
get-insert_all_kept id (claim ∷ claims) owners k h =
    get-insert_all_kept id claims (insert owners claim id) k
      (ground (arith, get-insert owners claim k id, h))

get-insert_all_mem :
    (id : Text) (claims : List Text) (owners : Owners) (k : Text)
    → Memᴰ k claims
    → get (insert_all id claims owners) k ≡ some id
unfolding insert_all
get-insert_all_mem id [] owners k m = absurd (Memᴰ.not-nil m)
get-insert_all_mem id (claim ∷ claims) owners k m = elim (Memᴰ.cases_cons m) [
  | inl same ↦
      get-insert_all_kept id claims (insert owners claim id) k
        (ground (arith, get-insert owners claim k id, text_beq_iff claim k, same))
  | inr later ↦ get-insert_all_mem id claims (insert owners claim id) k later
]

-- A registration that succeeds registers all the claims of the extension.
pub register-AreRegistered :
    (id : Text) (claims channels : List Text) (s s' : Claims)
    → register id claims channels s ≡ ok s'
    → AreRegistered s' id claims channels
unfolding register
register-AreRegistered id claims channels s s' h =
    let (_, valid, e) =
      bind_ok (validate_registration_claims id claims channels s.routes s.channel_prefixes) _ h in
    subst (λ t. AreRegistered t id claims channels) (ok-injective e)
      (record {
        paths_of = get-insert_all_mem id claims s.routes;
        prefixes_of = get-insert_all_mem id channels s.channel_prefixes;
      })

in_event_lem :
    (channel : Text) → in_event channel (validate_channel channel) ≡ ok tt → IsChannel channel
in_event_lem channel h = elim (Result-cases (validate_channel channel)) [
  | inl (tt, e) ↦ (validate_channel_iff channel).0 e
  | inr (x, e) ↦ cc (rw e at h)
]

-- What the channel filter lets through is a valid channel that the extension owns.
pub validate_emitted_channel-Owns :
    (s : Claims) (channel ext_id : Text) (paths prefixes : List Text)
    → AreRegistered s ext_id paths prefixes
    → validate_emitted_channel channel ext_id paths prefixes ≡ ok tt
    → IsChannel channel × Owns s ext_id channel
unfolding validate_emitted_channel
validate_emitted_channel-Owns s channel ext_id paths prefixes r h =
    let (_, valid, owned) = bind_ok (in_event channel (validate_channel channel)) _ h in
    (
      in_event_lem channel valid,
      elim (Bool-cases (any (λ claim. claim == first_channel_segment channel) paths)) [
        | inl path ↦
            let (p, m, same) =
              any-witness (λ claim. claim == first_channel_segment channel) paths path in
            inl (
              ap (get s.routes) (sym ((text_beq_iff p (first_channel_segment channel)).0 same))
              ∙ r.paths_of p m)
        | inr no_path ↦ elim (Bool-cases (any (channel_is_in_prefix channel) prefixes)) [
          | inl found ↦
              let (p, m, inside) = any-witness (channel_is_in_prefix channel) prefixes found in
              inr (p, r.prefixes_of p m, (channel_is_in_prefix_iff channel p).0 inside)
          | inr not_found ↦ cc (rw (no_path, not_found) at owned)
        ]
      ],
    )

-- The claims that registrations and unroutings leave, from a start with none.
pub data Reachable : Claims → Type 0 where
  start : Reachable (record { routes = []; channel_prefixes = [] })
  registers :
      {s : Claims} (s' : Claims) (id : Text) (claims channels : List Text)
      → Reachable s
      → register id claims channels s ≡ ok s'
      → Reachable s'
  unroutes : {s : Claims} (id : Text) → Reachable s → Reachable (unroute id s)

-- In every reachable state the routes and the channel prefixes have one entry for a key, no prefix of
-- one extension begins with a route of another one, and no two prefixes of different extensions
-- overlap.
pub Reachable-IsIsolated : {s : Claims} → Reachable s → IsIsolated s
Reachable-IsIsolated start = record {
  unique_routes = tt;
  unique_prefixes = tt;
  cross = λ route prefix a b g h e. cc;
  apart = λ p q a b g h o. cc;
}
Reachable-IsIsolated (registers s' id claims channels r h) =
    register-IsIsolated id claims channels _ s' (Reachable-IsIsolated r) h
Reachable-IsIsolated (unroutes id r) = unroute-IsIsolated id _ (Reachable-IsIsolated r)

-- Namespace isolation: in every reachable state, two extensions whose claims are registered and whose
-- filters both accept an event on one channel are the same extension.
pub validate_emitted_channel_isolates :
    (s : Claims) (channel a b : Text) (paths prefixes paths' prefixes' : List Text)
    → Reachable s
    → AreRegistered s a paths prefixes
    → AreRegistered s b paths' prefixes'
    → validate_emitted_channel channel a paths prefixes ≡ ok tt
    → validate_emitted_channel channel b paths' prefixes' ≡ ok tt
    → a ≡ b
validate_emitted_channel_isolates s channel a b paths prefixes paths' prefixes' r p q h k =
    Owns-injective s channel a b (Reachable-IsIsolated r)
      (validate_emitted_channel-Owns s channel a paths prefixes p h).1
      (validate_emitted_channel-Owns s channel b paths' prefixes' q k).1
