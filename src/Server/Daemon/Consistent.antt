-- ===== src/Server/Daemon/Consistent.antt =====
-- crates/whdr-server/src/daemon.rs: in every state that the tasks reach, a route leads to a running
-- extension that claims it, or to one that is being cleaned up.
use whdr.Common.{
  List, [], ◌∷◌, ◌++◌, none, some, Bool, true, false, not, Text, ◌≡◌, refl, ◌⊎◌, inl, inr, arith,
  get, remove, any, UniqueKeys, remove-UniqueKeys, get-keep, keep-UniqueKeys, Bool-cases, ◌==◌,
  text_eq, nat_eq, text_beq_iff, get-keep_kept, get-keep_test, get-remove_if,
}
use whdr.Server.ChannelClaims.{unroute}
use whdr.Server.Daemon.{ExtHandle}
use whdr.Server.Daemon.Starting.{listed}
use whdr.Server.Daemon.Steps.{Running, with_routes_of}

-- The owner of a route runs and claims it, or it has left the map and is being cleaned up.
abbrev pub Answered : Running → (route owner : Text) → Type 0
Answered r route owner =
    ((h : ExtHandle) × (get r.inner.extensions owner ≡ some h) × (listed h.paths route ≡ true))
    ⊎ ((get r.inner.extensions owner ≡ none) × (any (λ h. h.id == owner) r.cleaning ≡ true))

-- One entry for a route and for a running id; an entry's key is its handle's id; no candidate runs
-- twice; an owner of a route is also the owner of its own id, and it is answered for.
pub record IsConsistent (r : Running) : Type 0 where
  pub unique_routes : UniqueKeys r.inner.claims.routes
  pub unique_ids : UniqueKeys r.inner.extensions
  pub keyed : (id : Text) (h : ExtHandle) → get r.inner.extensions id ≡ some h → h.id ≡ id
  pub candidates :
      (i j : Text) (h k : ExtHandle)
      → get r.inner.extensions i ≡ some h
      → get r.inner.extensions j ≡ some k
      → h.candidate_id ≡ k.candidate_id
      → i ≡ j
  pub own_id :
      (route owner : Text)
      → get r.inner.claims.routes route ≡ some owner
      → get r.inner.claims.routes owner ≡ some owner
  pub answered :
      (route owner : Text) → get r.inner.claims.routes route ≡ some owner → Answered r route owner

-- Whether some handle in the list has the id.
abbrev pub cleans_id : List ExtHandle → Text → Bool
cleans_id cleaning owner = any (λ h. h.id == owner) cleaning

false_of_not : (b : Bool) → not b ≡ true → b ≡ false
false_of_not true h = cc
false_of_not false h = refl

pub cleans_id_without :
    (front back : List ExtHandle) (handle : ExtHandle) (owner : Text)
    → (owner == handle.id) ≡ false
    → cleans_id (front ++ handle ∷ back) owner ≡ true
    → cleans_id (front ++ back) owner ≡ true
cleans_id_without [] back handle owner ne h =
    ground (arith, text_beq_iff handle.id owner, text_beq_iff owner handle.id, ne, h)
cleans_id_without (f ∷ front) back handle owner ne h =
    ground (arith, cleans_id_without front back handle owner ne, h)

pub retained-IsConsistent :
    (r : Running) (id : Text) (cleaning : List ExtHandle)
    → IsConsistent r
    → ((owner : Text)
        → (owner == id) ≡ false
        → cleans_id r.cleaning owner ≡ true
        → cleans_id cleaning owner ≡ true)
    → IsConsistent
        (record { inner = with_routes_of (unroute id r.inner.claims) r.inner; cleaning = cleaning })
unfolding unroute
retained-IsConsistent r id cleaning c still =
    let p = λ (e : Text × Text). not (e.1 == id) in
    let routes = r.inner.claims.routes in
    record {
      unique_routes = keep-UniqueKeys p routes c.unique_routes;
      unique_ids = c.unique_ids;
      keyed = c.keyed;
      candidates = c.candidates;
      own_id = λ route owner g.
          get-keep_kept p routes owner owner
            (c.own_id route owner (get-keep p routes route owner c.unique_routes g))
            (get-keep_test p routes route owner g);
      answered = λ route owner g.
          elim (c.answered route owner (get-keep p routes route owner c.unique_routes g)) [
            | inl found ↦ inl found
            | inr (gone, cleaned) ↦ inr (
              gone,
              still owner (false_of_not (owner == id) (get-keep_test p routes route owner g))
                  cleaned,
            )
          ];
    }

get_of_remove :
    (m : List (Text × ExtHandle)) (id i : Text) (h : ExtHandle)
    → UniqueKeys m
    → get (remove m id) i ≡ some h
    → get m i ≡ some h
get_of_remove m id i h u g = ground (arith, get-remove_if m id i u, g)

-- The handle of a running generation leaves the map.
pub removed-IsConsistent :
    (r : Running) (id : Text) (h : ExtHandle)
    → get r.inner.extensions id ≡ some h
    → IsConsistent r
    → IsConsistent (record {
      inner = record r.inner { extensions = remove r.inner.extensions id };
      cleaning = h ∷ r.cleaning;
    })
removed-IsConsistent r id h e c =
    let m = r.inner.extensions in
    let old = λ (i : Text) (k : ExtHandle) (g : get (remove m id) i ≡ some k).
      get_of_remove m id i k c.unique_ids g in
    record {
      unique_routes = c.unique_routes;
      unique_ids = remove-UniqueKeys m id c.unique_ids;
      keyed = λ i k g. c.keyed i k (old i k g);
      candidates = λ i j k l g f same. c.candidates i j k l (old i k g) (old j l f) same;
      own_id = c.own_id;
      answered = λ route owner g. elim (Bool-cases (id == owner)) [
        | inl same ↦ inr (
          rw (get-remove_if m id owner c.unique_ids, same),
          ground (arith, c.keyed id h e, text_beq_iff h.id owner, text_beq_iff id owner, same),
        )
        | inr other ↦ elim (c.answered route owner g) [
          | inl (k, found, lists) ↦
              inl (k, rw (get-remove_if m id owner c.unique_ids, other) found, lists)
          | inr (gone, cleaned) ↦
              inr (rw (get-remove_if m id owner c.unique_ids, other) gone, ground (arith, cleaned))
        ]
      ];
    }
