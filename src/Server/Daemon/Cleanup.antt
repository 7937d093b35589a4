-- ===== src/Server/Daemon/Cleanup.antt =====
-- crates/whdr-server/src/daemon.rs: what cleanup_extension_generation leaves.
use whdr.Common.{
  List, [], ◌∷◌, Option, none, some, Bool, true, false, not, Text, err, ◌≡◌, ◌≢◌, refl, sym, ◌∙◌,
  inl, inr, arith, get, contains_key, Bool-cases, Option-cases, text_eq, subst, keep, get-keep,
  get-keep_kept, get-keep_test, get-remove, get-remove_if, UniqueKeys, get-insert, insert, remove,
  ◌==◌, text_beq_iff, nat_eq, nat_beq_iff,
}
use whdr.Proto.Messages.{Uuid}
use whdr.Server.ChannelClaims.{Owners, unroute}
use whdr.Server.DispatchWindow
use whdr.Server.Daemon.{
  ExtHandle, Inner, starting, route, Reason, remove_generation, clean_up, unroute_extension,
  cleanup_extension_generation, extension_is_active, insert_each, enables, at_once,
}
use whdr.Server.Daemon.Starting.{listed}
use whdr.Server.Daemon.Steps.{Running, Reachable}
use whdr.Server.Daemon.Reached.{Reachable-IsConsistent, active_found}

-- The handle's extension is gone with all its claims, all others are as they were; and where the
-- routes are marked, a dispatch on one of them is told to wait.
pub record IsCleaned (id : Text) (paths : List Text) (marked : Bool) (s s' : Inner) : Type 0 where
  pub gone : get s'.extensions id ≡ none
  pub others :
      (other : Text) → (id == other) ≡ false → get s'.extensions other ≡ get s.extensions other
  pub unrouted : (route : Text) → get s'.claims.routes route ≢ some id
  pub unprefixed : (prefix : Text) → get s'.claims.channel_prefixes prefix ≢ some id
  pub routes_kept :
      (route owner : Text)
      → (owner == id) ≡ false
      → get s.claims.routes route ≡ some owner
      → get s'.claims.routes route ≡ some owner
  pub prefixes_kept :
      (prefix owner : Text)
      → (owner == id) ≡ false
      → get s.claims.channel_prefixes prefix ≡ some owner
      → get s'.claims.channel_prefixes prefix ≡ some owner
  pub waits :
      (key : Text)
      → marked ≡ true
      → listed paths key ≡ true
      → get s.claims.routes key ≡ some id
      → route (at_once s') key ≡ err starting

unrouted_lem :
    (id : Text) (owners : Owners) (key : Text)
    → get (keep (λ r. not (r.1 == id)) owners) key ≢ some id
unrouted_lem id owners key g =
    let passes = get-keep_test (λ (r : Text × Text). not (r.1 == id)) owners key id g in
    let same = (text_beq_iff id id).1 refl in ground (arith, passes, same)

kept_lem :
    (id : Text) (owners : Owners) (key owner : Text)
    → (owner == id) ≡ false
    → get owners key ≡ some owner
    → get (keep (λ r. not (r.1 == id)) owners) key ≡ some owner
kept_lem id owners key owner other g =
    get-keep_kept (λ r. not (r.1 == id)) owners key owner g (ground (arith, other))

get-keep_gone :
    (id : Text) (owners : Owners) (key : Text)
    → UniqueKeys owners
    → get owners key ≡ some id
    → get (keep (λ r. not (r.1 == id)) owners) key ≡ none
get-keep_gone id owners key u g =
    elim (Option-cases (get (keep (λ r. not (r.1 == id)) owners) key)) [
      | inl missing ↦ missing
      | inr (owner, found) ↦
          let old = get-keep (λ (r : Text × Text). not (r.1 == id)) owners key owner u found in
          absurd (unrouted_lem id owners key (found ∙ sym old ∙ g))
    ]

insert_each_kept :
    (reason : Reason) (m : List (Text × Reason)) (keys : List Text) (key : Text)
    → contains_key m key ≡ true
    → contains_key (insert_each reason m keys) key ≡ true
insert_each_kept reason m [] key h = h
insert_each_kept reason m (k ∷ keys) key h =
    insert_each_kept reason (insert m k reason) keys key
      (ground (arith, get-insert m k key reason, h))

contains_key-insert_each :
    (reason : Reason) (m : List (Text × Reason)) (keys : List Text) (key : Text)
    → listed keys key ≡ true
    → contains_key (insert_each reason m keys) key ≡ true
contains_key-insert_each reason m [] key h = cc
contains_key-insert_each reason m (k ∷ keys) key h = elim (Bool-cases (k == key)) [
  | inl same ↦
      insert_each_kept reason (insert m k reason) keys key
        (ground (arith, get-insert m k key reason, same))
  | inr other ↦
      contains_key-insert_each reason (insert m k reason) keys key (ground (arith, other, h))
]

route_of_unavailable :
    (s : Inner) (key : Text)
    → get s.claims.routes key ≡ none
    → contains_key s.unavailable_routes key ≡ true
    → route (at_once s) key ≡ err starting
unfolding route
route_of_unavailable s key g c = elim (Bool-cases (enables s.config key)) [
  | inl e ↦ rw (route, g, e) refl
  | inr e ↦ rw (route, g, e, c) refl
]

clean_up-IsCleaned :
    (reason : Reason) (marked : Bool) (handle : ExtHandle) (s : Inner)
    → UniqueKeys s.claims.routes
    → UniqueKeys s.extensions
    → IsCleaned handle.id handle.paths marked s
        (clean_up reason marked handle (record s { extensions = remove s.extensions handle.id }))
unfolding clean_up unroute_extension unroute route
clean_up-IsCleaned reason marked handle s u v = record {
  gone = get-remove s.extensions handle.id v;
  others = λ id other. get-remove_if s.extensions handle.id id v ∙ rw other refl;
  unrouted = unrouted_lem handle.id s.claims.routes;
  unprefixed = unrouted_lem handle.id s.claims.channel_prefixes;
  routes_kept = kept_lem handle.id s.claims.routes;
  prefixes_kept = kept_lem handle.id s.claims.channel_prefixes;
  waits = λ key m lists g.
      let unrouted = unroute_extension handle s in
      let marks =
        insert_each reason unrouted.unavailable_routes (handle.candidate_id ∷ handle.paths) in
      let found : contains_key marks key ≡ true =
        contains_key-insert_each reason unrouted.unavailable_routes
          (handle.candidate_id ∷ handle.paths) key (ground (arith, lists)) in
      route_of_unavailable
        (clean_up reason marked handle (record s { extensions = remove s.extensions handle.id }))
        key (get-keep_gone handle.id s.claims.routes key u g) (rw m found);
}

active_generation :
    (s : Inner) (id : Text) (generation : Uuid) (h : ExtHandle)
    → extension_is_active s id generation ≡ true
    → get s.extensions id ≡ some h
    → h.generation ≡ generation
unfolding extension_is_active
active_generation s id generation h active found =
    (nat_beq_iff h.generation generation).0 (rw (extension_is_active, found) at active)

remove_generation_active :
    (s : Inner) (id : Text) (generation : Uuid) (h : ExtHandle)
    → extension_is_active s id generation ≡ true
    → get s.extensions id ≡ some h
    → remove_generation id generation s ≡ (record s { extensions = remove s.extensions id }, some h)
unfolding remove_generation
remove_generation_active s id generation h active found = rw (remove_generation, active, found) refl

remove_generation_idle :
    (s : Inner) (id : Text) (generation : Uuid)
    → extension_is_active s id generation ≡ false
    → remove_generation id generation s ≡ (s, none)
unfolding remove_generation
remove_generation_idle s id generation idle = rw (remove_generation, idle) refl

-- What the two ways of a cleanup leave.
abbrev pub Cleaned :
    (id : Text) → Uuid → (marked : Bool) → (s : Inner) → Inner × Option ExtHandle → Type 0
Cleaned id generation marked s (s', none) = (s' ≡ s) × (extension_is_active s id generation ≡ false)
Cleaned id generation marked s (s', some handle) =
    (handle.id ≡ id)
    × (handle.generation ≡ generation)
    × (handle.dispatches.pending ≡ [])
    × IsCleaned handle.id handle.paths marked s s'

-- In a reachable state, where no other task runs between the locks of the cleanup, the end of the
-- generation that runs under an id takes its extension and all its claims away and changes nothing of the others; the handle is returned with no pending request.
-- The routes it had are then told to wait, if they are marked. The end of any other generation
-- changes nothing.
pub cleanup-IsCleaned :
    (id : Text) (generation : Uuid) (reason : Reason) (marked : Bool) (r : Running)
    → Reachable r
    → Cleaned id generation marked r.inner
        (cleanup_extension_generation id generation reason marked r.inner)
unfolding cleanup_extension_generation DispatchWindow.clear
cleanup-IsCleaned id generation reason marked r reached =
    let c = Reachable-IsConsistent r reached in
    elim (Bool-cases (extension_is_active r.inner id generation)) [
      | inl active ↦
          let (h, found) = active_found r.inner id generation active in
          let named = c.keyed id h found in
          rw
            (
              cleanup_extension_generation,
              remove_generation_active r.inner id generation h active found,
            )
            (
              named,
              active_generation r.inner id generation h active found,
              refl,
              subst
                  (λ i. IsCleaned h.id h.paths marked r.inner (
                    clean_up reason marked h
                      (record r.inner { extensions = remove r.inner.extensions i })))
                  named (clean_up-IsCleaned reason marked h r.inner c.unique_routes c.unique_ids),
            )
      | inr idle ↦
          rw (cleanup_extension_generation, remove_generation_idle r.inner id generation idle)
            (refl, idle)
    ]
