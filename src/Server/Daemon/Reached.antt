-- ===== src/Server/Daemon/Reached.antt =====
-- crates/whdr-server/src/daemon.rs: every state that the tasks reach is consistent.
use whdr.Common.{
  List, ◌∷◌, ◌++◌, some, Bool, true, false, not, Text, Result, ok, err, ◌≡◌, refl, inl, inr, get,
  bind_ok, ok-injective, Bool-cases, Option-cases, guard, contains_key, text_eq, nat_eq, subst,
}
use whdr.Server.ChannelClaims.{Claims, ClaimError, register}
use whdr.Proto.Messages.{Uuid}
use whdr.Server.Daemon.{
  ExtHandle, Inner, new_state, remove_generation, extension_is_active,
  extension_candidate_is_active, StartError,
}
use whdr.Server.Daemon.Starting.{new_handle, register_handle, refused}
use whdr.Server.Daemon.Registered.{registered-IsConsistent}
use whdr.Server.Daemon.Consistent.{
  IsConsistent, retained-IsConsistent, removed-IsConsistent, cleans_id_without, cleans_id,
}
use whdr.Server.Daemon.Steps.{
  Running, Step, registers, removes, cleans, drains, drops_prefixes, marks, Reachable, start, next,
  taken_out,
}

guard_passed : (b : Bool) (e : StartError) → guard (not b) e ≡ ok tt → b ≡ false
guard_passed true e h = cc
guard_passed false e h = refl

refused_ok :
    (result : Result Claims ClaimError) (claims : Claims)
    → refused result ≡ ok claims
    → result ≡ ok claims
refused_ok (ok c) claims h = cc
refused_ok (err e) claims h = cc

register_handle_ok :
    (handle : ExtHandle) (aliases : List Text) (r : Running) (s' : Inner)
    → handle.paths ≡ handle.id ∷ aliases
    → register_handle handle r.inner ≡ ok s'
    → IsConsistent r
    → IsConsistent (record r { inner = s' })
unfolding register_handle
register_handle_ok handle aliases r s' own h c =
    let (_, g1, h1) = bind_ok (guard (not (contains_key r.inner.extensions handle.id)) _) _ h in
    let (_, g2, h2) =
      bind_ok (guard (not (extension_candidate_is_active r.inner handle.candidate_id)) _) _ h1 in
    let (claims, g3, h3) =
      bind_ok (refused (register handle.id handle.paths handle.channels r.inner.claims)) _ h2 in
    subst (λ s. IsConsistent (record r { inner = s })) (ok-injective h3)
      (registered-IsConsistent r handle aliases claims own (guard_passed _ _ g1)
        (guard_passed _ _ g2) (refused_ok _ claims g3) c)

pub active_found :
    (s : Inner) (id : Text) (generation : Uuid)
    → extension_is_active s id generation ≡ true
    → (h : ExtHandle) × (get s.extensions id ≡ some h)
unfolding extension_is_active
active_found s id generation active = elim (Option-cases (get s.extensions id)) [
  | inl missing ↦ let t = rw (extension_is_active, missing) at active in cc
  | inr found ↦ found
]

removes-IsConsistent :
    (r : Running) (id : Text) (generation : Uuid)
    → IsConsistent r
    → IsConsistent (record {
      inner = (remove_generation id generation r.inner).0;
      cleaning = taken_out r.cleaning (remove_generation id generation r.inner).1;
    })
unfolding remove_generation
removes-IsConsistent r id generation c =
    elim (Bool-cases (extension_is_active r.inner id generation)) [
      | inl active ↦
          let (h, found) = active_found r.inner id generation active in
          rw (remove_generation, active, found) (removed-IsConsistent r id h found c)
      | inr idle ↦ rw (remove_generation, idle) c
    ]

Step-IsConsistent : {r r' : Running} → Step r r' → IsConsistent r → IsConsistent r'
Step-IsConsistent {r} (registers candidate_id generation registration s' h) c =
    register_handle_ok (new_handle candidate_id generation registration) registration.paths r s'
      refl h c
Step-IsConsistent {r} (removes id generation) c = removes-IsConsistent r id generation c
Step-IsConsistent {r} (cleans handle front back e) c =
    retained-IsConsistent r handle.id (front ++ back) c (λ owner other found.
      cleans_id_without front back handle owner other
        (subst (λ l. cleans_id l owner ≡ true) e found))
Step-IsConsistent {r} (drains id) c =
    retained-IsConsistent r id r.cleaning c (λ owner other found. found)
Step-IsConsistent (drops_prefixes id) c = record {
  unique_routes = c.unique_routes;
  unique_ids = c.unique_ids;
  keyed = c.keyed;
  candidates = c.candidates;
  own_id = c.own_id;
  answered = c.answered;
}
Step-IsConsistent (marks _ _ _ _ _ _) c = record {
  unique_routes = c.unique_routes;
  unique_ids = c.unique_ids;
  keyed = c.keyed;
  candidates = c.candidates;
  own_id = c.own_id;
  answered = c.answered;
}

-- Whatever the tasks do, lock by lock: there is one entry for a route and for a running id, no candidate
-- runs twice, and the owner of a route is a running extension that claims it, or one that has left
-- the map and is being cleaned up.
pub Reachable-IsConsistent : (r : Running) → Reachable r → IsConsistent r
unfolding new_state
Reachable-IsConsistent _ (start config limits) = record {
  unique_routes = tt;
  unique_ids = tt;
  keyed = λ i h g. cc;
  candidates = λ i j h k g f same. cc;
  own_id = λ route owner g. cc;
  answered = λ route owner g. cc;
}
Reachable-IsConsistent _ (next reached step) =
    Step-IsConsistent step (Reachable-IsConsistent _ reached)
