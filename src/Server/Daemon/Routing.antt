-- ===== src/Server/Daemon/Routing.antt =====
-- crates/whdr-server/src/daemon.rs: what the routing of a dispatch answers, whatever the other tasks do
-- between its locks.
use whdr.Common.{
  List, [], ◌∷◌, Option, none, some, Bool, true, ◌||◌, Text, Result, ok, err, ◌≡◌, ◌≢◌, refl, subst,
  sym, ap, ◌∙◌, ◌⊎◌, inl, inr, get, any, arith, ◌==◌, text_eq, text_beq_iff, contains_key, is_some,
  Memᴰ, Bool-cases, Option-cases,
}
use mathlib.Core.List.Memᴰ
use whdr.Server.Daemon.{
  Reason, ExtHandle, Inner, DispatchError, starting, not_found, Reads, route, enables,
}
use whdr.Server.Daemon.Starting.{listed}
use whdr.Server.Daemon.Steps.{Running, Reachable}
use whdr.Server.Daemon.Consistent.{Answered, cleans_id}
use whdr.Server.Daemon.Reached.{Reachable-IsConsistent}

-- The configuration enables the key, or an earlier exit or failure names it.
pub data IsKnown (reads : Reads) (key : Text) : Type 0 where
  by_config : Memᴰ key reads.at_config.config.enabled → IsKnown reads key
  by_exit :
      {reason : Reason}
      → get reads.at_unavailable.unavailable_routes key ≡ some reason
      → IsKnown reads key
  by_failure :
      {reason : Reason}
      → get reads.at_failed.failed_extensions key ≡ some reason
      → IsKnown reads key

enables-mem :
    (key : Text) (enabled : List Text) → any (λ e. e == key) enabled ≡ true → Memᴰ key enabled
enables-mem key [] h = cc
enables-mem key (e ∷ enabled) h = elim (Bool-cases (e == key)) [
  | inl same ↦ Memᴰ.head (sym ((text_beq_iff e key).0 same))
  | inr other ↦ Memᴰ.tail (enables-mem key enabled (rw other at h))
]

mem-enables :
    (key : Text) (enabled : List Text) → Memᴰ key enabled → any (λ e. e == key) enabled ≡ true
mem-enables key [] m = elim m [ ]
mem-enables key (e ∷ enabled) m = elim (Memᴰ.cases_cons m) [
  | inl same ↦ let self = (text_beq_iff e key).1 (sym same) in rw self
  | inr later ↦ ground (arith, mem-enables key enabled later)
]

found : {V : Type 0} (o : Option V) → is_some o ≡ true → (v : V) × (o ≡ some v)
found none h = cc
found (some v) h = (v, refl)

-- The test of the code.
abbrev pub is_known : Reads → (key : Text) → Bool
is_known reads key =
    enables reads.at_config.config key
    || contains_key reads.at_unavailable.unavailable_routes key
    || contains_key reads.at_failed.failed_extensions key

pub is_known-IsKnown : (reads : Reads) (key : Text) → is_known reads key ≡ true → IsKnown reads key
is_known-IsKnown reads key h = elim (Bool-cases (enables reads.at_config.config key)) [
  | inl e ↦ by_config (enables-mem key reads.at_config.config.enabled e)
  | inr off ↦ elim (Bool-cases (contains_key reads.at_unavailable.unavailable_routes key)) [
    | inl e ↦ by_exit (found (get reads.at_unavailable.unavailable_routes key) e).1
    | inr neither ↦
        by_failure (found (get reads.at_failed.failed_extensions key) (rw (off, neither) at h)).1
  ]
]

pub IsKnown-is_known : (reads : Reads) (key : Text) → IsKnown reads key → is_known reads key ≡ true
IsKnown-is_known reads key (by_config m) =
    let e = mem-enables key reads.at_config.config.enabled m in rw e
IsKnown-is_known reads key (by_exit e) = ground (arith, e)
IsKnown-is_known reads key (by_failure e) = ground (arith, e)

-- The states of a dispatch that looks up the route in `r` and the extension in `later`.
abbrev pub reads_of : (r later : Running) (config unavailable failed : Inner) → Reads
reads_of r later config unavailable failed = record {
  at_routes = r.inner;
  at_config = config;
  at_unavailable = unavailable;
  at_failed = failed;
  at_extensions = later.inner;
}

-- What each answer says of the states; `reads` are those of the locks.
pub data Routed (r later : Running) (reads : Reads) (key : Text)
    : Result ExtHandle DispatchError → Type 0 where
  handed :
      (h : ExtHandle)
      → get r.inner.claims.routes key ≡ some h.id
      → get later.inner.extensions h.id ≡ some h
      → (listed h.paths key ≡ true) ⊎ (get r.inner.extensions h.id ≢ some h)
      → Routed r later reads key (ok h)
  gone :
      (owner : Text)
      → get r.inner.claims.routes key ≡ some owner
      → get later.inner.extensions owner ≡ none
      → (cleans_id r.cleaning owner ≡ true)
        ⊎ ((h : ExtHandle) × (get r.inner.extensions owner ≡ some h))
      → Routed r later reads key (err starting)
  waiting :
      get r.inner.claims.routes key ≡ none
      → IsKnown reads key
      → Routed r later reads key (err starting)
  missing :
      get r.inner.claims.routes key ≡ none
      → ¬ IsKnown reads key
      → Routed r later reads key (err not_found)

lists_or_new :
    (r : Running) (key owner : Text) (h : ExtHandle)
    → Answered r key owner
    → (listed h.paths key ≡ true) ⊎ (get r.inner.extensions owner ≢ some h)
lists_or_new r key owner h (inl (old, e, lists)) = elim (Bool-cases (listed h.paths key)) [
  | inl claims ↦ inl claims
  | inr other ↦ inr (λ same. let e = sym e ∙ same in cc)
]
lists_or_new r key owner h (inr (absent, cleaned)) = inr (λ same. let e = sym absent ∙ same in cc)

was_running :
    (r : Running) (key owner : Text)
    → Answered r key owner
    → (cleans_id r.cleaning owner ≡ true)
      ⊎ ((h : ExtHandle) × (get r.inner.extensions owner ≡ some h))
was_running r key owner (inl (h, e, lists)) = inr (h, e)
was_running r key owner (inr (absent, cleaned)) = inl cleaned

-- A dispatch that looks up the route in one reachable state and the extension in another, whatever the
-- states in which it reads the configuration, the exits and the failures: it goes to the extension that
-- runs under the owner of the route, which claims the key or has come under this id since. It is told
-- to wait only where the owner has left, and was being cleaned up or still ran when the route was read,
-- or where the key has no route and is enabled or named by an exit or a failure; it is not found only
-- where the key has no route and is none of these. So a key whose extension has failed for good is told
-- to wait too.
pub route-Routed :
    (r later : Running)
    → Reachable r
    → Reachable later
    → (config unavailable failed : Inner) → (key : Text)
    → Routed r later
        (reads_of r later config unavailable failed)
        key
        (route (reads_of r later config unavailable failed) key)
unfolding route
route-Routed r later reached reached_later config unavailable failed key =
    let reads = reads_of r later config unavailable failed in
    let c = Reachable-IsConsistent r reached in
    let d = Reachable-IsConsistent later reached_later in
    elim (Option-cases (get r.inner.claims.routes key)) [
      | inl none_routed ↦ elim (Bool-cases (is_known reads key)) [
        | inl known ↦
            rw (route, none_routed, known) (waiting none_routed (is_known-IsKnown reads key known))
        | inr unknown ↦
            rw (route, none_routed, unknown)
              (missing none_routed (λ k. let known = IsKnown-is_known reads key k in cc))
      ]
      | inr (owner, g) ↦ elim (Option-cases (get later.inner.extensions owner)) [
        | inl left ↦
            rw (route, g, left)
              (gone owner g left (was_running r key owner (c.answered key owner g)))
        | inr (h, runs) ↦
            let same = sym (d.keyed owner h runs) in
            rw (route, g, runs)
              (handed h (g ∙ ap some same) (ap (get later.inner.extensions) (sym same) ∙ runs) (
                subst (λ o. (listed h.paths key ≡ true) ⊎ (get r.inner.extensions o ≢ some h)) same
                  (lists_or_new r key owner h (c.answered key owner g))))
      ]
    ]
