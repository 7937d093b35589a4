-- ===== src/Server/Daemon/Registered.antt =====
-- crates/whdr-server/src/daemon.rs: the registration block of start_extension keeps the maps
-- consistent.
use whdr.Common.{
  List, [], ◌∷◌, none, some, true, false, Text, ok, ◌≡◌, refl, sym, ap, ◌∙◌, ◌⊎◌, inl, inr, arith,
  get, insert, All, UniqueKeys, get-insert, insert-UniqueKeys, Bool-cases, contains_key, ◌==◌,
  text_eq, nat_eq, text_beq_iff, ◌≢◌, subst, any-get, Memᴰ,
}
use whdr.Server.ChannelClaims.{Claims, register}
use whdr.Server.ChannelClaims.Isolation.{get-insert_all, insert_all-UniqueKeys}
use whdr.Server.ChannelClaims.Registration.{register-AreRegistered}
use whdr.Server.ChannelClaims.Unrouted.{register_unrouted, get-register_kept}
use whdr.Server.Daemon.{ExtHandle, extension_candidate_is_active}
use whdr.Server.Daemon.Starting.{listed}
use whdr.Server.Daemon.Consistent.{IsConsistent, Answered}
use whdr.Server.Daemon.Steps.{Running}

-- The two entries that a key can have after an insertion.
insert_cases :
    (m : List (Text × ExtHandle)) (id i : Text) (new h : ExtHandle)
    → get (insert m id new) i ≡ some h
    → ((id ≡ i) × (new ≡ h)) ⊎ (get m i ≡ some h)
insert_cases m id i new h g = elim (Bool-cases (id == i)) [
  | inl same ↦ inl ((text_beq_iff id i).0 same, ground (arith, get-insert m id i new, same, g))
  | inr other ↦ inr (ground (arith, get-insert m id i new, other, g))
]

listed_more :
    (y : Text) (ys xs : List Text)
    → All (λ c. listed ys c ≡ true) xs
    → All (λ c. listed (y ∷ ys) c ≡ true) xs
listed_more y ys [] h = tt
listed_more y ys (x ∷ xs) h = (ground (arith, h.0), listed_more y ys xs h.1)

All-listed : (xs : List Text) → All (λ c. listed xs c ≡ true) xs
All-listed [] = tt
All-listed (x ∷ xs) =
    (ground (arith, (text_beq_iff x x).1 refl), listed_more x xs xs (All-listed xs))

module _ (r : Running) (handle : ExtHandle) (aliases : List Text) (claims : Claims)
    (own : handle.paths ≡ handle.id ∷ aliases)
    (absent : contains_key r.inner.extensions handle.id ≡ false)
    (fresh : extension_candidate_is_active r.inner handle.candidate_id ≡ false)
    (h : register handle.id handle.paths handle.channels r.inner.claims ≡ ok claims)
    (c : IsConsistent r) where
  abbrev registered : Running
  registered = record r {
    inner = record r.inner {
      extensions = insert r.inner.extensions handle.id handle;
      claims = claims;
    };
  }

  new_route_cases :
      (route owner : Text)
      → get claims.routes route ≡ some owner
      → ((listed handle.paths route ≡ true) × (owner ≡ handle.id))
        ⊎ (get r.inner.claims.routes route ≡ some owner)
  new_route_cases route owner g =
      let (_, e) =
        register_unrouted handle.id handle.paths handle.channels r.inner.claims claims h in
      get-insert_all (λ p. listed handle.paths p ≡ true) handle.id handle.paths
        r.inner.claims.routes route owner (All-listed handle.paths)
        (ap (λ m. get m route) (sym e) ∙ g)

  own_id_unrouted : get r.inner.claims.routes handle.id ≡ none
  own_id_unrouted =
      let (free, _) =
        register_unrouted handle.id handle.paths handle.channels r.inner.claims claims h in
      (subst (λ paths. All (λ p. get r.inner.claims.routes p ≡ none) paths) own free).0

  own_id_routed : get claims.routes handle.id ≡ some handle.id
  own_id_routed =
      (register-AreRegistered handle.id handle.paths handle.channels r.inner.claims claims
          h).paths_of
        handle.id (subst (λ paths. Memᴰ handle.id paths) (sym own) (Memᴰ.head refl))

  absent_none : get r.inner.extensions handle.id ≡ none
  absent_none = ground (arith, absent)

  registered_answers :
      (route owner : Text) → get claims.routes route ≡ some owner → Answered registered route owner
  registered_answers route owner g =
      let m = r.inner.extensions in
      elim (new_route_cases route owner g) [
        | inl (lists, e) ↦ inl (
          handle,
          ground (arith, get-insert m handle.id owner handle, e, text_beq_iff handle.id owner),
          lists,
        )
        | inr old ↦ elim (c.answered route owner old) [
          | inl (k, found, lists) ↦ inl (
            k,
            ground (
              arith,
              get-insert m handle.id owner handle,
              found,
              absent_none,
              text_beq_iff handle.id owner,
            ),
            lists,
          )
          | inr (gone, cleaned) ↦ inr (
            ground (
              arith,
              get-insert m handle.id owner handle,
              gone,
              own_id_unrouted,
              c.own_id route owner old,
              text_beq_iff handle.id owner,
            ),
            cleaned,
          )
        ]
      ]

  not_fresh :
      (i : Text) (k : ExtHandle)
      → get r.inner.extensions i ≡ some k
      → k.candidate_id ≢ handle.candidate_id
  unfolding extension_candidate_is_active
  not_fresh i k g same =
      let passes = λ (e : Text × ExtHandle). e.1.candidate_id == handle.candidate_id in
      let no = any-get passes r.inner.extensions i k fresh g in
      let yes_it_is = (text_beq_iff k.candidate_id handle.candidate_id).1 same in cc

  pub registered-IsConsistent : IsConsistent registered
  registered-IsConsistent =
      let m = r.inner.extensions in
      let (_, e) =
        register_unrouted handle.id handle.paths handle.channels r.inner.claims claims h in
      record {
        unique_routes =
            subst (λ routes. UniqueKeys routes) (sym e)
              (insert_all-UniqueKeys handle.id handle.paths r.inner.claims.routes c.unique_routes);
        unique_ids = insert-UniqueKeys m handle.id handle c.unique_ids;
        keyed = λ i k g. elim (insert_cases m handle.id i handle k g) [
          | inl (same, new) ↦ sym (ap (λ x. x.id) new) ∙ same
          | inr old ↦ c.keyed i k old
        ];
        candidates = λ i j k l g f same. elim (insert_cases m handle.id i handle k g) [
          | inl (i_new, k_new) ↦ elim (insert_cases m handle.id j handle l f) [
            | inl (j_new, l_new) ↦ sym i_new ∙ j_new
            | inr j_old ↦ absurd (not_fresh j l j_old (sym (ap (λ x. x.candidate_id) k_new ∙ same)))
          ]
          | inr i_old ↦ elim (insert_cases m handle.id j handle l f) [
            | inl (j_new, l_new) ↦
                absurd (not_fresh i k i_old (same ∙ sym (ap (λ x. x.candidate_id) l_new)))
            | inr j_old ↦ c.candidates i j k l i_old j_old same
          ]
        ];
        own_id = λ route owner g. elim (new_route_cases route owner g) [
          | inl (lists, mine) ↦ subst (λ o. get claims.routes o ≡ some o) (sym mine) own_id_routed
          | inr old ↦
              get-register_kept handle.id handle.paths handle.channels r.inner.claims claims owner
                owner h (c.own_id route owner old)
        ];
        answered = registered_answers;
      }
