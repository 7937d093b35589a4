-- ===== src/Server/DeliveryLog/Reading.antt =====
-- Reading rows: what the loop of `read_after` gives for rows that decode.
use whdr.Common.{
  ok-injective, ℕ, ◌+◌, ◌<◌, ◌≡◌, refl, sym, ap, ◌∙◌, List, [], ◌∷◌, ◌++◌, Option, some, true,
  false, Text, ok, leb, arith, keep, All, saturating_add_exact, word_mod, Bool-cases, inl, inr,
}
use whdr.Server.DeliveryLog.Storage.{Store, StoredEvent, Row}
use whdr.Server.DeliveryLog.{Shared, StampedEvent, read_after, read_rows, stamp_stored, is_match}
use whdr.Server.DeliveryLog.Rows.{Decodes}

module _ (store : Store) (patterns : Option (List Text)) where
  open store use {from_slice, iter, iter-range}

  pub read_rows-nil : read_rows store patterns [] ≡ ok []
  unfolding read_rows
  read_rows-nil = refl

  pub read_rows_skip :
      (k : ℕ) (v : Text) (rows : List Row) (stored : StoredEvent)
      → from_slice v ≡ some stored
      → is_match patterns stored.channel ≡ false
      → read_rows store patterns ((k, v) ∷ rows) ≡ read_rows store patterns rows
  unfolding read_rows
  read_rows_skip k v rows stored e h = rw (e, h, read_rows)

  pub read_rows_take :
      (k : ℕ) (v : Text) (rows : List Row) (stored : StoredEvent) (events : List StampedEvent)
      → from_slice v ≡ some stored
      → is_match patterns stored.channel ≡ true
      → read_rows store patterns rows ≡ ok events
      → read_rows store patterns ((k, v) ∷ rows) ≡ ok (stamp_stored k stored ∷ events)
  unfolding read_rows
  read_rows_take k v rows stored events e h r = rw (e, h, r, read_rows)

  -- Rows that decode are read, and an event has the number of its row.
  pub read_rows_total :
      (P : ℕ → Type 0) (rows : List Row)
      → All (Decodes store) rows
      → All (λ r. P r.0) rows
      → (events : List StampedEvent) × (read_rows store patterns rows ≡ ok events)
        × All (λ e. P e.seq) events
  unfolding read_rows
  read_rows_total P [] d h = ([], refl, tt)
  read_rows_total P ((k, v) ∷ rows) d h =
      let (stored, e) = d.0 in
      let (events, r, all) = read_rows_total P rows d.1 h.1 in
      elim (Bool-cases (is_match patterns stored.channel)) [
        | inl good ↦ (
          stamp_stored k stored ∷ events,
          read_rows_take k v rows stored events e good r,
          (h.0, all),
        )
        | inr bad ↦ (events, read_rows_skip k v rows stored e bad ∙ r, all)
      ]

  pub read_rows-append :
      (xs ys : List Row) (a b : List StampedEvent)
      → All (Decodes store) xs
      → read_rows store patterns xs ≡ ok a
      → read_rows store patterns ys ≡ ok b
      → read_rows store patterns (xs ++ ys) ≡ ok (a ++ b)
  unfolding read_rows
  read_rows-append [] ys a b d h k = ground (arith, h, k)
  read_rows-append ((k, v) ∷ xs) ys a b d h g =
      let (stored, e) = d.0 in
      let (events, r, _) = read_rows_total (λ n. Unit) xs d.1 (All-unit xs) in
      elim (Bool-cases (is_match patterns stored.channel)) [
        | inl good ↦
            read_rows_take k v (xs ++ ys) stored (events ++ b) e good
              (read_rows-append xs ys events b d.1 r g)
            ∙ ap (λ t. ok (t ++ b))
                (ok-injective (sym (read_rows_take k v xs stored events e good r) ∙ h))
        | inr bad ↦
            read_rows_skip k v (xs ++ ys) stored e bad
            ∙ read_rows-append xs ys a b d.1 (sym (read_rows_skip k v xs stored e bad) ∙ h) g
      ]
    where
      All-unit : (rows : List Row) → All {0, 0} (λ r. Unit) rows
      All-unit [] = tt
      All-unit (r ∷ rows) = (tt, All-unit rows)

  pub read_after_lem :
      (s : Shared store) (after_seq : ℕ)
      → after_seq + 1 < word_mod
      → read_after store false s after_seq patterns
        ≡ read_rows store patterns (keep (λ r. leb (after_seq + 1) r.0) (iter s.db))
  unfolding read_after
  read_after_lem s after_seq h = rw (saturating_add_exact after_seq 1 h, iter-range)
