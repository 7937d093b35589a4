-- ===== src/Recovery/Order.antt =====
-- The events that a replay reads are numbered in ascending order.
use whdr.Common.{
  ℕ, suc, ◌<◌, ◌≤◌, ◌≡◌, sym, subst, ◌∙◌, List, [], ◌∷◌, map, Option, true, Text, ok, arith, keep,
  ltb, Bool-cases, inl, inr, All, ok-injective,
}
use whdr.Server.DeliveryLog.Storage.{Store, Row}
use whdr.Server.DeliveryLog.{StampedEvent, read_rows, is_match}
use whdr.Server.DeliveryLog.Rows.{Consecutive, Decodes}
use whdr.Server.DeliveryLog.Reading.{read_rows-nil, read_rows_skip, read_rows_take, read_rows_total}
use whdr.SubKit.Session.Ascent.{Ascending}

abbrev pub RowsAscending : ℕ → List Row → Type 0
RowsAscending lo [] = Unit
RowsAscending lo (r ∷ rows) = (lo < r.0) × RowsAscending r.0 rows

abbrev pub seq_of : StampedEvent → ℕ
seq_of e = e.seq

Ascending-weaken : (lo hi : ℕ) (ns : List ℕ) → lo ≤ hi → Ascending hi ns → Ascending lo ns
Ascending-weaken lo hi [] l h = tt
Ascending-weaken lo hi (n ∷ ns) l h = (omega arith, h.1)

-- The rows above a number, of a run.
pub above-RowsAscending :
    (k lo : ℕ) (rows : List Row)
    → Consecutive k rows
    → RowsAscending lo (keep (λ r. ltb lo r.0) rows)
above-RowsAscending k lo [] c = tt
above-RowsAscending k lo ((j, v) ∷ rows) c = elim (Bool-cases (ltb lo j)) [
  | inl in_range ↦ rw in_range (
    ground arith,
    rest j rows (subst (λ n. Consecutive (suc n) rows) (sym c.0) c.1) (ground arith),
  )
  | inr low ↦ rw low (above-RowsAscending (suc k) lo rows c.1)
]
  where
    rest :
        (n : ℕ) (rs : List Row)
        → Consecutive (suc n) rs
        → lo < n
        → RowsAscending n (keep (λ r. ltb lo r.0) rs)
    rest n [] d l = tt
    rest n ((i, w) ∷ rs) d l =
        let e : ltb lo i ≡ true = ground (arith, d.0) in
        rw e (
          omega (arith, d.0),
          rest i rs (subst (λ m. Consecutive (suc m) rs) (sym d.0) d.1) (omega (arith, d.0)),
        )

All-unit : (rows : List Row) → All (λ r. Unit {0}) rows
All-unit [] = tt
All-unit (r ∷ rows) = (tt, All-unit rows)

module _ (store : Store) (patterns : Option (List Text)) where
  open store use {from_slice}

  pub read_rows-Ascending :
      (lo : ℕ) (rows : List Row) (events : List StampedEvent)
      → All (Decodes store) rows
      → RowsAscending lo rows
      → read_rows store patterns rows ≡ ok events
      → Ascending lo (map seq_of events)
  read_rows-Ascending lo [] events d h e =
      subst (λ es. Ascending lo (map seq_of es))
        (ok-injective (sym (read_rows-nil store patterns) ∙ e)) tt
  read_rows-Ascending lo ((k, v) ∷ rows) events d h e =
      let (stored, s) = d.0 in
      let (later, r, _) = read_rows_total store patterns (λ n. Unit) rows d.1 (All-unit rows) in
      elim (Bool-cases (is_match patterns stored.channel)) [
        | inl good ↦
            subst (λ es. Ascending lo (map seq_of es))
              (ok-injective
                (sym (read_rows_take store patterns k v rows stored later s good r) ∙ e))
              (h.0, read_rows-Ascending k rows later d.1 h.1 r)
        | inr bad ↦ Ascending-weaken lo k (map seq_of events) (omega (arith, h.0)) (
            read_rows-Ascending k rows events d.1 h.1
              (sym (read_rows_skip store patterns k v rows stored s bad) ∙ e))
      ]
