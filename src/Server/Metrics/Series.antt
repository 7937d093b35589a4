-- ===== src/Server/Metrics/Series.antt =====
-- crates/whdr-server/src/metrics.rs: the connections of one name are one series, with their sums.
use whdr.Common.{
  ℕ, ◌+◌, ◌<◌, word_mod, fetch_add, arith, ◌≡◌, refl, sym, subst, nat_eq, ap, ◌∙◌, List, [], ◌∷◌,
  Option, none, some, Bool, true, false, Text, ◌==◌, text_eq, text_beq_iff, ==_refl, Option-cases,
  Bool-cases, inl, inr, if◌then◌else◌,
}
use whdr.Server.Metrics.{SubscriberRow, Sums, or_zero, add_to, add_row, sum_by_name}

-- The rows of a name.
unfoldable pub rows_of : Text → List Sums → List Sums
rows_of name [] = []
rows_of name (row ∷ rows) =
    let rest = rows_of name rows in if row.name == name then row ∷ rest else rest

abbrev is_named : Text → Option Text → Bool
is_named name none = false
is_named name (some other) = other == name

-- The sum over the connections of a name.
unfoldable pub total : (SubscriberRow → ℕ) → Text → List SubscriberRow → ℕ
total f name [] = 0
total f name (sub ∷ subs) =
    let rest = total f name subs in if is_named name sub.name then f sub + rest else rest

abbrev pub delivered_of : SubscriberRow → ℕ
delivered_of sub = or_zero sub.delivered

abbrev pub dropped_of : SubscriberRow → ℕ
dropped_of sub = or_zero sub.dropped

abbrev pub one_of : SubscriberRow → ℕ
one_of sub = 1

-- A row and the connections of its name to come.
abbrev plus : Sums → (delivered dropped connections : ℕ) → Sums
plus row delivered dropped connections = record row {
  delivered = row.delivered + delivered;
  dropped = row.dropped + dropped;
  connections = row.connections + connections;
}

abbrev plus_all : Sums → Text → List SubscriberRow → Sums
plus_all row name subs =
    plus row (total delivered_of name subs) (total dropped_of name subs) (total one_of name subs)

-- The sums over the connections of a name.
abbrev pub totals : Text → List SubscriberRow → Sums
totals name subs = record {
  name = name;
  delivered = total delivered_of name subs;
  dropped = total dropped_of name subs;
  connections = total one_of name subs;
}

-- The sums fit their words.
abbrev pub Fits : Sums → Type 0
Fits row = (row.delivered < word_mod) × (row.dropped < word_mod) × (row.connections < word_mod)

abbrev add_first : (delivered dropped : ℕ) → List Sums → List Sums
add_first d p [] = []
add_first d p (row ∷ rows) = add_to row d p ∷ rows

rows_of-add_row_other :
    (name other : Text) (d p : ℕ) (rows : List Sums)
    → (other == name) ≡ false
    → rows_of name (add_row other d p rows) ≡ rows_of name rows
unfolding rows_of add_row
rows_of-add_row_other name other d p [] h = rw h refl
rows_of-add_row_other name other d p (row ∷ rows) h = elim (Bool-cases (row.name == other)) [
  | inl e ↦ let o = (text_beq_iff row.name other).0 e in rw (e, o, h) refl
  | inr e ↦ rw e (ground (arith, rows_of-add_row_other name other d p rows h))
]

rows_of-add_row_new :
    (name : Text) (d p : ℕ) (rows : List Sums)
    → rows_of name rows ≡ []
    → rows_of name (add_row name d p rows)
      ≡ record { name = name; delivered = d; dropped = p; connections = 1 } ∷ []
unfolding rows_of add_row
rows_of-add_row_new name d p [] h = rw (==_refl name) refl
rows_of-add_row_new name d p (row ∷ rows) h = elim (Bool-cases (row.name == name)) [
  | inl e ↦ let t = rw (rows_of, e) at h in cc
  | inr e ↦ rw (e, e) (rows_of-add_row_new name d p rows (rw (rows_of, e) at h))
]

rows_of-add_row_old :
    (name : Text) (d p : ℕ) (rows : List Sums) (row : Sums) (later : List Sums)
    → rows_of name rows ≡ row ∷ later
    → rows_of name (add_row name d p rows) ≡ add_to row d p ∷ later
unfolding rows_of add_row
rows_of-add_row_old name d p [] row later h = cc
rows_of-add_row_old name d p (first ∷ rows) row later h = elim (Bool-cases (first.name == name)) [
  | inl e ↦ rw (e, e) (ap (add_first d p) (rw (rows_of, e) at h))
  | inr e ↦ rw (e, e) (rows_of-add_row_old name d p rows row later (rw (rows_of, e) at h))
]

rows_of-add_row_same :
    (name other : Text) (d p : ℕ) (rows : List Sums)
    → (other == name) ≡ true
    → rows_of name (add_row other d p rows) ≡ rows_of name (add_row name d p rows)
rows_of-add_row_same name other d p rows q =
    ap (λ n. rows_of name (add_row n d p rows)) ((text_beq_iff other name).0 q)

has_row :
    (n : ℕ) (row : Sums) → ◌≡◌ {A = List Sums} (row ∷ []) (if 1 + n == 0 then [] else row ∷ [])
has_row n row = ground arith

plus_ext :
    (row : Sums) {a b c x y z : ℕ}
    → a ≡ x
    → b ≡ y
    → c ≡ z
    → ◌≡◌ {A = Sums}
        (record row { delivered = a; dropped = b; connections = c })
        (record row { delivered = x; dropped = y; connections = z })
plus_ext row e f g = rw (e, f, g) refl

plus-add_to :
    (row : Sums) (d p x y z : ℕ)
    → Fits (plus row (d + x) (p + y) (1 + z))
    → plus (add_to row d p) x y z ≡ plus row (d + x) (p + y) (1 + z)
unfolding fetch_add
plus-add_to row d p x y z (a, b, c) = plus_ext row (omega arith) (omega arith) (omega arith)

sum_by_name_old :
    (name : Text) (rows : List Sums) (subs : List SubscriberRow) (row : Sums)
    → rows_of name rows ≡ row ∷ []
    → Fits (plus_all row name subs)
    → rows_of name (sum_by_name rows subs) ≡ plus_all row name subs ∷ []
unfolding sum_by_name total
sum_by_name_old name rows [] row h fits =
    h ∙ ap (λ r. r ∷ []) (plus_ext row (omega arith) (omega arith) (omega arith))
sum_by_name_old name rows (sub ∷ subs) row h fits = elim (Option-cases sub.name) [
  | inl e ↦ rw e (sum_by_name_old name rows subs row h (rw e at fits))
  | inr (other, e) ↦
      let d = delivered_of sub in
      let p = dropped_of sub in
      elim (Bool-cases (other == name)) [
        | inl q ↦
            let f = rw (e, q) at fits in
            let added =
              plus-add_to row d p (total delivered_of name subs) (total dropped_of name subs)
                (total one_of name subs) f in
            rw (e, q)
              (sum_by_name_old name (add_row other d p rows) subs (add_to row d p)
                  (rows_of-add_row_same name other d p rows q
                    ∙ rows_of-add_row_old name d p rows row [] h)
                  (subst Fits (sym added) f)
                ∙ ap (λ r. r ∷ []) added)
        | inr q ↦
            rw (e, q)
              (sum_by_name_old name (add_row other d p rows) subs row
                (rows_of-add_row_other name other d p rows q ∙ h) (rw (e, q) at fits))
      ]
]

-- The row of a name that has connections.
unfoldable pub series : Text → List SubscriberRow → List Sums
series name subs = if total one_of name subs == 0 then [] else totals name subs ∷ []

sum_by_name_new :
    (name : Text) (rows : List Sums) (subs : List SubscriberRow)
    → rows_of name rows ≡ []
    → Fits (totals name subs)
    → rows_of name (sum_by_name rows subs) ≡ series name subs
unfolding sum_by_name total series
sum_by_name_new name rows [] h fits = h
sum_by_name_new name rows (sub ∷ subs) h fits = elim (Option-cases sub.name) [
  | inl e ↦ rw e (sum_by_name_new name rows subs h (rw e at fits))
  | inr (other, e) ↦
      let d = delivered_of sub in
      let p = dropped_of sub in
      elim (Bool-cases (other == name)) [
        | inl q ↦
            rw (e, q)
              (sum_by_name_old name (add_row other d p rows) subs
                  (record { name = name; delivered = d; dropped = p; connections = 1 })
                  (rows_of-add_row_same name other d p rows q ∙ rows_of-add_row_new name d p rows h)
                  (rw (e, q) at fits)
                ∙ has_row (total one_of name subs) _)
        | inr q ↦
            rw (e, q)
              (sum_by_name_new name (add_row other d p rows) subs
                (rows_of-add_row_other name other d p rows q ∙ h) (rw (e, q) at fits))
      ]
]

-- A name with connections has one row, whose numbers are the sums over them and their count, and a
-- name without has none. The sums fit their words.
pub rows_of-sum_by_name :
    (name : Text) (subs : List SubscriberRow)
    → Fits (totals name subs)
    → rows_of name (sum_by_name [] subs) ≡ series name subs
unfolding rows_of
rows_of-sum_by_name name subs fits = sum_by_name_new name [] subs refl fits
