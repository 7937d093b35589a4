-- ===== src/Server/DeliveryLog/Rows.antt =====
-- Runs of rows with consecutive keys, and what the store's laws make of them.
use whdr.Common.{
  ℕ, suc, ◌+◌, ◌≤◌, ◌≡◌, refl, sym, ap, subst, ◌∙◌, List, [], ◌∷◌, ◌++◌, some, Text, arith, length,
  keep, keep-append, leb, nat_eq,
}
use mathlib.Core.List.{append_assoc, append-nil}
use whdr.Server.DeliveryLog.Storage.{Store, StoredEvent, Row, KeysBelow}
use whdr.Server.DeliveryLog.{insert_rows}

-- The keys are `k`, `k + 1` and so on, with no gap.
abbrev pub Consecutive : ℕ → List Row → Type 0
Consecutive k [] = Unit
Consecutive k ((j, v) ∷ rows) = (j ≡ k) × Consecutive (suc k) rows

pub Consecutive-cast : {j k : ℕ} (xs : List Row) → j ≡ k → Consecutive j xs → Consecutive k xs
Consecutive-cast xs e h = subst (λ n. Consecutive n xs) e h

pub Consecutive-append :
    (k : ℕ) (xs ys : List Row)
    → Consecutive k xs
    → Consecutive (k + length xs) ys
    → Consecutive k (xs ++ ys)
Consecutive-append k [] ys h g = Consecutive-cast ys (omega arith) g
Consecutive-append k ((j, v) ∷ xs) ys h g =
    (h.0, Consecutive-append (suc k) xs ys h.1 (Consecutive-cast ys (omega arith) g))

pub KeysBelow-of_Consecutive :
    (k n : ℕ) (xs : List Row) → Consecutive k xs → k + length xs ≤ n → KeysBelow n xs
KeysBelow-of_Consecutive k n [] h b = tt
KeysBelow-of_Consecutive k n ((j, v) ∷ xs) h b =
    (omega (arith, h.0), KeysBelow-of_Consecutive (suc k) n xs h.1 (omega arith))

keep-all :
    (k start : ℕ) (xs : List Row) → Consecutive k xs → start ≤ k → keep (λ r. leb start r.0) xs ≡ xs
keep-all k start [] h b = refl
keep-all k start ((j, v) ∷ xs) h b = ground (arith, keep-all (suc k) start xs h.1)

pub keep-below : (n : ℕ) (xs : List Row) → KeysBelow n xs → keep (λ r. leb n r.0) xs ≡ []
keep-below n [] h = refl
keep-below n (x ∷ xs) h = ground (arith, keep-below n xs h.1)

-- The rows behind a bound that the first part stays below.
pub keep-append_of_below :
    (n : ℕ) (xs ys : List Row)
    → KeysBelow n xs
    → Consecutive n ys
    → keep (λ r. leb n r.0) (xs ++ ys) ≡ ys
keep-append_of_below n xs ys h g =
    rw (keep-append (λ r. leb n r.0) xs ys, keep-below n xs h) (keep-all n n ys g (omega arith))

KeysBelow-snoc :
    {j k : ℕ} (xs : List Row) (v : Text)
    → j ≡ k
    → KeysBelow k xs
    → KeysBelow (suc k) (xs ++ (j, v) ∷ [])
KeysBelow-snoc [] v e h = (omega arith, tt)
KeysBelow-snoc (x ∷ xs) v e h = (omega (arith, h.0), KeysBelow-snoc xs v e h.1)

abbrev pub rows_bytes : List Row → ℕ
rows_bytes [] = 0
rows_bytes ((k, v) ∷ rows) = length v + rows_bytes rows

pub rows_bytes-append : (xs ys : List Row) → rows_bytes (xs ++ ys) ≡ rows_bytes xs + rows_bytes ys
rows_bytes-append [] ys = omega arith
rows_bytes-append ((k, v) ∷ xs) ys = omega (arith, rows_bytes-append xs ys)

module _ (store : Store) where
  open store use {Table, iter, insert, iter-insert, from_slice}

  abbrev pub Decodes : Row → Type 0
  Decodes (k, v) = (e : StoredEvent) × (from_slice v ≡ some e)

  pub iter-insert_rows :
      (table : Table) (k : ℕ) (rows : List Row)
      → Consecutive k rows
      → KeysBelow k (iter table)
      → iter (insert_rows store table rows) ≡ iter table ++ rows
  unfolding insert_rows
  iter-insert_rows table k [] h b = sym (append-nil (iter table))
  iter-insert_rows table k ((j, v) ∷ rows) h b =
      iter-insert_rows (insert table j v) (suc k) rows h.1
        (rw inserted (KeysBelow-snoc (iter table) v h.0 b))
      ∙ ap (λ t. t ++ rows) inserted
      ∙ append_assoc (iter table) ((j, v) ∷ []) rows
    where
      inserted : iter (insert table j v) ≡ iter table ++ (j, v) ∷ []
      inserted = iter-insert table j v (subst (λ n. KeysBelow n (iter table)) (sym h.0) b)
