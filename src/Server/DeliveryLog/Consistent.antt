-- ===== src/Server/DeliveryLog/Consistent.antt =====
-- The invariant of the delivery log: its rows are a run of consecutive numbers from the floor to the
-- head, and its counters count them.
use whdr.Common.{
  ℕ, suc, ◌+◌, ◌<◌, ◌≤◌, ◌≡◌, List, [], ◌∷◌, ◌++◌, arith, All, length, if◌then◌else◌, length-append,
  ◌==◌, nat_eq, word_mod,
}
use whdr.Server.DeliveryLog.Storage.{Store, Row, KeysBelow}
use whdr.Server.DeliveryLog.{Shared}
use whdr.Server.DeliveryLog.Rows.{
  Consecutive, Consecutive-append, Consecutive-cast, KeysBelow-of_Consecutive, rows_bytes, Decodes,
}

-- The floor and the head against the rows: 0 is the floor of an empty log.
abbrev pub Spans : ℕ → ℕ → List Row → Type 0
Spans floor head [] = floor ≡ 0
Spans floor head (r ∷ rows) = (0 < floor) × (floor + length (r ∷ rows) ≡ head + 1)

pub KeysBelow-of_Spans :
    (floor head : ℕ) (old : List Row)
    → Consecutive floor old
    → Spans floor head old
    → KeysBelow (head + 1) old
KeysBelow-of_Spans floor head [] h p = tt
KeysBelow-of_Spans floor head (r ∷ old) h p =
    KeysBelow-of_Consecutive floor (head + 1) (r ∷ old) h (omega arith)

pub length-le-head : (floor head : ℕ) (rows : List Row) → Spans floor head rows → length rows ≤ head
length-le-head floor head [] p = omega arith
length-le-head floor head (r ∷ rows) p = omega arith

-- New rows behind the head continue the run; in an empty log the first of them is the new floor.
pub Spans-append :
    (floor head n : ℕ) (old rows : List Row) (floor' : ℕ)
    → Consecutive floor old
    → Spans floor head old
    → Consecutive (head + 1) rows
    → length rows ≡ suc n
    → floor' ≡ (if floor == 0 then head + 1 else floor)
    → Consecutive floor' (old ++ rows) × Spans floor' (head + suc n) (old ++ rows)
Spans-append floor head n [] [] floor' h p g count f = absurd (omega arith)
Spans-append floor head n [] (r ∷ rows) floor' h p g count f =
    let e : floor' ≡ head + 1 = ground arith in (rw e g, (omega arith, omega (arith, count)))
Spans-append floor head n (o ∷ old) rows floor' h p g count f =
    let e : floor' ≡ floor = ground arith in
    (
      rw e (Consecutive-append floor (o ∷ old) rows h (Consecutive-cast rows (omega arith) g)),
      (omega arith, omega (arith, count, length-append old rows)),
    )

module _ (store : Store) where
  open store use {Table, iter, range, from_slice, to_vec, from_slice-to_vec, iter-range}

  -- The rows have consecutive numbers from the floor to the head and can be decoded, and the
  -- counters count them.
  pub record IsConsistent (s : Shared store) : Type 0 where
    pub consecutive : Consecutive s.floor (iter s.db)
    pub spans : Spans s.floor s.head (iter s.db)
    pub decodes : All (Decodes store) (iter s.db)
    pub count : s.retained_count ≡ length (iter s.db)
    pub bytes : s.retained_bytes ≡ rows_bytes (iter s.db)
    pub head_in_range : s.head + 1 < word_mod
    pub bytes_in_range : s.retained_bytes < word_mod
