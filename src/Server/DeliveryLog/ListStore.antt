-- ===== src/Server/DeliveryLog/ListStore.antt =====
-- A store that meets the laws: a table that keeps its rows in a list, and an encoding that writes the
-- length of the channel before it.
use mathlib.Core.Option.{some-injective}
use whdr.Common.{
  ℕ, zero, suc, ◌≡◌, refl, subst, List, [], ◌∷◌, ◌++◌, Option, none, some, Text, arith, length,
  keep, leb, ltb, if◌then◌else◌, ◌==◌, nat_eq,
}
use whdr.Server.DeliveryLog.Storage.{StoredEvent, Row, KeysBelow, Store}

-- A table as its rows in a list, and an encoding that gives each field a length.
unfoldable pub insert_row : List Row → ℕ → Text → List Row
insert_row [] k v = (k, v) ∷ []
insert_row ((j, w) ∷ rows) k v =
    if ltb k j
    then (k, v) ∷ (j, w) ∷ rows
    else if k == j
    then (k, v) ∷ rows
    else (j, w) ∷ insert_row rows k v

unfoldable pub remove_row : List Row → ℕ → List Row
remove_row [] k = []
remove_row ((j, w) ∷ rows) k = if j == k then rows else (j, w) ∷ remove_row rows k

pub insert_row-last :
    (rows : List Row) (k : ℕ) (v : Text)
    → KeysBelow k rows
    → insert_row rows k v ≡ rows ++ (k, v) ∷ []
unfolding insert_row
insert_row-last [] k v h = refl
insert_row-last ((j, w) ∷ rows) k v h = ground (arith, insert_row-last rows k v h.1)

pub remove_row-first :
    (t : List Row) (k : ℕ) (v : Text) (rest : List Row) → t ≡ (k, v) ∷ rest → remove_row t k ≡ rest
unfolding remove_row
remove_row-first [] k v rest h = cc
remove_row-first ((j, w) ∷ rows) k v rest h = ground arith

-- An event is written as its id, its time, the length of its channel, its channel and its payload.
unfoldable pub take_text : ℕ → Text → Text × Text
take_text zero s = ([], s)
take_text (suc n) [] = ([], [])
take_text (suc n) (c ∷ s) = let (a, b) = take_text n s in (c ∷ a, b)

pub take_text-append : (s t : Text) → take_text (length s) (s ++ t) ≡ (s, t)
unfolding take_text
take_text-append [] t = refl
take_text-append (c ∷ s) t = rw (take_text-append s t)

unfoldable pub list_to_vec : StoredEvent → Option Text
list_to_vec e = some (e.id ∷ e.ts_ms ∷ length e.channel ∷ e.channel ++ e.payload_b64)

unfoldable pub list_from_slice : Text → Option StoredEvent
list_from_slice (id ∷ ts_ms ∷ n ∷ s) =
    let (channel, payload_b64) = take_text n s in
    some (record { id = id; ts_ms = ts_ms; channel = channel; payload_b64 = payload_b64 })
list_from_slice _ = none

pub list_from_slice-to_vec :
    (e : StoredEvent) (v : Text) → list_to_vec e ≡ some v → list_from_slice v ≡ some e
unfolding list_to_vec list_from_slice
list_from_slice-to_vec e v h =
    subst (λ w. list_from_slice w ≡ some e) (some-injective _ _ h)
      (rw (take_text-append e.channel e.payload_b64))

abbrev pub list_store : Store
list_store = record {
  Table = List Row;
  iter = λ t. t;
  range = λ t start. keep (λ r. leb start r.0) t;
  insert = insert_row;
  remove = remove_row;
  to_vec = list_to_vec;
  from_slice = list_from_slice;
  iter-range = λ t start. refl;
  iter-insert = insert_row-last;
  iter-remove = remove_row-first;
  from_slice-to_vec = list_from_slice-to_vec;
}
