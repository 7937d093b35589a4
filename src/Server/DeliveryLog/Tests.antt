-- ===== src/Server/DeliveryLog/Tests.antt =====
-- Runs of the delivery log over the list store, and its theorems at concrete logs.
use whdr.Common.{ℕ, ◌≡◌, refl, [], ◌∷◌, Text, codes, arith, false, ok, ◌>>=◌, fetch_add}
use whdr.Proto.Messages.{Event}
use whdr.Server.DeliveryLog.Storage.{Row}
use whdr.Server.DeliveryLog.ListStore.{
  list_store, insert_row, remove_row, list_to_vec, list_from_slice, take_text,
}
use whdr.Server.DeliveryLog.{
  Shared, append, append_blocking, stamp_rows, push_row, insert_rows, prune_blocking, prune_loop,
  is_prunable, reopen, scan_rows, sub_u64,
}
use whdr.Server.DeliveryLog.Consistent.{IsConsistent}
use whdr.Server.DeliveryLog.Stamping.{stamps}
use whdr.Server.DeliveryLog.Append.{IsAppended, append-IsAppended}
use whdr.Server.DeliveryLog.Prune.{Prunes, prune_blocking-Prunes}
use whdr.Server.DeliveryLog.Reopen.{reopen-eq-prune, reopen_restarts_numbers}
use whdr.Server.DeliveryLog.Examples.{hour, fresh, ids, after_one, appended_one}

abbrev event : Text → Event
event channel = record { channel = channel; payload_b64 = codes "MQ==" }

-- Numbers 4, 5 and 6 are stored.
abbrev row : ℕ → Row
row k = (k, (100 ∷ 1000 ∷ 1 ∷ b'a' ∷ codes "MQ=="))

abbrev three : Shared list_store
three = record {
  db = row 4 ∷ row 5 ∷ row 6 ∷ [];
  head = 6;
  floor = 4;
  retained_count = 3;
  retained_bytes = 24;
  retention = hour;
}

three-IsConsistent : IsConsistent list_store three
unfolding list_from_slice take_text
three-IsConsistent = record {
  consecutive = omega arith;
  spans = omega arith;
  decodes = ((_, refl), ((_, refl), ((_, refl), tt)));
  count = refl;
  bytes = refl;
  head_in_range = omega arith;
  bytes_in_range = omega arith;
}

-- The log after two more events, numbered 7 and 8.
abbrev grown : Shared list_store
grown = record {
  db = row 4 ∷ row 5 ∷ row 6 ∷ (7, new_bytes 100) ∷ (8, new_bytes 101) ∷ [];
  head = 8;
  floor = 4;
  retained_count = 5;
  retained_bytes = 40;
  retention = hour;
}
  where
    new_bytes : ℕ → Text
    new_bytes id = id ∷ 1500 ∷ 1 ∷ b'a' ∷ codes "MQ=="

appended_two :
    append list_store false three (event (codes "a") ∷ event (codes "a") ∷ []) 1500 ids
    ≡ ok (grown, stamps 7 1500 ids 0 (event (codes "a") ∷ event (codes "a") ∷ []))
unfolding append append_blocking stamp_rows push_row insert_rows insert_row list_to_vec fetch_add
appended_two = refl

append-IsAppended_example :
    IsAppended list_store three
      (event (codes "a") ∷ event (codes "a") ∷ [])
      1500
      ids
      grown
      (stamps 7 1500 ids 0 (event (codes "a") ∷ event (codes "a") ∷ []))
append-IsAppended_example =
    append-IsAppended list_store three grown (event (codes "a") ∷ event (codes "a") ∷ []) 1500 ids
      (stamps 7 1500 ids 0 (event (codes "a") ∷ event (codes "a") ∷ [])) three-IsConsistent
      (omega arith) appended_two (omega arith)

-- Two rows are kept, of three.
prune_blocking-Prunes_example :
    (s' : Shared list_store) × (n : ℕ) × (prune_blocking list_store false three 2000 ≡ ok (s', n))
    × Prunes list_store three 2000 s' n
prune_blocking-Prunes_example = prune_blocking-Prunes list_store three 2000 three-IsConsistent

abbrev shortened : Shared list_store
shortened = record {
  db = row 5 ∷ row 6 ∷ [];
  head = 6;
  floor = 5;
  retained_count = 2;
  retained_bytes = 16;
  retention = hour;
}

pruned_one : prune_blocking list_store false three 2000 ≡ ok (shortened, 1)
unfolding prune_blocking prune_loop list_from_slice take_text is_prunable remove_row sub_u64
pruned_one = refl

reopen-eq-prune_example :
    reopen list_store false hour three.db 2000
    ≡ (prune_blocking list_store false three 2000 >>= λ t. ok t.0)
reopen-eq-prune_example =
    reopen-eq-prune list_store three 2000 (row 4) (row 5 ∷ row 6 ∷ []) three-IsConsistent refl

-- A log whose six rows are gone.
abbrev emptied : Shared list_store
emptied = record {
  db = [];
  head = 6;
  floor = 0;
  retained_count = 0;
  retained_bytes = 0;
  retention = hour;
}

reopened_empty : reopen list_store false hour [] 2000 ≡ ok fresh
unfolding reopen prune_blocking prune_loop scan_rows
reopened_empty = refl

reopen_restarts_numbers_example :
    stamps 1 1500 ids 0 (event (codes "a") ∷ []) ≡ stamps 1 1500 ids 0 (event (codes "a") ∷ [])
reopen_restarts_numbers_example =
    reopen_restarts_numbers list_store emptied fresh after_one 2000 (event (codes "a") ∷ []) 1500
      ids (stamps 1 1500 ids 0 (event (codes "a") ∷ [])) refl (omega arith) reopened_empty
      appended_one (omega arith)
