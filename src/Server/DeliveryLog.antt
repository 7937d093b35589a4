-- ===== src/Server/DeliveryLog.antt =====
-- crates/whdr-server/src/delivery_log.rs: the durable event log. The writer mutex makes an append or
-- a prune one step. A storage call that fails (`fault`) aborts its transaction: the table and the
-- counters stay as they were. Sequence numbers and counters are 64-bit words.
pub mod Storage
pub mod ListStore
pub mod Rows
pub mod Consistent
pub mod Stamping
pub mod Reading
pub mod Append
pub mod PruneLoop
pub mod Prune
pub mod Reopen
pub mod Examples
mod Tests
use whdr.Common.{
  ℕ, zero, suc, ◌+◌, ◌-◌, ◌/◌, List, [], ◌∷◌, Option, none, some, Bool, true, false, not, ◌||◌,
  Text, Result, ok, err, ◌>>=◌, length, any, ltb, ◌==◌, nat_eq, if◌then◌else◌, fetch_add,
  saturating_add, saturating_sub, word_mod, ◌%◌,
}
use whdr.Proto.Channel.{Pattern, pattern_matches}
use whdr.Proto.Messages.{Uuid, Event}
use whdr.Server.DeliveryLog.Storage.{Store, StoredEvent, Row}

pub record StampedEvent : Type 0 where
  pub seq : ℕ
  pub id : Uuid
  pub ts_ms : ℕ
  pub channel : Text
  pub payload_b64 : Text

-- The part of `DeliveryConfig` that the log keeps.
pub record Retention : Type 0 where
  pub retention_secs : ℕ
  pub max_bytes : ℕ
  pub max_events : ℕ

pub data LogError : Type 0 where
  storage json panic out_of_fuel : LogError

-- u64 addition and subtraction in a release build.
abbrev pub add_u64 : ℕ → ℕ → ℕ
add_u64 = fetch_add

pub sub_u64 : ℕ → ℕ → ℕ
sub_u64 a b = (a + word_mod - b) % word_mod

abbrev pub stamp_stored : ℕ → StoredEvent → StampedEvent
stamp_stored seq stored = record {
  seq = seq;
  id = stored.id;
  ts_ms = stored.ts_ms;
  channel = stored.channel;
  payload_b64 = stored.payload_b64;
}

abbrev pub Batch : Type 0
Batch = List Row × List StampedEvent × ℕ

-- One round of the loop of `append_blocking`: the row and the stamped event go before the rest.
unfoldable pub push_row :
    ℕ → StampedEvent → Option Text → Result Batch LogError → Result Batch LogError
push_row seq stamped none rest = err json
push_row seq stamped (some value) (err e) = err e
push_row seq stamped (some value) (ok (rows, all_stamped, bytes_added)) =
    ok ((seq, value) ∷ rows, stamped ∷ all_stamped, length value + bytes_added)

-- `compare_exchange(0, seq)` on the floor
abbrev pub set_floor : ℕ → ℕ → ℕ
set_floor floor seq = if floor == 0 then seq else floor

abbrev pub is_match : Option (List Text) → Text → Bool
is_match none channel = true
is_match (some patterns) channel = any (λ pattern. pattern_matches pattern channel) patterns

abbrev pub first_key : List Row → ℕ
first_key [] = 0
first_key ((seq, value) ∷ rows) = seq

-- The scan of `open` that recovers the head, the floor and the counters.
pub record Scan : Type 0 where
  pub head : ℕ
  pub floor : ℕ
  pub count : ℕ
  pub bytes : ℕ

pub scan_rows : Scan → List Row → Scan
scan_rows scan [] = scan
scan_rows scan ((seq, value) ∷ rows) =
    scan_rows
      (record {
        head = seq;
        floor = set_floor scan.floor seq;
        count = add_u64 scan.count 1;
        bytes = add_u64 scan.bytes (length value);
      })
      rows

module _ (store : Store) where
  open store use {Table, iter, range, insert, remove, to_vec, from_slice}

  pub record Shared : Type 0 where
    pub db : Table
    pub head : ℕ
    pub floor : ℕ
    pub retained_count : ℕ
    pub retained_bytes : ℕ
    pub retention : Retention
    pub open retention use *

  -- The loop from index `offset` on. `new_v4` gives the id drawn at each offset.
  pub stamp_rows :
      (base ts_ms : ℕ) (new_v4 : ℕ → Uuid) (offset : ℕ) → List Event → Result Batch LogError
  stamp_rows base ts_ms new_v4 offset [] = ok ([], [], 0)
  stamp_rows base ts_ms new_v4 offset (event ∷ events) =
      let seq = add_u64 (add_u64 base 1) offset in
      let stored : StoredEvent = record {
        id = new_v4 offset;
        ts_ms = ts_ms;
        channel = event.channel;
        payload_b64 = event.payload_b64;
      } in
      push_row seq (stamp_stored seq stored) (to_vec stored)
        (stamp_rows base ts_ms new_v4 (offset + 1) events)

  pub insert_rows : Table → List Row → Table
  insert_rows table [] = table
  insert_rows table ((seq, value) ∷ rows) = insert_rows (insert table seq value) rows

  abbrev commit_append : Shared → Batch → Result (Shared × List StampedEvent) LogError
  commit_append s (rows, [], bytes_added) = err panic
  commit_append s (rows, first ∷ stamped, bytes_added) = ok (
    record s {
      db = insert_rows s.db rows;
      head = add_u64 s.head (length rows);
      floor = set_floor s.floor first.seq;
      retained_count = fetch_add s.retained_count (length rows);
      retained_bytes = fetch_add s.retained_bytes bytes_added;
    },
    first ∷ stamped,
  )

  -- `fault`: a storage call of this transaction fails.
  pub append_blocking :
      Bool → Shared → List Event → ℕ → (ℕ → Uuid) → Result (Shared × List StampedEvent) LogError
  append_blocking fault s events ts_ms new_v4 = do
    batch ← stamp_rows s.head ts_ms new_v4 0 events
    if fault then err storage else commit_append s batch

  pub append :
      Bool → Shared → List Event → ℕ → (ℕ → Uuid) → Result (Shared × List StampedEvent) LogError
  append fault s [] ts_ms new_v4 = ok (s, [])
  append fault s (event ∷ events) ts_ms new_v4 =
      append_blocking fault s (event ∷ events) ts_ms new_v4

  -- The loop of `read_after`.
  pub read_rows : Option (List Text) → List Row → Result (List StampedEvent) LogError
  read_rows patterns [] = ok []
  read_rows patterns ((seq, value) ∷ rows) =
      let rest = read_rows patterns rows in
      elim (from_slice value) [
        | none ↦ err json
        | some stored ↦
            if not (is_match patterns stored.channel)
            then rest
            else (rest >>= λ out. ok (stamp_stored seq stored ∷ out))
      ]

  pub read_after : Bool → Shared → ℕ → Option (List Text) → Result (List StampedEvent) LogError
  read_after fault s after_seq patterns =
      if fault then err storage else read_rows patterns (range s.db (saturating_add after_seq 1))

  -- The variables of the loop of `prune_blocking`.
  pub record Pruning : Type 0 where
    pub table : Table
    pub count : ℕ
    pub bytes : ℕ
    pub pruned : ℕ

  pub is_prunable : Shared → ℕ → ℕ → ℕ → StoredEvent → Bool
  is_prunable s now_ms count bytes stored =
      let too_old = ltb s.retention_secs (saturating_sub now_ms stored.ts_ms / 1000) in
      let too_many = ltb s.max_events count in
      let too_big = ltb s.max_bytes bytes in too_old || too_many || too_big

  abbrev remove_front : Pruning → ℕ → Text → Pruning
  remove_front p seq value = record {
    table = remove p.table seq;
    count = sub_u64 p.count 1;
    bytes = saturating_sub p.bytes (length value);
    pruned = p.pruned + 1;
  }

  pub prune_loop : ℕ → Shared → ℕ → Pruning → Result Pruning LogError
  prune_loop zero s now_ms p = err out_of_fuel
  prune_loop (suc fuel) s now_ms p = elim (iter p.table) [
    | [] ↦ ok p
    | (seq, value) ∷ rows ↦ elim (from_slice value) [
      | none ↦ err json
      | some stored ↦ elim (is_prunable s now_ms p.count p.bytes stored) [
        | false ↦ ok p
        | true ↦ prune_loop fuel s now_ms (remove_front p seq value)
      ]
    ]
  ]

  abbrev pruning_start : Shared → Pruning
  pruning_start s = record {
    table = s.db;
    count = s.retained_count;
    bytes = s.retained_bytes;
    pruned = 0;
  }

  abbrev commit_prune : Shared → Pruning → Shared
  commit_prune s p = record s {
    db = p.table;
    floor = first_key (iter p.table);
    retained_count = p.count;
    retained_bytes = p.bytes;
  }

  pub prune_blocking : Bool → Shared → ℕ → Result (Shared × ℕ) LogError
  prune_blocking fault s now_ms = do
    p ← prune_loop (suc (length (iter s.db))) s now_ms (pruning_start s)
    if fault then err storage else ok (commit_prune s p, p.pruned)

  -- `open` on the file's table; what it does to the file system is left out.
  abbrev pub opened : Retention → Table → Scan → Shared
  opened retention table scan = record {
    db = table;
    head = scan.head;
    floor = scan.floor;
    retained_count = scan.count;
    retained_bytes = scan.bytes;
    retention = retention;
  }

  pub reopen : Bool → Retention → Table → ℕ → Result Shared LogError
  reopen fault retention table now_ms = do
    let scan = scan_rows (record { head = 0; floor = 0; count = 0; bytes = 0 }) (iter table)
    (s, pruned) ← prune_blocking fault (opened retention table scan) now_ms
    ok s
