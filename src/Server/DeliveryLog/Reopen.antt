-- ===== src/Server/DeliveryLog/Reopen.antt =====
-- What a restart recovers from the table: the whole state if a row is left, and nothing if none is.
use whdr.Common.{
  ℕ, suc, ◌+◌, ◌<◌, ◌≡◌, refl, sym, ap, ◌∙◌, List, [], ◌∷◌, arith, length, false, ok, ok-injective,
  ◌>>=◌, word_mod, fetch_add_exact,
}
use whdr.Proto.Messages.{Uuid, Event}
use whdr.Server.DeliveryLog.Storage.{Store, Row}
use whdr.Server.DeliveryLog.{
  Retention, StampedEvent, Shared, Scan, scan_rows, reopen, opened, append, prune_blocking,
  prune_loop,
}
use whdr.Server.DeliveryLog.Rows.{Consecutive, rows_bytes}
use whdr.Server.DeliveryLog.Consistent.{Spans, IsConsistent, length-le-head}
use whdr.Server.DeliveryLog.Stamping.{stamps}
use whdr.Server.DeliveryLog.Append.{append-IsAppended}

abbrev pub scanned : ℕ → ℕ → ℕ → ℕ → Scan
scanned head floor count bytes = record { head = head; floor = floor; count = count; bytes = bytes }

-- Past the first row, the scan counts the rest of a run.
scan_rows-run :
    (head floor count bytes : ℕ) (rows : List Row)
    → 0 < floor
    → Consecutive (suc head) rows
    → count + length rows < word_mod
    → bytes + rows_bytes rows < word_mod
    → scan_rows (scanned head floor count bytes) rows
      ≡ scanned (head + length rows) floor (count + length rows) (bytes + rows_bytes rows)
unfolding scan_rows
scan_rows-run head floor count bytes [] f h c b = ground arith
scan_rows-run head floor count bytes ((k, v) ∷ rows) f h c b = ground (
  arith,
  scan_rows-run (suc head) floor (count + 1) (bytes + length v) rows f h.1 (omega arith)
      (omega arith),
  fetch_add_exact count 1,
  fetch_add_exact bytes (length v),
)

scan_rows-first :
    (floor head : ℕ) (r : Row) (rows : List Row)
    → Consecutive floor (r ∷ rows)
    → Spans floor head (r ∷ rows)
    → length (r ∷ rows) < word_mod
    → rows_bytes (r ∷ rows) < word_mod
    → scan_rows (scanned 0 0 0 0) (r ∷ rows)
      ≡ scanned head floor (length (r ∷ rows)) (rows_bytes (r ∷ rows))
unfolding scan_rows
scan_rows-first floor head (k, v) rows h p c b = ground (
  arith,
  scan_rows-run floor floor 1 (length v) rows p.0 h.1 (omega arith) (omega arith),
  fetch_add_exact 0 1,
  fetch_add_exact 0 (length v),
)

module _ (store : Store) where
  open store use {iter}

  -- Where a row is left, the scan recovers the head, the floor and both counters.
  recovered :
      (s : Shared store) (r : Row) (rows : List Row)
      → IsConsistent store s
      → iter s.db ≡ r ∷ rows
      → scan_rows (scanned 0 0 0 0) (iter s.db)
        ≡ scanned s.head s.floor s.retained_count s.retained_bytes
  recovered s r rows c e =
      ap (scan_rows (scanned 0 0 0 0)) e
      ∙ scan_rows-first s.floor s.head r rows (rw e at c.consecutive) (rw e at c.spans)
          (omega (
            arith,
            ap length e,
            length-le-head s.floor s.head (iter s.db) c.spans,
            c.head_in_range,
          ))
          (omega (arith, ap rows_bytes e, c.bytes, c.bytes_in_range))
      ∙ counted
    where
      counted :
          scanned s.head s.floor (length (r ∷ rows)) (rows_bytes (r ∷ rows))
          ≡ scanned s.head s.floor s.retained_count s.retained_bytes
      counted = rw (c.count, c.bytes, e)

-- A restart on the table of a consistent log that still holds a row continues with the state that
-- the log had: it is the prune of that state, so numbers go on from the same head.
pub reopen-eq-prune :
    (store : Store) (s : Shared store) (now_ms : ℕ) (r : Row) (rows : List Row)
    → IsConsistent store s
    → store.iter s.db ≡ r ∷ rows
    → reopen store false s.retention s.db now_ms
      ≡ (prune_blocking store false s now_ms >>= λ t. ok t.0)
unfolding reopen
reopen-eq-prune store s now_ms r rows c e =
    ap
      (λ scan.
        prune_blocking store false (opened store s.retention s.db scan) now_ms >>= λ t. ok t.0)
      (recovered store s r rows c e)

-- A restart on an emptied table starts from number 0, whatever the head was.
pub reopen_of_empty :
    (store : Store) (retention : Retention) (table : store.Table) (now_ms : ℕ)
    → store.iter table ≡ []
    → (s : Shared store) × (reopen store false retention table now_ms ≡ ok s)
      × (s ≡ opened store retention table (scanned 0 0 0 0))
unfolding reopen prune_blocking prune_loop scan_rows
reopen_of_empty store retention table now_ms e =
    (opened store retention table (scanned 0 0 0 0), ground (arith, e), refl)

empty-IsConsistent :
    (store : Store) (retention : Retention) (table : store.Table)
    → store.iter table ≡ []
    → IsConsistent store (opened store retention table (scanned 0 0 0 0))
empty-IsConsistent store retention table e = record {
  consecutive = rw e tt;
  spans = rw e refl;
  decodes = rw e tt;
  count = rw e;
  bytes = rw e;
  head_in_range = omega arith;
  bytes_in_range = omega arith;
}

-- A consistent log whose rows have all been pruned, however far its head had come: after a restart
-- on its table, the next batch is numbered from 1 again.
pub reopen_restarts_numbers :
    (store : Store) (s s₁ s₂ : Shared store) (now_ms : ℕ) (events : List Event) (ts_ms : ℕ)
    (new_v4 : ℕ → Uuid) (stamped : List StampedEvent)
    → store.iter s.db ≡ []
    → length events + 1 < word_mod
    → reopen store false s.retention s.db now_ms ≡ ok s₁
    → append store false s₁ events ts_ms new_v4 ≡ ok (s₂, stamped)
    → rows_bytes (store.iter s₂.db) < word_mod
    → stamped ≡ stamps 1 ts_ms new_v4 0 events
reopen_restarts_numbers store s s₁ s₂ now_ms events ts_ms new_v4 stamped e h r a fits =
    let (s', r', q) = reopen_of_empty store s.retention s.db now_ms e in
    let same : s₁ ≡ opened store s.retention s.db (scanned 0 0 0 0) =
      ok-injective (sym r ∙ r') ∙ q in
    (append-IsAppended store (opened store s.retention s.db (scanned 0 0 0 0)) s₂ events ts_ms
      new_v4 stamped (empty-IsConsistent store s.retention s.db e) (omega arith) (rw same at a)
      fits).stamped_eq
