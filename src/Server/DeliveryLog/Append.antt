-- ===== src/Server/DeliveryLog/Append.antt =====
-- An append takes the next sequence numbers, keeps the log consistent and can be read back.
use whdr.Common.{
  ℕ, suc, ◌+◌, ◌<◌, ◌≡◌, refl, sym, ap, List, [], ◌∷◌, ◌++◌, none, arith, All, length, false,
  if◌then◌else◌, All-append, fetch_add-lt, ok, err, Result, length-append, nat_eq, ◌>>=◌, Ensures,
  Ensures_ok, word_mod, fetch_add, fetch_add_exact, saturating_add, saturating_add_exact,
}
use mathlib.Core.List.{append-nil}
use whdr.Proto.Messages.{Uuid, Event}
use whdr.Server.DeliveryLog.Storage.{Store, Row}
use whdr.Server.DeliveryLog.{
  StampedEvent, Shared, insert_rows, read_rows, read_after, stamp_rows, Batch, append,
  append_blocking, commit_append, set_floor, LogError, storage, add_u64,
}
use whdr.Server.DeliveryLog.Rows.{
  Consecutive, keep-append_of_below, keep-below, rows_bytes, rows_bytes-append, Decodes,
  iter-insert_rows,
}
use whdr.Server.DeliveryLog.Consistent.{
  KeysBelow-of_Spans, length-le-head, Spans-append, IsConsistent,
}
use whdr.Server.DeliveryLog.Stamping.{stamps, IsStamped, stamp_rows-IsStamped}

module _ (store : Store) where
  open store use {Table, iter, range, from_slice, to_vec, from_slice-to_vec, iter-range}

  -- What a successful append has done.
  pub record IsAppended (s : Shared store) (events : List Event) (ts_ms : ℕ) (new_v4 : ℕ → Uuid)
      (s' : Shared store) (stamped : List StampedEvent) : Type 0 where
    pub stamped_eq : stamped ≡ stamps (s.head + 1) ts_ms new_v4 0 events
    pub head_eq : s'.head ≡ s.head + length events
    pub rows : List Row
    pub iter_eq : iter s'.db ≡ iter s.db ++ rows
    pub read_back : read_after store false s' s.head none ≡ ok stamped
    pub consistent : IsConsistent store s'

  abbrev appended : Shared store → List Row → StampedEvent → ℕ → Shared store
  appended s rows first bytes = record s {
    db = insert_rows store s.db rows;
    head = add_u64 s.head (length rows);
    floor = set_floor s.floor first.seq;
    retained_count = fetch_add s.retained_count (length rows);
    retained_bytes = fetch_add s.retained_bytes bytes;
  }

  iter-appended :
      (s : Shared store) (rows : List Row)
      → IsConsistent store s
      → Consecutive (s.head + 1) rows
      → iter (insert_rows store s.db rows) ≡ iter s.db ++ rows
  iter-appended s rows c h =
      iter-insert_rows store s.db (s.head + 1) rows h
        (KeysBelow-of_Spans s.floor s.head (iter s.db) c.consecutive c.spans)

  appended-IsConsistent :
      (s : Shared store) (rows : List Row) (first : StampedEvent) (bytes n : ℕ)
      → IsConsistent store s
      → s.head + suc n + 1 < word_mod
      → Consecutive (s.head + 1) rows
      → length rows ≡ suc n
      → bytes ≡ rows_bytes rows
      → first.seq ≡ s.head + 1
      → All (Decodes store) rows
      → rows_bytes (iter s.db) + rows_bytes rows < word_mod
      → IsConsistent store (appended s rows first bytes)
  appended-IsConsistent s rows first bytes n c h g count b f d fits =
      let e = iter-appended s rows c g in
      let (together, spans) =
        Spans-append s.floor s.head n (iter s.db) rows _ c.consecutive c.spans g count
          (ap (set_floor s.floor) f) in
      let head = fetch_add_exact s.head (length rows) (omega (arith, count)) in
      record {
        consecutive = rw e together;
        spans = rw (e, head, count) spans;
        decodes = rw e (All-append (Decodes store) (iter s.db) rows c.decodes d);
        count = omega (
          arith,
          ap length e,
          length-append (iter s.db) rows,
          count,
          c.count,
          length-le-head s.floor s.head (iter s.db) c.spans,
          fetch_add_exact s.retained_count (length rows),
        );
        bytes = omega (
          arith,
          ap rows_bytes e,
          rows_bytes-append (iter s.db) rows,
          c.bytes,
          b,
          fetch_add_exact s.retained_bytes bytes,
        );
        head_in_range = omega (arith, head, count);
        bytes_in_range = fetch_add-lt s.retained_bytes bytes;
      }

  -- The number of the first stamped event.
  first_seq :
      (seq ts_ms offset : ℕ) (new_v4 : ℕ → Uuid) (events : List Event) (first : StampedEvent)
      (all : List StampedEvent)
      → first ∷ all ≡ stamps seq ts_ms new_v4 offset events
      → first.seq ≡ seq
  first_seq seq ts_ms offset new_v4 [] first all e = cc
  first_seq seq ts_ms offset new_v4 (event ∷ events) first all e = ground arith

  commit-IsAppended :
      (s : Shared store) (events : List Event) (ts_ms n : ℕ) (new_v4 : ℕ → Uuid) (rows : List Row)
      (first : StampedEvent) (all : List StampedEvent) (bytes : ℕ)
      → IsConsistent store s
      → length events ≡ suc n
      → s.head + length events + 1 < word_mod
      → IsStamped store (s.head + 1) 0 ts_ms new_v4 events rows (first ∷ all) bytes
      → rows_bytes (iter s.db) + rows_bytes rows < word_mod
      → IsAppended s events ts_ms new_v4 (appended s rows first bytes) (first ∷ all)
  unfolding read_after
  commit-IsAppended s events ts_ms n new_v4 rows first all bytes c some_events h st fits = record {
    stamped_eq = st.stamped_eq;
    head_eq = omega (arith, st.count, fetch_add_exact s.head (length rows));
    rows = rows;
    iter_eq = e;
    read_back = rw behind st.read_back;
    consistent =
        appended-IsConsistent s rows first bytes n c (omega arith) st.consecutive
          (omega (arith, st.count)) st.bytes_eq
          (first_seq (s.head + 1) ts_ms 0 new_v4 events first all st.stamped_eq) st.decodes fits;
  }
    where
      e : iter (insert_rows store s.db rows) ≡ iter s.db ++ rows
      e = iter-appended s rows c st.consecutive

      behind : range (insert_rows store s.db rows) (saturating_add s.head 1) ≡ rows
      behind =
          rw (saturating_add_exact s.head 1 (omega arith), iter-range, e)
            (keep-append_of_below (s.head + 1) (iter s.db) rows
              (KeysBelow-of_Spans s.floor s.head (iter s.db) c.consecutive c.spans) st.consecutive)

  empty-IsAppended :
      (s : Shared store) (ts_ms : ℕ) (new_v4 : ℕ → Uuid)
      → IsConsistent store s
      → IsAppended s [] ts_ms new_v4 s []
  unfolding read_after read_rows
  empty-IsAppended s ts_ms new_v4 c = record {
    stamped_eq = refl;
    head_eq = omega arith;
    rows = [];
    iter_eq = sym (append-nil (iter s.db));
    read_back = rw (
      saturating_add_exact s.head 1 c.head_in_range,
      iter-range,
      keep-below (s.head + 1) (iter s.db)
          (KeysBelow-of_Spans s.floor s.head (iter s.db) c.consecutive c.spans),
    );
    consistent = c;
  }

  commit-Ensures :
      (s : Shared store) (event : Event) (events : List Event) (ts_ms : ℕ) (new_v4 : ℕ → Uuid)
      (batch : Result Batch LogError)
      → IsConsistent store s
      → s.head + length (event ∷ events) + 1 < word_mod
      → Ensures
          (λ b. IsStamped store (s.head + 1) 0 ts_ms new_v4 (event ∷ events) b.0 b.1 b.2)
          batch
      → Ensures
          (λ r.
            rows_bytes (iter r.0.db) < word_mod
            → IsAppended s (event ∷ events) ts_ms new_v4 r.0 r.1)
          (batch >>= λ b. if false then err storage else commit_append store s b)
  commit-Ensures s event events ts_ms new_v4 (err e) c h st = tt
  commit-Ensures s event events ts_ms new_v4 (ok (rows, [], bytes)) c h st = tt
  commit-Ensures s event events ts_ms new_v4 (ok (rows, first ∷ all, bytes)) c h st = λ fits.
      commit-IsAppended s (event ∷ events) ts_ms (length events) new_v4 rows first all bytes c refl
        h st
        (omega (
          arith,
          fits,
          ap rows_bytes (iter-appended s rows c st.consecutive),
          rows_bytes-append (iter s.db) rows,
        ))

  append-Ensures :
      (s : Shared store) (events : List Event) (ts_ms : ℕ) (new_v4 : ℕ → Uuid)
      → IsConsistent store s
      → s.head + length events + 1 < word_mod
      → Ensures
          (λ r. rows_bytes (iter r.0.db) < word_mod → IsAppended s events ts_ms new_v4 r.0 r.1)
          (append store false s events ts_ms new_v4)
  unfolding append append_blocking
  append-Ensures s [] ts_ms new_v4 c h = λ _. empty-IsAppended s ts_ms new_v4 c
  append-Ensures s (event ∷ events) ts_ms new_v4 c h =
      commit-Ensures s event events ts_ms new_v4
        (stamp_rows store s.head ts_ms new_v4 0 (event ∷ events)) c h
        (stamp_rows-IsStamped store s.head ts_ms new_v4 0 (s.head + 1) (event ∷ events)
          (omega arith) (omega arith))

-- A successful append to a consistent log, where the numbers and the bytes stay below 2 ^ 64 - 1: it
-- returns the events in order with the numbers from `head + 1` on and no gap, moves the head by
-- their count, adds their rows behind the old ones, and leaves a consistent log, in which reading
-- after the old head gives back exactly the events returned.
pub append-IsAppended :
    (store : Store) (s s' : Shared store) (events : List Event) (ts_ms : ℕ) (new_v4 : ℕ → Uuid)
    (stamped : List StampedEvent)
    → IsConsistent store s
    → s.head + length events + 1 < word_mod
    → append store false s events ts_ms new_v4 ≡ ok (s', stamped)
    → rows_bytes (store.iter s'.db) < word_mod
    → IsAppended store s events ts_ms new_v4 s' stamped
append-IsAppended store s s' events ts_ms new_v4 stamped c h e fits =
    Ensures_ok
      (λ r.
        rows_bytes (store.iter r.0.db) < word_mod → IsAppended store s events ts_ms new_v4 r.0 r.1)
      (append store false s events ts_ms new_v4) (append-Ensures store s events ts_ms new_v4 c h) e
      fits
