-- ===== src/Server/SubscriberWs/Replay.antt =====
-- The replay window: what a client that resumes from its cursor is sent.
use whdr.Common.{
  ℕ, suc, ◌+◌, ◌-◌, ◌<◌, ◌≤◌, ◌≡◌, refl, sym, ap, ◌∙◌, List, [], ◌∷◌, ◌++◌, map, some, Bool, false,
  Text, codes, ok, ltb, leb, nat_eq, if◌then◌else◌, arith, keep, keep-append, All, All-keep,
  keep_ext, fetch_add_exact, word_mod,
}
use whdr.Proto.Messages.{SubServerMsg}
use whdr.Server.DeliveryLog.Storage.{Store, Row}
use whdr.Server.DeliveryLog.{Shared, StampedEvent, read_after, read_rows}
use whdr.Server.DeliveryLog.Rows.{Consecutive, Decodes}
use whdr.Server.DeliveryLog.Reading.{read_rows_total, read_rows-append, read_after_lem}
use whdr.Server.DeliveryLog.Consistent.{IsConsistent, Spans, KeysBelow-of_Spans}
use whdr.Server.Subscribers.{event_msg}
use whdr.Server.SubscriberWs.{until_head, parsed, predates, gap, effective_after, replay}

-- Every number is at most `head`, or every number is above it.
abbrev SeqsUpTo : ℕ → List StampedEvent → Type 0
SeqsUpTo head events = All (λ e. e.seq ≤ head) events

abbrev SeqsAbove : ℕ → List StampedEvent → Type 0
SeqsAbove head events = All (λ e. head < e.seq) events

until_head-append :
    (head : ℕ) (old new : List StampedEvent)
    → SeqsUpTo head old
    → SeqsAbove head new
    → until_head head (old ++ new) ≡ old
unfolding until_head
until_head-append head [] [] h k = refl
until_head-append head [] (e ∷ new) h k = ground (arith, k.0)
until_head-append head (e ∷ old) new h k = ground (arith, h.0, until_head-append head old new h.1 k)

-- The rows of a run lie from its first number on.
from_of_Consecutive : (k : ℕ) (rows : List Row) → Consecutive k rows → All (λ r. k ≤ r.0) rows
from_of_Consecutive k [] h = tt
from_of_Consecutive k ((j, v) ∷ rows) h =
    (omega arith, weaken k rows (from_of_Consecutive (suc k) rows h.1))
  where
    weaken : (n : ℕ) (rs : List Row) → All (λ r. suc n ≤ r.0) rs → All (λ r. n ≤ r.0) rs
    weaken n [] w = tt
    weaken n (r ∷ rs) w = (omega arith, weaken n rs w.1)

All-map :
    (P Q : ℕ → Type 0) (rows : List Row)
    → ((n : ℕ) → P n → Q n)
    → All (λ r. P r.0) rows
    → All (λ r. Q r.0) rows
All-map P Q [] f h = tt
All-map P Q (r ∷ rows) f h = (f r.0 h.0, All-map P Q rows f h.1)

same_test :
    (floor after_seq n : ℕ)
    → after_seq + 1 < word_mod
    → floor ≤ n
    → leb ((if predates floor after_seq then floor - 1 else after_seq) + 1) n ≡ ltb after_seq n
unfolding predates
same_test floor after_seq n h f = ground (arith, fetch_add_exact after_seq 1)

-- Over the rows that are left, the effective cursor asks for the same rows as the one requested.
same_rows :
    (store : Store) (log : Shared store) (after_seq : ℕ) (rows : List Row)
    → after_seq + 1 < word_mod
    → All (λ r. log.floor ≤ r.0) rows
    → keep (λ r. leb (effective_after store log after_seq + 1) r.0) rows
      ≡ keep (λ r. ltb after_seq r.0) rows
same_rows store log after_seq rows h f =
    keep_ext (λ r. leb (effective_after store log after_seq + 1) r.0) (λ r. ltb after_seq r.0) rows
      (All-map (λ n. log.floor ≤ n)
        (λ n. leb (effective_after store log after_seq + 1) n ≡ ltb after_seq n) rows
        (λ n. same_test log.floor after_seq n h) f)

-- What a replay leaves behind: `rows` were appended to the table after the head was read.
pub record IsLater (store : Store) (log later : Shared store) : Type 0 where
  pub rows : List Row
  pub iter_eq : store.iter later.db ≡ store.iter log.db ++ rows
  pub consecutive : Consecutive (log.head + 1) rows
  pub decodes : All (Decodes store) rows

effective_after-lt :
    (store : Store) (log : Shared store) (after_seq : ℕ)
    → after_seq + 1 < word_mod
    → log.floor < word_mod
    → effective_after store log after_seq + 1 < word_mod
effective_after-lt store log after_seq h f = ground arith

floor-lt :
    (floor head : ℕ) (rows : List Row)
    → Spans floor head rows
    → head + 1 < word_mod
    → floor < word_mod
floor-lt floor head [] s h = omega arith
floor-lt floor head (r ∷ rows) s h = omega arith

-- A client that resumes after a cursor is sent, between the acknowledgement and the end of the replay,
-- exactly the events of the log that are numbered above the cursor and match the patterns, in their
-- order, whatever other tasks append before the rows are read; a gap is announced before them where
-- the log's floor lies above the next number. The cursor is below 2 ^ 64 - 1.
pub replay_complete :
    (store : Store) (log later : Shared store) (after_seq : ℕ) (patterns : List Text)
    → IsConsistent store log
    → IsLater store log later
    → after_seq + 1 < word_mod
    → (wanted : List StampedEvent) × (read_rows store
          (some (parsed patterns))
          (keep (λ r. ltb after_seq r.0) (store.iter log.db))
        ≡ ok wanted)
      × (replay store false log later after_seq patterns
          ≡ ok (
              SubServerMsg.ok (codes "subscribe") ∷ gap store log after_seq
              ++ map event_msg wanted
              ++ SubServerMsg.replayed log.head ∷ []))
unfolding replay
replay_complete store log later after_seq patterns c l h =
    let ps = some (parsed patterns) in
    let old = keep test (store.iter log.db) in
    let (wanted, r, below) =
      read_rows_total store ps (λ n. n ≤ log.head) old
        (All-keep (Decodes store) test (store.iter log.db) c.decodes)
        (All-keep (λ row. row.0 ≤ log.head) test (store.iter log.db)
          (All-map (λ n. n < log.head + 1) (λ n. n ≤ log.head) (store.iter log.db)
            (λ n m. omega arith)
            (KeysBelow-of_Spans log.floor log.head (store.iter log.db) c.consecutive c.spans))) in
    let (fresh, q, above) =
      read_rows_total store ps (λ n. log.head < n) (keep test l.rows)
        (All-keep (Decodes store) test l.rows l.decodes)
        (All-keep (λ row. log.head < row.0) test l.rows
          (All-map (λ n. log.head + 1 ≤ n) (λ n. log.head < n) l.rows (λ n m. omega arith)
            (from_of_Consecutive (log.head + 1) l.rows l.consecutive))) in
    let read : read_after store false later (effective_after store log after_seq) ps
        ≡ ok (wanted ++ fresh) =
      read_after_lem store ps later (effective_after store log after_seq) (
        effective_after-lt store log after_seq h
          (floor-lt log.floor log.head (store.iter log.db) c.spans c.head_in_range))
      ∙ ap (λ t. read_rows store ps (keep test t)) l.iter_eq
      ∙ ap (read_rows store ps) (keep-append test (store.iter log.db) l.rows)
      ∙ read_rows-append store ps old (keep test l.rows) wanted fresh
          (All-keep (Decodes store) test (store.iter log.db) c.decodes) r q in
    (
      wanted,
      ap (read_rows store ps) (
            sym (
              same_rows store log after_seq (store.iter log.db) h
                (from_of_Consecutive log.floor (store.iter log.db) c.consecutive)))
          ∙ r,
      rw (read, until_head-append log.head wanted fresh below above),
    )
  where
    test : Row → Bool
    test row = leb (effective_after store log after_seq + 1) row.0
