-- ===== src/Server/DeliveryLog/Stamping.antt =====
-- The stamping loop of `append_blocking` numbers the events of a batch without a gap.
use whdr.Common.{
  ℕ, suc, ◌+◌, ◌<◌, ◌≡◌, refl, ap, List, [], ◌∷◌, Option, none, some, Text, arith, All, length, ok,
  err, Result, nat_eq, Ensures, word_mod, fetch_add, fetch_add_exact,
}
use whdr.Proto.Messages.{Uuid, Event}
use whdr.Server.DeliveryLog.Storage.{Store, StoredEvent, Row}
use whdr.Server.DeliveryLog.{
  StampedEvent, read_rows, stamp_stored, stamp_rows, push_row, Batch, LogError, add_u64,
}
use whdr.Server.DeliveryLog.Rows.{Consecutive, rows_bytes, Decodes}

-- What `append` promises to hand out: the events in order, stamped with consecutive numbers.
abbrev pub stamps : ℕ → ℕ → (ℕ → Uuid) → ℕ → List Event → List StampedEvent
stamps seq ts_ms new_v4 offset [] = []
stamps seq ts_ms new_v4 offset (event ∷ events) =
    record {
      seq = seq;
      id = new_v4 offset;
      ts_ms = ts_ms;
      channel = event.channel;
      payload_b64 = event.payload_b64;
    }
    ∷ stamps (suc seq) ts_ms new_v4 (offset + 1) events

module _ (store : Store) where
  open store use {Table, iter, range, from_slice, to_vec, from_slice-to_vec, iter-range}

  -- What the stamping loop makes of a batch.
  pub record IsStamped (seq offset : ℕ) (ts_ms : ℕ) (new_v4 : ℕ → Uuid) (events : List Event)
      (rows : List Row) (stamped : List StampedEvent) (bytes : ℕ) : Type 0 where
    pub consecutive : Consecutive seq rows
    pub count : length rows ≡ length events
    pub bytes_eq : bytes ≡ rows_bytes rows
    pub decodes : All (Decodes store) rows
    pub stamped_eq : stamped ≡ stamps seq ts_ms new_v4 offset events
    pub read_back : read_rows store none rows ≡ ok stamped

  push_row-IsStamped :
      (offset seq k ts_ms : ℕ) (new_v4 : ℕ → Uuid) (event : Event) (events : List Event)
      (stored : StoredEvent) (encoded : Option Text) (rest : Result Batch LogError)
      → stored ≡ record {
        id = new_v4 offset;
        ts_ms = ts_ms;
        channel = event.channel;
        payload_b64 = event.payload_b64;
      }
      → to_vec stored ≡ encoded
      → k ≡ seq
      → Ensures (λ b. IsStamped (suc seq) (offset + 1) ts_ms new_v4 events b.0 b.1 b.2) rest
      → Ensures
          (λ b. IsStamped seq offset ts_ms new_v4 (event ∷ events) b.0 b.1 b.2)
          (push_row k (stamp_stored k stored) encoded rest)
  unfolding push_row read_rows
  push_row-IsStamped offset seq k ts_ms new_v4 event events stored none rest d e q h = tt
  push_row-IsStamped offset seq k ts_ms new_v4 event events stored (some v) (err x) d e q h = tt
  push_row-IsStamped offset seq k ts_ms new_v4 event events stored (some v) (ok (rows, all, n)) d e
        q h =
      record {
        consecutive = (q, h.consecutive);
        count = ap suc h.count;
        bytes_eq = omega (arith, h.bytes_eq);
        decodes = ((stored, from_slice-to_vec stored v e), h.decodes);
        stamped_eq = ground (arith, h.stamped_eq);
        read_back = ground (arith, from_slice-to_vec stored v e, h.read_back);
      }

  pub stamp_rows-IsStamped :
      (base ts_ms : ℕ) (new_v4 : ℕ → Uuid) (offset seq : ℕ) (events : List Event)
      → seq ≡ base + 1 + offset
      → base + offset + length events < word_mod
      → Ensures
          (λ b. IsStamped seq offset ts_ms new_v4 events b.0 b.1 b.2)
          (stamp_rows store base ts_ms new_v4 offset events)
  unfolding stamp_rows read_rows fetch_add
  stamp_rows-IsStamped base ts_ms new_v4 offset seq [] e h = record {
    consecutive = tt;
    count = refl;
    bytes_eq = refl;
    decodes = tt;
    stamped_eq = refl;
    read_back = refl;
  }
  stamp_rows-IsStamped base ts_ms new_v4 offset seq (event ∷ events) e h =
      push_row-IsStamped offset seq (add_u64 (add_u64 base 1) offset) ts_ms new_v4 event events _ _
        (stamp_rows store base ts_ms new_v4 (offset + 1) events) refl refl
        (omega (arith, fetch_add_exact base 1, fetch_add_exact (base + 1) offset))
        (stamp_rows-IsStamped base ts_ms new_v4 (offset + 1) (suc seq) events (omega arith)
          (omega arith))
