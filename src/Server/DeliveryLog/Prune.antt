-- ===== src/Server/DeliveryLog/Prune.antt =====
-- A prune removes the oldest rows, as few as the retention window and the caps ask for.
use whdr.Common.{
  ℕ, suc, ◌<◌, ◌≤◌, ◌≡◌, refl, sym, ap, ◌∙◌, arith, length, false, drop, All-drop, ok,
}
use native.Mathlib.Nat.{zero-add}
use whdr.Server.DeliveryLog.Storage.{Store}
use whdr.Server.DeliveryLog.{Shared, Pruning, prune_blocking, pruning_start, commit_prune}
use whdr.Server.DeliveryLog.Rows.{rows_bytes, Decodes}
use whdr.Server.DeliveryLog.Consistent.{IsConsistent, length-le-head}
use whdr.Server.DeliveryLog.PruneLoop.{
  Spans-drop, Consecutive-first_key, rows_bytes-drop-le, FrontPrunable, FrontKept, Counted,
  IsPruned, loop-IsPruned,
}

module _ (store : Store) where
  open store use {iter}

  start-Counted :
      (s : Shared store) → IsConsistent store s → Counted store (iter s.db) (pruning_start store s)
  start-Counted s c = record {
    iter_eq = refl;
    decodes = c.decodes;
    count = c.count;
    bytes = c.bytes;
    in_range = omega (arith, length-le-head s.floor s.head (iter s.db) c.spans, c.head_in_range);
  }

  -- What a prune of `s` that left `s'` and removed `n` rows has done.
  pub record Prunes (s : Shared store) (now_ms : ℕ) (s' : Shared store) (n : ℕ) : Type 0 where
    pub within : n ≤ length (iter s.db)
    pub kept : iter s'.db ≡ drop n (iter s.db)
    pub head_eq : s'.head ≡ s.head
    pub stops : FrontKept store s now_ms (drop n (iter s.db))
    pub least : (j : ℕ) → j < n → FrontPrunable store s now_ms (drop j (iter s.db))
    pub consistent : IsConsistent store s'

  commit-Prunes :
      (s : Shared store) (now_ms n : ℕ) (p : Pruning store)
      → IsConsistent store s
      → IsPruned store s now_ms (iter s.db) (pruning_start store s) n p
      → Prunes s now_ms (commit_prune store s p) n
  commit-Prunes s now_ms n p c r = record {
    within = r.within;
    kept = r.kept;
    head_eq = refl;
    stops = r.stops;
    least = r.least;
    consistent = record {
      consecutive = rw r.kept (Consecutive-first_key n s.floor (iter s.db) c.consecutive);
      spans = rw r.kept (Spans-drop s.floor s.head n (iter s.db) c.consecutive c.spans);
      decodes = rw r.kept (All-drop (Decodes store) n (iter s.db) c.decodes);
      count = r.count ∙ ap length (sym r.kept);
      bytes = r.bytes ∙ ap rows_bytes (sym r.kept);
      head_in_range = c.head_in_range;
      bytes_in_range =
          omega (arith, r.bytes, c.bytes, c.bytes_in_range, rows_bytes-drop-le n (iter s.db));
    };
  }

-- A prune of a consistent log whose storage works always returns. It removes the oldest rows: every
-- row removed was past the retention window or the rows from it on exceeded a cap, and the first row
-- that stays is within the window, with the rows within both caps. The head stays, and
-- the log stays consistent.
pub prune_blocking-Prunes :
    (store : Store) (s : Shared store) (now_ms : ℕ)
    → IsConsistent store s
    → (s' : Shared store) × (n : ℕ) × (prune_blocking store false s now_ms ≡ ok (s', n))
      × Prunes store s now_ms s' n
unfolding prune_blocking
prune_blocking-Prunes store s now_ms c =
    let (n, p, e, r) =
      loop-IsPruned store s now_ms (suc (length (store.iter s.db))) (store.iter s.db)
        (pruning_start store s) (start-Counted store s c) (omega arith) in
    (
      commit_prune store s p,
      n,
      rw e (ap (λ k. ok (commit_prune store s p, k)) (r.pruned ∙ zero-add n)),
      commit-Prunes store s now_ms n p c r,
    )
