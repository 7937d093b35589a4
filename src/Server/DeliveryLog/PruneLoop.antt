-- ===== src/Server/DeliveryLog/PruneLoop.antt =====
-- The loop of `prune_blocking` removes rows from the front while they are past the window or exceed a
-- cap, and ends.
use whdr.Common.{
  ◌⊎◌, ◌-◌, ◌/◌, ℕ, zero, suc, ◌+◌, ◌<◌, ◌≤◌, ◌≡◌, refl, sym, ap, ◌∙◌, List, [], ◌∷◌, some, Text,
  arith, All, length, Bool-cases, true, false, drop, ok, inl, inr, word_mod,
}
use whdr.Server.DeliveryLog.Storage.{Store, StoredEvent, Row}
use whdr.Server.DeliveryLog.{
  Shared, Pruning, prune_loop, first_key, is_prunable, remove_front, sub_u64,
}
use whdr.Server.DeliveryLog.Rows.{Consecutive, Consecutive-cast, rows_bytes, Decodes}
use whdr.Server.DeliveryLog.Consistent.{Spans}

drop-nil_Spans : (head n : ℕ) → Spans (first_key (drop n [])) head (drop n [])
drop-nil_Spans head zero = refl
drop-nil_Spans head (suc n) = refl

pub Spans-drop :
    (floor head n : ℕ) (rows : List Row)
    → Consecutive floor rows
    → Spans floor head rows
    → Spans (first_key (drop n rows)) head (drop n rows)
Spans-drop floor head zero [] c p = refl
Spans-drop floor head (suc n) [] c p = refl
Spans-drop floor head zero ((k, v) ∷ rows) c p = ground (arith, c.0)
Spans-drop floor head (suc n) ((k, v) ∷ []) c p = drop-nil_Spans head n
Spans-drop floor head (suc n) ((k, v) ∷ r ∷ rows) c p =
    Spans-drop (suc floor) head n (r ∷ rows) c.1 (omega arith, omega arith)

pub Consecutive-first_key :
    (n floor : ℕ) (rows : List Row)
    → Consecutive floor rows
    → Consecutive (first_key (drop n rows)) (drop n rows)
Consecutive-first_key zero floor [] c = tt
Consecutive-first_key (suc n) floor [] c = tt
Consecutive-first_key zero floor ((k, v) ∷ rows) c =
    (refl, Consecutive-cast rows (ap suc (sym c.0)) c.1)
Consecutive-first_key (suc n) floor ((k, v) ∷ rows) c = Consecutive-first_key n (suc floor) rows c.1

pub rows_bytes-drop-le : (n : ℕ) (rows : List Row) → rows_bytes (drop n rows) ≤ rows_bytes rows
rows_bytes-drop-le zero rows = omega arith
rows_bytes-drop-le (suc n) [] = omega arith
rows_bytes-drop-le (suc n) ((k, v) ∷ rows) = omega (arith, rows_bytes-drop-le n rows)

module _ (store : Store) where
  open store use {Table, iter, remove, iter-remove, from_slice}

  -- The age of a row in whole seconds, none before its time.
  abbrev pub age_secs : (now_ms ts_ms : ℕ) → ℕ
  age_secs now_ms ts_ms = (now_ms - ts_ms) / 1000

  -- The first row is past the retention window, or the rows exceed a cap.
  abbrev pub FrontPrunable : Shared store → ℕ → List Row → Type 0
  FrontPrunable s now_ms [] = ⊥
  FrontPrunable s now_ms ((k, v) ∷ rows) =
      (stored : StoredEvent) × (from_slice v ≡ some stored)
      × ((s.retention_secs < age_secs now_ms stored.ts_ms)
          ⊎ (s.max_events < length ((k, v) ∷ rows))
          ⊎ (s.max_bytes < rows_bytes ((k, v) ∷ rows)))

  -- There is no row, or the first one is within the window and the rows are within the caps.
  abbrev pub FrontKept : Shared store → ℕ → List Row → Type 0
  FrontKept s now_ms [] = Unit
  FrontKept s now_ms ((k, v) ∷ rows) =
      (stored : StoredEvent) × (from_slice v ≡ some stored)
      × ((age_secs now_ms stored.ts_ms ≤ s.retention_secs)
          × (length ((k, v) ∷ rows) ≤ s.max_events)
          × (rows_bytes ((k, v) ∷ rows) ≤ s.max_bytes))

  is_prunable_exceeds :
      (s : Shared store) (now_ms count bytes : ℕ) (stored : StoredEvent)
      → is_prunable store s now_ms count bytes stored ≡ true
      → (s.retention_secs < age_secs now_ms stored.ts_ms)
        ⊎ (s.max_events < count)
        ⊎ (s.max_bytes < bytes)
  unfolding is_prunable
  is_prunable_exceeds s now_ms count bytes stored h = ground arith

  is_prunable_fits :
      (s : Shared store) (now_ms count bytes : ℕ) (stored : StoredEvent)
      → is_prunable store s now_ms count bytes stored ≡ false
      → (age_secs now_ms stored.ts_ms ≤ s.retention_secs)
        × (count ≤ s.max_events)
        × (bytes ≤ s.max_bytes)
  unfolding is_prunable
  is_prunable_fits s now_ms count bytes stored h = ground arith

  pub record Counted (rows : List Row) (p : Pruning store) : Type 0 where
    pub iter_eq : iter p.table ≡ rows
    pub decodes : All (Decodes store) rows
    pub count : p.count ≡ length rows
    pub bytes : p.bytes ≡ rows_bytes rows
    pub in_range : length rows < word_mod

  -- The loop from `p` ended in `p'` and removed `n` rows.
  pub record IsPruned (s : Shared store) (now_ms : ℕ) (rows : List Row) (p : Pruning store) (n : ℕ)
      (p' : Pruning store) : Type 0 where
    pub within : n ≤ length rows
    pub kept : iter p'.table ≡ drop n rows
    pub pruned : p'.pruned ≡ p.pruned + n
    pub count : p'.count ≡ length (drop n rows)
    pub bytes : p'.bytes ≡ rows_bytes (drop n rows)
    pub stops : FrontKept s now_ms (drop n rows)
    pub least : (j : ℕ) → j < n → FrontPrunable s now_ms (drop j rows)

  removed-Counted :
      (k : ℕ) (v : Text) (rows : List Row) (p : Pruning store)
      → Counted ((k, v) ∷ rows) p
      → Counted rows (remove_front store p k v)
  unfolding sub_u64
  removed-Counted k v rows p c = record {
    iter_eq = iter-remove p.table k v rows c.iter_eq;
    decodes = c.decodes.1;
    count = omega (arith, c.count, c.in_range);
    bytes = omega (arith, c.bytes);
    in_range = omega (arith, c.in_range);
  }

  module _ (s : Shared store) (now_ms : ℕ) where
    loop-empty :
        (fuel : ℕ) (p : Pruning store)
        → iter p.table ≡ []
        → prune_loop store (suc fuel) s now_ms p ≡ ok p
    unfolding prune_loop
    loop-empty fuel p e = ground arith

    loop-stop :
        (fuel k : ℕ) (v : Text) (rows : List Row) (stored : StoredEvent) (p : Pruning store)
        → iter p.table ≡ (k, v) ∷ rows
        → from_slice v ≡ some stored
        → is_prunable store s now_ms p.count p.bytes stored ≡ false
        → prune_loop store (suc fuel) s now_ms p ≡ ok p
    unfolding prune_loop
    loop-stop fuel k v rows stored p e d h = ground arith

    loop-next :
        (fuel k : ℕ) (v : Text) (rows : List Row) (stored : StoredEvent) (p : Pruning store)
        → iter p.table ≡ (k, v) ∷ rows
        → from_slice v ≡ some stored
        → is_prunable store s now_ms p.count p.bytes stored ≡ true
        → prune_loop store (suc fuel) s now_ms p
          ≡ prune_loop store fuel s now_ms (remove_front store p k v)
    unfolding prune_loop
    loop-next fuel k v rows stored p e d h = ground arith

    pub loop-IsPruned :
        (fuel : ℕ) (rows : List Row) (p : Pruning store)
        → Counted rows p
        → length rows < fuel
        → (n : ℕ) × (p' : Pruning store) × (prune_loop store fuel s now_ms p ≡ ok p')
          × IsPruned s now_ms rows p n p'
    loop-IsPruned zero rows p c h = elim h [ ]
    loop-IsPruned (suc fuel) [] p c h = (
      0,
      p,
      loop-empty fuel p c.iter_eq,
      record {
        within = omega arith;
        kept = c.iter_eq;
        pruned = omega arith;
        count = c.count;
        bytes = c.bytes;
        stops = tt;
        least = λ j l. absurd (omega arith);
      },
    )
    loop-IsPruned (suc fuel) ((k, v) ∷ rows) p c h =
        let (stored, d) = c.decodes.0 in
        elim (Bool-cases (is_prunable store s now_ms p.count p.bytes stored)) [
          | inl old ↦
              let (n, p', e, r) =
                loop-IsPruned fuel rows (remove_front store p k v) (removed-Counted k v rows p c)
                  (omega arith) in
              (
                suc n,
                p',
                loop-next fuel k v rows stored p c.iter_eq d old ∙ e,
                record {
                  within = omega (arith, r.within);
                  kept = r.kept;
                  pruned = omega (arith, r.pruned);
                  count = r.count;
                  bytes = r.bytes;
                  stops = r.stops;
                  least = elim [
                    | zero ↦ λ _. (
                      stored,
                      d,
                      is_prunable_exceeds s now_ms (length ((k, v) ∷ rows))
                          (rows_bytes ((k, v) ∷ rows)) stored (rw (c.count, c.bytes) at old),
                    )
                    | suc j ↦ λ l. r.least j (omega arith)
                  ];
                },
              )
          | inr fresh ↦ (
            0,
            p,
            loop-stop fuel k v rows stored p c.iter_eq d fresh,
            record {
              within = omega arith;
              kept = c.iter_eq;
              pruned = omega arith;
              count = c.count;
              bytes = c.bytes;
              stops = (
                stored,
                d,
                is_prunable_fits s now_ms (length ((k, v) ∷ rows)) (rows_bytes ((k, v) ∷ rows))
                    stored (rw (c.count, c.bytes) at fresh),
              );
              least = λ j l. absurd (omega arith);
            },
          )
        ]
