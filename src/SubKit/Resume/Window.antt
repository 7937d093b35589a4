-- ===== src/SubKit/Resume/Window.antt =====
-- The window of recent ids: `seen` and `order` hold the same ids, each once and at most `capacity`.
use whdr.Common.{
  ℕ, ◌+◌, ◌<◌, ◌≤◌, ◌≡◌, refl, sym, ◌∙◌, List, [], ◌∷◌, ◌++◌, false, not, ◌&&◌, ◌||◌, length, keep,
  ltb, ◌==◌, nat_eq, arith, length-append, Bool-cases, inl, inr,
}
use Prim.Native.Nat.{max}
use whdr.Proto.Messages.{Uuid}
use whdr.SubKit.Resume.{
  ResumeState, new, contains, should_process, remember, evict_oldest, record_event,
}

abbrev pub Distinct : List Uuid → Type 0
Distinct [] = Unit
Distinct (i ∷ ids) = (contains ids i ≡ false) × Distinct ids

pub record IsValid (s : ResumeState) : Type 0 where
  pub some_capacity : 0 < s.capacity
  pub within : length s.order ≤ s.capacity
  pub distinct : Distinct s.order
  pub same : (i : Uuid) → contains s.seen i ≡ contains s.order i

pub new-IsValid : (cursor capacity : ℕ) → IsValid (new cursor capacity)
unfolding new
new-IsValid cursor capacity = record {
  some_capacity = omega arith;
  within = omega arith;
  distinct = tt;
  same = λ i. refl;
}

contains-append :
    (xs ys : List Uuid) (i : Uuid) → contains (xs ++ ys) i ≡ (contains xs i || contains ys i)
contains-append [] ys i = refl
contains-append (x ∷ xs) ys i = ground (arith, contains-append xs ys i)

Distinct-snoc :
    (xs : List Uuid) (i : Uuid) → Distinct xs → contains xs i ≡ false → Distinct (xs ++ i ∷ [])
Distinct-snoc [] i d h = (refl, tt)
Distinct-snoc (x ∷ xs) i d h =
    ground (arith, contains-append xs (i ∷ []) x, Distinct-snoc xs i d.1, d.0)

contains-remove :
    (old i : Uuid) (xs : List Uuid)
    → contains (keep (λ j. not (j == old)) xs) i ≡ (contains xs i && not (old == i))
contains-remove old i [] = refl
contains-remove old i (x ∷ xs) = ground (arith, contains-remove old i xs)

evict_oldest-IsValid :
    (s : ResumeState) (seen order : List Uuid)
    → 0 < s.capacity
    → length order ≤ s.capacity + 1
    → Distinct order
    → ((i : Uuid) → contains seen i ≡ contains order i)
    → IsValid (evict_oldest s seen order)
evict_oldest-IsValid s seen [] p w d e = record {
  some_capacity = p;
  within = omega arith;
  distinct = tt;
  same = e;
}
evict_oldest-IsValid s seen (old ∷ order) p w d e =
    elim (Bool-cases (ltb s.capacity (length (old ∷ order)))) [
      | inl over ↦ rw over (record {
        some_capacity = p;
        within = omega arith;
        distinct = d.1;
        same = λ i. ground (arith, contains-remove old i seen, e i, d.0);
      })
      | inr fits ↦
          rw fits (record { some_capacity = p; within = ground arith; distinct = d; same = e })
    ]

remember-IsValid : (s : ResumeState) (id : Uuid) → IsValid s → IsValid (remember s id)
remember-IsValid s id v = elim (Bool-cases (contains s.seen id)) [
  | inl old ↦ rw old v
  | inr fresh ↦ rw fresh (
      evict_oldest-IsValid s (id ∷ s.seen) (s.order ++ id ∷ []) v.some_capacity
        (omega (arith, length-append s.order (id ∷ []), v.within))
        (Distinct-snoc s.order id v.distinct (sym (v.same id) ∙ fresh))
        (λ i. ground (arith, contains-append s.order (id ∷ []) i, v.same i)))
]

remember_cursor : (s : ResumeState) (id : Uuid) → (remember s id).cursor ≡ s.cursor
remember_cursor s id = elim (Bool-cases (contains s.seen id)) [
  | inl old ↦ rw old
  | inr fresh ↦ rw fresh (at_order (s.order ++ id ∷ []))
]
  where
    at_order : (order : List Uuid) → (evict_oldest s (id ∷ s.seen) order).cursor ≡ s.cursor
    at_order [] = refl
    at_order (o ∷ order) = ground arith

pub record_event_cursor :
    (s : ResumeState) (id : Uuid) (seq : ℕ) → (record_event s id seq).cursor ≡ max s.cursor seq
unfolding record_event
record_event_cursor s id seq = ground (arith, remember_cursor s id)

advanced-IsValid :
    (s : ResumeState) (id : Uuid) (seq : ℕ) → IsValid s → IsValid (record_event s id seq)
unfolding record_event
advanced-IsValid s id seq v = elim (Bool-cases (ltb (remember s id).cursor seq)) [
  | inl more ↦ rw more (record {
    some_capacity = (remember-IsValid s id v).some_capacity;
    within = (remember-IsValid s id v).within;
    distinct = (remember-IsValid s id v).distinct;
    same = (remember-IsValid s id v).same;
  })
  | inr less ↦ rw less (remember-IsValid s id v)
]

-- Recording an event keeps the window valid, moves the cursor to the larger of the two numbers, and
-- from then on no event with this number is processed.
pub record_event-IsValid :
    (s : ResumeState) (id : Uuid) (seq : ℕ)
    → IsValid s
    → IsValid (record_event s id seq)
      × ((record_event s id seq).cursor ≡ max s.cursor seq)
      × ((i : Uuid) → should_process (record_event s id seq) i seq ≡ false)
unfolding should_process
record_event-IsValid s id seq v = (
  advanced-IsValid s id seq v,
  record_event_cursor s id seq,
  λ i. ground (arith, record_event_cursor s id seq),
)
