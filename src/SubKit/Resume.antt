-- ===== src/SubKit/Resume.antt =====
-- crates/whdr-sub-kit/src/resume.rs: the resume cursor and the window of recent event ids.
pub mod Window
mod Tests
use whdr.Common.{
  ℕ, ◌+◌, List, [], ◌∷◌, ◌++◌, Bool, true, false, not, ◌&&◌, length, any, keep, ltb, ◌==◌, nat_eq,
  if◌then◌else◌,
}
use Prim.Native.Nat.{max}
use whdr.Proto.Messages.{Uuid}

-- `seen` is the set of the ids in `order`.
pub record ResumeState : Type 0 where
  pub cursor : ℕ
  pub seen : List Uuid
  pub order : List Uuid
  pub capacity : ℕ

unfoldable pub new : ℕ → ℕ → ResumeState
new cursor capacity = record { cursor = cursor; seen = []; order = []; capacity = max capacity 1 }

abbrev pub contains : List Uuid → Uuid → Bool
contains ids id = any (λ i. i == id) ids

unfoldable pub should_process : ResumeState → Uuid → ℕ → Bool
should_process s id seq = ltb s.cursor seq && not (contains s.seen id)

abbrev remove_id : Uuid → List Uuid → List Uuid
remove_id old ids = keep (λ i. not (i == old)) ids

-- `order.push_back(id)` and the eviction of the oldest id beyond the capacity
abbrev pub evict_oldest : ResumeState → List Uuid → List Uuid → ResumeState
evict_oldest s seen [] = record s { seen = seen; order = [] }
evict_oldest s seen (old ∷ order) =
    if ltb s.capacity (length (old ∷ order))
    then record s { seen = remove_id old seen; order = order }
    else record s { seen = seen; order = old ∷ order }

abbrev pub remember : ResumeState → Uuid → ResumeState
remember s id = if contains s.seen id then s else evict_oldest s (id ∷ s.seen) (s.order ++ id ∷ [])

abbrev advance : ResumeState → ℕ → ResumeState
advance s seq = if ltb s.cursor seq then record s { cursor = seq } else s

unfoldable pub record_event : ResumeState → Uuid → ℕ → ResumeState
record_event s id seq = advance (remember s id) seq
