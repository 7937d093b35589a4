-- ===== src/SubKit/Resume/Tests.antt =====
-- The window of recent ids at a concrete state.
use whdr.Common.{◌≡◌, refl, [], ◌∷◌, arith}
use whdr.SubKit.Resume.{ResumeState, record_event}
use whdr.SubKit.Resume.Window.{IsValid}

-- A full window of two.
abbrev full : ResumeState
full = record { cursor = 7; seen = 106 ∷ 107 ∷ []; order = 107 ∷ 106 ∷ []; capacity = 2 }

-- The oldest id goes.
record_full :
    record_event full 109 9
    ≡ record { cursor = 9; seen = 109 ∷ 106 ∷ []; order = 106 ∷ 109 ∷ []; capacity = 2 }
unfolding record_event
record_full = refl

full-IsValid : IsValid full
full-IsValid = record {
  some_capacity = omega arith;
  within = omega arith;
  distinct = (refl, (refl, tt));
  same = λ i. ground arith;
}
