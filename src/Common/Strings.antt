-- ===== src/Common/Strings.antt =====
-- Texts as their bytes, and the string functions of Rust's standard library that the program calls.
use Prim.Native.Char.{code}
use Prim.Native.Nat.{ℕ, ◌+◌, ◌<◌}
use Prim.Native.String.{String}
use mathlib.Core.Bool.{Bool, true, false, not, ◌&&◌, ◌||◌}
use mathlib.Core.List.{List, [], ◌∷◌, ◌++◌}
use mathlib.Core.Logic.{◌↔◌, inl, inr}
use mathlib.Core.Option.{Option, none, some}
use mathlib.Core.Path.{◌≡◌, refl}
use native.Mathlib.Omega.{arith}
use whdr.Common.Lists.{length, all, is_empty}
use whdr.Common.Tests.{
  leb, nat_beq, nat_beq_iff, nat_eq, PartialEq, ◌==◌, if◌then◌else◌, Bool-cases,
}

abbrev pub Text : Type 0
Text = List ℕ

-- The bytes of an ASCII literal.
abbrev pub codes : String → Text
codes String.[] = []
codes (String.◌∷◌ c s) = code c ∷ codes s

abbrev pub text_beq : Text → Text → Bool
text_beq [] [] = true
text_beq [] (d ∷ t) = false
text_beq (c ∷ s) [] = false
text_beq (c ∷ s) (d ∷ t) = nat_beq c d && text_beq s t

text_beq_sound : (s t : Text) → text_beq s t ≡ true → s ≡ t
text_beq_sound [] [] h = refl
text_beq_sound [] (d ∷ t) h = cc
text_beq_sound (c ∷ s) [] h = cc
text_beq_sound (c ∷ s) (d ∷ t) h = ground (arith, text_beq_sound s t)

text_beq_refl : (s : Text) → text_beq s s ≡ true
text_beq_refl [] = refl
text_beq_refl (c ∷ s) = ground (arith, text_beq_refl s)

pub text_beq_iff : (s t : Text) → (text_beq s t ≡ true) ↔ (s ≡ t)
text_beq_iff s t = (text_beq_sound s t, λ e. rw (← e) (text_beq_refl s))

instance abbrev pub text_eq : PartialEq Text
text_eq = record { eq = text_beq; eq_iff = text_beq_iff }

-- `is_ascii_lowercase`, `is_ascii_digit`, `is_ascii_uppercase`
abbrev pub is_ascii_lowercase : ℕ → Bool
is_ascii_lowercase b = leb b'a' b && leb b b'z'

abbrev pub is_ascii_digit : ℕ → Bool
is_ascii_digit b = leb b'0' b && leb b b'9'

abbrev pub is_ascii_uppercase : ℕ → Bool
is_ascii_uppercase b = leb b'A' b && leb b b'Z'

-- `to_ascii_lowercase` of one byte
abbrev pub to_ascii_lowercase : ℕ → ℕ
to_ascii_lowercase b = if is_ascii_uppercase b then b + 32 else b

abbrev push_head : ℕ → List Text → List Text
push_head c [] = (c ∷ []) ∷ []
push_head c (t ∷ ts) = (c ∷ t) ∷ ts

-- `split(sep)`: always at least one piece
unfoldable pub split : ℕ → Text → List Text
split sep [] = [] ∷ []
split sep (c ∷ s) = let rest = split sep s in if c == sep then [] ∷ rest else push_head c rest

-- `strip_prefix(prefix)`
unfoldable pub strip_prefix : Text → Text → Option Text
strip_prefix [] s = some s
strip_prefix (p ∷ ps) [] = none
strip_prefix (p ∷ ps) (c ∷ s) = if p == c then strip_prefix ps s else none

-- `starts_with(byte)`
abbrev pub starts_with : ℕ → Text → Bool
starts_with b [] = false
starts_with b (c ∷ s) = c == b

abbrev pub first_of : List Text → Text
first_of [] = []
first_of (t ∷ ts) = t

pub split-ne-nil : (sep : ℕ) (s : Text) → (t : Text) × (ts : List Text) × (split sep s ≡ t ∷ ts)
unfolding split
split-ne-nil sep [] = ([], [], refl)
split-ne-nil sep (c ∷ s) = elim (Bool-cases (nat_beq c sep)) [
  | inl e ↦ ([], split sep s, rw e)
  | inr e ↦ let (t, ts, q) = split-ne-nil sep s in (c ∷ t, ts, rw (e, q))
]

pub length-split_pos : (sep : ℕ) (s : Text) → 0 < length (split sep s)
length-split_pos sep s = let (t, ts, e) = split-ne-nil sep s in rw e (omega arith)

push_head-append :
    (c : ℕ) (ts us : List Text) (t : Text)
    → push_head c ((t ∷ ts) ++ us) ≡ push_head c (t ∷ ts) ++ us
push_head-append c ts us t = refl

-- The pieces of two texts with the separator between them.
pub split-append : (sep : ℕ) (s t : Text) → split sep (s ++ sep ∷ t) ≡ split sep s ++ split sep t
unfolding split
split-append sep [] t = rw ((nat_beq_iff sep sep).1 refl) refl
split-append sep (c ∷ s) t = elim (Bool-cases (nat_beq c sep)) [
  | inl e ↦ rw (e, split-append sep s t) refl
  | inr e ↦
      let (u, us, q) = split-ne-nil sep s in
      rw (e, split-append sep s t, q) (push_head-append c us (split sep t) u)
]

-- A text without the separator is one piece.
pub split_absent : (sep : ℕ) (t : Text) → all (λ c. not (c == sep)) t ≡ true → split sep t ≡ t ∷ []
unfolding split
split_absent sep [] h = refl
split_absent sep (c ∷ t) h = elim (Bool-cases (nat_beq c sep)) [
  | inl e ↦ ground (arith, e, h)
  | inr e ↦ rw (e, split_absent sep t (ground (arith, h))) refl
]

-- `trim_start_matches`, `trim_end_matches` and `trim_matches`
unfoldable pub trim_start_matches : (ℕ → Bool) → Text → Text
trim_start_matches p [] = []
trim_start_matches p (c ∷ s) = let rest = trim_start_matches p s in if p c then rest else c ∷ s

unfoldable pub trim_end_matches : (ℕ → Bool) → Text → Text
trim_end_matches p [] = []
trim_end_matches p (c ∷ s) =
    let rest = trim_end_matches p s in if is_empty rest && p c then [] else c ∷ rest

abbrev pub trim_matches : (ℕ → Bool) → Text → Text
trim_matches p s = trim_end_matches p (trim_start_matches p s)

-- `trim` of an ASCII text
abbrev pub is_whitespace : ℕ → Bool
is_whitespace b = (leb 9 b && leb b 13) || b == 32

abbrev pub trim : Text → Text
trim s = trim_matches is_whitespace s
