-- ===== src/Server/Ingest/RouteKey.antt =====
-- The route key of crates/whdr-server/src/ingest.rs is the first segment of the path.
use whdr.Common.{
  ℕ, zero, suc, ◌≡◌, refl, List, [], ◌∷◌, ◌++◌, some, Text, split, is_empty, ◌==◌, nat_eq, nat_beq,
  true, false, Bool-cases, inl, inr, all, not, arith,
}
use whdr.Server.Ingest.{slash, trim_start_slashes, find_segment, route_key_from_path}

-- Any number of slashes.
abbrev pub slashes : ℕ → Text
slashes zero = []
slashes (suc n) = slash ∷ slashes n

-- A segment: bytes other than a slash, one at least.
abbrev pub IsSegment : Text → Type 0
IsSegment key = (is_empty key ≡ false) × (all (λ c. not (c == slash)) key ≡ true)

-- What follows a segment: the end, or a slash and anything.
pub data EndsSegment : Text → Type 0 where
  at_end : EndsSegment []
  at_slash : (rest : Text) → EndsSegment (slash ∷ rest)

trim_start_slashes-slashes :
    (n : ℕ) (path : Text) → trim_start_slashes (slashes n ++ path) ≡ trim_start_slashes path
unfolding trim_start_slashes
trim_start_slashes-slashes zero path = refl
trim_start_slashes-slashes (suc n) path = trim_start_slashes-slashes n path

trim_start_slashes_segment :
    (key rest : Text) → IsSegment key → trim_start_slashes (key ++ rest) ≡ key ++ rest
unfolding trim_start_slashes
trim_start_slashes_segment [] rest (h, _) = cc
trim_start_slashes_segment (c ∷ key) rest (_, h) = elim (Bool-cases (nat_beq c slash)) [
  | inl e ↦ ground arith
  | inr e ↦ rw e
]

split_segment :
    (key rest : Text)
    → all (λ c. not (c == slash)) key ≡ true
    → EndsSegment rest
    → (ts : List Text) × (split slash (key ++ rest) ≡ key ∷ ts)
unfolding split
split_segment [] _ h at_end = ([], refl)
split_segment [] _ h (at_slash rest) = (split slash rest, refl)
split_segment (c ∷ key) rest h end = elim (Bool-cases (nat_beq c slash)) [
  | inl e ↦ ground arith
  | inr e ↦ let (ts, q) = split_segment key rest (ground arith) end in (ts, rw (e, q))
]

-- The route key of a path is its first segment, whatever slashes stand before it and whatever
-- follows it: the end of the path, or a slash and any bytes.
pub route_key_of_segment :
    (n : ℕ) (key rest : Text)
    → IsSegment key
    → EndsSegment rest
    → route_key_from_path (slashes n ++ (key ++ rest)) ≡ some key
unfolding route_key_from_path find_segment
route_key_of_segment n key rest segment end =
    let (ts, q) = split_segment key rest (segment.1) end in
    rw (
      trim_start_slashes-slashes n (key ++ rest),
      trim_start_slashes_segment key rest segment,
      q,
      segment.0,
    )
