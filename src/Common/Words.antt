-- ===== src/Common/Words.antt =====
-- Machine-width counters: 64-bit words with their wrap-around written out.
use Prim.Native.Nat.{ℕ, ◌+◌, ◌-◌, ◌%◌, ◌^◌, ◌<◌}
use mathlib.Core.Path.{◌≡◌}
use native.Mathlib.Omega.{arith}
use whdr.Common.Tests.{ltb, if◌then◌else◌}

abbrev pub word_mod : ℕ
word_mod = 2 ^ 64

-- `fetch_add` of an `AtomicUsize` or `AtomicU64`: it wraps.
unfoldable pub fetch_add : ℕ → ℕ → ℕ
fetch_add counter n = (counter + n) % word_mod

-- `saturating_add` and `saturating_sub` of `u64`
unfoldable pub saturating_add : ℕ → ℕ → ℕ
saturating_add a b = if ltb (a + b) word_mod then a + b else word_mod - 1

abbrev pub saturating_sub : ℕ → ℕ → ℕ
saturating_sub a b = a - b

pub fetch_add_assoc : (c a b : ℕ) → fetch_add (fetch_add c a) b ≡ fetch_add c (a + b)
unfolding fetch_add
fetch_add_assoc c a b = omega arith

pub fetch_add_exact : (c n : ℕ) → c + n < word_mod → fetch_add c n ≡ c + n
unfolding fetch_add
fetch_add_exact c n h = omega arith

pub fetch_add-lt : (c n : ℕ) → fetch_add c n < word_mod
unfolding fetch_add
fetch_add-lt c n = omega arith

pub saturating_add_exact : (a b : ℕ) → a + b < word_mod → saturating_add a b ≡ a + b
unfolding saturating_add
saturating_add_exact a b h = ground arith
