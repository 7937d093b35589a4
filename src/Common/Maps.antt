-- ===== src/Common/Maps.antt =====
-- The maps of Rust's standard library as lists of entries, in the order in which they are iterated:
-- a `HashMap` in some order, a `BTreeMap` where its entries stand by key.
use mathlib.Core.Bool.{Bool, true, false}
use mathlib.Core.List.{List, [], ◌∷◌, Memᴰ}
use mathlib.Core.Logic.{inl, inr}
use mathlib.Core.Option.{Option, none, some}
use mathlib.Core.Path.{◌≡◌, refl}
use native.Mathlib.Omega.{arith}
use whdr.Common.Lists.{keep, any}
use whdr.Common.Tests.{PartialEq, ◌==◌, ==_iff, if◌then◌else◌, is_some, Bool-cases}

module _ {ℓ κ} {K : Type ℓ} {V : Type κ} ⦃e : PartialEq K⦄ where
  abbrev pub get : List (K × V) → K → Option V
  get [] k = none
  get ((j, w) ∷ m) k = if j == k then some w else get m k

  abbrev pub contains_key : List (K × V) → K → Bool
  contains_key m k = is_some (get m k)

  abbrev pub insert : List (K × V) → K → V → List (K × V)
  insert [] k v = (k, v) ∷ []
  insert ((j, w) ∷ m) k v = if j == k then (j, v) ∷ m else (j, w) ∷ insert m k v

  abbrev pub remove : List (K × V) → K → List (K × V)
  remove [] k = []
  remove ((j, w) ∷ m) k = if j == k then m else (j, w) ∷ remove m k

  -- `get_mut` and a change of the value it finds
  abbrev pub update : (V → V) → List (K × V) → K → List (K × V)
  update f [] k = []
  update f ((j, w) ∷ m) k = if j == k then (j, f w) ∷ m else (j, w) ∷ update f m k

  -- No key stands twice.
  abbrev pub UniqueKeys : List (K × V) → Type κ
  UniqueKeys [] = Unit
  UniqueKeys ((j, w) ∷ m) = (get m j ≡ none) × UniqueKeys m

  pub get-insert :
      (m : List (K × V)) (k j : K) (v : V)
      → get (insert m k v) j ≡ (if k == j then some v else get m j)
  get-insert [] k j v = refl
  get-insert ((i, w) ∷ m) k j v =
      ground (arith, get-insert m k j v, ==_iff i k, ==_iff k j, ==_iff i j)

  pub insert-UniqueKeys :
      (m : List (K × V)) (k : K) (v : V) → UniqueKeys m → UniqueKeys (insert m k v)
  insert-UniqueKeys [] k v u = (refl, tt)
  insert-UniqueKeys ((i, w) ∷ m) k v u =
      ground (arith, get-insert m k i v, insert-UniqueKeys m k v u.1, ==_iff i k, ==_iff k i)

  get-update-none :
      (f : V → V) (m : List (K × V)) (k j : K) → get m j ≡ none → get (update f m k) j ≡ none
  get-update-none f [] k j h = refl
  get-update-none f ((i, w) ∷ m) k j h = ground (arith, get-update-none f m k j)

  pub update-UniqueKeys :
      (f : V → V) (m : List (K × V)) (k : K) → UniqueKeys m → UniqueKeys (update f m k)
  update-UniqueKeys f [] k u = tt
  update-UniqueKeys f ((i, w) ∷ m) k u =
      ground (arith, get-update-none f m k i u.0, update-UniqueKeys f m k u.1)

  pub get-keep :
      (p : K × V → Bool) (m : List (K × V)) (k : K) (v : V)
      → UniqueKeys m
      → get (keep p m) k ≡ some v
      → get m k ≡ some v
  get-keep p [] k v u h = h
  get-keep p ((j, w) ∷ m) k v u h = ground (arith, get-keep p m k v u.1, ==_iff j k, u.0)

  get-keep-none :
      (p : K × V → Bool) (m : List (K × V)) (k : K) → get m k ≡ none → get (keep p m) k ≡ none
  get-keep-none p [] k h = refl
  get-keep-none p ((j, w) ∷ m) k h = ground (arith, get-keep-none p m k)

  pub keep-UniqueKeys : (p : K × V → Bool) (m : List (K × V)) → UniqueKeys m → UniqueKeys (keep p m)
  keep-UniqueKeys p [] u = tt
  keep-UniqueKeys p ((j, w) ∷ m) u =
      ground (arith, get-keep-none p m j u.0, keep-UniqueKeys p m u.1)

  pub mem_of_get : (m : List (K × V)) (k : K) (v : V) → get m k ≡ some v → Memᴰ (k, v) m
  mem_of_get [] k v h = cc
  mem_of_get ((j, w) ∷ m) k v h = elim (Bool-cases (j == k)) [
    | inl same ↦ Memᴰ.head (ground (arith, ==_iff j k, same, h))
    | inr other ↦ Memᴰ.tail (mem_of_get m k v (rw other at h))
  ]

  pub get-remove : (m : List (K × V)) (k : K) → UniqueKeys m → get (remove m k) k ≡ none
  get-remove [] k u = refl
  get-remove ((j, w) ∷ m) k u = ground (arith, get-remove m k u.1, ==_iff j k, u.0)

  get-remove-none : (m : List (K × V)) (k j : K) → get m j ≡ none → get (remove m k) j ≡ none
  get-remove-none [] k j h = refl
  get-remove-none ((i, w) ∷ m) k j h = ground (arith, get-remove-none m k j)

  pub remove-UniqueKeys : (m : List (K × V)) (k : K) → UniqueKeys m → UniqueKeys (remove m k)
  remove-UniqueKeys [] k u = tt
  remove-UniqueKeys ((i, w) ∷ m) k u =
      ground (arith, get-remove-none m k i u.0, remove-UniqueKeys m k u.1)

  pub get-remove_if :
      (m : List (K × V)) (k j : K)
      → UniqueKeys m
      → get (remove m k) j ≡ (if k == j then none else get m j)
  get-remove_if [] k j u = ground arith
  get-remove_if ((i, w) ∷ m) k j u =
      ground (arith, get-remove_if m k j u.1, u.0, ==_iff i k, ==_iff k j, ==_iff i j)

  -- An entry that passes the test of `retain` stays.
  pub get-keep_kept :
      (p : K × V → Bool) (m : List (K × V)) (k : K) (v : V)
      → get m k ≡ some v
      → p (k, v) ≡ true
      → get (keep p m) k ≡ some v
  get-keep_kept p [] k v h t = cc
  get-keep_kept p ((j, w) ∷ m) k v h t = ground (arith, get-keep_kept p m k v, ==_iff j k, h, t)

  -- What `retain` leaves passes its test.
  pub get-keep_test :
      (p : K × V → Bool) (m : List (K × V)) (k : K) (v : V)
      → get (keep p m) k ≡ some v
      → p (k, v) ≡ true
  get-keep_test p [] k v h = cc
  get-keep_test p ((j, w) ∷ m) k v h = ground (arith, get-keep_test p m k v, ==_iff j k, h)

  -- A test that no entry passes fails on the entry of a key.
  pub any-get :
      (p : K × V → Bool) (m : List (K × V)) (k : K) (v : V)
      → any p m ≡ false
      → get m k ≡ some v
      → p (k, v) ≡ false
  any-get p [] k v n h = cc
  any-get p ((j, w) ∷ m) k v n h = ground (arith, any-get p m k v, ==_iff j k, h, n)
