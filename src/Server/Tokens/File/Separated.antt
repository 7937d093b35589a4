-- ===== src/Server/Tokens/File/Separated.antt =====
-- A printed form of the tokens that reads back: the stand-in for toml.
use whdr.Common.{
  ℕ, ◌+◌, ◌-◌, arith, ◌≡◌, refl, ap, List, [], ◌∷◌, ◌++◌, map, Option, some, true, false, not, Text,
  ◌==◌, nat_eq, all, is_empty, split, split-append, split_absent, trim, trim_start_matches,
  trim_end_matches, is_whitespace,
}
use mathlib.Core.Option
use whdr.Server.Tokens.{TokenStore}
use whdr.Server.Tokens.File.{Toml}

-- Texts with their bytes moved above the separator, each before one.
abbrev pub separator : ℕ
separator = 33

abbrev pub shift : Text → Text
shift t = map (λ c. c + 34) t

abbrev pub unshift : Text → Text
unshift t = map (λ c. c - 34) t

abbrev pub print : TokenStore → Text
print [] = []
print ((name, r) ∷ s) =
    shift name ++ separator ∷ (shift r.hash ++ separator ∷ (shift r.created ++ separator ∷ print s))

abbrev pub entries : List Text → Option TokenStore
entries (name ∷ hash ∷ created ∷ pieces) =
    Option.map (λ s. (unshift name, record { hash = unshift hash; created = unshift created }) ∷ s)
      (entries pieces)
entries _ = some []

unshift-shift : (t : Text) → unshift (shift t) ≡ t
unshift-shift [] = refl
unshift-shift (c ∷ t) = rw (unshift-shift t) (ap (λ n. n ∷ t) (omega arith))

shift-absent : (t : Text) → all (λ c. not (c == separator)) (shift t) ≡ true
shift-absent [] = refl
shift-absent (c ∷ t) = ground (arith, shift-absent t)

split-shift :
    (t rest : Text) → split separator (shift t ++ separator ∷ rest) ≡ shift t ∷ split separator rest
split-shift t rest =
    rw (split-append separator (shift t) rest, split_absent separator (shift t) (shift-absent t))
      refl

pub entries-print : (s : TokenStore) → entries (split separator (print s)) ≡ some s
unfolding split
entries-print [] = refl
entries-print ((name, r) ∷ s) =
    rw
      (
        split-shift name (shift r.hash ++ separator ∷ (shift r.created ++ separator ∷ print s)),
        split-shift r.hash (shift r.created ++ separator ∷ print s),
        split-shift r.created (print s),
        entries-print s,
        unshift-shift name,
        unshift-shift r.hash,
        unshift-shift r.created,
      )
      refl

first_kept : (c : ℕ) (t : Text) → is_whitespace c ≡ false → is_empty (trim (c ∷ t)) ≡ false
unfolding trim_start_matches trim_end_matches
first_kept c t h = ground (arith, h)

pub print_blank : (s : TokenStore) → is_empty (trim (print s)) ≡ true → s ≡ []
print_blank [] h = refl
print_blank (([], r) ∷ s) h =
    let e =
      first_kept separator (shift r.hash ++ separator ∷ (shift r.created ++ separator ∷ print s))
        refl in
    cc
print_blank ((c ∷ name, r) ∷ s) h =
    let e =
      first_kept (c + 34)
        (shift name
          ++ separator ∷ (shift r.hash ++ separator ∷ (shift r.created ++ separator ∷ print s)))
        (ground arith) in
    cc

abbrev pub toml : Toml
toml = record {
  print = print;
  parse = λ text. entries (split separator text);
  parse-print = entries-print;
  print_blank = print_blank;
}
