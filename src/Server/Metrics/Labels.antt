-- ===== src/Server/Metrics/Labels.antt =====
-- crates/whdr-server/src/metrics.rs: escape_label and gauge against a reader of label values.
use whdr.Common.{
  ℕ, ◌≡◌, refl, sym, ap, [], ◌∷◌, ◌++◌, Option, none, some, true, Text, ◌==◌, nat_eq, nat_beq_iff,
  Bool-cases, inl, inr, if◌then◌else◌,
}
use mathlib.Core.Option
use mathlib.Core.List.{append_assoc}
use whdr.Server.Metrics.{number, replace, escape_label, gauge, labels_text}

-- The byte that an escape stands for.
abbrev unescape : ℕ → ℕ
unescape d = if d == b'n' then b'\n' else d

abbrev after_byte : ℕ → Text × Text → Text × Text
after_byte c (value, rest) = (c ∷ value, rest)

-- A label's value up to its closing quote, and the text behind it, as the exposition format has it: a
-- backslash escapes the next byte, and a value has no line end.
unfoldable pub read_label : Text → Option (Text × Text)
read_label [] = none
read_label (c ∷ []) = if c == b'"' then some ([], []) else none
read_label (c ∷ d ∷ s) =
    let next = Option.map (after_byte c) (read_label (d ∷ s)) in
    let escaped = Option.map (after_byte (unescape d)) (read_label s) in
    if c == b'"'
    then some ([], d ∷ s)
    else if c == b'\\'
    then escaped
    else if c == b'\n'
    then none
    else next

abbrev escape_byte : ℕ → Text
escape_byte c =
    if c == b'\\'
    then b'\\' ∷ b'\\' ∷ []
    else if c == b'"'
    then b'\\' ∷ b'"' ∷ []
    else if c == b'\n'
    then b'\\' ∷ b'n' ∷ []
    else c ∷ []

-- The three replacements escape each byte for itself.
escape_label-cons : (c : ℕ) (s : Text) → escape_label (c ∷ s) ≡ escape_byte c ++ escape_label s
unfolding escape_label replace
escape_label-cons c s = elim (Bool-cases (c == b'\\')) [
  | inl e ↦ rw e refl
  | inr e ↦ elim (Bool-cases (c == b'"')) [
    | inl f ↦ rw (e, f) refl
    | inr f ↦ elim (Bool-cases (c == b'\n')) [
      | inl g ↦ rw (e, f, g) refl
      | inr g ↦ rw (e, f, g) refl
    ]
  ]
]

same_byte :
    (c d : ℕ) (value rest : Text)
    → (c == d) ≡ true
    → ◌≡◌ {A = Option (Text × Text)} (some (d ∷ value, rest)) (some (c ∷ value, rest))
same_byte c d value rest e =
    ap {A = ℕ} {B = Option (Text × Text)} (λ x. some (x ∷ value, rest))
      (sym ((nat_beq_iff c d).0 e))

read_label-escape_byte :
    (c : ℕ) (s value rest : Text)
    → read_label s ≡ some (value, rest)
    → read_label (escape_byte c ++ s) ≡ some (c ∷ value, rest)
unfolding read_label
read_label-escape_byte c [] value rest h = cc
read_label-escape_byte c (d ∷ s) value rest h = elim (Bool-cases (c == b'\\')) [
  | inl e ↦ rw (e, h) (same_byte c _ value rest e)
  | inr e ↦ elim (Bool-cases (c == b'"')) [
    | inl f ↦ rw (e, f, h) (same_byte c _ value rest f)
    | inr f ↦ elim (Bool-cases (c == b'\n')) [
      | inl g ↦ rw (e, f, g, h) (same_byte c _ value rest g)
      | inr g ↦ rw (e, f, g, f, e, g, h) refl
    ]
  ]
]

read_label-escape_label :
    (value rest : Text) → read_label (escape_label value ++ b'"' ∷ rest) ≡ some (value, rest)
unfolding escape_label replace read_label
read_label-escape_label [] [] = refl
read_label-escape_label [] (c ∷ rest) = refl
read_label-escape_label (c ∷ value) rest =
    rw (escape_label-cons c value, append_assoc)
      (read_label-escape_byte c (escape_label value ++ b'"' ∷ rest) value rest
        (read_label-escape_label value rest))

-- The line that `gauge` adds for a number with one label: behind the opening quote a reader finds the
-- value that was given, whatever its bytes, and then the end of the labels and the number.
pub gauge-label :
    (digits : ℕ → Text) (out name key value : Text) (n : ℕ)
    → (quoted : Text) × (gauge digits out name ((key, value) ∷ []) (number n)
        ≡ out ++ (name ++ (b'{' ∷ (key ++ (b'=' ∷ b'"' ∷ quoted)))))
      × (read_label quoted ≡ some (value, b'}' ∷ b' ' ∷ (digits n ++ (b'\n' ∷ []))))
unfolding gauge labels_text
gauge-label digits out name key value n =
    let tail = b'}' ∷ b' ' ∷ (digits n ++ (b'\n' ∷ [])) in
    (escape_label value ++ (b'"' ∷ tail), simp append_assoc, read_label-escape_label value tail)
