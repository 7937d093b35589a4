-- ===== src/Proto/Ndjson.antt =====
-- crates/whdr-proto/src/ndjson.rs, with the reading of lines as the readers of the standard library
-- and of tokio have it. What serde_json prints and reads is an argument.
pub mod Stream
use whdr.Common.{
  ℕ, List, [], ◌∷◌, ◌++◌, Option, none, some, Text, Result, ok, err, ◌>>=◌, ◌==◌, nat_eq,
  if◌then◌else◌, is_empty, split, trim, ◌≡◌, Bool, true, false, all, leb,
}

pub data NdjsonError : Type 0 where
  malformed_json : NdjsonError

pub record Json (A : Type 0) : Type 0 where
  pub to_string : A → Result Text NdjsonError
  pub from_str : Text → Result A NdjsonError

-- What serde_json promises of the compact form of a struct: it reads back, has no control bytes, is
-- not blank and does not begin or end in a space.
pub record IsCompact {A : Type 0} (json : Json A) : Type 0 where
  pub reads_back : (a : A) (s : Text) → json.to_string a ≡ ok s → json.from_str s ≡ ok a
  pub printable : (a : A) (s : Text) → json.to_string a ≡ ok s → all (leb 32) s ≡ true
  pub trimmed : (a : A) (s : Text) → json.to_string a ≡ ok s → trim s ≡ s
  pub not_empty : (a : A) (s : Text) → json.to_string a ≡ ok s → is_empty s ≡ false

module _ {A : Type 0} (json : Json A) where
  unfoldable pub encode_line : A → Result Text NdjsonError
  encode_line value = do line ← json.to_string value; ok (line ++ b'\n' ∷ [])

  unfoldable pub decode_line : Text → Result (Option A) NdjsonError
  decode_line line =
      if is_empty (trim line)
      then ok none
      else (json.from_str (trim line) >>= λ value. ok (some value))

  -- What a writer of several values writes.
  unfoldable pub encode_all : List A → Result Text NdjsonError
  encode_all [] = ok []
  encode_all (value ∷ values) = do
    line ← encode_line value
    rest ← encode_all values
    ok (line ++ rest)

-- A line loses a carriage return before its end.
unfoldable pub strip_return : Text → Text
strip_return [] = []
strip_return (c ∷ []) = if c == b'\r' then [] else c ∷ []
strip_return (c ∷ d ∷ s) = c ∷ strip_return (d ∷ s)

abbrev pub to_lines : List Text → List Text
to_lines [] = []
to_lines (last ∷ []) = if is_empty last then [] else last ∷ []
to_lines (line ∷ next ∷ pieces) = strip_return line ∷ to_lines (next ∷ pieces)

-- The lines of an input, as `lines` gives them.
unfoldable pub lines : Text → List Text
lines input = to_lines (split b'\n' input)
