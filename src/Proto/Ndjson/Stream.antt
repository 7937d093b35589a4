-- ===== src/Proto/Ndjson/Stream.antt =====
-- crates/whdr-proto/src/ndjson.rs: what is written line by line is read line by line.
use whdr.Common.{
  arith, ◌≡◌, refl, sym, ap, ◌∙◌, List, [], ◌∷◌, ◌++◌, map, some, true, not, Text, ok, ◌==◌, nat_eq,
  bind_ok, ok-injective, split, split-append, split_absent, split-ne-nil, all, leb,
}
use mathlib.Core.List.{append_assoc}
use whdr.Proto.Ndjson.{Json, IsCompact, encode_line, decode_line, encode_all, strip_return, lines}

printable-no_newline : (s : Text) → all (leb 32) s ≡ true → all (λ c. not (c == b'\n')) s ≡ true
printable-no_newline [] h = refl
printable-no_newline (c ∷ s) h = ground (arith, printable-no_newline s)

strip_return_printable : (s : Text) → all (leb 32) s ≡ true → strip_return s ≡ s
unfolding strip_return
strip_return_printable [] h = refl
strip_return_printable (c ∷ []) h = ground arith
strip_return_printable (c ∷ d ∷ s) h =
    ap (λ t. c ∷ t) (strip_return_printable (d ∷ s) (ground arith))

lines-cons : (s rest : Text) → all (leb 32) s ≡ true → lines (s ++ b'\n' ∷ rest) ≡ s ∷ lines rest
unfolding lines
lines-cons s rest h =
    let (t, ts, e) = split-ne-nil b'\n' rest in
    rw
      (
        split-append b'\n' s rest,
        split_absent b'\n' s (printable-no_newline s h),
        e,
        strip_return_printable s h,
      )
      refl

no_lines : {A : Type 0} (json : Json A) → map (decode_line json) (lines []) ≡ []
unfolding lines split
no_lines json = refl

module _ {A : Type 0} (json : Json A) (compact : IsCompact json) where
  decode_line_of_compact :
      (a : A) (s : Text) → json.to_string a ≡ ok s → decode_line json s ≡ ok (some a)
  unfolding decode_line
  decode_line_of_compact a s h =
      rw (decode_line, compact.trimmed a s h, compact.not_empty a s h, compact.reads_back a s h)
        refl

  -- Values written one after another are read back one by one, each from its line.
  pub decode_line-encode_all :
      (values : List A) (text : Text)
      → encode_all json values ≡ ok text
      → map (decode_line json) (lines text) ≡ map (λ a. ok (some a)) values
  unfolding encode_all encode_line
  decode_line-encode_all [] text h =
      ap (λ t. map (decode_line json) (lines t)) (sym (ok-injective h)) ∙ no_lines json
  decode_line-encode_all (a ∷ values) text h =
      let (line, e, h) = bind_ok (encode_line json a) _ h in
      let (rest, r, h) = bind_ok (encode_all json values) _ h in
      let (s, p, q) = bind_ok (json.to_string a) _ e in
      let written =
        sym (ok-injective h)
        ∙ ap (λ l. l ++ rest) (sym (ok-injective q))
        ∙ append_assoc s (b'\n' ∷ []) rest in
      rw (written, lines-cons s rest (compact.printable a s p), decode_line_of_compact a s p)
        (ap (λ t. ok (some a) ∷ t) (decode_line-encode_all values rest r))
