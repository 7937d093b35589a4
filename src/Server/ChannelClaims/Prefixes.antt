-- ===== src/Server/ChannelClaims/Prefixes.antt =====
-- Channel prefixes as lists of tokens: two prefixes that share a channel overlap.
use whdr.Common.{
  ◌≡◌, refl, sym, ap, ◌∙◌, [], ◌∷◌, ◌++◌, none, some, true, false, Text, arith, nat_beq_iff, split,
  strip_prefix, starts_with, first_of, ◌==◌, nat_eq, text_eq, text_beq_iff, ◌⊎◌, inl, inr, ◌↔◌,
  Bool-cases, text_beq, split-ne-nil,
}
use whdr.Server.ChannelClaims.{
  first_channel_segment, channel_is_in_prefix, channel_prefixes_overlap,
}

-- The prefix itself, or the prefix and a dot and more.
abbrev pub InPrefix : Text → Text → Type 0
InPrefix channel prefix =
    (channel ≡ prefix) ⊎ ((suffix : Text) × (channel ≡ prefix ++ b'.' ∷ suffix))

stripped :
    (prefix channel : Text)
    → (elim (strip_prefix prefix channel) [ none ↦ false | some suffix ↦ starts_with b'.' suffix ])
      ≡ true
    → (suffix : Text) × (channel ≡ prefix ++ b'.' ∷ suffix)
unfolding strip_prefix
stripped [] [] h = cc
stripped [] (c ∷ s) h = (s, ground arith)
stripped (p ∷ ps) [] h = cc
stripped (p ∷ ps) (c ∷ s) h = elim (Bool-cases (p == c)) [
  | inl same ↦
      let (suffix, e) = stripped ps s (rw same at h) in
      (suffix, ground (arith, e, nat_beq_iff p c, same))
  | inr other ↦ cc (rw other at h)
]

strip_prefix-append : (prefix rest : Text) → strip_prefix prefix (prefix ++ rest) ≡ some rest
unfolding strip_prefix
strip_prefix-append [] rest = refl
strip_prefix-append (p ∷ ps) rest = ground (arith, strip_prefix-append ps rest)

pub channel_is_in_prefix_iff :
    (channel prefix : Text) → (channel_is_in_prefix channel prefix ≡ true) ↔ InPrefix channel prefix
unfolding channel_is_in_prefix
channel_is_in_prefix_iff channel prefix = (
  λ h. elim (Bool-cases (text_beq channel prefix)) [
    | inl same ↦ inl ((text_beq_iff channel prefix).0 same)
    | inr other ↦ inr (stripped prefix channel (rw other at h))
  ],
  elim [
    | inl e ↦ ground (arith, e, text_beq_iff channel prefix)
    | inr (suffix, e) ↦ rw (e, strip_prefix-append prefix (b'.' ∷ suffix)) (ground arith)
  ],
)

-- Two texts that begin the same one, each up to a dot, are the same or one begins the other.
comparable : (p q s t : Text) → p ++ b'.' ∷ s ≡ q ++ b'.' ∷ t → InPrefix p q ⊎ InPrefix q p
comparable [] [] s t e = inl (inl refl)
comparable [] (y ∷ q) s t e = inr (inr (q, ground (arith, e)))
comparable (x ∷ p) [] s t e = inl (inr (p, ground (arith, e)))
comparable (x ∷ p) (y ∷ q) s t e = ground (arith, comparable p q s t)

-- Two prefixes of one channel overlap.
pub overlap_of_shared :
    (channel p q : Text)
    → InPrefix channel p
    → InPrefix channel q
    → channel_prefixes_overlap p q ≡ true
unfolding channel_prefixes_overlap
overlap_of_shared channel p q h k = elim (shared h k) [
  | inl a ↦ rw ((channel_is_in_prefix_iff p q).1 a)
  | inr b ↦ ground (arith, (channel_is_in_prefix_iff q p).1 b)
]
  where
    shared : InPrefix channel p → InPrefix channel q → InPrefix p q ⊎ InPrefix q p
    shared (inl a) (inl b) = inl (inl (sym a ∙ b))
    shared (inl a) (inr (t, b)) = inl (inr (t, sym a ∙ b))
    shared (inr (s, a)) (inl b) = inr (inr (s, sym b ∙ a))
    shared (inr (s, a)) (inr (t, b)) = comparable p q s t (sym a ∙ b)

first_of-split : (p s : Text) → first_of (split b'.' (p ++ b'.' ∷ s)) ≡ first_of (split b'.' p)
unfolding split
first_of-split [] s = refl
first_of-split (c ∷ p) s =
    let (t, ts, e) = split-ne-nil b'.' (p ++ b'.' ∷ s) in
    let (u, us, f) = split-ne-nil b'.' p in
    let same : t ≡ u = ap first_of (sym e) ∙ first_of-split p s ∙ ap first_of f in
    rw (e, f) (ground (arith, same))

-- A channel in a prefix has the prefix's first segment.
pub first_channel_segment_of_in :
    (channel prefix : Text)
    → InPrefix channel prefix
    → first_channel_segment channel ≡ first_channel_segment prefix
unfolding first_channel_segment
first_channel_segment_of_in channel prefix (inl e) = ap (λ c. first_of (split b'.' c)) e
first_channel_segment_of_in channel prefix (inr (s, e)) =
    ap (λ c. first_of (split b'.' c)) e ∙ first_of-split prefix s
