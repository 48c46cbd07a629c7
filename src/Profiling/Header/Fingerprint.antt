-- ===== src/Profiling/Header/Fingerprint.antt =====
-- What the fingerprint of a header tells of its names.
use mathlib.Core.Option.{some-injective}
use predictive_analysis.Common.{
  if◌then◌else◌, ◌↔◌, false, ◌≡◌, ◌∙◌, ap, ap₂, sym, refl, Option, none, some, List, [], ◌∷◌, ◌++◌,
  arith, eqb, All, contains, nat_eq,
}
use predictive_analysis.Common.Codes.{Text}
use predictive_analysis.Profiling.Header.{
  RawHeaderParseResult, join, separator, clean_names, parse_header_text, compute_fingerprint,
}

-- The text up to the first separator, and the text behind it, if there is one.
abbrev head_of : Text → Text
head_of [] = []
head_of (c ∷ s) = let rest = head_of s in if eqb c separator then [] else c ∷ rest

abbrev behind : Text → Option Text
behind [] = none
behind (c ∷ s) = let rest = behind s in if eqb c separator then some s else rest

-- The name does not contain the separator.
abbrev pub IsPlain : Text → Type 0
IsPlain s = contains s separator ≡ false

head_of-plain : (s : Text) → IsPlain s → (head_of s ≡ s) × (behind s ≡ none)
head_of-plain [] h = (refl, refl)
head_of-plain (c ∷ s) h = ground (arith, head_of-plain s)

head_of-joined :
    (s t : Text)
    → IsPlain s
    → (head_of (s ++ separator ∷ t) ≡ s) × (behind (s ++ separator ∷ t) ≡ some t)
head_of-joined [] t h = (refl, refl)
head_of-joined (c ∷ s) t h = ground (arith, head_of-joined s t)

-- Names without a separator can be read back from their join.
join_injective :
    (n m : Text) (names others : List Text)
    → All IsPlain (n ∷ names)
    → All IsPlain (m ∷ others)
    → join (n ∷ names) ≡ join (m ∷ others)
    → n ∷ names ≡ m ∷ others
join_injective n m [] [] h k e = ap (λ s. s ∷ []) e
join_injective n m [] (o ∷ others) h k e =
    cc ((head_of-plain n h.0).1, (head_of-joined m (join (o ∷ others)) k.0).1)
join_injective n m (p ∷ names) [] h k e =
    cc ((head_of-plain m k.0).1, (head_of-joined n (join (p ∷ names)) h.0).1)
join_injective n m (p ∷ names) (o ∷ others) h k e =
    let left = head_of-joined n (join (p ∷ names)) h.0 in
    let right = head_of-joined m (join (o ∷ others)) k.0 in
    let heads : n ≡ m = sym left.0 ∙ ap head_of e ∙ right.0 in
    let tails : join (p ∷ names) ≡ join (o ∷ others) =
      some-injective _ _ (sym left.1 ∙ ap behind e ∙ right.1) in
    ap₂ (λ x xs. x ∷ xs) heads (join_injective p o names others h.1 k.1 tails)

-- If the hash is injective and no name contains the separator, two headers that parse have the same
-- fingerprint if and only if their names are the same, in the same order and as often.
pub parse_header_text-fingerprint :
    (sha256 : Text → Text)
    → ((s t : Text) → sha256 s ≡ sha256 t → s ≡ t)
    → (row other : List Text) (result later : RawHeaderParseResult)
    → parse_header_text sha256 row ≡ some result
    → parse_header_text sha256 other ≡ some later
    → All IsPlain (clean_names row)
    → All IsPlain (clean_names other)
    → (result.header_fingerprint ≡ later.header_fingerprint) ↔ (clean_names row ≡ clean_names other)
unfolding parse_header_text compute_fingerprint clean_names
parse_header_text-fingerprint sha256 injective [] other result later e f h k = cc
parse_header_text-fingerprint sha256 injective (n ∷ row) [] result later e f h k = cc
parse_header_text-fingerprint sha256 injective (n ∷ row) (m ∷ other) result later e f h k =
    rw (← some-injective _ _ e, ← some-injective _ _ f)
      (
        λ same. join_injective _ _ _ _ h k (injective _ _ same),
        λ same. ap (λ names. sha256 (join names)) same,
      )
