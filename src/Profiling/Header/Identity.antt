-- ===== src/Profiling/Header/Identity.antt =====
-- The pair of a raw name and its occurrence identifies a column.
use mathlib.Core.Option.{some-injective}
use predictive_analysis.Common.{
  ℕ, ◌+◌, ◌<◌, true, false, ◌≡◌, ◌∙◌, ap, refl, some, List, [], ◌∷◌, map, arith, ◌==◌, ◌&&◌, eqb,
  All, Bool-cases, inl, inr,
}
use predictive_analysis.Common.Dict.{Dict, get_or, put, get_or-put}
use predictive_analysis.Common.Codes.{Text, text_eq, same_codes_iff}
use predictive_analysis.Profiling.Header.{
  RawHeaderField, RawHeaderParseResult, clean_names, count_names, field_of, fields_from,
  parse_header_text, by_identity,
}

abbrev pub source_names : List RawHeaderField → List Text
source_names fields = map (λ (f : RawHeaderField). f.source_name) fields

source_names-fields_from :
    (totals seen : Dict Text ℕ) (used : List Text) (position : ℕ) (names : List Text)
    → source_names (fields_from totals seen used position names) ≡ names
unfolding fields_from
source_names-fields_from totals seen used position [] = refl
source_names-fields_from totals seen used position (name ∷ names) =
    ap (λ ns. name ∷ ns)
      (source_names-fields_from totals (put name (get_or name 0 seen + 1) seen)
        ((field_of totals seen used position name).canonical_name ∷ used) (position + 1) names)

-- The field is later than the occurrences that were counted.
abbrev IsLater : Dict Text ℕ → RawHeaderField → Type 0
IsLater seen f = get_or f.source_name 0 seen < f.source_occurrence

IsLater-put :
    (name : Text) (seen : Dict Text ℕ) (fields : List RawHeaderField)
    → All (IsLater (put name (get_or name 0 seen + 1) seen)) fields
    → All (IsLater seen) fields
      × All
          (λ f. (name == f.source_name && eqb (get_or name 0 seen + 1) f.source_occurrence) ≡ false)
          fields
IsLater-put name seen [] h = (tt, tt)
IsLater-put name seen (f ∷ fields) h =
    let later = IsLater-put name seen fields h.1 in
    let counted = get_or-put name f.source_name (get_or name 0 seen + 1) 0 seen in
    elim (Bool-cases (name == f.source_name)) [
      | inl p ↦
          let same : name ≡ f.source_name = (same_codes_iff name f.source_name).0 p in
          let known : get_or name 0 seen ≡ get_or f.source_name 0 seen =
            ap (λ n. get_or n 0 seen) same in
          let now : get_or f.source_name 0 (put name (get_or name 0 seen + 1) seen)
              ≡ get_or name 0 seen + 1 =
            counted ∙ rw p refl in
          ((omega (arith, h.0, now, known), later.0), (rw p (ground (arith, h.0, now)), later.1))
      | inr p ↦
          let now : get_or f.source_name 0 (put name (get_or name 0 seen + 1) seen)
              ≡ get_or f.source_name 0 seen =
            counted ∙ rw p refl in
          ((omega (arith, h.0, now), later.0), (rw p refl, later.1))
    ]

abbrev pub IsFound : List RawHeaderField → RawHeaderField → Type 0
IsFound fields f = by_identity fields f.source_name f.source_occurrence ≡ some f

-- A field that the head does not hide is found behind it.
IsFound-cons :
    (head : RawHeaderField) (found fields : List RawHeaderField)
    → All
        (λ f.
          (head.source_name == f.source_name && eqb head.source_occurrence f.source_occurrence)
          ≡ false)
        fields
    → All (IsFound found) fields
    → All (IsFound (head ∷ found)) fields
unfolding by_identity
IsFound-cons head found [] h k = tt
IsFound-cons head found (f ∷ fields) h k = (rw h.0 k.0, IsFound-cons head found fields h.1 k.1)

self_found : (name : Text) (n : ℕ) → (name == name && eqb n n) ≡ true
self_found name n = ground (arith, same_codes_iff name name)

fields_from-IsFound :
    (totals seen : Dict Text ℕ) (used : List Text) (position : ℕ) (names : List Text)
    → All (IsLater seen) (fields_from totals seen used position names)
      × All
          (IsFound (fields_from totals seen used position names))
          (fields_from totals seen used position names)
unfolding fields_from by_identity
fields_from-IsFound totals seen used position [] = (tt, tt)
fields_from-IsFound totals seen used position (name ∷ names) =
    let field = field_of totals seen used position name in
    let counted = put name (get_or name 0 seen + 1) seen in
    let rest = fields_from totals counted (field.canonical_name ∷ used) (position + 1) names in
    let later =
      fields_from-IsFound totals counted (field.canonical_name ∷ used) (position + 1) names in
    let split = IsLater-put name seen rest later.0 in
    (
      (omega arith, split.0),
      (
        rw (self_found name (get_or name 0 seen + 1)) refl,
        IsFound-cons field rest rest split.1 later.1,
      ),
    )

-- Every column of the row is a field, in its order, and the raw name of a field with its occurrence
-- finds that field.
pub parse_header_text-IsFound :
    (sha256 : Text → Text) (row : List Text) (result : RawHeaderParseResult)
    → parse_header_text sha256 row ≡ some result
    → (source_names result.fields ≡ clean_names row) × All (IsFound result.fields) result.fields
unfolding parse_header_text
parse_header_text-IsFound sha256 [] result h = cc
parse_header_text-IsFound sha256 (name ∷ names) result h =
    let cleaned = clean_names (name ∷ names) in
    let totals = count_names cleaned [] in
    rw (← some-injective _ _ h) (
      source_names-fields_from totals [] [] 0 cleaned,
      (fields_from-IsFound totals [] [] 0 cleaned).1,
    )
