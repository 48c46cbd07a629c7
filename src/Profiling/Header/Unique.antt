-- ===== src/Profiling/Header/Unique.antt =====
-- The canonical names of a header are all different.
use mathlib.Core.Option.{some-injective}
use predictive_analysis.Common.{ℕ, ◌+◌, ◌≡◌, some, List, [], ◌∷◌, map}
use predictive_analysis.Common.Dict.{Dict, get_or, put}
use predictive_analysis.Common.Sums.{NoRepeats}
use predictive_analysis.Common.Codes.{Text, text_eq, AllFresh, AllFresh-cons}
use predictive_analysis.Profiling.Header.{
  RawHeaderField, RawHeaderParseResult, clean_names, count_names, field_of, fields_from,
  parse_header_text,
}
use predictive_analysis.Profiling.Header.Suffix.{disambiguate-fresh}

abbrev pub canonical_names : List RawHeaderField → List Text
canonical_names fields = map (λ (f : RawHeaderField). f.canonical_name) fields

canonical_names-fresh :
    (totals seen : Dict Text ℕ) (used : List Text) (position : ℕ) (names : List Text)
    → AllFresh used (canonical_names (fields_from totals seen used position names))
      × NoRepeats (canonical_names (fields_from totals seen used position names))
unfolding fields_from
canonical_names-fresh totals seen used position [] = (tt, tt)
canonical_names-fresh totals seen used position (name ∷ names) =
    let field = field_of totals seen used position name in
    let later =
      canonical_names-fresh totals (put name (get_or name 0 seen + 1) seen)
        (field.canonical_name ∷ used) (position + 1) names in
    let split =
      AllFresh-cons field.canonical_name used
        (canonical_names (
          fields_from totals (put name (get_or name 0 seen + 1) seen) (field.canonical_name ∷ used)
            (position + 1) names))
        later.0 in
    ((disambiguate-fresh used _, split.1), (split.0, later.1))

-- However its names repeat or collapse onto each other, a header that parses gives every column a
-- canonical name of its own.
pub parse_header_text-NoRepeats :
    (sha256 : Text → Text) (row : List Text) (result : RawHeaderParseResult)
    → parse_header_text sha256 row ≡ some result
    → NoRepeats (canonical_names result.fields)
unfolding parse_header_text
parse_header_text-NoRepeats sha256 [] result h = cc
parse_header_text-NoRepeats sha256 (name ∷ names) result h =
    let cleaned = clean_names (name ∷ names) in
    rw (← some-injective _ _ h) (canonical_names-fresh (count_names cleaned []) [] [] 0 cleaned).1
