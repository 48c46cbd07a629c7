-- ===== src/Examples/Header.antt =====
-- Headers of charger files, as the tests of the header parser read them.
use predictive_analysis.Common.{List, [], ◌∷◌, ◌≡◌, refl, some, All, contains, false, ◌↔◌}
use predictive_analysis.Common.Sums.{NoRepeats}
use predictive_analysis.Common.Text.{codes}
use predictive_analysis.Common.Decimal.{decimal}
use predictive_analysis.Common.Codes.{Text, text_eq}
use predictive_analysis.Profiling.Header.{
  RawHeaderParseResult, canonicalise, clean_names, count_names, fields_from, parse_header_text,
  disambiguate, compute_fingerprint,
}
use predictive_analysis.Profiling.Header.Suffix.{disambiguate-fresh}
use predictive_analysis.Profiling.Header.Unique.{parse_header_text-NoRepeats, canonical_names}
use predictive_analysis.Profiling.Header.Identity.{parse_header_text-IsFound, source_names, IsFound}
use predictive_analysis.Profiling.Header.Fingerprint.{parse_header_text-fingerprint, IsPlain}

acronym : canonicalise (codes "SMR RectifierinternalTemp") 1 ≡ codes "smr_rectifierinternal_temp"
unfolding canonicalise
acronym = refl

-- A test hash that returns its text.
abbrev pub plain_hash : Text → Text
plain_hash s = s

abbrev pub stop_row : List Text
stop_row =
    codes " Cabinet Temp"
    ∷ (codes "Stop Reason" ∷ (codes "stop-reason" ∷ (codes "Stop Reason" ∷ [])))

unfoldable pub parsed_stops : RawHeaderParseResult
unfolding parse_header_text clean_names fields_from compute_fingerprint
parsed_stops = record {
  field_count = 4;
  fields = fields_from (count_names (clean_names stop_row) []) [] [] 0 (clean_names stop_row);
  header_fingerprint = compute_fingerprint plain_hash (clean_names stop_row);
  duplicate_names = (codes "Stop Reason", 2) ∷ [];
  empty_name_count = 0;
}

pub stops_parse : parse_header_text plain_hash stop_row ≡ some parsed_stops
unfolding parsed_stops parse_header_text clean_names fields_from compute_fingerprint
stops_parse = refl

stops_named :
    canonical_names parsed_stops.fields
    ≡ codes "cabinet_temp"
      ∷ (codes "stop_reason" ∷ (codes "stop_reason_2" ∷ (codes "stop_reason_occurrence_2" ∷ [])))
unfolding parsed_stops parse_header_text clean_names fields_from compute_fingerprint decimal
stops_named = refl

disambiguate-fresh_example :
    contains
      (codes "a" ∷ (codes "a_2" ∷ []))
      (disambiguate (codes "a" ∷ (codes "a_2" ∷ [])) (codes "a"))
    ≡ false
disambiguate-fresh_example = disambiguate-fresh (codes "a" ∷ (codes "a_2" ∷ [])) (codes "a")

parse_header_text-NoRepeats_example : NoRepeats (canonical_names parsed_stops.fields)
parse_header_text-NoRepeats_example =
    parse_header_text-NoRepeats plain_hash stop_row parsed_stops stops_parse

parse_header_text-IsFound_example :
    (source_names parsed_stops.fields ≡ clean_names stop_row)
    × All (IsFound parsed_stops.fields) parsed_stops.fields
parse_header_text-IsFound_example =
    parse_header_text-IsFound plain_hash stop_row parsed_stops stops_parse

IsPlain-stop_row : All IsPlain (clean_names stop_row)
unfolding clean_names
IsPlain-stop_row = (refl, (refl, (refl, (refl, tt))))

parse_header_text-fingerprint_example :
    (parsed_stops.header_fingerprint ≡ parsed_stops.header_fingerprint)
    ↔ (clean_names stop_row ≡ clean_names stop_row)
parse_header_text-fingerprint_example =
    parse_header_text-fingerprint plain_hash (λ s t e. e) stop_row stop_row parsed_stops
      parsed_stops stops_parse stops_parse IsPlain-stop_row IsPlain-stop_row
