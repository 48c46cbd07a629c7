-- ===== src/Validation/Resolution.antt =====
-- DictionaryRegistry.resolve of pipelines/validation/dictionary.py: the definition of a source
-- position. The levels are an entry for the name and its occurrence, an entry for the name, the
-- pattern rules in order, and the classifier.
pub mod Levels
use predictive_analysis.Common.{
  ℕ, ◌+◌, Bool, true, false, Option, none, some, List, [], ◌∷◌, ◌++◌, map, ltb, if◌then◌else◌,
}
use predictive_analysis.Common.Dict.{Dict, get}
use predictive_analysis.Common.Text.{codes}
use predictive_analysis.Common.Codes.{Text, text_eq, number}
use predictive_analysis.Profiling.Header.{RawHeaderField}
use predictive_analysis.Validation.Fields.{ReviewStatus}
use predictive_analysis.Validation.Compatibility.{FieldIdentity, identity_eq}
use predictive_analysis.Validation.Dictionary.{
  FieldSpec, ResolvedField, PatternRule, DictionaryRegistry, norm_key,
}
use predictive_analysis.Validation.Classifier.{classify_field}

-- `named.notes + ' ' if named.notes else ''`
abbrev before_notes : Option Text → Text
before_notes none = []
before_notes (some []) = []
before_notes (some (c ∷ s)) = (c ∷ s) ++ codes " "

-- The definition that a later occurrence of a repeated name inherits.
abbrev pub inherited : FieldSpec → ℕ → FieldSpec
inherited named occurrence =
    if ltb 1 occurrence
    then record named {
      canonical_name = named.canonical_name ++ codes "_occurrence_" ++ number occurrence;
      source_occurrence = some occurrence;
      review_status = ReviewStatus.domain_review_required;
      notes = some (
          before_notes named.notes
          ++ codes "Occurrence "
          ++ number occurrence
          ++ codes
              " of a repeated raw header inherits the occurrence-1 definition and requires domain confirmation.");
    }
    else named

-- The entry for a name, or the one whose name is the same but for spaces and case.
abbrev pub named_or_normalized : Option FieldSpec → DictionaryRegistry → Text → Option FieldSpec
named_or_normalized (some spec) r source_name = some spec
named_or_normalized none r source_name = get (norm_key source_name) r.by_name_normalized

abbrev pub named_in : DictionaryRegistry → Text → Option FieldSpec
named_in r source_name = named_or_normalized (get source_name r.by_name) r source_name

abbrev filled : FieldSpec → Text → ℕ → Text → FieldSpec
filled template source_name occurrence canonical = record template {
  source_name = source_name;
  source_occurrence = some occurrence;
  canonical_name = canonical;
  display_name = some source_name;
}

abbrev mapped : FieldSpec → ℕ → ResolvedField
mapped spec position = record {
  spec = spec;
  source_position = position;
  is_dictionary_mapped = true;
}

-- `rule.pattern.match(source_name)`
module _ (matches : Text → Text → Bool) where
  -- The first rule whose pattern matches the name.
  abbrev pub first_rule : List PatternRule → Text → Option PatternRule
  first_rule [] source_name = none
  first_rule (rule ∷ rules) source_name =
      let rest = first_rule rules source_name in
      if matches rule.pattern source_name then some rule else rest

  abbrev by_pattern : DictionaryRegistry → Option PatternRule → Text → ℕ → ℕ → Text → ResolvedField
  by_pattern r (some rule) source_name occurrence position canonical =
      mapped (filled rule.template source_name occurrence canonical) position
  by_pattern r none source_name occurrence position canonical = record {
    spec = classify_field source_name occurrence canonical (some r.units);
    source_position = position;
    is_dictionary_mapped = false;
  }

  abbrev by_entry_name : DictionaryRegistry → Option FieldSpec → Text → ℕ → ℕ → Text → ResolvedField
  by_entry_name r (some named) source_name occurrence position canonical =
      mapped (inherited named occurrence) position
  by_entry_name r none source_name occurrence position canonical =
      by_pattern r (first_rule r.patterns source_name) source_name occurrence position canonical

  abbrev by_explicit : DictionaryRegistry → Option FieldSpec → Text → ℕ → ℕ → Text → ResolvedField
  by_explicit r (some explicit) source_name occurrence position canonical = mapped explicit position
  by_explicit r none source_name occurrence position canonical =
      by_entry_name r (named_in r source_name) source_name occurrence position canonical

  -- `resolve`
  unfoldable pub resolve_field : DictionaryRegistry → Text → ℕ → ℕ → Text → ResolvedField
  resolve_field r source_name occurrence position canonical =
      by_explicit r (get (source_name, occurrence) r.by_identity) source_name occurrence position
        canonical

  -- `resolve_all`, of the fields of a header.
  unfoldable pub resolve_all : DictionaryRegistry → List RawHeaderField → List ResolvedField
  unfolding resolve_field
  resolve_all r [] = []
  resolve_all r (f ∷ fields) =
      resolve_field r f.source_name f.source_occurrence f.position f.canonical_name
      ∷ resolve_all r fields
