-- ===== src/Validation/Dictionary.antt =====
-- pipelines/validation/dictionary.py: the registry of field definitions. Reading the YAML files is
-- left to that library, so a registry is loaded from the definitions and the pattern rules of its
-- files; matching a regular expression is a parameter. The attributes of a definition that the code
-- only carries along (description, sub-category, prediction domains, deprecation) are left out; `casefold` knows the ASCII letters.

pub mod Entries
use predictive_analysis.Common.{
  ℕ, ◌+◌, Bool, true, false, not, ◌&&◌, ◌||◌, Option, none, some, List, [], ◌∷◌, ◌++◌, map, ◌==◌,
  ltb, if◌then◌else◌, contains,
}
use predictive_analysis.Common.Dict.{Dict, get, put, keys, values}
use predictive_analysis.Common.Text.{codes, lower_code, is_space_code}
use predictive_analysis.Common.Codes.{Text, text_eq, number}
use predictive_analysis.Common.Integers.{ℤ}
use predictive_analysis.Validation.Fields.{
  FieldEntity, FieldClass, FieldCategory, CanonicalDataType, StorageStrategy, NormalizationStrategy,
  AggregationStrategy, ReviewStatus, MlCandidate, LeakageRisk, AvailabilitySemantics, RangeStatus,
}
use predictive_analysis.Validation.Compatibility.{FieldIdentity, identity_eq}

pub record FieldSpec : Type 0 where
  pub source_name : Text
  pub canonical_name : Text
  pub source_occurrence : Option ℕ
  pub display_name : Option Text
  pub entity : FieldEntity
  pub field_class : FieldClass
  pub category : FieldCategory
  pub data_type : CanonicalDataType
  pub unit : Option Text
  pub nullable : Bool
  pub required : Bool
  -- The values that stand for no reading, with their meanings.
  pub sentinel_values : List (Text × Option Text)
  pub allowed_values : List Text
  pub allowed_values_authoritative : Bool
  -- A decimal bound, in millionths.
  pub valid_min : Option ℤ
  pub valid_max : Option ℤ
  pub range_status : RangeStatus
  pub normalization_strategy : NormalizationStrategy
  pub storage_strategy : StorageStrategy
  pub aggregation_strategy : AggregationStrategy
  pub ml_candidate : MlCandidate
  pub leakage_risk : LeakageRisk
  pub availability_semantics : AvailabilitySemantics
  pub review_status : ReviewStatus
  pub notes : Option Text
  pub origin : Text

pub record ResolvedField : Type 0 where
  pub spec : FieldSpec
  pub source_position : ℕ
  pub is_dictionary_mapped : Bool

-- `UnitRegistry.symbols`
abbrev pub UnitSymbols : Type 0
UnitSymbols = List Text

pub record PatternRule : Type 0 where
  pub rule_id : Text
  pub pattern : Text
  pub template : FieldSpec

pub record DictionaryRegistry : Type 0 where
  pub units : UnitSymbols
  pub by_identity : Dict FieldIdentity FieldSpec
  pub by_name : Dict Text FieldSpec
  pub by_name_normalized : Dict Text FieldSpec
  pub patterns : List PatternRule

-- The ways in which a dictionary is invalid.
pub data DictionaryError : Type 0 where
  duplicate_name : Text → DictionaryError
  duplicate_identity : Text → ℕ → DictionaryError
  canonical_name_twice : Text → DictionaryError

pub data Loaded : Type 0 where
  loaded : DictionaryRegistry → Loaded
  failed : DictionaryError → Loaded

abbrev remove_spaces : Text → Text
remove_spaces [] = []
remove_spaces (c ∷ s) = let rest = remove_spaces s in if is_space_code c then rest else c ∷ rest

-- `re.sub(r"\s+", "", source_name).casefold()`
abbrev pub norm_key : Text → Text
norm_key name = map lower_code (remove_spaces name)

-- `d.setdefault(k, v)`
abbrev set_default : Text → FieldSpec → Option FieldSpec → Dict Text FieldSpec → Dict Text FieldSpec
set_default k v none d = put k v d
set_default k v (some _) d = d

abbrev with_normalized : FieldSpec → DictionaryRegistry → DictionaryRegistry
with_normalized spec r =
    let key = norm_key spec.source_name in
    record r {
      by_name_normalized = set_default key spec (get key r.by_name_normalized) r.by_name_normalized;
    }

abbrev register_at : Option ℕ → FieldSpec → DictionaryRegistry → Loaded
register_at none spec r =
    if contains (keys r.by_name) spec.source_name
    then Loaded.failed (DictionaryError.duplicate_name spec.source_name)
    else Loaded.loaded (record r { by_name = put spec.source_name spec r.by_name })
register_at (some occurrence) spec r =
    if contains (keys r.by_identity) (spec.source_name, occurrence)
    then Loaded.failed (DictionaryError.duplicate_identity spec.source_name occurrence)
    else Loaded.loaded
        (record r { by_identity = put (spec.source_name, occurrence) spec r.by_identity })

-- `_register`
unfoldable pub register : FieldSpec → DictionaryRegistry → Loaded
register spec r = register_at spec.source_occurrence spec (with_normalized spec r)

abbrev pub then_load : Loaded → (DictionaryRegistry → Loaded) → Loaded
then_load (Loaded.loaded r) next = next r
then_load (Loaded.failed e) next = Loaded.failed e

-- `for raw in fields: registry._register(spec)`
unfoldable pub register_all : List FieldSpec → DictionaryRegistry → Loaded
unfolding register
register_all [] r = Loaded.loaded r
register_all (spec ∷ specs) r = then_load (register spec r) (λ s. register_all specs s)

-- The canonical name that is declared again, if there is one.
abbrev pub first_repeat : List Text → List Text → Option Text
first_repeat seen [] = none
first_repeat seen (name ∷ names) =
    let rest = first_repeat (name ∷ seen) names in if contains seen name then some name else rest

-- The definitions by name, then those by identity.
abbrev pub all_specs : DictionaryRegistry → List FieldSpec
all_specs r = values r.by_name ++ values r.by_identity

abbrev pub canonical_names_of : List FieldSpec → List Text
canonical_names_of specs = map (λ (s : FieldSpec). s.canonical_name) specs

abbrev validate_by : Option Text → DictionaryRegistry → Loaded
validate_by none r = Loaded.loaded r
validate_by (some name) r = Loaded.failed (DictionaryError.canonical_name_twice name)

-- `_validate`
unfoldable pub validate : DictionaryRegistry → Loaded
validate r = validate_by (first_repeat [] (canonical_names_of (all_specs r))) r

abbrev pub empty_registry : UnitSymbols → DictionaryRegistry
empty_registry units = record {
  units = units;
  by_identity = [];
  by_name = [];
  by_name_normalized = [];
  patterns = [];
}

-- `load`, from the definitions and the pattern rules that the files hold.
unfoldable pub load : UnitSymbols → List FieldSpec → List PatternRule → Loaded
unfolding register_all validate
load units specs patterns =
    then_load (register_all specs (empty_registry units))
      (λ r. validate (record r { patterns = patterns }))
