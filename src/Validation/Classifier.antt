-- ===== src/Validation/Classifier.antt =====
-- pipelines/validation/classifier.py: a definition inferred from the name of a field alone. A keyword
-- is a text that the lower-cased name contains; no rule of the module names a keyword to exclude.
pub mod Inference
use predictive_analysis.Common.{
  ℕ, Bool, true, false, not, ◌&&◌, ◌||◌, Option, none, some, List, [], ◌∷◌, ◌++◌, map, String,
  if◌then◌else◌, contains,
}
use predictive_analysis.Common.Text.{codes, lower_code, has_any}
use predictive_analysis.Common.Codes.{Text, text_eq}
use predictive_analysis.Validation.Fields.{
  FieldEntity, FieldClass, FieldCategory, CanonicalDataType, StorageStrategy, NormalizationStrategy,
  AggregationStrategy, ReviewStatus, MlCandidate, LeakageRisk, AvailabilitySemantics, RangeStatus,
}
use predictive_analysis.Validation.Dictionary.{FieldSpec, UnitSymbols}

-- `_Rule`
abbrev pub Rule : Type 0 → Type 0
Rule A = List String × A

-- `_first_match`
abbrev pub first_match : {A : Type 0} → List (Rule A) → Text → A → A
first_match [] text default = default
first_match ((keywords, result) ∷ rules) text default =
    let rest = first_match rules text default in if has_any text keywords then result else rest

abbrev entity_rules : List (Rule FieldEntity)
entity_rules =
    ("alarm" ∷ ("fault" ∷ ("trip" ∷ ("error code" ∷ []))), FieldEntity.alarm)
    ∷ (("smr" ∷ ("rectifier" ∷ []), FieldEntity.smr)
        ∷ (("session" ∷ ("transaction" ∷ ("charge session" ∷ [])), FieldEntity.session)
            ∷ (("connector" ∷ ("gun" ∷ ("plug" ∷ ("socket" ∷ []))), FieldEntity.connector)
                ∷ (("site" ∷ ("station" ∷ []), FieldEntity.site)
                    ∷ ((
                      "config" ∷ ("setting" ∷ ("parameter" ∷ ("threshold" ∷ ("limit" ∷ [])))),
                      FieldEntity.configuration,
                    )
                        ∷ ((
                          "charger"
                              ∷ ("cabinet"
                                  ∷ ("grid"
                                      ∷ ("meter" ∷ ("contactor" ∷ ("fan" ∷ ("cooling" ∷ [])))))),
                          FieldEntity.charger,
                        )
                            ∷ []))))))

abbrev category_rules : List (Rule FieldCategory)
category_rules =
    ("insulation" ∷ ("isolation" ∷ []), FieldCategory.insulation)
    ∷ (("temp" ∷ ("thermal" ∷ []), FieldCategory.thermal)
        ∷ (("ocpp" ∷ [], FieldCategory.ocpp)
            ∷ (("ccs" ∷ [], FieldCategory.ccs)
                ∷ (("ccu" ∷ [], FieldCategory.ccu)
                    ∷ (("plc" ∷ [], FieldCategory.plc)
                        ∷ (("can bus" ∷ ("canbus" ∷ ("can " ∷ [])), FieldCategory.can)
                            ∷ (("alarm" ∷ [], FieldCategory.alarm)
                                ∷ (("fault" ∷ ("trip" ∷ ("error" ∷ [])), FieldCategory.fault)
                                    ∷ (("contactor" ∷ ("relay" ∷ []), FieldCategory.contactor)
                                        ∷ (("fan" ∷ [], FieldCategory.fan)
                                            ∷ ((
                                              "cooling" ∷ ("coolant" ∷ ("pump" ∷ [])),
                                              FieldCategory.cooling,
                                            )
                                                ∷ (("meter" ∷ [], FieldCategory.meter)
                                                    ∷ ((
                                                      "battery" ∷ ("soc" ∷ ("vehicle" ∷ [])),
                                                      FieldCategory.battery,
                                                    )
                                                        ∷ ((
                                                          "gun" ∷ ("plug" ∷ ("socket" ∷ [])),
                                                          FieldCategory.gun,
                                                        )
                                                            ∷ ((
                                                            "firmware" ∷ ("software version" ∷ []),
                                                            FieldCategory.firmware,
                                                            )
                                                            ∷ ((
                                                            "hardware" ∷ ("board" ∷ ("pcb" ∷ [])),
                                                            FieldCategory.hardware,
                                                            )
                                                            ∷ ((
                                                            "counter"
                                                            ∷ ("total"
                                                            ∷ ("cumulative" ∷ ("lifetime" ∷ []))),
                                                            FieldCategory.counter,
                                                            )
                                                            ∷ ((
                                                            "session" ∷ ("transaction" ∷ []),
                                                            FieldCategory.session,
                                                            )
                                                            ∷ ((
                                                            "smr" ∷ ("rectifier" ∷ ("module" ∷ [])),
                                                            FieldCategory.smr,
                                                            )
                                                            ∷ ((
                                                            "connector" ∷ [],
                                                            FieldCategory.connector,
                                                            )
                                                            ∷ ((
                                                            "grid"
                                                            ∷ ("input"
                                                            ∷ ("mains" ∷ ("supply" ∷ []))),
                                                            FieldCategory.electrical_input,
                                                            )
                                                            ∷ ((
                                                            "output" ∷ ("dc " ∷ []),
                                                            FieldCategory.electrical_output,
                                                            )
                                                            ∷ ((
                                                            "signal"
                                                            ∷ ("network"
                                                            ∷ ("modem" ∷ ("sim" ∷ ("gsm" ∷ [])))),
                                                            FieldCategory.communication,
                                                            )
                                                            ∷ ((
                                                            "state" ∷ ("status" ∷ ("mode" ∷ [])),
                                                            FieldCategory.state_machine,
                                                            )
                                                            ∷ ((
                                                            "id" ∷ ("serial" ∷ ("identity" ∷ [])),
                                                            FieldCategory.identity,
                                                            )
                                                            ∷ [])))))))))))))))))))))))))

abbrev class_rules : List (Rule FieldClass)
class_rules =
    ("alarm" ∷ [], FieldClass.alarm_flag)
    ∷ (("fault code" ∷ ("error code" ∷ ("reason code" ∷ [])), FieldClass.fault_code)
        ∷ (("time" ∷ ("date" ∷ ("timestamp" ∷ [])), FieldClass.timestamp)
            ∷ ((
              "counter" ∷ ("total" ∷ ("cumulative" ∷ ("lifetime" ∷ ("uptime" ∷ [])))),
              FieldClass.counter,
            )
                ∷ (("status" ∷ ("state" ∷ ("mode" ∷ ("flag" ∷ []))), FieldClass.state)
                    ∷ (("id" ∷ ("serial" ∷ ("identity" ∷ [])), FieldClass.identifier)
                        ∷ ((
                          "config" ∷ ("setting" ∷ ("parameter" ∷ ("threshold" ∷ ("limit" ∷ [])))),
                          FieldClass.configuration,
                        )
                            ∷ ((
                              "temp"
                                  ∷ ("voltage"
                                      ∷ ("current"
                                          ∷ ("power"
                                              ∷ ("energy"
                                                  ∷ ("frequency"
                                                      ∷ ("resistance" ∷ ("speed" ∷ []))))))),
                              FieldClass.continuous_telemetry,
                            )
                                ∷ [])))))))

abbrev unit_rules : List (Rule (Option Text × CanonicalDataType))
unit_rules =
    ("temperature" ∷ ("temp" ∷ []), (some (codes "°C"), CanonicalDataType.float))
    ∷ (("voltage" ∷ ("volt" ∷ []), (some (codes "V"), CanonicalDataType.float))
        ∷ (("current" ∷ ("ampere" ∷ ("amp" ∷ [])), (some (codes "A"), CanonicalDataType.float))
            ∷ (("frequency" ∷ [], (some (codes "Hz"), CanonicalDataType.float))
                ∷ (("energy" ∷ ("kwh" ∷ []), (some (codes "kWh"), CanonicalDataType.float))
                    ∷ (("power" ∷ [], (some (codes "kW"), CanonicalDataType.float))
                        ∷ ((
                          "resistance" ∷ ("insulation" ∷ []),
                          (some (codes "kOhm"), CanonicalDataType.float),
                        )
                            ∷ ((
                              "percentage" ∷ ("percent" ∷ ("soc" ∷ [])),
                              (some (codes "percent"), CanonicalDataType.float),
                            )
                                ∷ ((
                                  "duration" ∷ ("elapsed" ∷ ("uptime" ∷ ("seconds" ∷ []))),
                                  (some (codes "seconds"), CanonicalDataType.duration),
                                )
                                    ∷ ((
                                      "speed" ∷ ("rpm" ∷ []),
                                      (some (codes "rpm"), CanonicalDataType.integer),
                                    )
                                        ∷ ((
                                          "counter" ∷ ("count" ∷ []),
                                          (some (codes "count"), CanonicalDataType.integer),
                                        )
                                            ∷ []))))))))))

-- `_STORAGE_BY_ENTITY`
abbrev pub storage_by_entity : FieldEntity → StorageStrategy
storage_by_entity FieldEntity.charger = StorageStrategy.charger_telemetry
storage_by_entity FieldEntity.connector = StorageStrategy.connector_telemetry
storage_by_entity FieldEntity.smr = StorageStrategy.smr_telemetry
storage_by_entity FieldEntity.session = StorageStrategy.session_observation
storage_by_entity FieldEntity.alarm = StorageStrategy.alarm_event
storage_by_entity FieldEntity.configuration = StorageStrategy.configuration_snapshot
storage_by_entity FieldEntity.site = StorageStrategy.master_data
storage_by_entity FieldEntity.file = StorageStrategy.raw_only
storage_by_entity FieldEntity.unknown = StorageStrategy.raw_only

-- `_NORMALIZATION_BY_ENTITY`
abbrev pub normalization_by_entity : FieldEntity → NormalizationStrategy
normalization_by_entity FieldEntity.charger = NormalizationStrategy.charger_scalar
normalization_by_entity FieldEntity.connector = NormalizationStrategy.per_connector
normalization_by_entity FieldEntity.smr = NormalizationStrategy.per_smr
normalization_by_entity FieldEntity.session = NormalizationStrategy.per_session
normalization_by_entity FieldEntity.alarm = NormalizationStrategy.alarm_edge
normalization_by_entity FieldEntity.configuration = NormalizationStrategy.config_snapshot
normalization_by_entity FieldEntity.site = NormalizationStrategy.charger_scalar
normalization_by_entity FieldEntity.file = NormalizationStrategy.passthrough
normalization_by_entity FieldEntity.unknown = NormalizationStrategy.raw_retain

-- `_AGGREGATION_BY_CLASS`
abbrev pub aggregation_by_class : FieldClass → AggregationStrategy
aggregation_by_class FieldClass.continuous_telemetry = AggregationStrategy.mean
aggregation_by_class FieldClass.counter = AggregationStrategy.max
aggregation_by_class FieldClass.state = AggregationStrategy.last
aggregation_by_class FieldClass.alarm_flag = AggregationStrategy.any_true
aggregation_by_class FieldClass.identifier = AggregationStrategy.first
aggregation_by_class FieldClass.timestamp = AggregationStrategy.first
aggregation_by_class FieldClass.configuration = AggregationStrategy.last
aggregation_by_class FieldClass.fault_code = AggregationStrategy.last
aggregation_by_class _ = AggregationStrategy.unknown

-- `_range_status_for`
abbrev pub range_status_for : FieldClass → RangeStatus
range_status_for FieldClass.identifier = RangeStatus.not_applicable
range_status_for FieldClass.timestamp = RangeStatus.not_applicable
range_status_for FieldClass.state = RangeStatus.not_applicable
range_status_for FieldClass.alarm_flag = RangeStatus.not_applicable
range_status_for _ = RangeStatus.unverified

abbrev type_by_class : FieldClass → CanonicalDataType
type_by_class FieldClass.timestamp = CanonicalDataType.datetime
type_by_class FieldClass.identifier = CanonicalDataType.identifier
type_by_class FieldClass.state = CanonicalDataType.enum
type_by_class FieldClass.alarm_flag = CanonicalDataType.enum
type_by_class _ = CanonicalDataType.unknown

-- The type that a unit rule inferred, or else that of the class.
abbrev type_or_class : CanonicalDataType → FieldClass → CanonicalDataType
type_or_class CanonicalDataType.unknown c = type_by_class c
type_or_class t c = t

-- Whether the class leaves a field without a unit.
abbrev pub is_unitless : FieldClass → Bool
is_unitless FieldClass.state = true
is_unitless FieldClass.identifier = true
is_unitless FieldClass.alarm_flag = true
is_unitless _ = false

-- A unit that is not in the registry is dropped.
abbrev known_unit : Option UnitSymbols → Option Text → Option Text
known_unit units none = none
known_unit none (some u) = some u
known_unit (some symbols) (some u) = if contains symbols u then some u else none

abbrev pub is_unknown_entity : FieldEntity → Bool
is_unknown_entity FieldEntity.unknown = true
is_unknown_entity _ = false

abbrev pub is_unknown_class : FieldClass → Bool
is_unknown_class FieldClass.unknown = true
is_unknown_class _ = false

abbrev is_unknown_category : FieldCategory → Bool
is_unknown_category FieldCategory.unknown = true
is_unknown_category _ = false

abbrev ml_candidate_of : FieldClass → MlCandidate
ml_candidate_of FieldClass.continuous_telemetry = MlCandidate.yes
ml_candidate_of FieldClass.counter = MlCandidate.yes
ml_candidate_of FieldClass.alarm_flag = MlCandidate.yes
ml_candidate_of _ = MlCandidate.unknown

abbrev comma_join : List String → Text
comma_join [] = []
comma_join (part ∷ []) = codes part
comma_join (part ∷ (next ∷ parts)) = codes part ++ codes ", " ++ comma_join (next ∷ parts)

abbrev when : Bool → String → List String → List String
when keep part parts = if keep then part ∷ parts else parts

abbrev inferred_note : List String → Text
inferred_note [] = []
inferred_note (part ∷ parts) = codes "Inferred: " ++ comma_join (part ∷ parts) ++ codes ". "

abbrev note_of : FieldEntity → FieldClass → FieldCategory → Bool → Text
note_of entity field_class category determined =
    codes "Auto-classified from the field name. "
    ++ inferred_note (
        when (not (is_unknown_entity entity)) "entity" (
          when (not (is_unknown_class field_class)) "class"
            (when (not (is_unknown_category category)) "category" [])))
    ++ (if determined
        then codes
            "No curated dictionary entry exists; review recommended before treating the classification as authoritative."
        else codes
            "No curated dictionary entry exists; semantics require domain confirmation before downstream use.")

-- The definition, from what the rules found.
abbrev pub definition_of :
    Text
    → ℕ
    → Text
    → Option UnitSymbols
    → FieldEntity
    → FieldClass
    → FieldCategory
    → Option Text × CanonicalDataType
    → FieldSpec
definition_of source_name occurrence canonical_name units entity field_class category inferred =
    let determined = not (is_unknown_entity entity) && not (is_unknown_class field_class) in
    record {
      source_name = source_name;
      canonical_name = canonical_name;
      source_occurrence = some occurrence;
      display_name = some source_name;
      entity = entity;
      field_class = field_class;
      category = category;
      data_type = type_or_class inferred.1 field_class;
      unit = if is_unitless field_class then none else known_unit units inferred.0;
      nullable = true;
      required = false;
      sentinel_values = [];
      allowed_values = [];
      allowed_values_authoritative = false;
      valid_min = none;
      valid_max = none;
      range_status = range_status_for field_class;
      normalization_strategy = normalization_by_entity entity;
      storage_strategy = storage_by_entity entity;
      aggregation_strategy = aggregation_by_class field_class;
      ml_candidate = ml_candidate_of field_class;
      leakage_risk = LeakageRisk.unknown;
      availability_semantics = AvailabilitySemantics.unknown;
      review_status =
          if determined then ReviewStatus.auto_classified else ReviewStatus.domain_review_required;
      notes = some (note_of entity field_class category determined);
      origin = codes "classifier";
    }

unfoldable pub classify_field : Text → ℕ → Text → Option UnitSymbols → FieldSpec
classify_field source_name occurrence canonical_name units =
    let text = map lower_code source_name in
    definition_of source_name occurrence canonical_name units
      (first_match entity_rules text FieldEntity.unknown)
      (first_match class_rules text FieldClass.unknown)
      (first_match category_rules text FieldCategory.unknown)
      (first_match unit_rules text (none, CanonicalDataType.unknown))
