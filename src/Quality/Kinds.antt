-- ===== src/Quality/Kinds.antt =====
-- backend/app/models/enums.py: the enumerations of the quality rules, and the values of those that a
-- finding is hashed by.
use predictive_analysis.Common.Text.{codes}
use predictive_analysis.Common.Codes.{Text}

pub data QualitySeverity : Type 0 where
  info warning error critical : QualitySeverity

pub data QualityIssueType : Type 0 where
  missing_required_field duplicate_header invalid_timestamp exact_duplicate : QualityIssueType
  logical_key_collision unknown_field missing_field all_null_field : QualityIssueType
  sentinel_value out_of_range unexpected_connector_cardinality : QualityIssueType
  unexpected_smr_cardinality telemetry_gap schema_mismatch invalid_type : QualityIssueType
  unknown_enum_value missing_charger_data late_file partial_day : QualityIssueType
  severely_incomplete_day abnormal_sampling_interval : QualityIssueType
  missing_expected_connector missing_expected_smr : QualityIssueType
  multiple_files_same_charger_day overlapping_file_coverage : QualityIssueType
  event_date_filename_mismatch frame_incomplete frame_overcomplete : QualityIssueType
  frame_missing_position frame_unexpected_position ambiguous_frame_boundary : QualityIssueType
  full_frame_replay partial_frame_replay same_timestamp_distinct_frame : QualityIssueType
  inconsistent_topology entity_id_missing unassigned_raw_row : QualityIssueType
  type_conversion_failed sentinel_masked repeated_field_conflict : QualityIssueType
  connector_field_conflict missing_component_id unroutable_field : QualityIssueType
  normalization_failed : QualityIssueType

-- `value`
unfoldable pub issue_value : QualityIssueType → Text
issue_value QualityIssueType.missing_required_field = codes "MISSING_REQUIRED_FIELD"
issue_value QualityIssueType.duplicate_header = codes "DUPLICATE_HEADER"
issue_value QualityIssueType.invalid_timestamp = codes "INVALID_TIMESTAMP"
issue_value QualityIssueType.exact_duplicate = codes "EXACT_DUPLICATE"
issue_value QualityIssueType.logical_key_collision = codes "LOGICAL_KEY_COLLISION"
issue_value QualityIssueType.unknown_field = codes "UNKNOWN_FIELD"
issue_value QualityIssueType.missing_field = codes "MISSING_FIELD"
issue_value QualityIssueType.all_null_field = codes "ALL_NULL_FIELD"
issue_value QualityIssueType.sentinel_value = codes "SENTINEL_VALUE"
issue_value QualityIssueType.out_of_range = codes "OUT_OF_RANGE"
issue_value QualityIssueType.unexpected_connector_cardinality =
    codes "UNEXPECTED_CONNECTOR_CARDINALITY"
issue_value QualityIssueType.unexpected_smr_cardinality = codes "UNEXPECTED_SMR_CARDINALITY"
issue_value QualityIssueType.telemetry_gap = codes "TELEMETRY_GAP"
issue_value QualityIssueType.schema_mismatch = codes "SCHEMA_MISMATCH"
issue_value QualityIssueType.invalid_type = codes "INVALID_TYPE"
issue_value QualityIssueType.unknown_enum_value = codes "UNKNOWN_ENUM_VALUE"
issue_value QualityIssueType.missing_charger_data = codes "MISSING_CHARGER_DATA"
issue_value QualityIssueType.late_file = codes "LATE_FILE"
issue_value QualityIssueType.partial_day = codes "PARTIAL_DAY"
issue_value QualityIssueType.severely_incomplete_day = codes "SEVERELY_INCOMPLETE_DAY"
issue_value QualityIssueType.abnormal_sampling_interval = codes "ABNORMAL_SAMPLING_INTERVAL"
issue_value QualityIssueType.missing_expected_connector = codes "MISSING_EXPECTED_CONNECTOR"
issue_value QualityIssueType.missing_expected_smr = codes "MISSING_EXPECTED_SMR"
issue_value QualityIssueType.multiple_files_same_charger_day =
    codes "MULTIPLE_FILES_SAME_CHARGER_DAY"
issue_value QualityIssueType.overlapping_file_coverage = codes "OVERLAPPING_FILE_COVERAGE"
issue_value QualityIssueType.event_date_filename_mismatch = codes "EVENT_DATE_FILENAME_MISMATCH"
issue_value QualityIssueType.frame_incomplete = codes "FRAME_INCOMPLETE"
issue_value QualityIssueType.frame_overcomplete = codes "FRAME_OVERCOMPLETE"
issue_value QualityIssueType.frame_missing_position = codes "FRAME_MISSING_POSITION"
issue_value QualityIssueType.frame_unexpected_position = codes "FRAME_UNEXPECTED_POSITION"
issue_value QualityIssueType.ambiguous_frame_boundary = codes "AMBIGUOUS_FRAME_BOUNDARY"
issue_value QualityIssueType.full_frame_replay = codes "FULL_FRAME_REPLAY"
issue_value QualityIssueType.partial_frame_replay = codes "PARTIAL_FRAME_REPLAY"
issue_value QualityIssueType.same_timestamp_distinct_frame = codes "SAME_TIMESTAMP_DISTINCT_FRAME"
issue_value QualityIssueType.inconsistent_topology = codes "INCONSISTENT_TOPOLOGY"
issue_value QualityIssueType.entity_id_missing = codes "ENTITY_ID_MISSING"
issue_value QualityIssueType.unassigned_raw_row = codes "UNASSIGNED_RAW_ROW"
issue_value QualityIssueType.type_conversion_failed = codes "TYPE_CONVERSION_FAILED"
issue_value QualityIssueType.sentinel_masked = codes "SENTINEL_MASKED"
issue_value QualityIssueType.repeated_field_conflict = codes "REPEATED_FIELD_CONFLICT"
issue_value QualityIssueType.connector_field_conflict = codes "CONNECTOR_FIELD_CONFLICT"
issue_value QualityIssueType.missing_component_id = codes "MISSING_COMPONENT_ID"
issue_value QualityIssueType.unroutable_field = codes "UNROUTABLE_FIELD"
issue_value QualityIssueType.normalization_failed = codes "NORMALIZATION_FAILED"

pub data QualityRuleScope : Type 0 where
  file field row charger_day timestamp frame entity : QualityRuleScope

-- `value`
unfoldable pub scope_value : QualityRuleScope → Text
scope_value QualityRuleScope.file = codes "FILE"
scope_value QualityRuleScope.field = codes "FIELD"
scope_value QualityRuleScope.row = codes "ROW"
scope_value QualityRuleScope.charger_day = codes "CHARGER_DAY"
scope_value QualityRuleScope.timestamp = codes "TIMESTAMP"
scope_value QualityRuleScope.frame = codes "FRAME"
scope_value QualityRuleScope.entity = codes "ENTITY"

pub data VariabilityClass : Type 0 where
  all_null_in_sample constant_in_sample variable_in_sample : VariabilityClass
