-- ===== src/Validation/Fields.antt =====
-- backend/app/models/enums.py: the enumerations that describe a field. A member NONE is the
-- constructor `nothing`, since `none` is that of an option.

pub data FieldEntity : Type 0 where
  file site charger connector smr session alarm configuration unknown : FieldEntity

pub data FieldClass : Type 0 where
  identifier dimension configuration continuous_telemetry discrete_telemetry state : FieldClass
  counter session_attribute alarm_flag fault_code timestamp derived_source_value unknown :
      FieldClass

pub data FieldCategory : Type 0 where
  identity electrical_input electrical_output thermal power_module smr connector gun : FieldCategory
  insulation communication ocpp ccs ccu plc can session state_machine contactor cooling :
      FieldCategory
  fan meter battery counter fault alarm firmware hardware system unknown : FieldCategory

pub data CanonicalDataType : Type 0 where
  string integer float boolean enum datetime duration identifier unknown : CanonicalDataType

pub data StorageStrategy : Type 0 where
  master_data configuration_snapshot charger_telemetry connector_telemetry smr_telemetry :
      StorageStrategy
  session_observation alarm_event counter_telemetry raw_only unknown : StorageStrategy

pub data NormalizationStrategy : Type 0 where
  passthrough charger_scalar per_connector per_smr per_session alarm_edge : NormalizationStrategy
  counter_snapshot config_snapshot raw_retain unknown : NormalizationStrategy

pub data AggregationStrategy : Type 0 where
  nothing first last min max mean median sum mode any_true count_distinct unknown :
      AggregationStrategy

pub data ReviewStatus : Type 0 where
  auto_classified engineer_reviewed domain_review_required verified : ReviewStatus

pub data MlCandidate : Type 0 where
  yes no unknown : MlCandidate

pub data LeakageRisk : Type 0 where
  nothing low medium high unknown : LeakageRisk

pub data AvailabilitySemantics : Type 0 where
  real_time session_start session_during session_end post_event static unknown :
      AvailabilitySemantics

pub data RangeStatus : Type 0 where
  verified unverified not_applicable : RangeStatus
