-- ===== src/Events/Models.antt =====
-- pipelines/events/models.py and the event enumerations of backend/app/models/enums.py. A UUID is a
-- text; the charger, the component and the version that a call copies into each event are fields of
-- one record.
use predictive_analysis.Common.{ℕ, ◌-◌, Bool, Option, none, some, List, String, not, ◌||◌, leb, any}

pub data EventConfidence : Type 0 where
  high medium low : EventConfidence

pub data EventQualityFlag : Type 0 where
  event_has_gap session_id_missing session_boundary_inferred session_energy_mismatch :
      EventQualityFlag
  session_duration_mismatch alarm_open_ended unknown_event_state : EventQualityFlag
  out_of_order_data_corrected config_change_without_previous_snapshot : EventQualityFlag

pub data AlarmSeverity : Type 0 where
  critical major minor warning info : AlarmSeverity

pub record TelemetryGapInterval : Type 0 where
  pub start_time : ℕ
  pub end_time : ℕ

-- `TelemetryGapInterval.overlaps`
abbrev pub overlaps : TelemetryGapInterval → ℕ → Option ℕ → Bool
overlaps g start none = leb start g.end_time
overlaps g start (some end) = not (leb g.end_time start || leb end g.start_time)

-- `any(g.overlaps(start, end) for g in gaps)`
abbrev pub has_gap_within : List TelemetryGapInterval → ℕ → ℕ → Bool
has_gap_within gaps start end = any (λ g. overlaps g start (some end)) gaps

-- `max((end - start).total_seconds(), 0.0)`
abbrev pub duration : ℕ → ℕ → ℕ
duration start end = end - start

-- What an alarm or a fault is raised for.
pub record AlarmSubject : Type 0 where
  pub charger_id : String
  pub alarm_code : String
  pub alarm_name : String
  pub component_type : String
  pub component_id : Option ℕ

pub record ReconstructedAlarm : Type 0 where
  pub subject : AlarmSubject
  pub start_time : ℕ
  pub end_time : Option ℕ
  pub duration_seconds : ℕ
  pub is_open : Bool
  pub start_state : Option String
  pub end_state : Option String
  pub severity : AlarmSeverity
  pub confidence : EventConfidence
  pub has_gap : Bool
  pub quality_flags : List EventQualityFlag
  pub reconstruction_version : String
  pub source_first_frame_id : String
  pub source_last_frame_id : String

pub record ReconstructedFault : Type 0 where
  pub subject : AlarmSubject
  pub start_time : ℕ
  pub end_time : Option ℕ
  pub duration_seconds : ℕ
  pub is_open : Bool
  pub initial_reading : Option String
  pub clearing_reading : Option String
  pub confidence : EventConfidence
  pub has_gap : Bool
  pub quality_flags : List EventQualityFlag
  pub reconstruction_version : String
  pub source_first_frame_id : String
  pub source_last_frame_id : String
