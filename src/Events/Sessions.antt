-- ===== src/Events/Sessions.antt =====
-- pipelines/events/session_reconstructor.py: charging sessions of a connector. Energies, meters,
-- currents, states of charge and reported seconds are in thousandths and not negative.
pub mod Reconstruction
pub mod States
use mathlib.Core.Option
use predictive_analysis.Common.{
  ℕ, ◌+◌, ◌-◌, ◌*◌, min, max, Bool, true, false, not, Option, none, some, List, [], ◌∷◌, ◌++◌,
  String, ◌&&◌, ◌||◌, ◌==◌, string_eq, leb, ltb, eqb, if◌then◌else◌, is_some,
}
use predictive_analysis.Common.Sorting.{sort_by}
use predictive_analysis.Common.Text.{strip, lower, one_of, has_any, is_empty}
use predictive_analysis.Events.Models.{
  TelemetryGapInterval, EventConfidence, EventQualityFlag, has_gap_within, duration,
}

pub data SessionState : Type 0 where
  idle plugged preparing authorized charging suspended finishing completed faulted unknown :
      SessionState

pub data TerminationClass : Type 0 where
  normal user_stopped remote_stopped fault_stopped emergency_stopped : TerminationClass
  communication_lost incomplete unclassified : TerminationClass

pub record ConnectorObservation : Type 0 where
  pub event_time : ℕ
  pub frame_sequence : ℕ
  pub frame_id : String
  pub connector_status : Option String
  pub session_id : Option String
  pub begin_time : Option ℕ
  pub session_consumed_energy : Option ℕ
  pub session_output_current : Option ℕ
  pub start_soc : Option ℕ
  pub stop_soc : Option ℕ
  pub stop_reason : Option String
  pub reported_charging_time : Option ℕ
  pub meter_energy : Option ℕ

abbrev state_of_text : List ℕ → SessionState
state_of_text t =
    if one_of t ("available" ∷ "idle" ∷ "standby" ∷ "ready_for_use" ∷ [])
    then idle
    else if one_of t ("plugged" ∷ "connected" ∷ [])
    then plugged
    else if one_of t ("preparing" ∷ "authenticating" ∷ [])
    then preparing
    else if one_of t ("authorized" ∷ "ready" ∷ [])
    then authorized
    else if one_of t ("charging" ∷ "in_use" ∷ "delivering_energy" ∷ [])
    then charging
    else if one_of t ("suspended" ∷ "paused" ∷ "ev_suspended" ∷ "evse_suspended" ∷ [])
    then suspended
    else if one_of t ("finishing" ∷ "stopping" ∷ [])
    then finishing
    else if one_of t ("completed" ∷ "charge finished" ∷ "stopped" ∷ "finished" ∷ [])
    then completed
    else if one_of t ("faulted" ∷ "error" ∷ "unavailable" ∷ "emergency" ∷ [])
    then faulted
    else unknown

unfoldable pub map_connector_state : Option String → SessionState
unfolding strip lower
map_connector_state none = unknown
map_connector_state (some raw) = state_of_text (lower (strip raw))

-- `bool(text)` of an optional text.
abbrev pub is_given : Option String → Bool
is_given none = false
is_given (some s) = not (is_empty s)

abbrev class_of_reason : List ℕ → TerminationClass
class_of_reason t =
    if has_any t ("remote" ∷ "remotestop" ∷ [])
    then remote_stopped
    else if has_any t ("emergency" ∷ "e-stop" ∷ "estop" ∷ [])
    then emergency_stopped
    else if has_any t ("local" ∷ "user" ∷ "stop" ∷ "evdisconnected" ∷ "card" ∷ "app" ∷ [])
    then user_stopped
    else if has_any t
        ("fault" ∷ "error" ∷ "overcurrent" ∷ "overvoltage" ∷ "ground" ∷ "insulation" ∷ [])
    then fault_stopped
    else if has_any t ("commlost" ∷ "communication" ∷ "reboot" ∷ "timeout" ∷ [])
    then communication_lost
    else normal

abbrev class_of_state : SessionState → TerminationClass
class_of_state idle = normal
class_of_state completed = normal
class_of_state faulted = fault_stopped
class_of_state _ = unclassified

-- `TerminationClass.UNKNOWN` is the constructor `unclassified`.
unfoldable pub classify_termination : Option String → SessionState → TerminationClass
unfolding lower
classify_termination none state = class_of_state state
classify_termination (some reason) state =
    if is_empty reason then class_of_state state else class_of_reason (lower reason)

-- The order of the key `(event_time, frame_sequence)`.
abbrev pub connector_le : ConnectorObservation → ConnectorObservation → Bool
connector_le a b =
    ltb a.event_time b.event_time
    || eqb a.event_time b.event_time && leb a.frame_sequence b.frame_sequence

abbrev no_session : String → Bool
no_session s = s == "0" || s == "0.0" || s == "None" || s == "nan"

abbrev kept_id : String → Option String
kept_id s = if no_session s then none else some s

-- `session_id_str`: the stripped text, unless it says that there is no session.
unfoldable pub session_id_of : ConnectorObservation → Option String
unfolding strip
session_id_of o = elim o.session_id [ none ↦ none | some s ↦ kept_id (strip s) ]

abbrev pub is_active_session_state : SessionState → Bool
is_active_session_state preparing = true
is_active_session_state authorized = true
is_active_session_state charging = true
is_active_session_state suspended = true
is_active_session_state finishing = true
is_active_session_state _ = false

-- `session_output_current > 0.5`
abbrev pub is_charging_delivery : ConnectorObservation → Bool
is_charging_delivery o = elim o.session_output_current [ none ↦ false | some c ↦ ltb 500 c ]

abbrev pub is_charging_state : SessionState → Bool
is_charging_state charging = true
is_charging_state _ = false

abbrev pub is_final_state : SessionState → Bool
is_final_state idle = true
is_final_state completed = true
is_final_state _ = false

-- The variables of an active session.
pub record OpenSession : Type 0 where
  pub current_session_id : Option String
  pub session_start_time : ℕ
  pub charging_start_time : Option ℕ
  pub charging_end_time : Option ℕ
  pub first_frame_id : String
  pub last_frame_id : String
  pub start_soc : Option ℕ
  pub end_soc : Option ℕ
  pub max_energy : Option ℕ
  pub start_meter : Option ℕ
  pub end_meter : Option ℕ
  pub last_stop_reason : Option String
  pub last_reported_duration : Option ℕ
  pub observed_states : List SessionState

pub record ReconstructedSession : Type 0 where
  pub charger_id : String
  pub connector_id : ℕ
  pub session_id : Option String
  pub start_time : ℕ
  pub charging_start_time : Option ℕ
  pub charging_end_time : Option ℕ
  pub end_time : ℕ
  pub duration_seconds : ℕ
  pub energy_delivered_kwh : Option ℕ
  pub start_soc : Option ℕ
  pub end_soc : Option ℕ
  pub stop_reason : Option String
  pub termination_class : TerminationClass
  pub confidence : EventConfidence
  pub has_gap : Bool
  pub quality_flags : List EventQualityFlag
  pub observed_states : List SessionState
  pub source_first_frame_id : String
  pub source_last_frame_id : String
