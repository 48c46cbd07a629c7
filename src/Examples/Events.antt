-- ===== src/Examples/Events.antt =====
-- An alarm that flickers and stays open, a status field, and a changed configuration.
use predictive_analysis.Common.{
  length, ◌≤◌, ℕ, ◌≡◌, refl, Bool, true, false, Option, none, some, List, [], ◌∷◌, String, map,
  string_eq, any, All, select,
}
use predictive_analysis.Common.Dict.{Dict}
use predictive_analysis.Common.Sorting.{sort_by}
use predictive_analysis.Events.Models.{AlarmSubject, ReconstructedAlarm, AlarmSeverity}
use predictive_analysis.Events.Alarms.{
  AlarmObservation, reconstruct_alarms, observe_all, observe, begin_or_reopen, cleared, left_open,
  is_active_state,
}
use predictive_analysis.Events.Alarms.Timeline.{IsTimeline, reconstruct_alarms-IsTimeline}
use predictive_analysis.Events.Alarms.Covered.{covers, reconstruct_alarms-covers}
use predictive_analysis.Events.Transitions.{
  StateObservation, StateField, state_le, reading, detect_transitions, Leads,
  detect_transitions-Leads,
}
use predictive_analysis.Events.Sessions.{
  ConnectorObservation, ReconstructedSession, session_id_of, map_connector_state,
}
use predictive_analysis.Events.Sessions.Reconstruction.{
  reconstruct_sessions, observe_sessions, observe_session, close_active_session, is_session_start,
}
use predictive_analysis.Events.Sessions.States.{states_of, reconstruct_sessions-states}
use predictive_analysis.Events.Configuration.{value_of, diff_of, patched, patched-diff_of}

abbrev subject : AlarmSubject
subject = record {
  charger_id = "EX1";
  alarm_code = "A1";
  alarm_name = "door";
  component_type = "charger";
  component_id = none;
}

abbrev seen : ℕ → Bool → AlarmObservation
seen time active = record {
  event_time = time;
  frame_sequence = 0;
  frame_id = "f";
  is_active = active;
  state_str = none;
}

abbrev flicker : List AlarmObservation
flicker =
    seen 10 true ∷ seen 20 false ∷ seen 23 true ∷ seen 40 false ∷ seen 50 true ∷ seen 60 true ∷ []

-- With a debounce time of 5 the second interval reopens the first.
reconstruct_flicker :
    map {B = ℕ × Option ℕ}
      (λ (a : ReconstructedAlarm). (a.start_time, a.end_time))
      (reconstruct_alarms subject AlarmSeverity.major "v1" [] 5 flicker)
    ≡ (10, some 40) ∷ (50, none) ∷ []
unfolding reconstruct_alarms sort_by observe_all observe begin_or_reopen cleared left_open
reconstruct_flicker = refl

active_words : is_active_state (some " Trip ") ≡ true
unfolding is_active_state
active_words = refl

reconstruct_alarms-IsTimeline_example :
    IsTimeline 5 (reconstruct_alarms subject AlarmSeverity.major "v1" [] 5 flicker)
reconstruct_alarms-IsTimeline_example =
    reconstruct_alarms-IsTimeline subject AlarmSeverity.major "v1" [] 5 flicker

reconstruct_alarms-covers_example :
    All
      (λ o.
        any (covers o.event_time) (reconstruct_alarms subject AlarmSeverity.major "v1" [] 5 flicker)
        ≡ true)
      (select (λ (o : AlarmObservation). o.is_active) flicker)
reconstruct_alarms-covers_example =
    reconstruct_alarms-covers subject AlarmSeverity.major "v1" [] 5 flicker

abbrev field : StateField
field = record {
  charger_id = "EX1";
  component_type = "connector";
  component_id = some 1;
  state_field = "status";
}

abbrev status_at : ℕ → String → StateObservation
status_at time v = record {
  event_time = time;
  frame_sequence = 0;
  state_val = some v;
  frame_id = none;
}

abbrev statuses : List StateObservation
statuses = status_at 3 "charging" ∷ status_at 1 "idle" ∷ status_at 2 " idle" ∷ []

sorted_statuses :
    sort_by state_le statuses
    ≡ status_at 1 "idle" ∷ (status_at 2 " idle" ∷ status_at 3 "charging" ∷ [])
unfolding sort_by
sorted_statuses = refl

detect_transitions-Leads_example :
    Leads
      (reading (status_at 1 "idle"))
      (detect_transitions field statuses)
      (reading (status_at 3 "charging"))
detect_transitions-Leads_example =
    detect_transitions-Leads field statuses (status_at 1 "idle")
      (status_at 2 " idle" ∷ status_at 3 "charging" ∷ []) sorted_statuses (refl, (refl, (refl, tt)))

abbrev old_config : Dict String (Option String)
old_config = ("firmware", some "1.0") ∷ ("limit", some "60") ∷ []

abbrev new_config : Dict String (Option String)
new_config = ("firmware", some "1.1") ∷ ("limit", some "60") ∷ ("site", some "BLR") ∷ []

patched-diff_of_example :
    patched old_config (diff_of old_config new_config) "firmware" ≡ value_of new_config "firmware"
patched-diff_of_example = patched-diff_of old_config new_config "firmware"

abbrev at_connector : ℕ → String → String → ConnectorObservation
at_connector time status session = record {
  event_time = time;
  frame_sequence = 0;
  frame_id = "f";
  connector_status = some status;
  session_id = some session;
  begin_time = none;
  session_consumed_energy = none;
  session_output_current = none;
  start_soc = none;
  stop_soc = none;
  stop_reason = none;
  reported_charging_time = none;
  meter_energy = some time;
}

abbrev visits : List ConnectorObservation
visits =
    at_connector 1 "available" "0"
    ∷ at_connector 2 "Charging" "s1"
    ∷ at_connector 3 "Charging" "s2"
    ∷ at_connector 4 "idle" "0"
    ∷ at_connector 5 "preparing" "0"
    ∷ []

reconstruct_visits :
    map {B = Option String × (ℕ × ℕ)}
      (λ (s : ReconstructedSession). (s.session_id, (s.start_time, s.end_time)))
      (reconstruct_sessions "EX1" 1 [] visits)
    ≡ (some "s1", (2, 3)) ∷ ((some "s2", (3, 4)) ∷ ((none, (5, 5)) ∷ []))
unfolding reconstruct_sessions sort_by observe_sessions observe_session close_active_session
    session_id_of map_connector_state
reconstruct_visits = refl

reconstruct_sessions-states_example :
    (length (select is_session_start visits) ≤ states_of (reconstruct_sessions "EX1" 1 [] visits))
    × (states_of (reconstruct_sessions "EX1" 1 [] visits) ≤ length visits)
reconstruct_sessions-states_example = reconstruct_sessions-states "EX1" 1 [] visits
