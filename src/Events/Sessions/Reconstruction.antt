-- ===== src/Events/Sessions/Reconstruction.antt =====
-- `SessionReconstructor.reconstruct` and `close_active_session` of
-- pipelines/events/session_reconstructor.py.
use predictive_analysis.Common.{
  ℕ, ◌+◌, ◌-◌, ◌*◌, min, max, Bool, true, false, not, Option, none, some, List, [], ◌∷◌, ◌++◌,
  String, ◌&&◌, ◌||◌, ◌==◌, string_eq, leb, ltb, if◌then◌else◌, is_some,
}
use predictive_analysis.Common.Sorting.{sort_by}
use predictive_analysis.Events.Models.{
  TelemetryGapInterval, EventConfidence, EventQualityFlag, has_gap_within, duration,
}
use predictive_analysis.Events.Sessions.{
  ConnectorObservation, OpenSession, ReconstructedSession, map_connector_state,
  classify_termination, is_given, session_id_of, is_active_session_state, is_charging_delivery,
  is_charging_state, is_final_state, connector_le,
}

-- The sessions so far, and the one in course.
pub record SessionProgress : Type 0 where
  pub reconstructed : List ReconstructedSession
  pub active : Option OpenSession

abbrev or_else : Option ℕ → Option ℕ → Option ℕ
or_else none b = b
or_else (some a) b = some a

-- `a or b` on numbers: zero is false.
abbrev or_nonzero : Option ℕ → Option ℕ → Option ℕ
or_nonzero none b = b
or_nonzero (some a) b = if ltb 0 a then some a else b

abbrev distance : ℕ → ℕ → ℕ
distance a b = max a b - min a b

-- The difference of the meters, if it is not negative.
abbrev meter_delta : Option ℕ → Option ℕ → Option ℕ
meter_delta (some a) (some b) = if leb a b then some (b - a) else none
meter_delta _ _ = none

-- `abs(meter_delta - max_energy) > 0.5`, where all three are known.
abbrev energy_mismatch : Option ℕ → Option ℕ → Option ℕ → Bool
energy_mismatch (some e) (some a) (some b) = ltb 500 (distance b (a + e))
energy_mismatch _ _ _ = false

-- `abs(duration_s - last_reported_duration) > 60.0`
abbrev duration_mismatch : ℕ → Option ℕ → Bool
duration_mismatch d none = false
duration_mismatch d (some reported) = ltb 60000000 (distance d (reported * 1000))

abbrev flag_if : Bool → EventQualityFlag → List EventQualityFlag
flag_if true f = f ∷ []
flag_if false f = []

abbrev confidence_of : Bool → Bool → Bool → Bool → EventConfidence
confidence_of has_gap has_id has_reason has_charging =
    if not has_gap && has_id && has_reason && has_charging
    then EventConfidence.high
    else if has_gap || not has_id
    then EventConfidence.low
    else EventConfidence.medium

abbrev differs : Option String → Option String → Bool
differs (some a) (some b) = not (a == b)
differs _ _ = false

-- Case A: the session in course has another identifier than the observation.
abbrev pub id_changed : Option String → Option String → Bool
id_changed seen current = is_given seen && is_given current && differs seen current

abbrev is_charging : ConnectorObservation → Bool
is_charging o = is_charging_state (map_connector_state o.connector_status) || is_charging_delivery o

abbrev pub is_session_start : ConnectorObservation → Bool
is_session_start o =
    is_active_session_state (map_connector_state o.connector_status)
    || is_given (session_id_of o)
    || is_charging_delivery o

-- Case B: a session starts.
abbrev pub start_session : ConnectorObservation → OpenSession
start_session o = record {
  current_session_id = session_id_of o;
  session_start_time = elim o.begin_time [ none ↦ o.event_time | some t ↦ t ];
  charging_start_time = if is_charging o then some o.event_time else none;
  charging_end_time = if is_charging o then some o.event_time else none;
  first_frame_id = o.frame_id;
  last_frame_id = o.frame_id;
  start_soc = o.start_soc;
  end_soc = or_nonzero o.stop_soc o.start_soc;
  max_energy = o.session_consumed_energy;
  start_meter = o.meter_energy;
  end_meter = o.meter_energy;
  last_stop_reason = o.stop_reason;
  last_reported_duration = o.reported_charging_time;
  observed_states = map_connector_state o.connector_status ∷ [];
}

abbrev larger : Option ℕ → Option ℕ → Option ℕ
larger m none = m
larger none (some e) = some e
larger (some m) (some e) = some (max m e)

abbrev latest_text : Option String → Option String → Option String
latest_text new none = new
latest_text none (some old) = some old
latest_text (some new) (some old) = some new

-- Case C: the session in course takes the observation in.
abbrev pub accumulate : ConnectorObservation → OpenSession → OpenSession
accumulate o s = record {
  current_session_id =
      if not (is_given s.current_session_id) && is_given (session_id_of o)
      then session_id_of o
      else s.current_session_id;
  session_start_time = s.session_start_time;
  charging_start_time =
      if is_charging o
      then or_else s.charging_start_time (some o.event_time)
      else s.charging_start_time;
  charging_end_time = if is_charging o then some o.event_time else s.charging_end_time;
  first_frame_id = s.first_frame_id;
  last_frame_id = o.frame_id;
  start_soc = or_else s.start_soc o.start_soc;
  end_soc = or_else o.stop_soc s.end_soc;
  max_energy = larger s.max_energy o.session_consumed_energy;
  start_meter = or_else s.start_meter o.meter_energy;
  end_meter = or_else o.meter_energy s.end_meter;
  last_stop_reason = latest_text o.stop_reason s.last_stop_reason;
  last_reported_duration = or_else o.reported_charging_time s.last_reported_duration;
  observed_states = s.observed_states ++ map_connector_state o.connector_status ∷ [];
}

-- The triggers that complete a session.
abbrev pub is_completed_by : ConnectorObservation → OpenSession → Bool
is_completed_by o s =
    let state = map_connector_state o.connector_status in
    is_final_state state
    || is_given s.last_stop_reason
      && not (is_active_session_state state)
      && not (is_charging_delivery o)

abbrev pub last_observation :
    ConnectorObservation → List ConnectorObservation → ConnectorObservation
last_observation o [] = o
last_observation o (next ∷ os) = last_observation next os

module _ (charger_id : String) (connector_id : ℕ) (gaps : List TelemetryGapInterval) where
  -- `close_active_session`
  unfoldable pub close_active_session :
      OpenSession → ℕ → ConnectorObservation → ReconstructedSession
  unfolding map_connector_state classify_termination
  close_active_session s end terminal =
      let has_gap = has_gap_within gaps s.session_start_time end in
      let seconds = duration s.session_start_time end in
      let has_id = is_given s.current_session_id in
      let has_reason = is_given s.last_stop_reason in
      record {
        charger_id = charger_id;
        connector_id = connector_id;
        session_id = s.current_session_id;
        start_time = s.session_start_time;
        charging_start_time = s.charging_start_time;
        charging_end_time = s.charging_end_time;
        end_time = end;
        duration_seconds = seconds;
        energy_delivered_kwh = or_else s.max_energy (meter_delta s.start_meter s.end_meter);
        start_soc = s.start_soc;
        end_soc = s.end_soc;
        stop_reason = s.last_stop_reason;
        termination_class =
            classify_termination s.last_stop_reason (map_connector_state terminal.connector_status);
        confidence = confidence_of has_gap has_id has_reason (is_some s.charging_start_time);
        has_gap = has_gap;
        quality_flags =
            flag_if has_gap EventQualityFlag.event_has_gap
            ++ flag_if (not has_id) EventQualityFlag.session_id_missing
            ++ flag_if (not has_reason) EventQualityFlag.session_boundary_inferred
            ++ flag_if (energy_mismatch s.max_energy s.start_meter s.end_meter)
                EventQualityFlag.session_energy_mismatch
            ++ flag_if (duration_mismatch seconds s.last_reported_duration)
                EventQualityFlag.session_duration_mismatch;
        observed_states = s.observed_states;
        source_first_frame_id = s.first_frame_id;
        source_last_frame_id = s.last_frame_id;
      }

  abbrev pub close_changed :
      ConnectorObservation → List ReconstructedSession → Option OpenSession → SessionProgress
  close_changed o done none = record { reconstructed = done; active = none }
  close_changed o done (some s) =
      if id_changed (session_id_of o) s.current_session_id
      then record {
        reconstructed = done ++ close_active_session s o.event_time o ∷ [];
        active = none;
      }
      else record { reconstructed = done; active = some s }

  abbrev pub begin_or_accumulate :
      ConnectorObservation → List ReconstructedSession → Option OpenSession → SessionProgress
  begin_or_accumulate o done none =
      if is_session_start o
      then record { reconstructed = done; active = some (start_session o) }
      else record { reconstructed = done; active = none }
  begin_or_accumulate o done (some s) =
      let next = accumulate o s in
      if is_completed_by o next
      then record {
        reconstructed = done ++ close_active_session next o.event_time o ∷ [];
        active = none;
      }
      else record { reconstructed = done; active = some next }

  -- One turn of `for obs in ordered`.
  unfoldable pub observe_session : ConnectorObservation → SessionProgress → SessionProgress
  unfolding session_id_of close_active_session
  observe_session o p =
      let q = close_changed o p.reconstructed p.active in
      begin_or_accumulate o q.reconstructed q.active

  unfoldable pub observe_sessions : List ConnectorObservation → SessionProgress → SessionProgress
  unfolding observe_session
  observe_sessions [] p = p
  observe_sessions (o ∷ os) p = observe_sessions os (observe_session o p)

  -- A session that is still in course is closed at the last observation.
  abbrev pub close_last :
      ConnectorObservation
      → List ReconstructedSession
      → Option OpenSession
      → List ReconstructedSession
  close_last o done none = done
  close_last o done (some s) = done ++ close_active_session s o.event_time o ∷ []

  abbrev pub over_sessions : List ConnectorObservation → List ReconstructedSession
  over_sessions [] = []
  over_sessions (o ∷ os) =
      let p = observe_sessions (o ∷ os) (record { reconstructed = []; active = none }) in
      close_last (last_observation o os) p.reconstructed p.active

  unfoldable pub reconstruct_sessions : List ConnectorObservation → List ReconstructedSession
  unfolding observe_sessions
  reconstruct_sessions observations = over_sessions (sort_by connector_le observations)
