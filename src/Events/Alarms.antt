-- ===== src/Events/Alarms.antt =====
-- pipelines/events/alarm_reconstructor.py: intervals of an alarm from its observations. The debounce
-- time is in microseconds, as the times are.
pub mod Timeline
pub mod Covered
use predictive_analysis.Common.{
  ℕ, ◌+◌, Bool, true, false, Option, none, some, List, [], ◌∷◌, ◌++◌, map, String, ◌&&◌, ◌||◌, leb,
  ltb, eqb, if◌then◌else◌,
}
use predictive_analysis.Common.Sorting.{sort_by}
use predictive_analysis.Common.Text.{strip, lower, one_of}
use predictive_analysis.Events.Models.{
  AlarmSubject, ReconstructedAlarm, ReconstructedFault, TelemetryGapInterval, AlarmSeverity,
  EventConfidence, EventQualityFlag, has_gap_within, duration,
}

pub record AlarmObservation : Type 0 where
  pub event_time : ℕ
  pub frame_sequence : ℕ
  pub frame_id : String
  pub is_active : Bool
  pub state_str : Option String

-- A text that is not one of the normal states is not active either.
unfoldable pub is_active_state : Option String → Bool
unfolding strip lower
is_active_state none = false
is_active_state (some raw) = one_of (lower (strip raw)) (
    "1" ∷ "true" ∷ "yes" ∷ "alarm" ∷ "trip" ∷ "active" ∷ "fail" ∷ "failed" ∷ "abnormal" ∷ "open"
    ∷ [])

-- The order of the key `(event_time, frame_sequence)`.
abbrev pub observation_le : AlarmObservation → AlarmObservation → Bool
observation_le a b =
    ltb a.event_time b.event_time
    || eqb a.event_time b.event_time && leb a.frame_sequence b.frame_sequence

-- The variables of an alarm that is in course.
pub record Running : Type 0 where
  pub start_time : ℕ
  pub start_state : Option String
  pub first_frame_id : String
  pub last_active_time : ℕ
  pub last_active_state : Option String
  pub last_frame_id : String

-- The alarms reconstructed so far, the latest first, and the one in course.
pub record Progress : Type 0 where
  pub reconstructed : List ReconstructedAlarm
  pub running : Option Running

abbrev pub start_of : AlarmObservation → Running
start_of o = record {
  start_time = o.event_time;
  start_state = o.state_str;
  first_frame_id = o.frame_id;
  last_active_time = o.event_time;
  last_active_state = o.state_str;
  last_frame_id = o.frame_id;
}

-- The alarm in course, seen active once more.
abbrev pub continued : AlarmObservation → Running → Running
continued o r = record r {
  last_active_time = o.event_time;
  last_active_state = o.state_str;
  last_frame_id = o.frame_id;
}

-- The last alarm, reopened and extended.
abbrev pub reopened : AlarmObservation → ReconstructedAlarm → Running
reopened o a = record {
  start_time = a.start_time;
  start_state = a.start_state;
  first_frame_id = a.source_first_frame_id;
  last_active_time = o.event_time;
  last_active_state = o.state_str;
  last_frame_id = o.frame_id;
}

-- `debounce_seconds > 0.0`, the last alarm has an end, and the observation is close enough to it.
abbrev pub is_within_debounce : ℕ → ℕ → Option ℕ → Bool
is_within_debounce debounce time none = false
is_within_debounce debounce time (some end) = ltb 0 debounce && leb time (end + debounce)

-- The turn for an active observation when no alarm is in course.
unfoldable pub begin_or_reopen : ℕ → AlarmObservation → List ReconstructedAlarm → Progress
begin_or_reopen debounce o [] = record { reconstructed = []; running = some (start_of o) }
begin_or_reopen debounce o (a ∷ older) =
    if is_within_debounce debounce o.event_time a.end_time
    then record { reconstructed = older; running = some (reopened o a) }
    else record { reconstructed = a ∷ older; running = some (start_of o) }

abbrev gap_flags : Bool → List EventQualityFlag
gap_flags true = EventQualityFlag.event_has_gap ∷ []
gap_flags false = []

-- The alarms in their order.
abbrev pub in_order : List ReconstructedAlarm → List ReconstructedAlarm → List ReconstructedAlarm
in_order [] later = later
in_order (a ∷ older) later = in_order older (a ∷ later)

module _ (subject : AlarmSubject) (severity : AlarmSeverity) (version : String)
    (gaps : List TelemetryGapInterval) where
  -- The alarm that an inactive observation ends.
  unfoldable pub cleared : AlarmObservation → Running → ReconstructedAlarm
  cleared o r =
      let has_gap = has_gap_within gaps r.start_time o.event_time in
      record {
        subject = subject;
        start_time = r.start_time;
        end_time = some o.event_time;
        duration_seconds = duration r.start_time o.event_time;
        is_open = false;
        start_state = r.start_state;
        end_state = o.state_str;
        severity = severity;
        confidence = if has_gap then EventConfidence.medium else EventConfidence.high;
        has_gap = has_gap;
        quality_flags = gap_flags has_gap;
        reconstruction_version = version;
        source_first_frame_id = r.first_frame_id;
        source_last_frame_id = o.frame_id;
      }

  -- The alarm that is still active at the last observation.
  unfoldable pub left_open : Running → ReconstructedAlarm
  left_open r =
      let has_gap = has_gap_within gaps r.start_time r.last_active_time in
      record {
        subject = subject;
        start_time = r.start_time;
        end_time = none;
        duration_seconds = duration r.start_time r.last_active_time;
        is_open = true;
        start_state = r.start_state;
        end_state = r.last_active_state;
        severity = severity;
        confidence = EventConfidence.medium;
        has_gap = has_gap;
        quality_flags = EventQualityFlag.alarm_open_ended ∷ gap_flags has_gap;
        reconstruction_version = version;
        source_first_frame_id = r.first_frame_id;
        source_last_frame_id = r.last_frame_id;
      }

  abbrev pub turn :
      ℕ → AlarmObservation → Bool → List ReconstructedAlarm → Option Running → Progress
  turn debounce o true done none = begin_or_reopen debounce o done
  turn debounce o true done (some r) = record {
    reconstructed = done;
    running = some (continued o r);
  }
  turn debounce o false done none = record { reconstructed = done; running = none }
  turn debounce o false done (some r) = record {
    reconstructed = cleared o r ∷ done;
    running = none;
  }

  -- One turn of `for obs in ordered`.
  unfoldable pub observe : ℕ → AlarmObservation → Progress → Progress
  unfolding begin_or_reopen cleared
  observe debounce o s = turn debounce o o.is_active s.reconstructed s.running

  unfoldable pub observe_all : ℕ → List AlarmObservation → Progress → Progress
  unfolding observe
  observe_all debounce [] s = s
  observe_all debounce (o ∷ os) s = observe_all debounce os (observe debounce o s)

  -- `reconstructed`, once the open alarm is appended.
  abbrev pub with_open : List ReconstructedAlarm → Option Running → List ReconstructedAlarm
  with_open done none = done
  with_open done (some r) = left_open r ∷ done

  unfoldable pub reconstruct_alarms : ℕ → List AlarmObservation → List ReconstructedAlarm
  unfolding observe_all left_open
  reconstruct_alarms debounce observations =
      let s =
        observe_all debounce (sort_by observation_le observations)
          (record { reconstructed = []; running = none }) in
      in_order (with_open s.reconstructed s.running) []

-- The fault with the interval of an alarm.
abbrev fault_of : ReconstructedAlarm → ReconstructedFault
fault_of a = record {
  subject = a.subject;
  start_time = a.start_time;
  end_time = a.end_time;
  duration_seconds = a.duration_seconds;
  is_open = a.is_open;
  initial_reading = a.start_state;
  clearing_reading = a.end_state;
  confidence = a.confidence;
  has_gap = a.has_gap;
  quality_flags = a.quality_flags;
  reconstruction_version = a.reconstruction_version;
  source_first_frame_id = a.source_first_frame_id;
  source_last_frame_id = a.source_last_frame_id;
}

unfoldable pub reconstruct_faults :
    AlarmSubject
    → String
    → List TelemetryGapInterval
    → ℕ
    → List AlarmObservation
    → List ReconstructedFault
unfolding reconstruct_alarms
reconstruct_faults subject version gaps debounce observations =
    map fault_of
      (reconstruct_alarms subject AlarmSeverity.critical version gaps debounce observations)
