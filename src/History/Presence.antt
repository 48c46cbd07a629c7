-- ===== src/History/Presence.antt =====
-- pipelines/historical/topology_tracker.py: the intervals in which components are seen. A time is in
-- seconds, and the date of a time is a parameter, since it depends on the time zone.
pub mod Intervals
use predictive_analysis.Common.{
  ℕ, suc, ◌+◌, Bool, true, false, Option, none, some, List, [], ◌∷◌, leb, contains, if◌then◌else◌,
  min, max, nat_eq, length,
}
use predictive_analysis.Common.Dict.{Dict, get, put}
use predictive_analysis.Common.Sorting.{sort_by}

pub record ComponentPresence : Type 0 where
  pub component_id : ℕ
  pub first_seen : ℕ
  pub last_seen : ℕ
  pub observation_count : ℕ
  pub active_dates : List ℕ

-- `ComponentPresence.active_days_count`
abbrev pub active_days_count : ComponentPresence → ℕ
active_days_count p = length p.active_dates

-- `(component_id, event_time)`
abbrev pub Sighting : Type 0
Sighting = ℕ × ℕ

abbrev pub sighting_le : Sighting → Sighting → Bool
sighting_le a b = leb a.1 b.1

-- `active_dates.add(obs_date)`
abbrev add_date : ℕ → List ℕ → List ℕ
add_date date dates = if contains dates date then dates else date ∷ dates

module _ (date_of : ℕ → ℕ) where
  -- The presence of a component after one more sighting.
  abbrev pub seen : ℕ → ℕ → Option ComponentPresence → ComponentPresence
  seen id time none = record {
    component_id = id;
    first_seen = time;
    last_seen = time;
    observation_count = 1;
    active_dates = date_of time ∷ [];
  }
  seen id time (some p) = record p {
    last_seen = max p.last_seen time;
    first_seen = min p.first_seen time;
    observation_count = suc p.observation_count;
    active_dates = add_date (date_of time) p.active_dates;
  }

  unfoldable pub track_all : List Sighting → Dict ℕ ComponentPresence → Dict ℕ ComponentPresence
  track_all [] presence = presence
  track_all ((id, time) ∷ later) presence =
      track_all later (put id (seen id time (get id presence)) presence)

  unfoldable pub track_presence : List Sighting → Dict ℕ ComponentPresence
  unfolding track_all
  track_presence observations = track_all (sort_by sighting_le observations) []
