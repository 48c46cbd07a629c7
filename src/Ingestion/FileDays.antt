-- ===== src/Ingestion/FileDays.antt =====
-- pipelines/ingestion/file_day.py: the telemetry of a file, split by local business date. A datetime is
-- a number of microseconds and a date a number of days; the wall clock of the charger's zone, and the
-- time at which a wall clock shows a value, are parameters. The charger and the zone, which every
-- contribution copies from the call, are not repeated in it. The apportioned row count and the detail
-- are left out, and so are the counts that a file of one day copies from its profile.
pub mod RoundTrip
use predictive_analysis.Common.{
  ℕ, zero, suc, ◌+◌, ◌-◌, ◌*◌, ◌/◌, Bool, true, false, ◌&&◌, ◌||◌, Option, none, some, List, [],
  ◌∷◌, ◌++◌, String, map, if◌then◌else◌, leb, ltb, nat_eq, length, distinct, get_elem?, last?,
  select,
}
use predictive_analysis.Common.Dict.{Dict, append_to, keys, get_or}
use predictive_analysis.Common.Codes.{Text, text_eq, codes_le}
use predictive_analysis.Common.Sorting.{sort_by}

pub record FileDayContribution : Type 0 where
  pub business_date : ℕ
  pub first_event_at : Option ℕ
  pub last_event_at : Option ℕ
  pub unique_timestamp_count : ℕ
  pub event_second_offsets : List ℕ
  pub connectors_seen : List Text
  pub smrs_seen : List Text

abbrev pub microseconds : ℕ
microseconds = 1000000

abbrev pub day_length : ℕ
day_length = 86400000000

abbrev pub Day : Type 0
Day = ℕ × List ℕ

abbrev pub day_le : Day → Day → Bool
day_le a b = leb a.0 b.0

-- `max(sorted(counts), key=lambda value: (counts[value], value))`
abbrev better : Dict Text ℕ → Option Text → Text → Option Text
better counts none value = some value
better counts (some best) value =
    if ltb (get_or best 0 counts) (get_or value 0 counts)
    then some value
    else if ltb (get_or value 0 counts) (get_or best 0 counts)
    then some best
    else if codes_le value best
    then some best
    else some value

abbrev best_of : Dict Text ℕ → Option Text → List Text → Option Text
best_of counts best [] = best
best_of counts best (value ∷ more) = best_of counts (better counts best value) more

-- No count, no identifier.
unfoldable pub dominant_identifier : Dict Text ℕ → Option Text
dominant_identifier counts = best_of counts none (sort_by codes_le (keys counts))

module _ (wall_clock : ℕ → ℕ) (at_wall_clock : ℕ → ℕ) where
  abbrev pub date_of : ℕ → ℕ
  date_of stamp = wall_clock stamp / day_length

  -- `by_date`
  abbrev pub by_date : List ℕ → Dict ℕ (List ℕ) → Dict ℕ (List ℕ)
  by_date [] days = days
  by_date (stamp ∷ stamps) days = by_date stamps (append_to (date_of stamp) stamp days)

  -- `int((s.astimezone(tzinfo) - midnight).total_seconds())`
  abbrev pub offset_of : ℕ → ℕ → ℕ
  offset_of date stamp = (wall_clock stamp - date * day_length) / microseconds

  unfoldable pub contribution_of : List Text → List Text → Day → FileDayContribution
  contribution_of connectors smrs (date, day_stamps) =
      let ordered = sort_by leb (distinct day_stamps) in
      record {
        business_date = date;
        first_event_at = get_elem? ordered 0;
        last_event_at = last? ordered;
        unique_timestamp_count = length ordered;
        event_second_offsets = map (offset_of date) ordered;
        connectors_seen = connectors;
        smrs_seen = smrs;
      }

  -- `build_file_days`, of the unique timestamps, the connectors and the SMRs of a profile.
  unfoldable pub build_file_days : List ℕ → Dict Text ℕ → Dict Text ℕ → List FileDayContribution
  unfolding contribution_of
  build_file_days stamps connectors smrs =
      map (contribution_of (sort_by codes_le (keys connectors)) (sort_by codes_le (keys smrs)))
        (sort_by day_le (by_date stamps []))

  -- `timestamps_utc`
  unfoldable pub timestamps_utc : FileDayContribution → List ℕ
  timestamps_utc c =
      map (λ offset. at_wall_clock (c.business_date * day_length + offset * microseconds))
        c.event_second_offsets

  abbrev pub total_unique_timestamps : List FileDayContribution → ℕ
  total_unique_timestamps [] = 0
  total_unique_timestamps (c ∷ cs) = c.unique_timestamp_count + total_unique_timestamps cs
