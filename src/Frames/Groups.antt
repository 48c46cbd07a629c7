-- ===== src/Frames/Groups.antt =====
-- pipelines/frame_reconstruction/timestamp_groups.py: the groups of rows that share a charger and
-- an event time, and how the rows of a group occupy the expected positions.
pub mod Counting
use predictive_analysis.Common.{
  ℕ, ◌+◌, Bool, true, false, ◌≡◌, List, [], ◌∷◌, ◌++◌, map, String, arith, ◌&&◌, ◌||◌, ◌↔◌, Eq,
  ◌==◌, string_eq, nat_eq, eq_iff, distinct, length, max, min, ltb,
}
use predictive_analysis.Common.Dict
use predictive_analysis.Common.Dict.{Dict, keys, values, get_or, put}
use predictive_analysis.Common.Sorting.{sort_by}
use predictive_analysis.Common.Text.{text_le}
use predictive_analysis.Frames.Models.{
  LogicalPosition, position_eq, position_le, RawRowRef, TimestampGroup, raw_row_count,
  observed_positions, missing_positions, unexpected_positions, greatest, is_evenly_occupied,
  position_eq,
}

-- The key `(charger_id, event_time)`.
abbrev pub GroupKey : Type 0
GroupKey = String × ℕ

abbrev pub same_key : GroupKey → GroupKey → Bool
same_key a b = a.0 == b.0 && a.1 == b.1

pub same_key_iff : (a b : GroupKey) → (same_key a b ≡ true) ↔ (a ≡ b)
same_key_iff (c, t) (d, u) = ground (arith, eq_iff c d)

instance abbrev pub group_key_eq : Eq GroupKey
group_key_eq = record { same = same_key; same_iff = same_key_iff }

-- Chronological order: `key=lambda k: (k[1], k[0])`.
abbrev pub key_le : GroupKey → GroupKey → Bool
key_le a b = ltb a.1 b.1 || a.1 == b.1 && text_le a.0 b.0

-- The loop `occurrences[row.position] = occurrences.get(row.position, 0) + 1`.
unfoldable pub count_into : List RawRowRef → Dict LogicalPosition ℕ → Dict LogicalPosition ℕ
count_into [] d = d
count_into (r ∷ rows) d = count_into rows (put r.position (get_or r.position 0 d + 1) d)

-- `topology.positions` is the last argument.
unfoldable pub group_of :
    Dict GroupKey (List RawRowRef)
    → Dict GroupKey (List RawRowRef)
    → List LogicalPosition
    → GroupKey
    → TimestampGroup
group_of rows_by unassigned_by expected key =
    let rows = get_or key [] rows_by in
    record {
      charger_id = key.0;
      event_time = key.1;
      rows = rows;
      expected_positions = expected;
      occurrences = count_into rows [];
      unassigned_rows = get_or key [] unassigned_by;
    }

unfoldable pub build_timestamp_groups :
    Dict GroupKey (List RawRowRef)
    → Dict GroupKey (List RawRowRef)
    → List LogicalPosition
    → List TimestampGroup
unfolding group_of
build_timestamp_groups rows_by unassigned_by expected =
    map (group_of rows_by unassigned_by expected)
      (sort_by key_le (distinct (keys rows_by ++ keys unassigned_by)))

pub record GroupOccupancy : Type 0 where
  pub raw_row_count : ℕ
  pub expected_position_count : ℕ
  pub observed_position_count : ℕ
  pub missing_positions : List LogicalPosition
  pub unexpected_positions : List LogicalPosition
  pub occurrences : Dict LogicalPosition ℕ
  pub max_occurrence : ℕ
  pub min_occurrence : ℕ
  pub is_even : Bool

-- `min(counts, default=0)`
abbrev pub least : List ℕ → ℕ
least [] = 0
least (n ∷ []) = n
least (n ∷ (m ∷ ns)) = min n (least (m ∷ ns))

unfoldable pub describe_occupancy : TimestampGroup → GroupOccupancy
describe_occupancy g = record {
  raw_row_count = raw_row_count g;
  expected_position_count = length g.expected_positions;
  observed_position_count = length (observed_positions g);
  missing_positions = sort_by position_le (missing_positions g);
  unexpected_positions = sort_by position_le (unexpected_positions g);
  occurrences = g.occurrences;
  max_occurrence = greatest (values g.occurrences);
  min_occurrence = least (values g.occurrences);
  is_even = is_evenly_occupied g;
}

abbrev pub implied_frame_count : GroupOccupancy → ℕ
implied_frame_count o = max o.max_occurrence 1

abbrev no_positions : List LogicalPosition → Bool
no_positions [] = true
no_positions (_ ∷ _) = false

unfoldable pub looks_like_clean_multiframe : GroupOccupancy → Bool
looks_like_clean_multiframe o =
    o.is_even && ltb 1 o.max_occurrence && no_positions o.missing_positions
