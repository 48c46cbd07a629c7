-- ===== src/Frames/Builder.antt =====
-- pipelines/frame_reconstruction/frame_builder.py: a timestamp group is sliced into frames, frame
-- k with occurrence k of every position. A percentage of the settings is a number of thousandths.
pub mod Slices
pub mod Rows
pub mod Provenance
use predictive_analysis.Common.{
  ℕ, zero, suc, ◌+◌, ◌*◌, Bool, true, false, Option, none, some, List, [], ◌∷◌, not, ◌&&◌, ◌||◌,
  ◌==◌, string_eq, nat_eq, length, ltb, if◌then◌else◌, leb, get_elem?,
}
use predictive_analysis.Common.Dict
use predictive_analysis.Common.Dict.{Dict, keys, values, append_to}
use predictive_analysis.Common.Sorting.{sort_by}
use predictive_analysis.Frames.Models.{
  LogicalPosition, position_eq, position_le, RawRowRef, TimestampGroup, FrameStatus, complete,
  partial, severely_incomplete, malformed, without,
}
use predictive_analysis.Frames.Groups.{describe_occupancy, implied_frame_count}

-- The note on a candidate, with the numbers that its text shows.
pub data Note : Type 0 where
  too_many_occurrences : ℕ → ℕ → Note
  fragment : ℕ → ℕ → Note
  uneven_occurrences : Note

pub record FrameCandidate : Type 0 where
  pub sequence : ℕ
  pub rows_by_position : Dict LogicalPosition RawRowRef
  pub expected_positions : List LogicalPosition
  pub status : FrameStatus
  pub is_fragment : Bool
  pub note : Option Note

abbrev row_le : RawRowRef → RawRowRef → Bool
row_le r s = leb r.source_row_number s.source_row_number

-- `FrameCandidate.rows`
unfoldable pub candidate_rows : FrameCandidate → List RawRowRef
candidate_rows c = sort_by row_le (values c.rows_by_position)

abbrev pub candidate_observed : FrameCandidate → List LogicalPosition
candidate_observed c = keys c.rows_by_position

unfoldable pub candidate_missing : FrameCandidate → List LogicalPosition
candidate_missing c = sort_by position_le (without c.expected_positions (candidate_observed c))

unfoldable pub candidate_unexpected : FrameCandidate → List LogicalPosition
candidate_unexpected c = sort_by position_le (without (candidate_observed c) c.expected_positions)

-- `_classify_status`; the last argument is the percentage in thousandths.
unfoldable pub classify_status : ℕ → ℕ → ℕ → ℕ → FrameStatus
classify_status observed expected unexpected below =
    if ltb 0 unexpected
    then malformed
    else if leb expected 0
    then FrameStatus.ambiguous
    else if leb expected observed
    then complete
    else if ltb (100000 * observed) (below * expected)
    then severely_incomplete
    else partial

abbrev occurrence_le : RawRowRef → RawRowRef → Bool
occurrence_le r s =
    ltb r.occurrence_index s.occurrence_index
    || r.occurrence_index == s.occurrence_index && leb r.source_row_number s.source_row_number

abbrev pub Buckets : Type 0
Buckets = Dict LogicalPosition (List RawRowRef)

-- `buckets.setdefault(row.position, []).append(row)`, over the rows.
unfoldable pub bucket_into : List RawRowRef → Buckets → Buckets
bucket_into [] d = d
bucket_into (r ∷ rows) d = bucket_into rows (append_to r.position r d)

abbrev pub buckets_of : TimestampGroup → Buckets
buckets_of g = bucket_into (sort_by occurrence_le g.rows) []

abbrev cons_some :
    LogicalPosition
    → Option RawRowRef
    → Dict LogicalPosition RawRowRef
    → Dict LogicalPosition RawRowRef
cons_some p none d = d
cons_some p (some r) d = (p, r) ∷ d

-- `{position: rows[k] for position, rows in buckets.items() if k < len(rows)}`
unfoldable pub slice : ℕ → Buckets → Dict LogicalPosition RawRowRef
slice k [] = []
slice k ((p, rows) ∷ d) = cons_some p (get_elem? rows k) (slice k d)

abbrev less_than : ℕ → Option ℕ → Bool
less_than n none = false
less_than n (some m) = ltb n m

abbrev note_of : Bool → Bool → ℕ → ℕ → ℕ → Option ℕ → Option Note
note_of is_fragment is_even k count observed previous =
    if is_fragment
    then some (fragment observed (elim previous [ none ↦ 0 | some m ↦ m ]))
    else if not is_even && k == 0 && ltb 1 count
    then some uneven_occurrences
    else none

-- The candidate of one turn of the loop, from `rows_by_position` and `previous_size`.
unfoldable pub candidate_of :
    TimestampGroup → ℕ → Bool → ℕ → ℕ → Dict LogicalPosition RawRowRef → Option ℕ → FrameCandidate
unfolding classify_status
candidate_of g below is_even count k rows previous =
    let observed = length rows in
    let unexpected = length (without (keys rows) g.expected_positions) in
    let is_fragment = less_than observed previous in
    record {
      sequence = k;
      rows_by_position = rows;
      expected_positions = g.expected_positions;
      status = classify_status observed (length g.expected_positions) unexpected below;
      is_fragment = is_fragment;
      note = note_of is_fragment is_even k count observed previous;
    }

abbrev is_empty_dict : Dict LogicalPosition RawRowRef → Bool
is_empty_dict [] = true
is_empty_dict (_ ∷ _) = false

-- `previous_size` after a turn: it is set in turn 0 only.
abbrev next_size : ℕ → ℕ → Option ℕ → Option ℕ
next_size k observed previous = if k == 0 then some observed else previous

-- `for sequence in range(frame_count)`, from turn k with the turns that are left.
unfoldable pub candidates_from :
    TimestampGroup → ℕ → Bool → ℕ → Buckets → ℕ → ℕ → Option ℕ → List FrameCandidate
unfolding slice candidate_of
candidates_from g below is_even count buckets k zero previous = []
candidates_from g below is_even count buckets k (suc left) previous =
    let rows = slice k buckets in
    let skipped = is_empty_dict rows in
    let next = if skipped then previous else next_size k (length rows) previous in
    let rest = candidates_from g below is_even count buckets (k + 1) left next in
    if skipped then rest else candidate_of g below is_even count k rows previous ∷ rest

-- The group has no row that a frame could hold.
abbrev no_rows : List RawRowRef → Bool
no_rows [] = true
no_rows (_ ∷ _) = false

-- `merged`: the first row of every position, in one frame whose boundary is not determined.
unfoldable pub merged_candidate : TimestampGroup → Buckets → ℕ → ℕ → FrameCandidate
unfolding slice
merged_candidate g buckets count limit = record {
  sequence = 0;
  rows_by_position = slice 0 buckets;
  expected_positions = g.expected_positions;
  status = FrameStatus.ambiguous;
  is_fragment = false;
  note = some (too_many_occurrences count limit);
}

-- The candidates of `build_frame_candidates`; the occupancy that it returns too is
-- `describe_occupancy` of the group.
unfoldable pub build_frame_candidates : TimestampGroup → ℕ → ℕ → List FrameCandidate
unfolding candidates_from merged_candidate describe_occupancy
build_frame_candidates g below limit =
    let occupancy = describe_occupancy g in
    let count = implied_frame_count occupancy in
    let buckets = buckets_of g in
    if no_rows g.rows
    then []
    else if ltb limit count
    then merged_candidate g buckets count limit ∷ []
    else candidates_from g below occupancy.is_even count buckets 0 count none

unfoldable pub total_rows_assigned : List FrameCandidate → ℕ
total_rows_assigned [] = 0
total_rows_assigned (c ∷ cs) = length c.rows_by_position + total_rows_assigned cs
