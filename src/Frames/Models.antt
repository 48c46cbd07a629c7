-- ===== src/Frames/Models.antt =====
-- pipelines/frame_reconstruction/models.py: the vocabulary and the value objects. An event time
-- is the number of microseconds since an epoch, a frozenset the list of its members, each once,
-- and an identifier that is compared only for equality is a text.
use predictive_analysis.Common.{
  ℕ, ◌+◌, Bool, true, false, ◌≡◌, Option, List, [], ◌∷◌, String, arith, not, ◌&&◌, ◌↔◌, Eq, ◌==◌,
  string_eq, nat_eq, eq_iff, select, contains, distinct, length, max, if◌then◌else◌, leb,
}
use predictive_analysis.Common.Dict.{Dict, keys, values}
use predictive_analysis.Common.Text.{is_empty, text_le}

pub data FrameStatus : Type 0 where
  complete partial severely_incomplete malformed ambiguous : FrameStatus

pub data DuplicateClassification : Type 0 where
  unique exact_row_duplicate full_frame_replay partial_frame_replay : DuplicateClassification
  same_timestamp_distinct_frame ambiguous : DuplicateClassification

pub data ReconstructionIssueType : Type 0 where
  frame_incomplete frame_overcomplete frame_missing_position : ReconstructionIssueType
  frame_unexpected_position ambiguous_frame_boundary full_frame_replay : ReconstructionIssueType
  partial_frame_replay same_timestamp_distinct_frame : ReconstructionIssueType
  inconsistent_topology entity_id_missing unassigned_raw_row : ReconstructionIssueType

pub record LogicalPosition : Type 0 where
  pub connector_id : String
  pub smr_id : String

abbrev pub same_position : LogicalPosition → LogicalPosition → Bool
same_position p q = p.connector_id == q.connector_id && p.smr_id == q.smr_id

pub same_position_iff : (p q : LogicalPosition) → (same_position p q ≡ true) ↔ (p ≡ q)
same_position_iff p q =
    ground (arith, eq_iff p.connector_id q.connector_id, eq_iff p.smr_id q.smr_id)

instance abbrev pub position_eq : Eq LogicalPosition
position_eq = record { same = same_position; same_iff = same_position_iff }

-- The order of the dataclass: by connector, then by SMR.
abbrev pub position_le : LogicalPosition → LogicalPosition → Bool
position_le p q =
    if p.connector_id == q.connector_id
    then text_le p.smr_id q.smr_id
    else text_le p.connector_id q.connector_id

-- `LogicalPosition.is_assigned`
abbrev pub position_is_assigned : LogicalPosition → Bool
position_is_assigned p = not (is_empty p.connector_id) && not (is_empty p.smr_id)

abbrev pub unassigned_position : LogicalPosition
unassigned_position = record { connector_id = ""; smr_id = "" }

pub record RawRowRef : Type 0 where
  pub telemetry_file_id : String
  pub source_row_number : ℕ
  pub position : LogicalPosition
  pub occurrence_index : ℕ
  pub row_fingerprint : String
  pub unassigned : Bool

-- `RawRowRef.is_assigned`
abbrev pub row_is_assigned : RawRowRef → Bool
row_is_assigned r = not r.unassigned

pub record TimestampGroup : Type 0 where
  pub charger_id : String
  pub event_time : ℕ
  pub rows : List RawRowRef
  pub expected_positions : List LogicalPosition
  pub occurrences : Dict LogicalPosition ℕ
  pub unassigned_rows : List RawRowRef

-- The difference of two sets.
abbrev pub without : List LogicalPosition → List LogicalPosition → List LogicalPosition
without ps qs = select (λ p. not (contains qs p)) ps

-- `TimestampGroup.raw_row_count`
abbrev pub raw_row_count : TimestampGroup → ℕ
raw_row_count g = length g.rows + length g.unassigned_rows

abbrev pub observed_positions : TimestampGroup → List LogicalPosition
observed_positions g = keys g.occurrences

abbrev pub missing_positions : TimestampGroup → List LogicalPosition
missing_positions g = without g.expected_positions (observed_positions g)

abbrev pub unexpected_positions : TimestampGroup → List LogicalPosition
unexpected_positions g = without (observed_positions g) g.expected_positions

-- `max(values, default=0)`
abbrev pub greatest : List ℕ → ℕ
greatest [] = 0
greatest (n ∷ ns) = max n (greatest ns)

-- `TimestampGroup.max_occurrence`
abbrev pub group_max_occurrence : TimestampGroup → ℕ
group_max_occurrence g = greatest (values g.occurrences)

abbrev pub is_evenly_occupied : TimestampGroup → Bool
is_evenly_occupied g = leb (length (distinct (values g.occurrences))) 1

pub record ReconstructedFrame : Type 0 where
  pub charger_id : String
  pub event_time : ℕ
  pub frame_sequence : ℕ
  pub rows : List RawRowRef
  pub frame_fingerprint : String
  pub status : FrameStatus
  pub duplicate_classification : DuplicateClassification
  pub expected_position_count : ℕ
  pub observed_position_count : ℕ
  pub missing_position_count : ℕ
  pub unexpected_position_count : ℕ
  pub replay_of_sequence : Option ℕ
  pub missing_positions : List LogicalPosition
  pub unexpected_positions : List LogicalPosition
  pub issues : List ReconstructionIssueType

abbrev pub is_canonical_class : DuplicateClassification → Bool
is_canonical_class unique = true
is_canonical_class same_timestamp_distinct_frame = true
is_canonical_class _ = false

-- `ReconstructedFrame.is_canonical`
abbrev pub frame_is_canonical : ReconstructedFrame → Bool
frame_is_canonical f = is_canonical_class f.duplicate_classification
