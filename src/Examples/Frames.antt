-- ===== src/Examples/Frames.antt =====
-- A file of two connectors and one SMR with a replayed frame and a distinct one.
use Prim.Native.String.{◌++◌ as append}
use mathlib.Core.List.{Mem}
use predictive_analysis.Common.{
  ℕ, ◌+◌, ◌≤◌, false, ◌≡◌, Option, none, some, List, [], ◌∷◌, map, String, refl, arith, All, length,
}
use predictive_analysis.Common.Dict.{get_or}
use predictive_analysis.Common.Sorting.{sort_by}
use predictive_analysis.Frames.Models.{
  LogicalPosition, RawRowRef, TimestampGroup, ReconstructedFrame, DuplicateClassification,
  FrameStatus,
}
use predictive_analysis.Frames.Groups.{
  group_key_eq, count_into, implied_frame_count, describe_occupancy, build_timestamp_groups,
}
use predictive_analysis.Frames.LogicalKeys.{
  Cell, SourceFrame, Roles, clean, build, assigned_row_count, unassigned_row_count,
}
use predictive_analysis.Frames.LogicalKeys.Occurrences.{IsNumbered, build-numbers_occurrences}
use predictive_analysis.Frames.Topology.{pad, resolve, labels, sorted_identities, cross}
use predictive_analysis.Frames.Topology.Padding.{length-pad}
use predictive_analysis.Frames.Builder.{
  FrameCandidate, build_frame_candidates, total_rows_assigned, bucket_into,
}
use predictive_analysis.Frames.Builder.Rows.{build-conserves_rows}
use predictive_analysis.Frames.Builder.Provenance.{IsFiled, build-rows_of_group}
use predictive_analysis.Frames.Replay.{
  ClassifiedFrame, classify_group, payload_of, position_fingerprints, frame_fingerprint,
  differing_positions, matching_positions, compare_canonical, classify_rest, classify_next,
}
use predictive_analysis.Frames.Replay.Verdicts.{AllJust, classify-full_replays}
use predictive_analysis.Frames.Replay.Canonical.{ComparesWith, classify-ComparesWith_first}
use predictive_analysis.Frames.Diagnostics.{FileFacts, build_file_metrics, count_frames}
use predictive_analysis.Frames.Diagnostics.Totals.{
  by_status, canonical_and_replays, unreported, metrics-account_for_frames,
}
use predictive_analysis.Frames.Reconstruction.{ReconstructionInput, reconstruct, groups_of}
use predictive_analysis.Frames.Reconstruction.Rows.{reconstruct-accounts_for_rows}

-- A hash that keeps the text, and a row fingerprint that joins the cells.
abbrev same_text : String → String
same_text s = s

abbrev joined_cells : List String → List Cell → String
joined_cells columns [] = ""
joined_cells columns (none ∷ cells) = append "-|" (joined_cells columns cells)
joined_cells columns (some v ∷ cells) = append v (append "|" (joined_cells columns cells))

abbrev row : String → String → String → List Cell
row connector smr value = some "EX1" ∷ some connector ∷ some smr ∷ some value ∷ []

abbrev sample : SourceFrame
sample = record {
  columns = "charger" ∷ "connector" ∷ "smr" ∷ "power" ∷ [];
  rows =
      row "1" "1" "10"
      ∷ row "2" "1" "20"
      ∷ row "1" "1" "10"
      ∷ row "2" "1" "20"
      ∷ row "1" "1" "11"
      ∷ row " " "1" "5"
      ∷ row "1" "1" "12"
      ∷ [];
}

abbrev sample_roles : Roles
sample_roles = record { connector = some "connector"; smr = some "smr"; charger = some "charger" }

abbrev sample_times : List (Option ℕ)
sample_times = some 5 ∷ some 5 ∷ some 5 ∷ some 5 ∷ some 5 ∷ some 5 ∷ []

abbrev sample_input : ReconstructionInput
sample_input = record {
  frame = sample;
  event_times = sample_times;
  roles = sample_roles;
  telemetry_file_id = "file";
  charger_id_fallback = none;
  charger_connector_count = some 2;
  charger_smr_count = some 1;
  default_connector_count = none;
  default_smr_count = none;
  severely_incomplete_below_pct = 50000;
  max_frames_per_timestamp = 64;
}

build-sample :
    let keyed = build joined_cells sample_roles none sample "file" sample_times in
    (assigned_row_count keyed ≡ 5)
    × (unassigned_row_count keyed ≡ 2)
    × (keyed.observed_connectors ≡ "1" ∷ "2" ∷ [])
unfolding build sort_by
build-sample = (refl, refl, refl)

numeric_identity : (clean (some " 1.0 ") ≡ "1") × (clean (some "GUN-A.0") ≡ "GUN-A.0")
unfolding clean
numeric_identity = (refl, refl)

reconstruct_sample :
    map
      (λ (f : ReconstructedFrame). f.duplicate_classification)
      (reconstruct joined_cells same_text sample_input).frames
    ≡ DuplicateClassification.unique ∷ DuplicateClassification.full_frame_replay
      ∷ DuplicateClassification.same_timestamp_distinct_frame ∷ []
unfolding reconstruct resolve labels sorted_identities cross sort_by build build_timestamp_groups
    build_frame_candidates classify_group count_into count_frames bucket_into payload_of
    position_fingerprints frame_fingerprint differing_positions matching_positions compare_canonical
    classify_rest classify_next
reconstruct_sample = refl

sample_limit :
    All
      (λ g. implied_frame_count (describe_occupancy g) ≤ 64)
      (groups_of joined_cells same_text sample_input)
unfolding resolve labels sorted_identities cross sort_by build build_timestamp_groups
    describe_occupancy count_into
sample_limit = omega arith

reconstruct-accounts_for_rows_example :
    let m = (reconstruct joined_cells same_text sample_input).metrics in
    m.rows_assigned + m.rows_unassigned ≡ 7
reconstruct-accounts_for_rows_example =
    reconstruct-accounts_for_rows joined_cells same_text sample_input sample_limit

build-numbers_occurrences_example : IsNumbered (
    get_or
      ("EX1", 5)
      []
      (build joined_cells sample_roles none sample "file" sample_times).by_timestamp)
build-numbers_occurrences_example =
    build-numbers_occurrences joined_cells sample_roles none sample "file" sample_times ("EX1", 5)

-- Two rows of one position and one of another.
abbrev position : String → LogicalPosition
position c = record { connector_id = c; smr_id = "1" }

abbrev raw_row : ℕ → String → ℕ → String → RawRowRef
raw_row n c k fingerprint = record {
  telemetry_file_id = "file";
  source_row_number = n;
  position = position c;
  occurrence_index = k;
  row_fingerprint = fingerprint;
  unassigned = false;
}

abbrev small_rows : List RawRowRef
small_rows = raw_row 0 "1" 0 "a" ∷ raw_row 1 "2" 0 "b" ∷ raw_row 2 "1" 1 "a" ∷ []

abbrev small_group : TimestampGroup
small_group = record {
  charger_id = "EX1";
  event_time = 5;
  rows = small_rows;
  expected_positions = position "1" ∷ position "2" ∷ [];
  occurrences = (position "1", 2) ∷ (position "2", 1) ∷ [];
  unassigned_rows = [];
}

small_group-counted : small_group.occurrences ≡ count_into small_rows []
unfolding count_into
small_group-counted = refl

build-conserves_rows_example : total_rows_assigned (build_frame_candidates small_group 50000 64) ≡ 3
unfolding describe_occupancy
build-conserves_rows_example =
    build-conserves_rows small_group 50000 64 small_group-counted (omega arith)

build-rows_of_group_example :
    All
      (λ c. IsFiled (λ r. Mem r small_rows) c.rows_by_position)
      (build_frame_candidates small_group 50000 64)
build-rows_of_group_example = build-rows_of_group small_group 50000 64

length-pad_example : length (pad 4 4 ("2" ∷ "7" ∷ []) 1) ≡ 4
length-pad_example = length-pad 4 ("2" ∷ "7" ∷ []) (omega arith)

-- The candidates of the small group: a whole frame and the repetition of one of its positions.
abbrev candidate : ℕ → List (LogicalPosition × RawRowRef) → FrameCandidate
candidate k rows = record {
  sequence = k;
  rows_by_position = rows;
  expected_positions = position "1" ∷ position "2" ∷ [];
  status = FrameStatus.complete;
  is_fragment = false;
  note = none;
}

abbrev whole : FrameCandidate
whole = candidate 0 ((position "1", raw_row 0 "1" 0 "a") ∷ (position "2", raw_row 1 "2" 0 "b") ∷ [])

abbrev repeated : FrameCandidate
repeated = candidate 1 ((position "1", raw_row 2 "1" 1 "a") ∷ [])

classify-full_replays_example :
    AllJust (classify_group same_text (whole ∷ repeated ∷ whole ∷ [])) []
classify-full_replays_example = classify-full_replays same_text (whole ∷ repeated ∷ whole ∷ [])

classify-ComparesWith_first_example :
    (f : ClassifiedFrame) × (fs : List ClassifiedFrame) × (classify_group same_text
        (whole ∷ repeated ∷ [])
      ≡ f ∷ fs)
    × (f.classification ≡ DuplicateClassification.unique)
    × All (ComparesWith whole) fs
classify-ComparesWith_first_example =
    classify-ComparesWith_first same_text whole (repeated ∷ []) (omega arith, tt)

abbrev frame : DuplicateClassification → ReconstructedFrame
frame kind = record {
  charger_id = "EX1";
  event_time = 5;
  frame_sequence = 0;
  rows = [];
  frame_fingerprint = "";
  status = FrameStatus.complete;
  duplicate_classification = kind;
  expected_position_count = 0;
  observed_position_count = 0;
  missing_position_count = 0;
  unexpected_position_count = 0;
  replay_of_sequence = none;
  missing_positions = [];
  unexpected_positions = [];
  issues = [];
}

abbrev frames : List ReconstructedFrame
frames =
    frame DuplicateClassification.unique
    ∷ frame DuplicateClassification.full_frame_replay
    ∷ frame DuplicateClassification.ambiguous
    ∷ []

abbrev facts : FileFacts
facts = record {
  raw_rows = 3;
  unique_timestamps = 1;
  expected_positions_per_frame = 2;
  exact_duplicate_rows = 0;
  rows_assigned = 3;
  rows_unassigned = 0;
}

metrics-account_for_frames_example :
    let m = build_file_metrics frames facts in
    (by_status m ≡ 3) × (canonical_and_replays m + unreported frames ≡ 3)
metrics-account_for_frames_example = metrics-account_for_frames frames facts
