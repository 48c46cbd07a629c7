-- ===== src/Frames/Reconstruction.antt =====
-- pipelines/frame_reconstruction/reconstruction_service.py: the whole pass over one file. A group
-- that raises is not modelled, since nothing in the model raises; logging and the run time are
-- left out.
pub mod Rows
use predictive_analysis.Common.{
  ℕ, ◌+◌, Option, List, [], ◌∷◌, ◌++◌, map, String, nat_eq, distinct, length, select, if◌then◌else◌,
  any, eqb,
}
use predictive_analysis.Common.Dict.{values}
use predictive_analysis.Frames.Models.{
  RawRowRef, TimestampGroup, ReconstructedFrame, ReconstructionIssueType, frame_is_canonical,
}
use predictive_analysis.Frames.LogicalKeys.{Cell, SourceFrame, Roles, KeyedRows, build}
use predictive_analysis.Frames.Topology.{
  FrameTopology, TopologyBasis, unresolved, resolve, expected_position_count,
}
use predictive_analysis.Frames.Groups.{build_timestamp_groups, group_key_eq}
use predictive_analysis.Frames.Builder.{
  build_frame_candidates, candidate_rows, candidate_missing, candidate_unexpected,
}
use predictive_analysis.Frames.Replay.{ClassifiedFrame, classify_group}
use predictive_analysis.Frames.Diagnostics.{FileReconstructionMetrics, build_file_metrics}

pub record ReconstructionInput : Type 0 where
  pub frame : SourceFrame
  pub event_times : List (Option ℕ)
  pub roles : Roles
  pub telemetry_file_id : String
  pub charger_id_fallback : Option String
  pub charger_connector_count : Option ℕ
  pub charger_smr_count : Option ℕ
  pub default_connector_count : Option ℕ
  pub default_smr_count : Option ℕ
  pub severely_incomplete_below_pct : ℕ
  pub max_frames_per_timestamp : ℕ

pub record ReconstructionOutcome : Type 0 where
  pub frames : List ReconstructedFrame
  pub topology : FrameTopology
  pub metrics : FileReconstructionMetrics
  pub unassigned_rows : List RawRowRef

-- `ReconstructionOutcome.canonical_frames`
abbrev pub canonical_frames : ReconstructionOutcome → List ReconstructedFrame
canonical_frames o = select frame_is_canonical o.frames

abbrev issue_code : ReconstructionIssueType → ℕ
issue_code ReconstructionIssueType.frame_incomplete = 0
issue_code ReconstructionIssueType.frame_overcomplete = 1
issue_code ReconstructionIssueType.frame_missing_position = 2
issue_code ReconstructionIssueType.frame_unexpected_position = 3
issue_code ReconstructionIssueType.ambiguous_frame_boundary = 4
issue_code ReconstructionIssueType.full_frame_replay = 5
issue_code ReconstructionIssueType.partial_frame_replay = 6
issue_code ReconstructionIssueType.same_timestamp_distinct_frame = 7
issue_code ReconstructionIssueType.inconsistent_topology = 8
issue_code ReconstructionIssueType.entity_id_missing = 9
issue_code ReconstructionIssueType.unassigned_raw_row = 10

-- `dict.fromkeys(issues)`: each issue at its first place.
abbrev once :
    List ReconstructionIssueType → List ReconstructionIssueType → List ReconstructionIssueType
once earlier [] = []
once earlier (i ∷ is) =
    let rest = once (i ∷ earlier) is in
    if any (λ j. eqb (issue_code j) (issue_code i)) earlier then rest else i ∷ rest

abbrev basis_issues : TopologyBasis → List ReconstructionIssueType
basis_issues unresolved = ReconstructionIssueType.inconsistent_topology ∷ []
basis_issues _ = []

unfoldable pub frame_of : TimestampGroup → TopologyBasis → ClassifiedFrame → ReconstructedFrame
frame_of g basis item =
    let c = item.candidate in
    record {
      charger_id = g.charger_id;
      event_time = g.event_time;
      frame_sequence = c.sequence;
      rows = candidate_rows c;
      frame_fingerprint = item.frame_fingerprint;
      status = c.status;
      duplicate_classification = item.classification;
      expected_position_count = length g.expected_positions;
      observed_position_count = length c.rows_by_position;
      missing_position_count = length (candidate_missing c);
      unexpected_position_count = length (candidate_unexpected c);
      replay_of_sequence = item.replay_of_sequence;
      missing_positions = candidate_missing c;
      unexpected_positions = candidate_unexpected c;
      issues = once [] (item.issues ++ basis_issues basis);
    }

-- `[row for rows in d.values() for row in rows]`
abbrev all_rows : List (List RawRowRef) → List RawRowRef
all_rows [] = []
all_rows (rows ∷ rest) = rows ++ all_rows rest

-- `rows_assigned += len(candidate.rows_by_position)`, over the classified frames.
abbrev pub rows_of_classified : List ClassifiedFrame → ℕ
rows_of_classified [] = 0
rows_of_classified (f ∷ fs) = length f.candidate.rows_by_position + rows_of_classified fs

module _ (row_fingerprint : List String → List Cell → String) (sha256 : String → String) where
  abbrev pub keyed_rows : ReconstructionInput → KeyedRows
  keyed_rows p =
      build row_fingerprint p.roles p.charger_id_fallback p.frame p.telemetry_file_id p.event_times

  abbrev pub topology_of : ReconstructionInput → FrameTopology
  topology_of p =
      let keyed = keyed_rows p in
      resolve
        (record {
          default_connectors = p.default_connector_count;
          default_smrs = p.default_smr_count;
          stability = 500;
        })
        p.charger_connector_count p.charger_smr_count keyed.observed_connectors keyed.observed_smrs
        keyed.position_group_counts keyed.group_total

  abbrev pub groups_of : ReconstructionInput → List TimestampGroup
  groups_of p =
      let keyed = keyed_rows p in
      build_timestamp_groups keyed.by_timestamp keyed.unassigned_by_timestamp
        (topology_of p).positions

  abbrev pub classified_in : ReconstructionInput → TimestampGroup → List ClassifiedFrame
  classified_in p g =
      classify_group sha256
        (build_frame_candidates g p.severely_incomplete_below_pct p.max_frames_per_timestamp)

  -- The loop over the groups: the frames, and the rows that they hold.
  unfoldable pub reconstruct_groups :
      ReconstructionInput → TopologyBasis → List TimestampGroup → List ReconstructedFrame × ℕ
  unfolding frame_of
  reconstruct_groups p basis [] = ([], 0)
  reconstruct_groups p basis (g ∷ gs) =
      let (frames, assigned) = reconstruct_groups p basis gs in
      (
        map (frame_of g basis) (classified_in p g) ++ frames,
        rows_of_classified (classified_in p g) + assigned,
      )

  unfoldable pub reconstruct : ReconstructionInput → ReconstructionOutcome
  unfolding reconstruct_groups
  reconstruct p =
      let keyed = keyed_rows p in
      let topology = topology_of p in
      let groups = groups_of p in
      let (frames, assigned) = reconstruct_groups p topology.basis groups in
      let unassigned = all_rows (values keyed.unassigned_by_timestamp) ++ keyed.undatable_rows in
      record {
        frames = frames;
        topology = topology;
        metrics = build_file_metrics frames (record {
          raw_rows = length p.frame.rows;
          unique_timestamps = length (distinct (map (λ (g : TimestampGroup). g.event_time) groups));
          expected_positions_per_frame = expected_position_count topology;
          exact_duplicate_rows = keyed.exact_duplicate_row_count;
          rows_assigned = assigned;
          rows_unassigned = length unassigned;
        });
        unassigned_rows = unassigned;
      }
