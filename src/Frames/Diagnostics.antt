-- ===== src/Frames/Diagnostics.antt =====
-- pipelines/frame_reconstruction/diagnostics.py: the metrics of one file. The run time and the
-- rendering for the operator are left out.
pub mod Totals
use predictive_analysis.Common.{
  ℕ, ◌+◌, Bool, true, false, List, [], ◌∷◌, map, nat_eq, distinct, length, select,
}
use predictive_analysis.Frames.Models.{
  FrameStatus, DuplicateClassification, ReconstructedFrame, frame_is_canonical,
}

pub record FileReconstructionMetrics : Type 0 where
  pub frames_reconstructed : ℕ
  pub complete_frames : ℕ
  pub partial_frames : ℕ
  pub severely_incomplete_frames : ℕ
  pub malformed_frames : ℕ
  pub ambiguous_frames : ℕ
  pub canonical_frames : ℕ
  pub full_frame_replays : ℕ
  pub partial_frame_replays : ℕ
  pub same_timestamp_distinct_frames : ℕ
  pub collision_timestamps : ℕ
  pub raw_rows : ℕ
  pub unique_timestamps : ℕ
  pub expected_positions_per_frame : ℕ
  pub exact_duplicate_rows : ℕ
  pub rows_assigned : ℕ
  pub rows_unassigned : ℕ

-- The arguments of `build_file_metrics` that are passed on as they are.
pub record FileFacts : Type 0 where
  pub raw_rows : ℕ
  pub unique_timestamps : ℕ
  pub expected_positions_per_frame : ℕ
  pub exact_duplicate_rows : ℕ
  pub rows_assigned : ℕ
  pub rows_unassigned : ℕ

abbrev pub count_status : FrameStatus → FileReconstructionMetrics → FileReconstructionMetrics
count_status FrameStatus.complete m = record m { complete_frames = m.complete_frames + 1 }
count_status FrameStatus.partial m = record m { partial_frames = m.partial_frames + 1 }
count_status FrameStatus.severely_incomplete m = record m {
  severely_incomplete_frames = m.severely_incomplete_frames + 1;
}
count_status FrameStatus.malformed m = record m { malformed_frames = m.malformed_frames + 1 }
count_status FrameStatus.ambiguous m = record m { ambiguous_frames = m.ambiguous_frames + 1 }

abbrev pub count_class :
    DuplicateClassification → FileReconstructionMetrics → FileReconstructionMetrics
count_class DuplicateClassification.full_frame_replay m = record m {
  full_frame_replays = m.full_frame_replays + 1;
}
count_class DuplicateClassification.partial_frame_replay m = record m {
  partial_frame_replays = m.partial_frame_replays + 1;
}
count_class DuplicateClassification.same_timestamp_distinct_frame m = record m {
  same_timestamp_distinct_frames = m.same_timestamp_distinct_frames + 1;
}
count_class _ m = m

abbrev pub count_canonical : Bool → FileReconstructionMetrics → FileReconstructionMetrics
count_canonical true m = record m { canonical_frames = m.canonical_frames + 1 }
count_canonical false m = m

-- The loop over the frames.
unfoldable pub count_frames :
    List ReconstructedFrame → FileReconstructionMetrics → FileReconstructionMetrics
count_frames [] m = m
count_frames (f ∷ fs) m = count_frames fs (
    count_canonical (frame_is_canonical f)
      (count_class f.duplicate_classification (count_status f.status m)))

abbrev is_distinct_class : DuplicateClassification → Bool
is_distinct_class DuplicateClassification.same_timestamp_distinct_frame = true
is_distinct_class _ = false

abbrev is_collision : ReconstructedFrame → Bool
is_collision f = is_distinct_class f.duplicate_classification

abbrev pub no_frames_counted : ℕ → FileFacts → FileReconstructionMetrics
no_frames_counted frames facts = record {
  frames_reconstructed = frames;
  complete_frames = 0;
  partial_frames = 0;
  severely_incomplete_frames = 0;
  malformed_frames = 0;
  ambiguous_frames = 0;
  canonical_frames = 0;
  full_frame_replays = 0;
  partial_frame_replays = 0;
  same_timestamp_distinct_frames = 0;
  collision_timestamps = 0;
  raw_rows = facts.raw_rows;
  unique_timestamps = facts.unique_timestamps;
  expected_positions_per_frame = facts.expected_positions_per_frame;
  exact_duplicate_rows = facts.exact_duplicate_rows;
  rows_assigned = facts.rows_assigned;
  rows_unassigned = facts.rows_unassigned;
}

unfoldable pub build_file_metrics : List ReconstructedFrame → FileFacts → FileReconstructionMetrics
unfolding count_frames
build_file_metrics frames facts =
    let m = count_frames frames (no_frames_counted (length frames) facts) in
    record m {
      collision_timestamps =
          length (
            distinct (map (λ (f : ReconstructedFrame). f.event_time) (select is_collision frames)));
    }
