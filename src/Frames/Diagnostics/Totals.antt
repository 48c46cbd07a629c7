-- ===== src/Frames/Diagnostics/Totals.antt =====
-- The metrics account for every frame.
use predictive_analysis.Common.{ℕ, ◌+◌, ◌≡◌, List, [], ◌∷◌, arith, length, refl}
use predictive_analysis.Frames.Models.{
  DuplicateClassification, ReconstructedFrame, frame_is_canonical,
}
use predictive_analysis.Frames.Diagnostics.{
  FileReconstructionMetrics, FileFacts, count_frames, count_status, count_class, count_canonical,
  build_file_metrics, no_frames_counted,
}

-- The frames by status, and by classification.
abbrev pub by_status : FileReconstructionMetrics → ℕ
by_status m =
    m.complete_frames + m.partial_frames + m.severely_incomplete_frames + m.malformed_frames
    + m.ambiguous_frames

abbrev pub canonical_and_replays : FileReconstructionMetrics → ℕ
canonical_and_replays m = m.canonical_frames + m.full_frame_replays + m.partial_frame_replays

-- The frames that are neither canonical nor replays.
abbrev unreported_class : DuplicateClassification → ℕ
unreported_class DuplicateClassification.ambiguous = 1
unreported_class DuplicateClassification.exact_row_duplicate = 1
unreported_class _ = 0

abbrev pub unreported : List ReconstructedFrame → ℕ
unreported [] = 0
unreported (f ∷ fs) = unreported_class f.duplicate_classification + unreported fs

by_status-count_frames :
    (fs : List ReconstructedFrame) (m : FileReconstructionMetrics)
    → by_status (count_frames fs m) ≡ by_status m + length fs
unfolding count_frames
by_status-count_frames [] m = omega arith
by_status-count_frames (f ∷ fs) m = ground (
  arith,
  by_status-count_frames fs (
      count_canonical (frame_is_canonical f)
        (count_class f.duplicate_classification (count_status f.status m))),
)

canonical-count_frames :
    (fs : List ReconstructedFrame) (m : FileReconstructionMetrics)
    → canonical_and_replays (count_frames fs m) + unreported fs
      ≡ canonical_and_replays m + length fs
unfolding count_frames
canonical-count_frames [] m = omega arith
canonical-count_frames (f ∷ fs) m = ground (
  arith,
  canonical-count_frames fs (
      count_canonical (frame_is_canonical f)
        (count_class f.duplicate_classification (count_status f.status m))),
)

-- The five status counts add up to the frames, and so do the canonical frames, the replays of both
-- kinds and the frames that are ambiguous or exact row duplicates, which are neither.
pub metrics-account_for_frames :
    (frames : List ReconstructedFrame) (facts : FileFacts)
    → let m = build_file_metrics frames facts in
      (by_status m ≡ length frames) × (canonical_and_replays m + unreported frames ≡ length frames)
unfolding build_file_metrics
metrics-account_for_frames frames facts = (
  omega (arith, by_status-count_frames frames (no_frames_counted (length frames) facts)),
  omega (arith, canonical-count_frames frames (no_frames_counted (length frames) facts)),
)

rows-count_frames :
    (fs : List ReconstructedFrame) (m : FileReconstructionMetrics)
    → ((count_frames fs m).rows_assigned ≡ m.rows_assigned)
      × ((count_frames fs m).rows_unassigned ≡ m.rows_unassigned)
unfolding count_frames
rows-count_frames [] m = (refl, refl)
rows-count_frames (f ∷ fs) m = ground (
  arith,
  rows-count_frames fs (
      count_canonical (frame_is_canonical f)
        (count_class f.duplicate_classification (count_status f.status m))),
)

-- The row counts are passed on as given.
pub metrics-rows :
    (frames : List ReconstructedFrame) (facts : FileFacts)
    → ((build_file_metrics frames facts).rows_assigned ≡ facts.rows_assigned)
      × ((build_file_metrics frames facts).rows_unassigned ≡ facts.rows_unassigned)
unfolding build_file_metrics
metrics-rows frames facts = rows-count_frames frames (no_frames_counted (length frames) facts)
