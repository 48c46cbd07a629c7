-- ===== src/Frames/Reconstruction/Rows.antt =====
-- From the raw rows to the frames nothing is lost: the pass assigns every row or reports it.
use predictive_analysis.Common.{
  ℕ, ◌+◌, ◌≤◌, false, ◌≡◌, Option, none, some, List, [], ◌∷◌, ◌++◌, map, String, arith, refl, ◌∙◌,
  ap, length, length-append, distinct, All, Bool-cases, inl, inr,
}
use predictive_analysis.Common.Dict.{Dict, keys, values, get_or}
use predictive_analysis.Common.Sorting.{sort_by}
use predictive_analysis.Common.Sums.{
  sum_over, sum_over-sort_by, NoRepeats, NoRepeats-distinct, NoRepeats-append_to, All-contains,
  All-contains-distinct, lengths, length_at, sum_over-lengths,
}
use predictive_analysis.Frames.Models.{LogicalPosition, RawRowRef, TimestampGroup}
use predictive_analysis.Frames.Groups.{
  GroupKey, group_key_eq, key_le, group_of, build_timestamp_groups, describe_occupancy,
  implied_frame_count,
}
use predictive_analysis.Frames.LogicalKeys.{
  counter_key_eq, Cell, SourceFrame, Roles, KeyState, Identity, build, key_rows, file_row,
  no_rows_yet, note_identity, identify, event_time_at, identity_is_assigned, row_ref, position_of,
  row_total,
}
use predictive_analysis.Frames.LogicalKeys.Conservation.{build-counts_every_row}
use predictive_analysis.Frames.Builder.{build_frame_candidates, total_rows_assigned}
use predictive_analysis.Frames.Builder.Rows.{build-conserves_rows, IsCounted}
use predictive_analysis.Frames.Replay.{ClassifiedFrame, classify_group}
use predictive_analysis.Frames.Replay.Verdicts.{classify-keeps_candidates}
use predictive_analysis.Frames.Topology.{TopologyBasis}
use predictive_analysis.Frames.Diagnostics.Totals.{metrics-rows}
use predictive_analysis.Frames.Reconstruction.{
  ReconstructionInput, reconstruct, reconstruct_groups, keyed_rows, topology_of, groups_of,
  classified_in, rows_of_classified, all_rows,
}

-- The keys of the timestamp dict occur once each.
NoRepeats-file_row :
    (file_id : String) (index : ℕ) (i : Identity) (t : Option ℕ) (s : KeyState)
    → NoRepeats (keys s.by_timestamp)
    → NoRepeats (keys (file_row file_id index i t s).by_timestamp)
unfolding file_row
NoRepeats-file_row file_id index i none s h = h
NoRepeats-file_row file_id index i (some t) s h = elim (Bool-cases (identity_is_assigned i)) [
  | inl e ↦ rw e (
      NoRepeats-append_to (i.charger_id, t)
        (row_ref file_id index i (get_or ((i.charger_id, t), position_of i) 0 s.occurrence_counter)
          false)
        s.by_timestamp h)
  | inr e ↦ rw e h
]

module _ (row_fingerprint : List String → List Cell → String) (roles : Roles)
    (charger_fallback : Option String) where
  NoRepeats-key_rows :
      (file_id : String) (columns : List String) (times : List (Option ℕ)) (index : ℕ)
      (rows : List (List Cell)) (s : KeyState)
      → NoRepeats (keys s.by_timestamp)
      → NoRepeats (
          keys
            (key_rows row_fingerprint roles charger_fallback file_id columns times index rows
              s).by_timestamp)
  unfolding key_rows
  NoRepeats-key_rows file_id columns times index [] s h = h
  NoRepeats-key_rows file_id columns times index (cells ∷ rows) s h =
      let i = identify row_fingerprint roles charger_fallback columns cells in
      let t = event_time_at times index in
      NoRepeats-key_rows file_id columns times (index + 1) rows
        (file_row file_id index i t (note_identity i s))
        (NoRepeats-file_row file_id index i t (note_identity i s) h)

  NoRepeats-build :
      (frame : SourceFrame) (file_id : String) (times : List (Option ℕ))
      → NoRepeats
          (keys (build row_fingerprint roles charger_fallback frame file_id times).by_timestamp)
  unfolding build
  NoRepeats-build frame file_id times =
      NoRepeats-key_rows file_id frame.columns times 0 frame.rows no_rows_yet tt

-- The rows of all groups.
abbrev pub group_rows : List TimestampGroup → ℕ
group_rows [] = 0
group_rows (g ∷ gs) = length g.rows + group_rows gs

module _ (filed unassigned : Dict GroupKey (List RawRowRef)) (expected : List LogicalPosition) where
  group_rows-map :
      (ks : List GroupKey)
      → group_rows (map (group_of filed unassigned expected) ks) ≡ sum_over (length_at filed) ks
  unfolding group_of
  group_rows-map [] = refl
  group_rows-map (k ∷ ks) = omega (arith, group_rows-map ks)

  lengths-eq-row_total : (d : Dict GroupKey (List RawRowRef)) → lengths d ≡ row_total d
  lengths-eq-row_total [] = refl
  lengths-eq-row_total ((k, rows) ∷ d) = omega (arith, lengths-eq-row_total d)

  -- The groups hold the assigned rows.
  group_rows-build :
      NoRepeats (keys filed)
      → group_rows (build_timestamp_groups filed unassigned expected) ≡ row_total filed
  unfolding build_timestamp_groups
  group_rows-build h =
      let ks = distinct (keys filed ++ keys unassigned) in
      group_rows-map (sort_by key_le ks)
      ∙ (sum_over-sort_by key_le (length_at filed) ks
          ∙ (sum_over-lengths filed ks h (NoRepeats-distinct (keys filed ++ keys unassigned)) (
                All-contains-distinct (keys filed) (keys filed ++ keys unassigned)
                  (All-contains (keys filed) (keys unassigned)))
              ∙ lengths-eq-row_total filed))

  All-IsCounted : (ks : List GroupKey) → All IsCounted (map (group_of filed unassigned expected) ks)
  unfolding group_of
  All-IsCounted [] = tt
  All-IsCounted (k ∷ ks) = (refl, All-IsCounted ks)

  build-IsCounted : All IsCounted (build_timestamp_groups filed unassigned expected)
  unfolding build_timestamp_groups
  build-IsCounted = All-IsCounted (sort_by key_le (distinct (keys filed ++ keys unassigned)))

rows_of-candidates :
    (fs : List ClassifiedFrame)
    → rows_of_classified fs ≡ total_rows_assigned (map (λ (f : ClassifiedFrame). f.candidate) fs)
unfolding total_rows_assigned
rows_of-candidates [] = refl
rows_of-candidates (f ∷ fs) = omega (arith, rows_of-candidates fs)

module _ (row_fingerprint : List String → List Cell → String) (sha256 : String → String)
    (p : ReconstructionInput) where
  -- The group's frames are no more than the configured maximum.
  abbrev pub WithinLimit : TimestampGroup → Type 0
  WithinLimit g = implied_frame_count (describe_occupancy g) ≤ p.max_frames_per_timestamp

  rows_of-classified_in :
      (g : TimestampGroup)
      → IsCounted g
      → WithinLimit g
      → rows_of_classified (classified_in row_fingerprint sha256 p g) ≡ length g.rows
  rows_of-classified_in g c h =
      let cs =
        build_frame_candidates g p.severely_incomplete_below_pct p.max_frames_per_timestamp in
      rows_of-candidates (classify_group sha256 cs)
      ∙ (ap total_rows_assigned (classify-keeps_candidates sha256 cs)
          ∙ build-conserves_rows g p.severely_incomplete_below_pct p.max_frames_per_timestamp c h)

  assigned-reconstruct_groups :
      (basis : TopologyBasis) (gs : List TimestampGroup)
      → All IsCounted gs
      → All WithinLimit gs
      → (reconstruct_groups row_fingerprint sha256 p basis gs).1 ≡ group_rows gs
  unfolding reconstruct_groups
  assigned-reconstruct_groups basis [] c h = refl
  assigned-reconstruct_groups basis (g ∷ gs) c h =
      omega (arith, rows_of-classified_in g c.0 h.0, assigned-reconstruct_groups basis gs c.1 h.1)

length-all_rows : (d : Dict GroupKey (List RawRowRef)) → length (all_rows (values d)) ≡ row_total d
length-all_rows [] = refl
length-all_rows ((k, rows) ∷ d) =
    omega (arith, length-append rows (all_rows (values d)), length-all_rows d)

-- Unless a timestamp group exceeds the configured maximum of frames, the rows that the metrics
-- report as assigned to frames and the rows that they report as unassigned are together all rows
-- of the file.
pub reconstruct-accounts_for_rows :
    (row_fingerprint : List String → List Cell → String) (sha256 : String → String)
    (p : ReconstructionInput)
    → All (WithinLimit row_fingerprint sha256 p) (groups_of row_fingerprint sha256 p)
    → let m = (reconstruct row_fingerprint sha256 p).metrics in
      m.rows_assigned + m.rows_unassigned ≡ length p.frame.rows
unfolding reconstruct
reconstruct-accounts_for_rows row_fingerprint sha256 p h =
    let keyed = keyed_rows row_fingerprint sha256 p in
    let topology = topology_of row_fingerprint sha256 p in
    let groups = groups_of row_fingerprint sha256 p in
    let frames = (reconstruct_groups row_fingerprint sha256 p topology.basis groups).0 in
    let unassigned = all_rows (values keyed.unassigned_by_timestamp) ++ keyed.undatable_rows in
    omega (
      arith,
      metrics-rows frames,
      assigned-reconstruct_groups row_fingerprint sha256 p topology.basis groups
          (build-IsCounted keyed.by_timestamp keyed.unassigned_by_timestamp topology.positions) h,
      group_rows-build keyed.by_timestamp keyed.unassigned_by_timestamp topology.positions (
          NoRepeats-build row_fingerprint p.roles p.charger_id_fallback p.frame p.telemetry_file_id
            p.event_times),
      length-append (all_rows (values keyed.unassigned_by_timestamp)) keyed.undatable_rows,
      length-all_rows keyed.unassigned_by_timestamp,
      build-counts_every_row row_fingerprint p.roles p.charger_id_fallback p.frame
          p.telemetry_file_id p.event_times,
    )
