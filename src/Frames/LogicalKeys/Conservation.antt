-- ===== src/Frames/LogicalKeys/Conservation.antt =====
-- Every row of the file is filed exactly once.
use predictive_analysis.Common.{
  eqb, if◌then◌else◌, ℕ, ◌+◌, true, false, ◌≡◌, Option, none, some, List, [], ◌∷◌, arith, refl,
  String, length, length-append, Bool-cases, inl, inr,
}
use predictive_analysis.Common.Dict.{Dict, get_or, append_to}
use predictive_analysis.Frames.Models.{RawRowRef}
use predictive_analysis.Frames.Groups.{GroupKey, group_key_eq}
use predictive_analysis.Frames.LogicalKeys.{
  counter_key_eq, Cell, SourceFrame, Roles, KeyState, Identity, row_total, assigned_row_count,
  unassigned_row_count, file_row, key_rows, build, no_rows_yet, note_identity, identify,
  event_time_at, identity_is_assigned, row_ref, position_of,
}

row_total-append_to :
    (k : GroupKey) (r : RawRowRef) (d : Dict GroupKey (List RawRowRef))
    → row_total (append_to k r d) ≡ row_total d + 1
row_total-append_to k r [] = refl
row_total-append_to k r ((j, rows) ∷ d) =
    ground (arith, row_total-append_to k r d, length-append rows (r ∷ []))

-- The rows that a state has filed.
abbrev filed : KeyState → ℕ
filed s = row_total s.by_timestamp + (row_total s.unassigned + length s.undatable)

filed-file_row :
    (file_id : String) (index : ℕ) (i : Identity) (t : Option ℕ) (s : KeyState)
    → filed (file_row file_id index i t s) ≡ filed s + 1
unfolding file_row
filed-file_row file_id index i none s =
    omega (arith, length-append s.undatable (row_ref file_id index i 0 true ∷ []))
filed-file_row file_id index i (some t) s = elim (Bool-cases (identity_is_assigned i)) [
  | inl e ↦ rw e (
      omega (
        arith,
        row_total-append_to (i.charger_id, t)
            (row_ref file_id index i
              (get_or ((i.charger_id, t), position_of i) 0 s.occurrence_counter) false)
            s.by_timestamp,
      ))
  | inr e ↦ rw e (
      omega (
        arith,
        row_total-append_to (i.charger_id, t) (row_ref file_id index i 0 true) s.unassigned,
      ))
]

module _ (row_fingerprint : List String → List Cell → String) (roles : Roles)
    (charger_fallback : Option String) (file_id : String) (columns : List String)
    (times : List (Option ℕ)) where
  filed-key_rows :
      (index : ℕ) (rows : List (List Cell)) (s : KeyState)
      → filed (key_rows row_fingerprint roles charger_fallback file_id columns times index rows s)
        ≡ filed s + length rows
  unfolding key_rows
  filed-key_rows index [] s = omega arith
  filed-key_rows index (cells ∷ rows) s =
      let i = identify row_fingerprint roles charger_fallback columns cells in
      let t = event_time_at times index in
      omega (
        arith,
        filed-key_rows (index + 1) rows (file_row file_id index i t (note_identity i s)),
        filed-file_row file_id index i t (note_identity i s),
      )

pub build-counts_every_row :
    (row_fingerprint : List String → List Cell → String) (roles : Roles)
    (charger_fallback : Option String) (frame : SourceFrame) (file_id : String)
    (times : List (Option ℕ))
    → let keyed = build row_fingerprint roles charger_fallback frame file_id times in
      assigned_row_count keyed + unassigned_row_count keyed ≡ length frame.rows
unfolding build
build-counts_every_row row_fingerprint roles charger_fallback frame file_id times = omega (
  arith,
  filed-key_rows row_fingerprint roles charger_fallback file_id frame.columns times 0 frame.rows
      no_rows_yet,
)

-- The number of rows that have a number, of a list, of the groups of a dict, and of a state.
abbrev pub numbered : ℕ → List RawRowRef → ℕ
numbered n [] = 0
numbered n (r ∷ rows) = (if eqb r.source_row_number n then 1 else 0) + numbered n rows

abbrev pub numbered_in : ℕ → Dict GroupKey (List RawRowRef) → ℕ
numbered_in n [] = 0
numbered_in n ((k, rows) ∷ d) = numbered n rows + numbered_in n d

abbrev numbered_by : ℕ → KeyState → ℕ
numbered_by n s =
    numbered_in n s.by_timestamp + (numbered_in n s.unassigned + numbered n s.undatable)
