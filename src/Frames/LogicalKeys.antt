-- ===== src/Frames/LogicalKeys.antt =====
-- pipelines/frame_reconstruction/logical_keys.py: every row of a file gets its logical identity
-- and its occurrence index, in source order. A cell is the text of a column or a null, since the
-- columns are read as text. The row fingerprint of the serializer is a parameter, and so are the
-- columns that the role resolution found.
pub mod Conservation
pub mod Occurrences
use predictive_analysis.Common.{
  ℕ, zero, suc, ◌+◌, Bool, true, false, ◌≡◌, Option, none, some, List, [], ◌∷◌, ◌++◌, String, arith,
  not, ◌&&◌, ◌↔◌, Eq, ◌==◌, string_eq, nat_eq, contains, length, if◌then◌else◌,
}
use predictive_analysis.Common.Dict
use predictive_analysis.Common.Dict.{Dict, get_or, put, append_to}
use predictive_analysis.Common.Sorting.{sort_by}
use predictive_analysis.Common.Text.{is_empty, strip, remove_suffix, isdigit, lstrip_minus, text_le}
use predictive_analysis.Frames.Models.{
  LogicalPosition, position_eq, same_position, same_position_iff, RawRowRef, position_is_assigned,
  unassigned_position,
}
use predictive_analysis.Frames.Groups.{GroupKey, group_key_eq, same_key, same_key_iff}

abbrev pub Cell : Type 0
Cell = Option String

pub record SourceFrame : Type 0 where
  pub columns : List String
  pub rows : List (List Cell)

-- The canonical names of the columns that carry the identity of a row, where resolved.
pub record Roles : Type 0 where
  pub connector : Option String
  pub smr : Option String
  pub charger : Option String

-- `text[:-2]` where it is written instead of the text.
abbrev without_tail : String → Option String → String
without_tail text none = text
without_tail text (some head) = if isdigit (lstrip_minus head) then head else text

-- `_clean`
unfoldable pub clean : Cell → String
unfolding strip
clean none = ""
clean (some value) =
    let text = strip value in
    if is_empty text then "" else without_tail text (remove_suffix ".0" text)

-- The row's cell in the column of the name, `""` where there is no such column.
abbrev pub identity_in : List String → List Cell → String → String
identity_in [] cells name = ""
identity_in (c ∷ columns) [] name = ""
identity_in (c ∷ columns) (v ∷ cells) name =
    let rest = identity_in columns cells name in if c == name then clean v else rest

unfoldable pub identity : List String → List Cell → Option String → String
unfolding clean
identity columns cells none = ""
identity columns cells (some name) = identity_in columns cells name

-- `or` between texts.
abbrev pub text_or : String → String → String
text_or s t = if is_empty s then t else s

-- The key `(charger_id, event_time, position)` of the occurrence counter.
abbrev pub CounterKey : Type 0
CounterKey = GroupKey × LogicalPosition

abbrev same_counter : CounterKey → CounterKey → Bool
same_counter a b = same_key a.0 b.0 && same_position a.1 b.1

pub same_counter_iff : (a b : CounterKey) → (same_counter a b ≡ true) ↔ (a ≡ b)
same_counter_iff (k, p) (j, q) = ground (arith, same_key_iff k j, same_position_iff p q)

instance abbrev pub counter_key_eq : Eq CounterKey
counter_key_eq = record { same = same_counter; same_iff = same_counter_iff }

-- The variables of the loop of `build`.
pub record KeyState : Type 0 where
  pub by_timestamp : Dict GroupKey (List RawRowRef)
  pub unassigned : Dict GroupKey (List RawRowRef)
  pub undatable : List RawRowRef
  pub occurrence_counter : Dict CounterKey ℕ
  pub positions_per_group : Dict GroupKey (List LogicalPosition)
  pub seen_row_fingerprints : List String
  pub exact_duplicates : ℕ
  pub observed_connectors : List String
  pub observed_smrs : List String

abbrev pub no_rows_yet : KeyState
no_rows_yet = record {
  by_timestamp = [];
  unassigned = [];
  undatable = [];
  occurrence_counter = [];
  positions_per_group = [];
  seen_row_fingerprints = [];
  exact_duplicates = 0;
  observed_connectors = [];
  observed_smrs = [];
}

-- `s.add(x)`, and the same where the text is not empty.
abbrev pub add {ℓ} : {A : Type ℓ} ⦃e : Eq A⦄ → A → List A → List A
add x xs = if contains xs x then xs else x ∷ xs

abbrev pub add_text : String → List String → List String
add_text x xs = if is_empty x then xs else add x xs

-- `positions_per_group.setdefault(group_key, set()).add(position)`
abbrev pub add_position :
    GroupKey
    → LogicalPosition
    → Dict GroupKey (List LogicalPosition)
    → Dict GroupKey (List LogicalPosition)
add_position k p d = put k (add p (get_or k [] d)) d

-- The identity that the loop reads from a row.
pub record Identity : Type 0 where
  pub fingerprint : String
  pub charger_id : String
  pub connector_id : String
  pub smr_id : String

abbrev pub position_of : Identity → LogicalPosition
position_of i =
    if not (is_empty i.connector_id) && not (is_empty i.smr_id)
    then record { connector_id = i.connector_id; smr_id = i.smr_id }
    else unassigned_position

abbrev pub identity_is_assigned : Identity → Bool
identity_is_assigned i = position_is_assigned (position_of i) && not (is_empty i.charger_id)

-- The part of a turn that does not depend on the event time.
abbrev pub note_identity : Identity → KeyState → KeyState
note_identity i s = record s {
  seen_row_fingerprints = add i.fingerprint s.seen_row_fingerprints;
  exact_duplicates =
      if contains s.seen_row_fingerprints i.fingerprint
      then s.exact_duplicates + 1
      else s.exact_duplicates;
  observed_connectors = add_text i.connector_id s.observed_connectors;
  observed_smrs = add_text i.smr_id s.observed_smrs;
}

abbrev pub row_ref : String → ℕ → Identity → ℕ → Bool → RawRowRef
row_ref file_id index i occurrence unassigned = record {
  telemetry_file_id = file_id;
  source_row_number = index;
  position = position_of i;
  occurrence_index = occurrence;
  row_fingerprint = i.fingerprint;
  unassigned = unassigned;
}

-- The filing of a row that has an identity, with the occurrences of its key before it.
abbrev pub file_assigned : String → ℕ → Identity → GroupKey → KeyState → KeyState
file_assigned file_id index i group_key s =
    let counter_key : CounterKey = (group_key, position_of i) in
    let occurrence = get_or counter_key 0 s.occurrence_counter in
    record s {
      occurrence_counter = put counter_key (occurrence + 1) s.occurrence_counter;
      by_timestamp = append_to group_key (row_ref file_id index i occurrence false) s.by_timestamp;
      positions_per_group = add_position group_key (position_of i) s.positions_per_group;
    }

abbrev pub file_unassigned : String → ℕ → Identity → GroupKey → KeyState → KeyState
file_unassigned file_id index i group_key s = record s {
  unassigned = append_to group_key (row_ref file_id index i 0 true) s.unassigned;
}

-- The filing of one row: with no event time, with no identity, or under its logical key.
unfoldable pub file_row : String → ℕ → Identity → Option ℕ → KeyState → KeyState
file_row file_id index i none s = record s {
  undatable = s.undatable ++ row_ref file_id index i 0 true ∷ [];
}
file_row file_id index i (some event_time) s =
    if identity_is_assigned i
    then file_assigned file_id index i (i.charger_id, event_time) s
    else file_unassigned file_id index i (i.charger_id, event_time) s

-- `event_times[index] if index < len(event_times) else None`
abbrev pub event_time_at : List (Option ℕ) → ℕ → Option ℕ
event_time_at [] index = none
event_time_at (t ∷ times) zero = t
event_time_at (t ∷ times) (suc index) = event_time_at times index

-- `if not charger_id: charger_id = self._charger_fallback or ""`
abbrev pub or_empty : Option String → String
or_empty none = ""
or_empty (some s) = s

pub record KeyedRows : Type 0 where
  pub by_timestamp : Dict GroupKey (List RawRowRef)
  pub unassigned_by_timestamp : Dict GroupKey (List RawRowRef)
  pub undatable_rows : List RawRowRef
  pub position_group_counts : Dict LogicalPosition ℕ
  pub group_total : ℕ
  pub observed_connectors : List String
  pub observed_smrs : List String
  pub exact_duplicate_row_count : ℕ

-- `sum(len(rows) for rows in d.values())`
abbrev pub row_total : Dict GroupKey (List RawRowRef) → ℕ
row_total [] = 0
row_total ((k, rows) ∷ d) = length rows + row_total d

abbrev pub assigned_row_count : KeyedRows → ℕ
assigned_row_count k = row_total k.by_timestamp

abbrev pub unassigned_row_count : KeyedRows → ℕ
unassigned_row_count k = row_total k.unassigned_by_timestamp + length k.undatable_rows

-- The count of the groups that a position appears in.
abbrev count_positions : List LogicalPosition → Dict LogicalPosition ℕ → Dict LogicalPosition ℕ
count_positions [] d = d
count_positions (p ∷ ps) d = count_positions ps (put p (get_or p 0 d + 1) d)

unfoldable pub count_groups :
    Dict GroupKey (List LogicalPosition) → Dict LogicalPosition ℕ → Dict LogicalPosition ℕ
count_groups [] d = d
count_groups ((k, ps) ∷ groups) d = count_groups groups (count_positions ps d)

module _ (row_fingerprint : List String → List Cell → String) (roles : Roles)
    (charger_fallback : Option String) where
  abbrev pub identify : List String → List Cell → Identity
  identify columns cells = record {
    fingerprint = row_fingerprint columns cells;
    charger_id = text_or (identity columns cells roles.charger) (or_empty charger_fallback);
    connector_id = identity columns cells roles.connector;
    smr_id = identity columns cells roles.smr;
  }

  -- `for index in range(frame.height)`, from the index with the rows that are left.
  unfoldable pub key_rows :
      String → List String → List (Option ℕ) → ℕ → List (List Cell) → KeyState → KeyState
  unfolding file_row identity
  key_rows file_id columns times index [] s = s
  key_rows file_id columns times index (cells ∷ rows) s =
      let i = identify columns cells in
      key_rows file_id columns times (index + 1) rows
        (file_row file_id index i (event_time_at times index) (note_identity i s))

  -- `LogicalKeyBuilder.build`
  unfoldable pub build : SourceFrame → String → List (Option ℕ) → KeyedRows
  unfolding key_rows count_groups
  build frame file_id times =
      let s = key_rows file_id frame.columns times 0 frame.rows no_rows_yet in
      record {
        by_timestamp = s.by_timestamp;
        unassigned_by_timestamp = s.unassigned;
        undatable_rows = s.undatable;
        position_group_counts = count_groups s.positions_per_group [];
        group_total = length s.positions_per_group;
        observed_connectors = sort_by text_le s.observed_connectors;
        observed_smrs = sort_by text_le s.observed_smrs;
        exact_duplicate_row_count = s.exact_duplicates;
      }
