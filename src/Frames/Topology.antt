-- ===== src/Frames/Topology.antt =====
-- pipelines/frame_reconstruction/topology.py: the positions that a frame is expected to hold, by
-- the precedence of declared and observed shapes. The stability threshold is a number of
-- thousandths, and a note carries the numbers and the labels that its text shows.
pub mod Padding
use predictive_analysis.Common.{
  ℕ, zero, suc, ◌+◌, ◌*◌, ◌/◌, max, Bool, true, false, Option, none, some, List, [], ◌∷◌, ◌++◌, map,
  String, not, ◌&&◌, ◌||◌, ◌==◌, string_eq, nat_eq, select, contains, distinct, length, all, leb,
  ltb, if◌then◌else◌,
}
use predictive_analysis.Common.Dict.{Dict}
use predictive_analysis.Common.Decimal.{decimal, to_int}
use predictive_analysis.Common.Sorting.{sort_by}
use predictive_analysis.Common.Text.{is_empty, isdigit, text_le}
use predictive_analysis.Frames.Models.{LogicalPosition, position_eq, position_is_assigned}

pub data TopologyBasis : Type 0 where
  charger_configuration configured_default observed_stable unresolved : TopologyBasis

pub data Kind : Type 0 where
  connector smr : Kind

pub data LabelNote : Type 0 where
  fewer_than_declared : Kind → ℕ → ℕ → LabelNote
  more_than_declared : Kind → ℕ → ℕ → List String → List String → LabelNote

pub data TopologyNote : Type 0 where
  label_notes : List LabelNote → TopologyNote
  sparse_observation : TopologyNote
  nothing_usable : TopologyNote

pub record FrameTopology : Type 0 where
  pub positions : List LogicalPosition
  pub connectors : List String
  pub smrs : List String
  pub basis : TopologyBasis
  pub is_full_matrix : Bool
  pub note : Option TopologyNote

abbrev pub expected_position_count : FrameTopology → ℕ
expected_position_count t = length t.positions

abbrev pub is_resolved : FrameTopology → Bool
is_resolved t = ltb 0 (length t.positions)

abbrev row_of : String → List String → List LogicalPosition
row_of c smrs = map (λ s. record { connector_id = c; smr_id = s }) smrs

abbrev pairs : List String → List String → List LogicalPosition
pairs [] smrs = []
pairs (c ∷ connectors) smrs = row_of c smrs ++ pairs connectors smrs

-- `_cross`, a frozenset.
unfoldable pub cross : List String → List String → List LogicalPosition
cross connectors smrs = distinct (pairs connectors smrs)

abbrev int_le : String → String → Bool
int_le a b = leb (to_int a) (to_int b)

-- `_sorted_identities`
unfoldable pub sorted_identities : List String → List String
sorted_identities values =
    let items = sort_by text_le (distinct (select (λ v. not (is_empty v)) values)) in
    if all isdigit items then sort_by int_le items else items

-- `tuple(str(index) for index in range(1, declared + 1))`, from an index.
abbrev pub ordinals : ℕ → ℕ → List String
ordinals k zero = []
ordinals k (suc n) = decimal k ∷ ordinals (k + 1) n

-- The loop that pads the observed identities, on fuel.
unfoldable pub pad : ℕ → ℕ → List String → ℕ → List String
pad zero declared padded ordinal = padded
pad (suc fuel) declared padded ordinal =
    let candidate = decimal ordinal in
    let next = if contains padded candidate then padded else padded ++ candidate ∷ [] in
    let rest = pad fuel declared next (ordinal + 1) in
    if ltb (length padded) declared then rest else padded

abbrev take : ℕ → List String → List String
take zero xs = []
take (suc n) [] = []
take (suc n) (x ∷ xs) = x ∷ take n xs

abbrev drop : ℕ → List String → List String
drop zero xs = xs
drop (suc n) [] = []
drop (suc n) (x ∷ xs) = drop n xs

-- `_labels`; as many turns of the loop as labels are declared are enough.
unfoldable pub labels : ℕ → List String → Kind → List String × Option LabelNote
labels declared observed kind =
    let identities = sorted_identities observed in
    let count = length identities in
    if count == declared
    then (identities, none)
    else if count == 0
    then (ordinals 1 declared, none)
    else if ltb count declared
    then (
      sorted_identities (pad declared declared identities 1),
      some (fewer_than_declared kind count declared),
    )
    else (
      take declared identities,
      some (
          more_than_declared kind count declared (take declared identities)
            (drop declared identities)),
    )

abbrev cons_note : Option LabelNote → List LabelNote → List LabelNote
cons_note none notes = notes
cons_note (some n) notes = n ∷ notes

abbrev joined_notes : List LabelNote → Option TopologyNote
joined_notes [] = none
joined_notes (n ∷ ns) = some (label_notes (n ∷ ns))

-- `not count` for an optional count.
abbrev declared_count : Option ℕ → Option ℕ
declared_count none = none
declared_count (some zero) = none
declared_count (some (suc n)) = some (suc n)

abbrev configured : ℕ → ℕ → List String → List String → TopologyBasis → FrameTopology
configured connector_count smr_count observed_connectors observed_smrs basis =
    let (connectors, connector_note) = labels connector_count observed_connectors connector in
    let (smrs, smr_note) = labels smr_count observed_smrs smr in
    record {
      positions = cross connectors smrs;
      connectors = connectors;
      smrs = smrs;
      basis = basis;
      is_full_matrix = true;
      note = joined_notes (cons_note connector_note (cons_note smr_note []));
    }

abbrev from_counts :
    Option ℕ → Option ℕ → List String → List String → TopologyBasis → Option FrameTopology
from_counts (some c) (some s) observed_connectors observed_smrs basis =
    some (configured c s observed_connectors observed_smrs basis)
from_counts _ _ _ _ _ = none

-- `from_configuration`
unfoldable pub from_configuration :
    Option ℕ → Option ℕ → List String → List String → TopologyBasis → Option FrameTopology
unfolding labels
from_configuration connector_count smr_count observed_connectors observed_smrs basis =
    from_counts (declared_count connector_count) (declared_count smr_count) observed_connectors
      observed_smrs basis

-- The positions that at least `floor` groups report.
abbrev stable_positions : ℕ → Dict LogicalPosition ℕ → List LogicalPosition
stable_positions floor [] = []
stable_positions floor ((p, groups) ∷ counts) =
    let rest = stable_positions floor counts in
    if leb floor groups && position_is_assigned p then p ∷ rest else rest

abbrev subset_of : List LogicalPosition → List LogicalPosition → Bool
subset_of ps qs = all (contains qs) ps

abbrev no_entries : Dict LogicalPosition ℕ → Bool
no_entries [] = true
no_entries (_ ∷ _) = false

abbrev observed_topology : List LogicalPosition → Option FrameTopology
observed_topology [] = none
observed_topology (p ∷ ps) =
    let stable = p ∷ ps in
    let connectors = sorted_identities (map (λ (q : LogicalPosition). q.connector_id) stable) in
    let smrs = sorted_identities (map (λ (q : LogicalPosition). q.smr_id) stable) in
    let full = cross connectors smrs in
    let is_full = subset_of stable full && subset_of full stable in
    some (record {
      positions = stable;
      connectors = connectors;
      smrs = smrs;
      basis = observed_stable;
      is_full_matrix = is_full;
      note = if is_full then none else some sparse_observation;
    })

-- `from_observation`
unfoldable pub from_observation : ℕ → Dict LogicalPosition ℕ → ℕ → Option FrameTopology
from_observation stability counts group_total =
    if group_total == 0 || no_entries counts
    then none
    else observed_topology (stable_positions (max 1 (stability * group_total / 1000)) counts)

abbrev pub unresolved_topology : FrameTopology
unresolved_topology = record {
  positions = [];
  connectors = [];
  smrs = [];
  basis = unresolved;
  is_full_matrix = false;
  note = some nothing_usable;
}

abbrev or_else : Option FrameTopology → Option FrameTopology → Option FrameTopology
or_else none other = other
or_else (some t) other = some t

abbrev or_unresolved : Option FrameTopology → FrameTopology
or_unresolved none = unresolved_topology
or_unresolved (some t) = t

-- The resolver's own settings.
pub record Resolver : Type 0 where
  pub default_connectors : Option ℕ
  pub default_smrs : Option ℕ
  pub stability : ℕ

-- `FrameTopologyResolver.resolve`
unfoldable pub resolve :
    Resolver
    → Option ℕ
    → Option ℕ
    → List String
    → List String
    → Dict LogicalPosition ℕ
    → ℕ
    → FrameTopology
unfolding from_configuration from_observation
resolve r charger_connectors charger_smrs observed_connectors observed_smrs counts group_total =
    or_unresolved (
      or_else
        (from_configuration charger_connectors charger_smrs observed_connectors observed_smrs
          charger_configuration)
        (or_else
          (from_configuration r.default_connectors r.default_smrs observed_connectors observed_smrs
            configured_default)
          (from_observation r.stability counts group_total)))
