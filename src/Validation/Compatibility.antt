-- ===== src/Validation/Compatibility.antt =====
-- pipelines/validation/compatibility.py: a header compared with a registered schema. A set of
-- identities is a list without repeats; the messages of the detail field are left out.
pub mod Verdict
pub mod Counts
use predictive_analysis.Common.{
  ℕ, ◌+◌, Bool, true, false, not, ◌&&◌, ◌||◌, Option, none, some, List, [], ◌∷◌, ◌++◌, map, ◌≡◌,
  refl, ◌↔◌, Eq, ◌==◌, leb, eqb, eqb_iff, if◌then◌else◌, length, contains, select, any, arith, ap₂,
}
use predictive_analysis.Common.Dict.{Dict, get, put, keys}
use predictive_analysis.Common.Sorting.{sort_by}
use predictive_analysis.Common.Text.{codes}
use predictive_analysis.Common.Codes.{Text, text_eq, codes_le, number, same_codes_iff}
use predictive_analysis.Profiling.Header.{RawHeaderField, RawHeaderParseResult}

-- backend/app/models/enums.py
pub data SchemaCompatibility : Type 0 where
  exact_match compatible_addition compatible_missing_optional : SchemaCompatibility
  incompatible_missing_required incompatible_type_change unknown_schema : SchemaCompatibility

unfoldable pub is_compatible : SchemaCompatibility → Bool
is_compatible SchemaCompatibility.exact_match = true
is_compatible SchemaCompatibility.compatible_addition = true
is_compatible SchemaCompatibility.compatible_missing_optional = true
is_compatible SchemaCompatibility.incompatible_missing_required = false
is_compatible SchemaCompatibility.incompatible_type_change = false
is_compatible SchemaCompatibility.unknown_schema = false

-- `(source_name, source_occurrence)`
abbrev pub FieldIdentity : Type 0
FieldIdentity = Text × ℕ

abbrev pub same_identity : FieldIdentity → FieldIdentity → Bool
same_identity a b = a.0 == b.0 && eqb a.1 b.1

pub same_identity_iff : (a b : FieldIdentity) → (same_identity a b ≡ true) ↔ (a ≡ b)
same_identity_iff (s, n) (t, m) = ground (arith, same_codes_iff s t, eqb_iff n m)

instance abbrev pub identity_eq : Eq FieldIdentity
identity_eq = record { same = same_identity; same_iff = same_identity_iff }

pub record RegisteredField : Type 0 where
  pub source_name : Text
  pub source_occurrence : ℕ
  pub source_position : ℕ
  pub required : Bool
  pub data_type : Option Text

-- `{"field": ..., "registered": ..., "incoming": ...}`
pub record TypeChange : Type 0 where
  pub field : Text
  pub registered : Text
  pub incoming : Text

pub record SchemaComparison : Type 0 where
  pub compatibility : SchemaCompatibility
  pub matched_count : ℕ
  pub registered_count : ℕ
  pub incoming_count : ℕ
  pub missing_required : List Text
  pub missing_optional : List Text
  pub additional : List Text
  pub type_changes : List TypeChange
  pub reordered : Bool
  pub fingerprint_match : Bool

-- `_label`
abbrev pub label : FieldIdentity → Text
label k = if eqb k.1 1 then k.0 else k.0 ++ codes " (occurrence " ++ number k.1 ++ codes ")"

-- `tuple(sorted(_label(*key) for key in ...))`
abbrev pub sorted_labels : List FieldIdentity → List Text
sorted_labels ks = sort_by codes_le (map label ks)

-- The order of identities as Python compares pairs.
abbrev pub identity_le : FieldIdentity → FieldIdentity → Bool
identity_le a b = if a.0 == b.0 then leb a.1 b.1 else codes_le a.0 b.0

abbrev index_incoming :
    List RawHeaderField → Dict FieldIdentity RawHeaderField → Dict FieldIdentity RawHeaderField
index_incoming [] d = d
index_incoming (f ∷ fields) d = index_incoming fields (put (f.source_name, f.source_occurrence) f d)

abbrev index_registered :
    List RegisteredField → Dict FieldIdentity RegisteredField → Dict FieldIdentity RegisteredField
index_registered [] d = d
index_registered (f ∷ fields) d =
    index_registered fields (put (f.source_name, f.source_occurrence) f d)

unfoldable pub incoming_index : List RawHeaderField → Dict FieldIdentity RawHeaderField
incoming_index fields = index_incoming fields []

unfoldable pub registered_index : List RegisteredField → Dict FieldIdentity RegisteredField
registered_index fields = index_registered fields []

-- `a & b` and `a - b`
abbrev pub both : List FieldIdentity → List FieldIdentity → List FieldIdentity
both a b = select (contains b) a

abbrev pub only : List FieldIdentity → List FieldIdentity → List FieldIdentity
only a b = select (λ k. not (contains b k)) a

abbrev pub field_required : Option RegisteredField → Bool
field_required none = false
field_required (some f) = f.required

abbrev pub declared_type : Option RegisteredField → Option Text
declared_type none = none
declared_type (some f) = f.data_type

-- `incoming_types.get(key)`
abbrev pub incoming_type : Option (Dict FieldIdentity Text) → FieldIdentity → Option Text
incoming_type none k = none
incoming_type (some types) k = get k types

abbrev is_nonempty : Text → Bool
is_nonempty [] = false
is_nonempty (_ ∷ _) = true

-- `declared and incoming and declared != incoming`
abbrev pub types_differ : Option Text → Option Text → Bool
types_differ (some declared) (some incoming) =
    is_nonempty declared && is_nonempty incoming && not (declared == incoming)
types_differ (some declared) none = false
types_differ none incoming = false

abbrev text_of : Option Text → Text
text_of none = []
text_of (some t) = t

abbrev type_change :
    Dict FieldIdentity RegisteredField
    → Option (Dict FieldIdentity Text)
    → FieldIdentity
    → TypeChange
type_change registered types k = record {
  field = label k;
  registered = text_of (declared_type (get k registered));
  incoming = text_of (incoming_type types k);
}

-- The positions of the field in the header and in the schema.
abbrev moved : Option RawHeaderField → Option RegisteredField → Bool
moved (some f) (some r) = not (eqb f.position r.source_position)
moved (some f) none = false
moved none r = false

abbrev pub has_any {ℓ} : {A : Type ℓ} → List A → Bool
has_any [] = false
has_any (_ ∷ _) = true

-- The order in which the verdicts are tried.
unfoldable pub precedence :
    List Text → List TypeChange → List Text → List Text → Bool → SchemaCompatibility
precedence missing_required type_changes missing_optional additional reordered =
    if has_any missing_required
    then SchemaCompatibility.incompatible_missing_required
    else if has_any type_changes
    then SchemaCompatibility.incompatible_type_change
    else if has_any missing_optional
    then SchemaCompatibility.compatible_missing_optional
    else if has_any additional
    then SchemaCompatibility.compatible_addition
    else if reordered
    then SchemaCompatibility.compatible_addition
    else SchemaCompatibility.exact_match

-- The comparison field by field.
unfoldable pub compare_fields :
    RawHeaderParseResult
    → List RegisteredField
    → Option (Dict FieldIdentity Text)
    → SchemaComparison
unfolding incoming_index registered_index precedence
compare_fields header registered types =
    let incoming = incoming_index header.fields in
    let known = registered_index registered in
    let matched = both (keys incoming) (keys known) in
    let removed = only (keys known) (keys incoming) in
    let missing_required = sorted_labels (select (λ k. field_required (get k known)) removed) in
    let missing_optional =
      sorted_labels (select (λ k. not (field_required (get k known))) removed) in
    let additional = sorted_labels (only (keys incoming) (keys known)) in
    let type_changes = map (type_change known types) (
      select (λ k. types_differ (declared_type (get k known)) (incoming_type types k))
        (sort_by identity_le matched)) in
    let reordered = any (λ k. moved (get k incoming) (get k known)) matched in
    record {
      compatibility =
          precedence missing_required type_changes missing_optional additional reordered;
      matched_count = length matched;
      registered_count = length registered;
      incoming_count = header.field_count;
      missing_required = missing_required;
      missing_optional = missing_optional;
      additional = additional;
      type_changes = type_changes;
      reordered = reordered;
      fingerprint_match = false;
    }

abbrev unregistered : ℕ → SchemaComparison
unregistered field_count = record {
  compatibility = SchemaCompatibility.unknown_schema;
  matched_count = 0;
  registered_count = 0;
  incoming_count = field_count;
  missing_required = [];
  missing_optional = [];
  additional = [];
  type_changes = [];
  reordered = false;
  fingerprint_match = false;
}

abbrev identical : ℕ → ℕ → SchemaComparison
identical field_count registered_count = record {
  compatibility = SchemaCompatibility.exact_match;
  matched_count = field_count;
  registered_count = registered_count;
  incoming_count = field_count;
  missing_required = [];
  missing_optional = [];
  additional = [];
  type_changes = [];
  reordered = false;
  fingerprint_match = true;
}

-- `registered_fingerprint and registered_fingerprint == header.header_fingerprint`
abbrev pub fingerprints_match : Option Text → Text → Bool
fingerprints_match none fingerprint = false
fingerprints_match (some registered) fingerprint =
    is_nonempty registered && registered == fingerprint

-- No registered schema, `None`, is the empty list.
unfoldable pub compare_schema :
    RawHeaderParseResult
    → List RegisteredField
    → Option Text
    → Option (Dict FieldIdentity Text)
    → SchemaComparison
unfolding compare_fields
compare_schema header [] fingerprint types = unregistered header.field_count
compare_schema header (f ∷ registered) fingerprint types =
    if fingerprints_match fingerprint header.header_fingerprint
    then identical header.field_count (length (f ∷ registered))
    else compare_fields header (f ∷ registered) types
