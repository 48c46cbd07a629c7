-- ===== src/Validation/Compatibility/Counts.antt =====
-- The counts of a comparison.
use predictive_analysis.Common.{
  ◌+◌, Bool, false, not, Option, List, [], ◌∷◌, map, ◌≡◌, ◌∙◌, refl, length, contains, select,
  arith,
}
use predictive_analysis.Common.Dict.{Dict, get, put, keys}
use predictive_analysis.Common.Sorting.{length-sort_by}
use predictive_analysis.Common.Sums.{NoRepeats, NoRepeats-put, length-shared, length-select-not}
use predictive_analysis.Common.Codes.{Text, text_eq, codes_le}
use predictive_analysis.Profiling.Header.{RawHeaderField, RawHeaderParseResult}
use predictive_analysis.Validation.Compatibility.{
  FieldIdentity, identity_eq, RegisteredField, index_incoming, index_registered, incoming_index,
  registered_index, field_required, compare_fields, compare_schema, fingerprints_match,
  sorted_labels, label, only,
}

length-map {ℓ} : {A : Type ℓ} (f : A → Text) (xs : List A) → length (map f xs) ≡ length xs
length-map f [] = refl
length-map f (x ∷ xs) = omega (arith, length-map f xs)

length-sorted_labels : (ks : List FieldIdentity) → length (sorted_labels ks) ≡ length ks
length-sorted_labels ks = length-sort_by codes_le (map label ks) ∙ length-map label ks

NoRepeats-index_incoming :
    (fields : List RawHeaderField) (d : Dict FieldIdentity RawHeaderField)
    → NoRepeats (keys d)
    → NoRepeats (keys (index_incoming fields d))
NoRepeats-index_incoming [] d h = h
NoRepeats-index_incoming (f ∷ fields) d h =
    NoRepeats-index_incoming fields (put (f.source_name, f.source_occurrence) f d)
      (NoRepeats-put (f.source_name, f.source_occurrence) f d h)

NoRepeats-index_registered :
    (fields : List RegisteredField) (d : Dict FieldIdentity RegisteredField)
    → NoRepeats (keys d)
    → NoRepeats (keys (index_registered fields d))
NoRepeats-index_registered [] d h = h
NoRepeats-index_registered (f ∷ fields) d h =
    NoRepeats-index_registered fields (put (f.source_name, f.source_occurrence) f d)
      (NoRepeats-put (f.source_name, f.source_occurrence) f d h)

compare_fields-accounts_for_fields :
    (header : RawHeaderParseResult) (registered : List RegisteredField)
    (types : Option (Dict FieldIdentity Text))
    → let result = compare_fields header registered types in
      (result.matched_count + length result.additional
        ≡ length (keys (incoming_index header.fields)))
      × (result.matched_count + length result.missing_required + length result.missing_optional
          ≡ length (keys (registered_index registered)))
unfolding compare_fields incoming_index registered_index
compare_fields-accounts_for_fields header registered types =
    let incoming = keys (incoming_index header.fields) in
    let known = keys (registered_index registered) in
    let is_required : FieldIdentity → Bool =
      λ k. field_required (get k (registered_index registered)) in
    let removed = only known incoming in
    let shared =
      length-shared incoming known (NoRepeats-index_incoming header.fields [] tt)
        (NoRepeats-index_registered registered [] tt) in
    (
      omega (
        arith,
        length-sorted_labels (only incoming known),
        length-select-not (contains known) incoming,
      ),
      omega (
        arith,
        shared,
        length-sorted_labels (select is_required removed),
        length-sorted_labels (select (λ k. not (is_required k)) removed),
        length-select-not (contains incoming) known,
        length-select-not is_required removed,
      ),
    )

-- Unless the fingerprints match, every identity of the header is counted as matched or additional,
-- and every identity of the schema as matched, missing and required, or missing and optional.
pub compare_schema-accounts_for_fields :
    (header : RawHeaderParseResult) (f : RegisteredField) (registered : List RegisteredField)
    (fingerprint : Option Text) (types : Option (Dict FieldIdentity Text))
    → fingerprints_match fingerprint header.header_fingerprint ≡ false
    → let result = compare_schema header (f ∷ registered) fingerprint types in
      (result.matched_count + length result.additional
        ≡ length (keys (incoming_index header.fields)))
      × (result.matched_count + length result.missing_required + length result.missing_optional
          ≡ length (keys (registered_index (f ∷ registered))))
unfolding compare_schema
compare_schema-accounts_for_fields header f registered fingerprint types h =
    rw h (compare_fields-accounts_for_fields header (f ∷ registered) types)
