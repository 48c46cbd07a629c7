-- ===== src/Validation/Compatibility/Verdict.antt =====
-- When a header is compatible with a registered schema.
use predictive_analysis.Common.{
  Bool, true, false, not, ◌&&◌, ◌||◌, Option, some, List, [], ◌∷◌, map, ◌≡◌, ◌∙◌, refl, ◌↔◌,
  contains, select, any, arith, Bool-cases, inl, inr, any-false, none_any,
}
use predictive_analysis.Common.Dict.{
  Dict, get, put, keys, get-keys, contains-keys, contains-keys-put,
}
use predictive_analysis.Common.Sorting.{sort_by, insert_by, any-sort_by}
use predictive_analysis.Common.Codes.{Text, text_eq, codes_le}
use predictive_analysis.Profiling.Header.{RawHeaderField, RawHeaderParseResult}
use predictive_analysis.Validation.Compatibility.{
  is_compatible, FieldIdentity, identity_eq, RegisteredField, TypeChange, index_incoming,
  incoming_index, registered_index, field_required, declared_type, incoming_type, types_differ,
  precedence, compare_fields, compare_schema, fingerprints_match, has_any, sorted_labels, label,
}

module _ {ℓ} {A : Type ℓ} where
  has_any-map {κ} : {B : Type κ} (f : A → B) (xs : List A) → has_any (map f xs) ≡ has_any xs
  has_any-map f [] = refl
  has_any-map f (x ∷ xs) = refl

  has_any-insert_by : (le : A → A → Bool) (x : A) (xs : List A) → has_any (insert_by le x xs) ≡ true
  has_any-insert_by le x [] = refl
  has_any-insert_by le x (y ∷ ys) = ground arith

  has_any-sort_by : (le : A → A → Bool) (xs : List A) → has_any (sort_by le xs) ≡ has_any xs
  unfolding sort_by
  has_any-sort_by le [] = refl
  has_any-sort_by le (x ∷ xs) = has_any-insert_by le x (sort_by le xs)

  has_any-select : (p : A → Bool) (xs : List A) → has_any (select p xs) ≡ any p xs
  has_any-select p [] = refl
  has_any-select p (x ∷ xs) = ground (arith, has_any-select p xs)

  any-select : (p q : A → Bool) (xs : List A) → any p (select q xs) ≡ any (λ x. q x && p x) xs
  any-select p q [] = refl
  any-select p q (x ∷ xs) = ground (arith, any-select p q xs)

is_compatible-precedence :
    (missing_required : List Text) (type_changes : List TypeChange)
    (missing_optional additional : List Text) (reordered : Bool)
    → is_compatible (precedence missing_required type_changes missing_optional additional reordered)
      ≡ (not (has_any missing_required) && not (has_any type_changes))
unfolding is_compatible precedence
is_compatible-precedence m t o a r = ground arith

-- The fields of a header, by their identities.
abbrev pub header_identities : List RawHeaderField → List FieldIdentity
header_identities fields = map (λ (f : RawHeaderField). (f.source_name, f.source_occurrence)) fields

contains-index_incoming :
    (fields : List RawHeaderField) (d : Dict FieldIdentity RawHeaderField) (k : FieldIdentity)
    → contains (keys (index_incoming fields d)) k
      ≡ (contains (header_identities fields) k || contains (keys d) k)
contains-index_incoming [] d k = refl
contains-index_incoming (f ∷ fields) d k = ground (
  arith,
  contains-index_incoming fields (put (f.source_name, f.source_occurrence) f d) k,
  contains-keys-put (f.source_name, f.source_occurrence) k f d,
)

contains-incoming_index :
    (fields : List RawHeaderField) (k : FieldIdentity)
    → contains (keys (incoming_index fields)) k ≡ contains (header_identities fields) k
unfolding incoming_index
contains-incoming_index fields k = ground (arith, contains-index_incoming fields [] k)

-- The two tests of the comparison, on the identities of a header and an index of the schema.
module _ (known : Dict FieldIdentity RegisteredField) (present : List FieldIdentity)
    (types : Option (Dict FieldIdentity Text)) where
  abbrev is_lost : FieldIdentity → Bool
  is_lost k = not (contains present k) && field_required (get k known)

  abbrev is_clash : FieldIdentity → Bool
  is_clash k =
      contains (keys known) k && types_differ (declared_type (get k known)) (incoming_type types k)

  abbrev KeepsField : FieldIdentity → RegisteredField → Type 0
  KeepsField k r =
      (r.required ≡ true → contains present k ≡ true)
      × (contains present k ≡ true → types_differ r.data_type (incoming_type types k) ≡ false)

  kept_if_passed :
      any is_lost (keys known) ≡ false
      → any is_clash present ≡ false
      → (k : FieldIdentity) (r : RegisteredField) → get k known ≡ some r
      → KeepsField k r
  kept_if_passed lost clash k r e =
      let there = contains-keys k r known e in
      let kept : is_lost k ≡ false = any-false is_lost (keys known) lost k there in
      let required : r.required ≡ field_required (get k known) = rw e refl in
      (
        λ q. ground (arith, kept, required),
        λ p.
            let agreed : is_clash k ≡ false = any-false is_clash present clash k p in
            let differ : types_differ r.data_type (incoming_type types k)
                ≡ types_differ (declared_type (get k known)) (incoming_type types k) =
              rw e refl in
            ground (arith, agreed, differ),
      )

  passed_if_kept :
      ((k : FieldIdentity) (r : RegisteredField) → get k known ≡ some r → KeepsField k r)
      → (any is_lost (keys known) ≡ false) × (any is_clash present ≡ false)
  passed_if_kept kept = (
    none_any is_lost (keys known) (λ k m.
        let found = get-keys k known m in
        let h = (kept k found.0 found.1).0 in rw found.1 (ground (arith, h))),
    none_any is_clash present (λ k p. elim (Bool-cases (contains (keys known) k)) [
      | inl m ↦
          let found = get-keys k known m in
          rw found.1 (ground (arith, (kept k found.0 found.1).1 p))
      | inr m ↦ rw m refl
    ]),
  )

has_any-sorted_labels : (ks : List FieldIdentity) → has_any (sorted_labels ks) ≡ has_any ks
has_any-sorted_labels ks = has_any-sort_by codes_le (map label ks) ∙ has_any-map label ks

-- The field of the identity is kept: it is in the header if it is required, and where it is in the
-- header, no known type contradicts the one declared.
abbrev pub IsKept :
    RawHeaderParseResult
    → List RegisteredField
    → Option (Dict FieldIdentity Text)
    → FieldIdentity
    → Type 0
IsKept header registered types k =
    (r : RegisteredField)
    → get k (registered_index registered) ≡ some r
    → (r.required ≡ true → contains (header_identities header.fields) k ≡ true)
      × (contains (header_identities header.fields) k ≡ true
          → types_differ r.data_type (incoming_type types k) ≡ false)

is_compatible-compare_fields :
    (header : RawHeaderParseResult) (registered : List RegisteredField)
    (types : Option (Dict FieldIdentity Text))
    → let incoming = incoming_index header.fields in
      let known = registered_index registered in
      is_compatible (compare_fields header registered types).compatibility ≡ (
        not
          (any (λ k. not (contains (keys incoming) k) && field_required (get k known)) (keys known))
        && not (
            any
              (λ k.
                contains (keys known) k
                && types_differ (declared_type (get k known)) (incoming_type types k))
              (keys incoming)))
unfolding compare_fields
is_compatible-compare_fields header registered types =
    is_compatible-precedence _ _ _ _ _
    ∙ simp (has_any-sorted_labels, has_any-map, has_any-select, any-sort_by, any-select)

-- Unless the fingerprints match, a header is compatible with a schema if and only if it has every
-- required field and no known type of its fields contradicts a declared one; reordered, added and
-- optional fields do not matter.
pub compare_schema-is_compatible :
    (header : RawHeaderParseResult) (f : RegisteredField) (registered : List RegisteredField)
    (fingerprint : Option Text) (types : Option (Dict FieldIdentity Text))
    → fingerprints_match fingerprint header.header_fingerprint ≡ false
    → (is_compatible (compare_schema header (f ∷ registered) fingerprint types).compatibility
        ≡ true)
      ↔ ((k : FieldIdentity) → IsKept header (f ∷ registered) types k)
unfolding compare_schema
compare_schema-is_compatible header f registered fingerprint types h =
    let known = registered_index (f ∷ registered) in
    let present = keys (incoming_index header.fields) in
    rw (h, is_compatible-compare_fields header (f ∷ registered) types)
      (
        λ passed k r e.
            rw (← contains-incoming_index header.fields k)
              (kept_if_passed known present types (ground arith) (ground arith) k r e),
        λ kept.
            let passed =
              passed_if_kept known present types
                (λ k r e. rw (contains-incoming_index header.fields k) (kept k r e)) in
            ground arith,
      )
