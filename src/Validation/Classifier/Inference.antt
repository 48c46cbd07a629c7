-- ===== src/Validation/Classifier/Inference.antt =====
-- What the classifier asserts of a field.
use predictive_analysis.Common.{
  ℕ, true, false, Option, none, some, ◌≡◌, if◌then◌else◌, contains, Bool-cases, inl, inr, map, sym,
  ap, ◌∙◌,
}
use predictive_analysis.Common.Text.{lower_code}
use predictive_analysis.Common.Codes.{Text, text_eq}
use predictive_analysis.Validation.Fields.{FieldClass, CanonicalDataType}
use predictive_analysis.Validation.Dictionary.{UnitSymbols}
use predictive_analysis.Validation.Classifier.{
  classify_field, is_unitless, known_unit, first_match, unit_rules, class_rules,
}
use mathlib.Core.Option.{some-injective}

known_unit-registered :
    (symbols : UnitSymbols) (inferred : Option Text) (u : Text)
    → known_unit (some symbols) inferred ≡ some u
    → contains symbols u ≡ true
known_unit-registered symbols none u h = cc
known_unit-registered symbols (some v) u h = elim (Bool-cases (contains symbols v)) [
  | inl p ↦
      let same : v ≡ u = some-injective _ _ (rw p at h) in sym (ap (contains symbols) same) ∙ p
  | inr p ↦ cc (rw p at h)
]

unit_of-registered :
    (symbols : UnitSymbols) (field_class : FieldClass) (inferred : Option Text) (u : Text)
    → (if is_unitless field_class then none else known_unit (some symbols) inferred) ≡ some u
    → (contains symbols u ≡ true) × (is_unitless field_class ≡ false)
unit_of-registered symbols field_class inferred u h = elim (Bool-cases (is_unitless field_class)) [
  | inl p ↦ cc (rw p at h)
  | inr p ↦ (known_unit-registered symbols inferred u (rw p at h), p)
]

-- A unit that the classifier asserts is one of the registry, and the class of the field has units.
pub classify_field-unit :
    (name : Text) (occurrence : ℕ) (canonical : Text) (symbols : UnitSymbols) (u : Text)
    → (classify_field name occurrence canonical (some symbols)).unit ≡ some u
    → (contains symbols u ≡ true)
      × (is_unitless (classify_field name occurrence canonical (some symbols)).field_class ≡ false)
unfolding classify_field
classify_field-unit name occurrence canonical symbols u h =
    let text = map lower_code name in
    unit_of-registered symbols (first_match class_rules text FieldClass.unknown)
      (first_match unit_rules text (none, CanonicalDataType.unknown)).0 u h
