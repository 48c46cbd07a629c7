-- ===== src/Normalization/Resolver/Agreement.antt =====
-- When the raw rows of a field agree.
use predictive_analysis.Common.{
  ℕ, String, Bool, true, false, ◌&&◌, ◌||◌, Option, none, some, List, [], ◌∷◌, ◌≡◌, ◌∙◌, ◌↔◌, ◌⊎◌,
  inl, inr, refl, sym, arith, ◌==◌, contains,
}
use predictive_analysis.Common.Sums.{NoRepeats}
use predictive_analysis.Common.Sets.{sorted_set, contains-sorted_set, NoRepeats-sorted_set}
use predictive_analysis.Common.Codes.{Text, text_eq, same_codes_iff}
use predictive_analysis.Validation.Fields.{CanonicalDataType}
use predictive_analysis.Validation.Dictionary.{FieldSpec}
use predictive_analysis.Normalization.Coercion.{PythonValues, coerce_float}
use predictive_analysis.Normalization.Resolver.{
  RawRow, raw_vals, Value, FieldResolution, Coerced, coerced, is_gun_sentinel,
  is_rectifier_sentinel, is_smr_sentinel, mask_if, coerced_float, coerce_as, coerce_value,
  resolution_of, resolve_scalar_field,
}

-- Two of the values differ.
abbrev pub Disagree : List Text → Type 0
Disagree vals =
    (a : Text) × (b : Text) × (contains vals a ≡ true)
    × (contains vals b ≡ true)
    × ((a == b) ≡ false)

module _ (P : PythonValues) where
  -- The parts of a resolution, from the sorted values.
  abbrev IsResolutionOf : List Text → FieldResolution P → Type 0
  IsResolutionOf vals r =
      ((r.has_conflict ≡ true) ↔ Disagree vals)
      × ((s : Text) → contains r.conflict_values s ≡ (r.has_conflict && contains vals s))
      × (((r.has_conflict || r.masked_sentinel) ≡ false) ⊎ (r.normalized_value ≡ Value.null))

  -- A value that is masked is null.
  abbrev IsMaskedToNull : Coerced P → Type 0
  IsMaskedToNull c = (c.masked ≡ false) ⊎ (c.value ≡ Value.null)

  masked_if :
      (test : Bool) (transformation : String) (c : Coerced P)
      → IsMaskedToNull c
      → IsMaskedToNull (mask_if P test transformation c)
  masked_if true transformation c h = inr refl
  masked_if false transformation c h = h

  masked_float : (name : Text) (v : Option P.Float) → IsMaskedToNull (coerced_float P name v)
  masked_float name none = inl refl
  masked_float name (some v) =
      let kept = coerced P (Value.float v) false "COERCE_FLOAT" in
      let smr = mask_if P (is_smr_sentinel P name v) "SENTINEL_SMR_TEMP_UNAVAILABLE" kept in
      let rectifier =
        mask_if P (is_rectifier_sentinel P name v) "SENTINEL_RECTIFIER_TEMP_UNINITIALIZED" smr in
      masked_if (is_gun_sentinel P name v) "SENTINEL_GUN_TEMP_DISCONNECTED" rectifier (
        masked_if (is_rectifier_sentinel P name v) "SENTINEL_RECTIFIER_TEMP_UNINITIALIZED" smr
          (masked_if (is_smr_sentinel P name v) "SENTINEL_SMR_TEMP_UNAVAILABLE" kept (inl refl)))

  masked_value : (t : CanonicalDataType) (name raw : Text) → IsMaskedToNull (coerce_as P t name raw)
  masked_value CanonicalDataType.float name raw = masked_float name (coerce_float P raw)
  masked_value CanonicalDataType.string name raw = inl refl
  masked_value CanonicalDataType.integer name raw = inl refl
  masked_value CanonicalDataType.boolean name raw = inl refl
  masked_value CanonicalDataType.enum name raw = inl refl
  masked_value CanonicalDataType.datetime name raw = inl refl
  masked_value CanonicalDataType.duration name raw = inl refl
  masked_value CanonicalDataType.identifier name raw = inl refl
  masked_value CanonicalDataType.unknown name raw = inl refl

  only_one : (x : Text) → Disagree (x ∷ []) → {A : Type 0} → A
  only_one x (a, b, p, q, n) =
      let left : x ≡ a = (same_codes_iff x a).0 (ground arith) in
      let right : x ≡ b = (same_codes_iff x b).0 (ground arith) in
      absurd (cc ((same_codes_iff a b).1 (sym left ∙ right), n))

  resolution_of-parts :
      (position : ℕ) (spec : FieldSpec) (vals : List Text)
      → NoRepeats vals
      → IsResolutionOf vals (resolution_of P position spec vals)
  unfolding resolution_of coerce_value
  resolution_of-parts position spec [] u = ((λ h. cc, λ d. cc d.2), λ s. refl, inl refl)
  resolution_of-parts position spec (x ∷ []) u =
      ((λ h. cc, λ d. only_one x d), λ s. refl, masked_value spec.data_type spec.canonical_name x)
  resolution_of-parts position spec (x ∷ (y ∷ more)) u = (
    (
      λ h. (
        x,
        y,
        ground (arith, same_codes_iff x x),
        ground (arith, same_codes_iff y y),
        ground (arith, u.0, same_codes_iff x y, same_codes_iff y x),
      ),
      λ d. refl,
    ),
    λ s. refl,
    inr refl,
  )

  from_set :
      (position : ℕ) (spec : FieldSpec) (vals : List Text)
      → IsResolutionOf (sorted_set vals) (resolution_of P position spec (sorted_set vals))
      → IsResolutionOf vals (resolution_of P position spec (sorted_set vals))
  from_set position spec vals (c, v, n) = (
    (
      λ h.
          let d = c.0 h in
          (
            d.0,
            d.1,
            sym (contains-sorted_set vals d.0) ∙ d.2,
            sym (contains-sorted_set vals d.1) ∙ d.3,
            d.4,
          ),
      λ d.
          c.1
            (d.0, d.1, contains-sorted_set vals d.0 ∙ d.2, contains-sorted_set vals d.1 ∙ d.3, d.4),
    ),
    λ s. rw (← contains-sorted_set vals s) (v s),
    n,
  )

  -- A field is in conflict if and only if two of its values that are not null differ; its conflict
  -- values are then those values; and a field in conflict or with a masked sentinel is null.
  pub resolve_scalar_field-conflict :
      (position : ℕ) (header : Text) (spec : FieldSpec) (rows : List RawRow)
      → let r = resolve_scalar_field P position header spec rows in
        ((r.has_conflict ≡ true) ↔ Disagree (raw_vals header spec rows))
        × ((s : Text)
            → contains r.conflict_values s
              ≡ (r.has_conflict && contains (raw_vals header spec rows) s))
        × (((r.has_conflict || r.masked_sentinel) ≡ false) ⊎ (r.normalized_value ≡ Value.null))
  unfolding resolve_scalar_field
  resolve_scalar_field-conflict position header spec rows =
      let vals = raw_vals header spec rows in
      from_set position spec vals
        (resolution_of-parts position spec (sorted_set vals) (NoRepeats-sorted_set vals))
