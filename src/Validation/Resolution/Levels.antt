-- ===== src/Validation/Resolution/Levels.antt =====
-- When the classifier has the last word.
use predictive_analysis.Common.{
  ℕ, Bool, false, Option, none, some, List, [], ◌∷◌, ◌≡◌, ◌↔◌, refl, any, arith,
}
use predictive_analysis.Common.Dict.{get}
use predictive_analysis.Common.Codes.{Text, text_eq}
use predictive_analysis.Validation.Compatibility.{identity_eq}
use predictive_analysis.Validation.Dictionary.{FieldSpec, PatternRule, DictionaryRegistry, norm_key}
use predictive_analysis.Validation.Resolution.{
  resolve_field, named_in, named_or_normalized, first_rule, by_explicit, by_entry_name, by_pattern,
}

module _ (matches : Text → Text → Bool) where
  first_rule-none :
      (rules : List PatternRule) (name : Text)
      → (first_rule matches rules name ≡ none)
        ↔ (any (λ rule. matches rule.pattern name) rules ≡ false)
  first_rule-none [] name = (λ _. refl, λ _. refl)
  first_rule-none (rule ∷ rules) name = ground (arith, first_rule-none rules name)

  by_pattern-mapped :
      (r : DictionaryRegistry) (rule : Option PatternRule) (name : Text) (occurrence position : ℕ)
      (canonical : Text)
      → ((by_pattern matches r rule name occurrence position canonical).is_dictionary_mapped
          ≡ false)
        ↔ (rule ≡ none)
  by_pattern-mapped r none name occurrence position canonical = (λ _. refl, λ _. refl)
  by_pattern-mapped r (some rule) name occurrence position canonical = (λ h. cc, λ h. cc)

  named_or_normalized-none :
      (o : Option FieldSpec) (r : DictionaryRegistry) (name : Text)
      → (named_or_normalized o r name ≡ none)
        ↔ ((o ≡ none) × (get (norm_key name) r.by_name_normalized ≡ none))
  named_or_normalized-none none r name = (λ h. (refl, h), λ h. h.1)
  named_or_normalized-none (some s) r name = (λ h. cc, λ h. cc h.0)

  by_entry_name-mapped :
      (r : DictionaryRegistry) (o : Option FieldSpec) (name : Text) (occurrence position : ℕ)
      (canonical : Text)
      → ((by_entry_name matches r o name occurrence position canonical).is_dictionary_mapped
          ≡ false)
        ↔ ((o ≡ none) × (first_rule matches r.patterns name ≡ none))
  by_entry_name-mapped r none name occurrence position canonical =
      let found =
        by_pattern-mapped r (first_rule matches r.patterns name) name occurrence position
          canonical in
      (λ h. (refl, found.0 h), λ h. found.1 h.1)
  by_entry_name-mapped r (some s) name occurrence position canonical = (λ h. cc, λ h. cc h.0)

  by_explicit-mapped :
      (r : DictionaryRegistry) (o : Option FieldSpec) (name : Text) (occurrence position : ℕ)
      (canonical : Text)
      → ((by_explicit matches r o name occurrence position canonical).is_dictionary_mapped ≡ false)
        ↔ ((o ≡ none) × (named_in r name ≡ none) × (first_rule matches r.patterns name ≡ none))
  by_explicit-mapped r none name occurrence position canonical =
      let found = by_entry_name-mapped r (named_in r name) name occurrence position canonical in
      (λ h. (refl, (found.0 h).0, (found.0 h).1), λ h. found.1 (h.1, h.2))
  by_explicit-mapped r (some s) name occurrence position canonical = (λ h. cc, λ h. cc h.0)

  -- A position is left to the classifier if and only if the dictionary has no entry for its name and
  -- occurrence, none for its name, none for its name without spaces and case, and no matching pattern.
  pub resolve_field-mapped :
      (r : DictionaryRegistry) (name : Text) (occurrence position : ℕ) (canonical : Text)
      → ((resolve_field matches r name occurrence position canonical).is_dictionary_mapped ≡ false)
        ↔ ((get (name, occurrence) r.by_identity ≡ none)
            × (get name r.by_name ≡ none)
            × (get (norm_key name) r.by_name_normalized ≡ none)
            × (any (λ rule. matches rule.pattern name) r.patterns ≡ false))
  unfolding resolve_field
  resolve_field-mapped r name occurrence position canonical =
      let mapped =
        by_explicit-mapped r (get (name, occurrence) r.by_identity) name occurrence position
          canonical in
      let named = named_or_normalized-none (get name r.by_name) r name in
      let rules = first_rule-none r.patterns name in
      (
        λ h.
            let parts = mapped.0 h in
            (parts.0, (named.0 parts.1).0, (named.0 parts.1).1, rules.0 parts.2),
        λ h. mapped.1 (h.0, named.1 (h.1, h.2), rules.1 h.3),
      )
