-- ===== src/Profiling/Header.antt =====
-- pipelines/profiling/header_parser.py: the identity and the canonical name of every column of a
-- header row. A text is a list of code points. Opening, decoding and splitting the file is left to
-- the csv library: the header row is the input. The zero-width regular expressions are the functions
-- that insert an underscore at each boundary.
pub mod Suffix
pub mod Unique
pub mod Identity
pub mod Fingerprint
use predictive_analysis.Common.{
  ℕ, zero, suc, ◌+◌, Bool, true, false, not, ◌&&◌, ◌||◌, Option, none, some, List, [], ◌∷◌, ◌++◌,
  map, String, nat_eq, ◌==◌, leb, ltb, eqb, if◌then◌else◌, length, contains, select, any,
}
use predictive_analysis.Common.Dict.{Dict, get_or, put}
use predictive_analysis.Common.Text.{codes, is_space_code, lower_code}
use predictive_analysis.Common.Codes.{Text, text_eq, strip_by, lstrip_by, number}

abbrev is_lower : ℕ → Bool
is_lower c = leb 97 c && leb c 122

abbrev is_upper : ℕ → Bool
is_upper c = leb 65 c && leb c 90

abbrev is_digit : ℕ → Bool
is_digit c = leb 48 c && leb c 57

abbrev is_alnum : ℕ → Bool
is_alnum c = is_digit c || is_lower c || is_upper c

abbrev underscore : ℕ
underscore = 95

abbrev is_underscore : ℕ → Bool
is_underscore c = eqb c underscore

-- `\ufeff`
abbrev is_bom : ℕ → Bool
is_bom c = eqb c 65279

-- `_CAMEL_BOUNDARY.sub("_", text)`: between a small letter or digit and a capital.
abbrev split_camel : Text → Text
split_camel [] = []
split_camel (a ∷ []) = a ∷ []
split_camel (a ∷ (b ∷ s)) =
    let rest = split_camel (b ∷ s) in
    if (is_lower a || is_digit a) && is_upper b then a ∷ (underscore ∷ rest) else a ∷ rest

-- `_ACRONYM_BOUNDARY.sub("_", text)`: between two capitals, if a small letter follows them.
abbrev split_acronym : Text → Text
split_acronym [] = []
split_acronym (a ∷ []) = a ∷ []
split_acronym (a ∷ (b ∷ [])) = a ∷ (b ∷ [])
split_acronym (a ∷ (b ∷ (c ∷ s))) =
    let rest = split_acronym (b ∷ (c ∷ s)) in
    if is_upper a && is_upper b && is_lower c then a ∷ (underscore ∷ rest) else a ∷ rest

-- An underscore before a text that has none at its start.
abbrev one_underscore : Text → Text
one_underscore [] = underscore ∷ []
one_underscore (c ∷ s) = if is_underscore c then c ∷ s else underscore ∷ (c ∷ s)

-- `_NON_ALNUM.sub("_", text)`, each run of other characters; then no two underscores meet, and
-- `_MULTI_UNDERSCORE.sub("_", text)` changes nothing.
abbrev flatten : Text → Text
flatten [] = []
flatten (c ∷ s) = let rest = flatten s in if is_alnum c then c ∷ rest else one_underscore rest

abbrev unnamed : ℕ → Text
unnamed position = codes "unnamed_field_" ++ number position

abbrev name_or : Text → ℕ → Text
name_or [] position = unnamed position
name_or (c ∷ s) position = if is_digit c then codes "f_" ++ c ∷ s else c ∷ s

abbrev canonical_words : Text → Text
canonical_words text =
    map lower_code (strip_by is_underscore (flatten (split_acronym (split_camel text))))

abbrev canonical_or : Text → ℕ → Text
canonical_or [] position = unnamed position
canonical_or (c ∷ s) position = name_or (canonical_words (c ∷ s)) position

unfoldable pub canonicalise : Text → ℕ → Text
canonicalise source_name position =
    canonical_or (lstrip_by is_bom (strip_by is_space_code source_name)) position

pub record RawHeaderField : Type 0 where
  pub position : ℕ
  pub source_name : Text
  pub source_occurrence : ℕ
  pub canonical_name : Text
  pub is_duplicate_name : Bool
  pub requires_review : Bool

-- `cleaned`: the stripped names, the first without a byte order mark.
abbrev strip_names : List Text → List Text
strip_names names = map (strip_by is_space_code) names

unfoldable pub clean_names : List Text → List Text
clean_names [] = []
clean_names (first ∷ names) = lstrip_by is_bom (strip_by is_space_code first) ∷ strip_names names

-- `Counter(names)`
abbrev pub count_names : List Text → Dict Text ℕ → Dict Text ℕ
count_names [] totals = totals
count_names (name ∷ names) totals = count_names names (put name (get_or name 0 totals + 1) totals)

abbrev pub with_suffix : Text → ℕ → Text
with_suffix canonical suffix = canonical ++ underscore ∷ number suffix

-- `while f"{canonical}_{suffix}" in used_canonical: suffix += 1`, with fuel.
unfoldable pub free_suffix : ℕ → List Text → Text → ℕ → ℕ
free_suffix zero used canonical suffix = suffix
free_suffix (suc fuel) used canonical suffix =
    let next = free_suffix fuel used canonical (suffix + 1) in
    if contains used (with_suffix canonical suffix) then next else suffix

-- The canonical name before collisions are looked for.
abbrev pub proposed : Text → ℕ → ℕ → Bool → Text
proposed name position occurrence again =
    if again
    then canonicalise name position ++ codes "_occurrence_" ++ number occurrence
    else canonicalise name position

-- The canonical name, made distinct from those in use.
unfoldable pub disambiguate : List Text → Text → Text
unfolding free_suffix
disambiguate used canonical =
    if contains used canonical
    then with_suffix canonical (free_suffix (length used) used canonical 2)
    else canonical

-- One turn of the loop: the field, from the totals, the counts so far and the names in use.
unfoldable pub field_of : Dict Text ℕ → Dict Text ℕ → List Text → ℕ → Text → RawHeaderField
unfolding canonicalise disambiguate
field_of totals seen used position name =
    let occurrence = get_or name 0 seen + 1 in
    let is_duplicate = ltb 1 (get_or name 0 totals) in
    let again = is_duplicate && ltb 1 occurrence in
    let canonical = proposed name position occurrence again in
    record {
      position = position;
      source_name = name;
      source_occurrence = occurrence;
      canonical_name = disambiguate used canonical;
      is_duplicate_name = is_duplicate;
      requires_review = again || contains used canonical;
    }

-- `for position, source_name in enumerate(cleaned)`
unfoldable pub fields_from :
    Dict Text ℕ → Dict Text ℕ → List Text → ℕ → List Text → List RawHeaderField
unfolding field_of
fields_from totals seen used position [] = []
fields_from totals seen used position (name ∷ names) =
    let field = field_of totals seen used position name in
    field
    ∷ fields_from totals (put name (get_or name 0 seen + 1) seen) (field.canonical_name ∷ used)
        (position + 1) names

-- `_FINGERPRINT_SEPARATOR.join(names)`
abbrev pub separator : ℕ
separator = 31

abbrev pub join : List Text → Text
join [] = []
join (name ∷ []) = name
join (name ∷ (next ∷ names)) = name ++ separator ∷ join (next ∷ names)

pub record RawHeaderParseResult : Type 0 where
  pub field_count : ℕ
  pub fields : List RawHeaderField
  pub header_fingerprint : Text
  pub duplicate_names : Dict Text ℕ
  pub empty_name_count : ℕ

abbrev is_nil : Text → Bool
is_nil [] = true
is_nil (_ ∷ _) = false

-- `None` stands for the HeaderParseError of an empty row.
abbrev pub is_empty_row : List Text → Bool
is_empty_row [] = true
is_empty_row (_ ∷ _) = false

-- `RawHeaderParseResult.by_identity`
unfoldable pub by_identity : List RawHeaderField → Text → ℕ → Option RawHeaderField
by_identity [] name occurrence = none
by_identity (field ∷ fields) name occurrence =
    if field.source_name == name && eqb field.source_occurrence occurrence
    then some field
    else by_identity fields name occurrence

module _ (sha256 : Text → Text) where
  unfoldable pub compute_fingerprint : List Text → Text
  compute_fingerprint names = sha256 (join names)

  unfoldable pub parse_header_text : List Text → Option RawHeaderParseResult
  unfolding clean_names fields_from compute_fingerprint
  parse_header_text row =
      let cleaned = clean_names row in
      let totals = count_names cleaned [] in
      let fields = fields_from totals [] [] 0 cleaned in
      if is_empty_row row
      then none
      else some (record {
        field_count = length fields;
        fields = fields;
        header_fingerprint = compute_fingerprint cleaned;
        duplicate_names = select (λ (p : Text × ℕ). ltb 1 p.1) totals;
        empty_name_count = length (select is_nil cleaned);
      })
