-- ===== src/Normalization/Coercion.antt =====
-- pipelines/normalization/coercion.py, on texts: the cells of the raw rows. What Python's float and
-- datetime do is an interface; `near v c` is `abs(v - c) < 0.001`. `lower` knows the ASCII letters.
use predictive_analysis.Common.{
  Bool, true, false, Option, none, some, List, [], ◌∷◌, String, map, if◌then◌else◌, ◌||◌,
}
use predictive_analysis.Common.Text.{lower_code, one_of, is_space_code}
use predictive_analysis.Common.Codes.{Text, strip_by}
use predictive_analysis.Common.Integers.{ℤ}

pub record PythonValues : Type 1 where
  pub Float : Type 0
  pub Datetime : Type 0
  -- `float(s)`, `None` where it raises.
  pub parse_float : Text → Option Float
  -- `int(f)` if `f.is_integer()`.
  pub to_integer : Float → Option ℤ
  pub near : Float → ℤ → Bool
  -- `strptime(s, fmt)` in the source's time zone, as UTC, and `fromisoformat(s)`.
  pub parse_datetime : String → Text → Option Datetime
  pub parse_iso : Text → Option Datetime

abbrev pub strip_text : Text → Text
strip_text s = strip_by is_space_code s

abbrev pub is_blank : Text → Bool
is_blank [] = true
is_blank (_ ∷ _) = false

abbrev null_words : List String
null_words = "null" ∷ ("none" ∷ ("nan" ∷ ("na" ∷ [])))

-- `not s or s.lower() in ("null", "none", "nan", "na")`
abbrev pub is_null_text : Text → Bool
is_null_text s = is_blank s || one_of (map lower_code s) null_words

-- The same, or a dash.
abbrev is_null_or_dash : Text → Bool
is_null_or_dash s = is_null_text s || one_of s ("-" ∷ [])

unfoldable pub coerce_boolean : Text → Option Bool
coerce_boolean val =
    let s = map lower_code (strip_text val) in
    if one_of s ("1" ∷ ("true" ∷ ("yes" ∷ ("alarm" ∷ ("trip" ∷ ("active" ∷ ("closed" ∷ [])))))))
    then some true
    else if one_of s
        ("0" ∷ ("false" ∷ ("no" ∷ ("not alarm" ∷ ("normal" ∷ ("inactive" ∷ ("open" ∷ [])))))))
    then some false
    else none

unfoldable pub coerce_string : Text → Option Text
coerce_string val = let s = strip_text val in if is_null_text s then none else some s

module _ (P : PythonValues) where
  unfoldable pub coerce_float : Text → Option P.Float
  coerce_float val = let s = strip_text val in if is_null_or_dash s then none else P.parse_float s

  abbrev whole_of : Option P.Float → Option ℤ
  whole_of none = none
  whole_of (some f) = P.to_integer f

  unfoldable pub coerce_integer : Text → Option ℤ
  coerce_integer val =
      let s = strip_text val in if is_null_or_dash s then none else whole_of (P.parse_float s)

  abbrev formats : List String
  formats =
      "%d-%m-%Y %H:%M:%S"
      ∷ ("%d/%m/%Y %H:%M:%S"
          ∷ ("%Y-%m-%d %H:%M:%S" ∷ ("%Y-%m-%dT%H:%M:%S" ∷ ("%Y-%m-%dT%H:%M:%S%z" ∷ []))))

  abbrev or_else : Option P.Datetime → Option P.Datetime → Option P.Datetime
  or_else (some t) u = some t
  or_else none u = u

  -- The first format that fits, or else the ISO format.
  abbrev first_format : List String → Text → Option P.Datetime
  first_format [] s = P.parse_iso s
  first_format (fmt ∷ fmts) s = or_else (P.parse_datetime fmt s) (first_format fmts s)

  unfoldable pub coerce_datetime : Text → Option P.Datetime
  coerce_datetime val =
      let s = strip_text val in if is_null_or_dash s then none else first_format formats s

  -- 999, -50 and -150 degrees stand for a missing probe.
  abbrev pub is_gun_temp_sentinel : P.Float → Bool
  is_gun_temp_sentinel v = P.near v (ℤ.pos 999)

  abbrev pub is_rectifier_temp_sentinel : P.Float → Bool
  is_rectifier_temp_sentinel v = P.near v (ℤ.negsuc 49)

  abbrev pub is_smr_temp_sentinel : P.Float → Bool
  is_smr_temp_sentinel v = P.near v (ℤ.negsuc 149)
