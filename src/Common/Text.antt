-- ===== src/Common/Text.antt =====
-- Python's `str` methods that the program calls, over the characters of a text. `lower` and
-- `isdigit` know the ASCII letters and digits; `strip` knows every space of `str.isspace`.
use Prim.Native.Char.{Char, code}
use Prim.Native.String.{String}
use Prim.Native.Nat.{ℕ, ◌+◌}
use mathlib.Core.Bool.{Bool, true, false, ◌&&◌, ◌||◌}
use mathlib.Core.List.{List, [], ◌∷◌, map}
use mathlib.Core.Option
use mathlib.Core.Option.{Option, none, some}
use predictive_analysis.Common.Tests.{leb, ltb, eqb, if◌then◌else◌, ◌==◌, string_eq, nat_eq}
use predictive_analysis.Common.Lists.{any}

-- The code points of a text.
abbrev pub codes : String → List ℕ
codes String.[] = []
codes (String.◌∷◌ c s) = code c ∷ codes s

-- `not text`
abbrev pub is_empty : String → Bool
is_empty String.[] = true
is_empty (String.◌∷◌ c s) = false

abbrev pub is_space_code : ℕ → Bool
is_space_code n =
    leb 9 n && leb n 13
    || leb 28 n && leb n 32
    || n == 133
    || n == 160
    || n == 5760
    || leb 8192 n && leb n 8202
    || n == 8232
    || n == 8233
    || n == 8239
    || n == 8287
    || n == 12288

pub lstrip : String → String
lstrip String.[] = String.[]
lstrip (String.◌∷◌ c s) =
    let rest = lstrip s in if is_space_code (code c) then rest else String.◌∷◌ c s

-- A character before the stripped rest of a text.
abbrev keep : Char → String → String
keep c String.[] = if is_space_code (code c) then String.[] else String.◌∷◌ c String.[]
keep c (String.◌∷◌ d s) = String.◌∷◌ c (String.◌∷◌ d s)

pub rstrip : String → String
rstrip String.[] = String.[]
rstrip (String.◌∷◌ c s) = keep c (rstrip s)

unfoldable pub strip : String → String
unfolding lstrip rstrip
strip s = lstrip (rstrip s)

abbrev pub lower_code : ℕ → ℕ
lower_code n = if leb 65 n && leb n 90 then n + 32 else n

-- `text.lower()`, as code points.
unfoldable pub lower : String → List ℕ
lower s = map lower_code (codes s)

-- Equality of two lists of code points.
abbrev pub same_codes : List ℕ → List ℕ → Bool
same_codes [] [] = true
same_codes (a ∷ s) (b ∷ t) = eqb a b && same_codes s t
same_codes _ _ = false

-- `text in (words)`
abbrev pub one_of : List ℕ → List String → Bool
one_of text words = any (λ w. same_codes text (codes w)) words

-- `word in text`
abbrev is_prefix : List ℕ → List ℕ → Bool
is_prefix [] t = true
is_prefix (a ∷ s) [] = false
is_prefix (a ∷ s) (b ∷ t) = eqb a b && is_prefix s t

abbrev pub has_part : List ℕ → List ℕ → Bool
has_part word [] = is_prefix word []
has_part word (c ∷ s) = is_prefix word (c ∷ s) || has_part word s

-- `any(w in text for w in words)`
abbrev pub has_any : List ℕ → List String → Bool
has_any text words = any (λ w. has_part (codes w) text) words

abbrev is_digit_code : ℕ → Bool
is_digit_code n = leb 48 n && leb n 57

abbrev all_digits : String → Bool
all_digits String.[] = true
all_digits (String.◌∷◌ c s) = is_digit_code (code c) && all_digits s

abbrev pub isdigit : String → Bool
isdigit String.[] = false
isdigit (String.◌∷◌ c s) = all_digits (String.◌∷◌ c s)

-- `text.lstrip("-")`
abbrev pub lstrip_minus : String → String
lstrip_minus String.[] = String.[]
lstrip_minus (String.◌∷◌ c s) =
    let rest = lstrip_minus s in if eqb (code c) 45 then rest else String.◌∷◌ c s

-- `text[:-len(end)]` if the text ends with `end`.
abbrev pub remove_suffix : String → String → Option String
remove_suffix end String.[] = if String.[] == end then some String.[] else none
remove_suffix end (String.◌∷◌ c s) =
    let rest = Option.map (λ t. String.◌∷◌ c t) (remove_suffix end s) in
    if String.◌∷◌ c s == end then some String.[] else rest

-- The order of texts by code points.
abbrev pub text_le : String → String → Bool
text_le String.[] t = true
text_le (String.◌∷◌ c s) String.[] = false
text_le (String.◌∷◌ c s) (String.◌∷◌ d t) =
    ltb (code c) (code d) || eqb (code c) (code d) && text_le s t
