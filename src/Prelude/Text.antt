-- ===== src/Prelude/Text.antt =====
-- Texts that the code trims or tests for being blank.
use Prim.Native.Char.{Char, code}
use Prim.Native.Nat.{ℕ, Ordering}
use Prim.Native.String.{String, compare}
use mathlib.Core.Bool.{Bool, true, false, not, ◌&&◌, ◌||◌}
use mathlib.Core.List.{List, [], ◌∷◌}
use mathlib.Core.Option.{Option, none, some}
use text.Mathlib.Text.{◌==◌ as str_eq}
use s3ntinel.Prelude.Lists.{any}
use s3ntinel.Prelude.Tests.{◌==◌, leb, if◌then◌else◌}

-- Every character is a space, so that `trim` leaves the empty text.
abbrev pub is_blank : String → Bool
is_blank String.[] = true
is_blank (String.◌∷◌ c s) = (code c == b' ') && is_blank s

-- `col.isNotNull() & (trim(col) != "")`
abbrev pub is_filled : Option String → Bool
is_filled none = false
is_filled (some s) = not (is_blank s)

abbrev pub text_ltb : String → String → Bool
text_ltb a b = elim (compare a b) [ Ordering.lt ↦ true | _ ↦ false ]

-- `set(texts)`
unfoldable pub distinct_texts : List String → List String
distinct_texts [] = []
distinct_texts (text ∷ texts) =
    let rest = distinct_texts texts in if any (str_eq text) rest then rest else text ∷ rest

unfoldable pub insert_text : String → List String → List String
insert_text text [] = text ∷ []
insert_text text (t ∷ ts) =
    let later = t ∷ insert_text text ts in if text_ltb t text then later else text ∷ t ∷ ts

unfoldable pub sort_texts : List String → List String
unfolding insert_text
sort_texts [] = []
sort_texts (text ∷ texts) = insert_text text (sort_texts texts)

-- `sorted(set(texts))`
unfoldable pub sorted_texts : List String → List String
unfolding distinct_texts sort_texts
sorted_texts texts = sort_texts (distinct_texts texts)

abbrev between : ℕ → ℕ → ℕ → Bool
between lo hi c = leb lo c && leb c hi

-- The characters that Python's `str.isspace` counts as white.
abbrev is_space : ℕ → Bool
is_space c =
    between 9 13 c
    || between 28 32 c
    || c == 133
    || c == 160
    || c == 5760
    || between 8192 8202 c
    || between 8232 8233 c
    || c == 8239
    || c == 8287
    || c == 12288

unfoldable pub lstrip : String → String
lstrip String.[] = ""
lstrip (String.◌∷◌ c s) = let rest = lstrip s in if is_space (code c) then rest else String.◌∷◌ c s

abbrev keep_last : Char → String → String
keep_last c String.[] = if is_space (code c) then "" else String.◌∷◌ c ""
keep_last c (String.◌∷◌ d s) = String.◌∷◌ c (String.◌∷◌ d s)

unfoldable pub rstrip : String → String
rstrip String.[] = ""
rstrip (String.◌∷◌ c s) = keep_last c (rstrip s)

-- `text.strip()`
unfoldable pub strip : String → String
unfolding lstrip rstrip
strip text = rstrip (lstrip text)
