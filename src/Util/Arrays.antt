-- ===== src/Util/Arrays.antt =====
-- util/arrayTools.go. A text is the list of its code points.
use lotus_tools.Prelude.{
  ℕ, ℤ, pos, Bool, false, ◌||◌, Option, none, some, List, [], ◌∷◌, ◌++◌, map, ◌==◌, atoi, itoa,
  String, string_eq,
}
use lotus_tools.Util.Text.{Text, split, join, trim_left, trim_right}

unfoldable pub not_empty : List Text → List Text
not_empty [] = []
not_empty ([] ∷ ps) = not_empty ps
not_empty ((c ∷ p) ∷ ps) = (c ∷ p) ∷ not_empty ps

-- strings.Fields, of a text whose only spaces are blanks.
unfoldable pub fields : Text → List Text
unfolding not_empty
fields s = not_empty (split s (b' ' ∷ []))

abbrev pub is_bracket : ℕ → Bool
is_bracket c = c == b'[' || c == b']'

-- fmt.Sprint of a slice of numbers.
unfoldable pub sprint : List ℤ → Text
sprint arr = b'[' ∷ (join (map itoa arr) (b' ' ∷ []) ++ b']' ∷ [])

-- `IntArray2String`
unfoldable pub int_array_2_string : List ℤ → Text → Text
unfolding fields sprint
int_array_2_string arr delim =
    trim_right is_bracket (trim_left is_bracket (join (fields (sprint arr)) delim))

-- A part that is no number is 0.
abbrev pub or_zero : Option ℤ → ℤ
or_zero none = pos 0
or_zero (some i) = i

-- `String2IntArray`
unfoldable pub string_2_int_array : Text → Text → List ℤ
string_2_int_array [] delim = []
string_2_int_array (c ∷ arr) delim = map (λ v. or_zero (atoi v)) (split (c ∷ arr) delim)

-- `ArrInclude`
unfoldable pub arr_include : List String → String → Bool
arr_include [] sub = false
arr_include (a ∷ arr) sub = string_eq.beq a sub || arr_include arr sub
