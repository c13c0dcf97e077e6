-- ===== src/Util/Delimited.antt =====
-- A slice of numbers as text and back, by util/arrayTools.go.
use lotus_tools.Prelude.{
  ℕ, ◌≡◌, refl, sym, ap, ap₂, subst, ◌∙◌, ℤ, true, false, List, [], ◌∷◌, ◌++◌, map, arith, All,
  append_assoc, atoi, itoa, atoi-itoa, itoa-AreNumerals, itoa-ne-nil, AreNumerals, is_numeral,
  in_range64,
}
use lotus_tools.Util.Text.{Text, split, join, trim_left, trim_right, keep_before, split-join}
use lotus_tools.Util.Arrays.{is_bracket, int_array_2_string, or_zero, string_2_int_array}
use lotus_tools.Util.Bracketed.{join-bracketed, fields-sprint, itoas-Lack}

-- A text that trimming leaves alone.
abbrev EndsKept : Text → Type 0
EndsKept t = trim_right is_bracket t ≡ t

trim_right-numerals : (t : Text) → AreNumerals t → EndsKept t
unfolding trim_right
trim_right-numerals [] all = refl
trim_right-numerals (c ∷ []) all = ground arith
trim_right-numerals (c ∷ d ∷ t) all =
    ap (keep_before is_bracket c) (trim_right-numerals (d ∷ t) all.1)

keep_before-append :
    (d : ℕ) (s : Text) (c : ℕ) (u : Text) → keep_before is_bracket d (s ++ c ∷ u) ≡ d ∷ (s ++ c ∷ u)
keep_before-append d [] c u = refl
keep_before-append d (e ∷ s) c u = refl

trim_right-append :
    (s t : Text) (c : ℕ) (u : Text)
    → trim_right is_bracket t ≡ c ∷ u
    → trim_right is_bracket (s ++ t) ≡ s ++ c ∷ u
unfolding trim_right
trim_right-append [] t c u e = e
trim_right-append (d ∷ s) t c u e =
    ap (keep_before is_bracket d) (trim_right-append s t c u e) ∙ keep_before-append d s c u

trim_right-bracket : (t : Text) → trim_right is_bracket (t ++ b']' ∷ []) ≡ trim_right is_bracket t
unfolding trim_right
trim_right-bracket [] = refl
trim_right-bracket (c ∷ t) = ap (keep_before is_bracket c) (trim_right-bracket t)

-- A joined slice begins and ends with a number.
join-cons_itoa :
    (z : ℤ) (arr : List ℤ) (sep : Text)
    → (c : ℕ) × (t : Text) × (join (map itoa (z ∷ arr)) sep ≡ c ∷ t) × (is_numeral c ≡ true)
unfolding join
join-cons_itoa z [] sep =
    let (c, t, e) = itoa-ne-nil z in (c, t, e, (subst AreNumerals e (itoa-AreNumerals z)).0)
join-cons_itoa z (y ∷ arr) sep =
    let (c, t, e) = itoa-ne-nil z in
    let rest = sep ++ join (map itoa (y ∷ arr)) sep in
    (c, t ++ rest, ap (λ u. u ++ rest) e, (subst AreNumerals e (itoa-AreNumerals z)).0)

trim_right-join : (z : ℤ) (arr : List ℤ) (sep : Text) → EndsKept (join (map itoa (z ∷ arr)) sep)
unfolding join
trim_right-join z [] sep = trim_right-numerals (itoa z) (itoa-AreNumerals z)
trim_right-join z (y ∷ arr) sep =
    let rest = join (map itoa (y ∷ arr)) sep in
    let (c, t, e, h) = join-cons_itoa y arr sep in
    ap (trim_right is_bracket) (sym (append_assoc (itoa z) sep rest))
    ∙ trim_right-append (itoa z ++ sep) rest c t (trim_right-join y arr sep ∙ e)
    ∙ ap (λ u. (itoa z ++ sep) ++ u) (sym e)
    ∙ append_assoc (itoa z) sep rest

trim_left-numeral : (c : ℕ) (t : Text) → is_numeral c ≡ true → trim_left is_bracket (c ∷ t) ≡ c ∷ t
unfolding trim_left
trim_left-numeral c t h = ground arith

trim_left-bracket : (t : Text) → trim_left is_bracket (b'[' ∷ t) ≡ trim_left is_bracket t
unfolding trim_left
trim_left-bracket t = refl

-- The text of a slice that is not empty: its numbers, with the delimiter between them.
pub int_array_2_string-join :
    (z : ℤ) (arr : List ℤ) (delim : Text)
    → int_array_2_string (z ∷ arr) delim ≡ join (map itoa (z ∷ arr)) delim
unfolding int_array_2_string
int_array_2_string-join z arr delim =
    let text = join (map itoa (z ∷ arr)) delim in
    let (c, t, e, h) = join-cons_itoa z arr delim in
    ap (λ ps. trim_right is_bracket (trim_left is_bracket (join ps delim))) (fields-sprint z arr)
    ∙ ap (λ u. trim_right is_bracket (trim_left is_bracket u)) (join-bracketed z arr delim)
    ∙ ap (trim_right is_bracket) (
        trim_left-bracket (text ++ b']' ∷ [])
        ∙ ap (λ u. trim_left is_bracket (u ++ b']' ∷ [])) e
        ∙ trim_left-numeral c (t ++ b']' ∷ []) h
        ∙ ap (λ u. u ++ b']' ∷ []) (sym e))
    ∙ trim_right-bracket text
    ∙ trim_right-join z arr delim

string_2_int_array-cons :
    (s delim : Text) {c : ℕ} {t : Text}
    → s ≡ c ∷ t
    → string_2_int_array s delim ≡ map (λ v. or_zero (atoi v)) (split s delim)
unfolding string_2_int_array
string_2_int_array-cons s delim e = rw e refl

map-itoa :
    (arr : List ℤ)
    → All (λ z. in_range64 z ≡ true) arr
    → map (λ v. or_zero (atoi v)) (map itoa arr) ≡ arr
map-itoa [] all = refl
map-itoa (z ∷ arr) (h, all) = ap₂ ◌∷◌ (ap or_zero (atoi-itoa z h)) (map-itoa arr all)

string_2_int_array_none :
    (delim : Text) → string_2_int_array (int_array_2_string [] delim) delim ≡ []
unfolding int_array_2_string string_2_int_array join split trim_right trim_left
string_2_int_array_none delim = refl

-- Reading back the printed slice gives the slice, for any slice of int64 numbers, where the
-- delimiter is not empty and does not begin with a digit or a minus sign.
pub string_2_int_array-int_array_2_string :
    (arr : List ℤ) (d : ℕ) (ds : Text)
    → is_numeral d ≡ false
    → All (λ z. in_range64 z ≡ true) arr
    → string_2_int_array (int_array_2_string arr (d ∷ ds)) (d ∷ ds) ≡ arr
string_2_int_array-int_array_2_string [] d ds h all = string_2_int_array_none (d ∷ ds)
string_2_int_array-int_array_2_string (z ∷ arr) d ds h all =
    let (c, t, e, k) = join-cons_itoa z arr (d ∷ ds) in
    ap (λ s. string_2_int_array s (d ∷ ds)) (int_array_2_string-join z arr (d ∷ ds))
    ∙ string_2_int_array-cons (join (map itoa (z ∷ arr)) (d ∷ ds)) (d ∷ ds) e
    ∙ ap (map (λ v. or_zero (atoi v)))
        (split-join d ds (itoa z) (map itoa arr) (itoas-Lack d (z ∷ arr) h))
    ∙ map-itoa (z ∷ arr) all
