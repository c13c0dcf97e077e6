-- ===== src/Prelude/Decimal.antt =====
-- Decimal text: `big.Int.SetString(s, 10)`, which `types.BigFromString` calls, `big.Int.String`,
-- and `strconv.ParseInt(s, 10, 64)`. An optional sign is followed by at least one digit and
-- nothing else.
use Prim.Native.Nat.{ℕ, zero, suc, ◌+◌, ◌-◌, ◌*◌, ◌/◌, ◌%◌, ◌<◌}
use Prim.Native.Char.{Char, code}
use Prim.Native.String.{String}
use mathlib.Core.Path.{◌≡◌, refl, ◌∙◌}
use mathlib.Core.Bool.{Bool, true, ◌&&◌, ◌||◌}
use mathlib.Core.List.{List, [], ◌∷◌}
use mathlib.Core.Option.{Option, none, some}
use mathlib.Core.Logic.{inl, inr}
use native.Mathlib.Omega.{arith}
use Prim.Native.Nat.add
use lotus_tools.Prelude.Tests.{ltb, leb, ◌==◌, if◌then◌else◌, Bool-cases}
use lotus_tools.Prelude.Int.{ℤ, pos, negsuc, neg_of_ℕ}
use lotus_tools.Prelude.Lists.{All}
use lotus_tools.Prelude.Int64.{in_range64}

-- The code points of a text.
abbrev pub codes : String → List ℕ
codes String.[] = []
codes (String.◌∷◌ c s) = code c ∷ codes s

abbrev is_digit : ℕ → Bool
is_digit c = leb b'0' c && leb c b'9'

-- The digits that are left, read onto the number so far.
digits_onto : ℕ → List ℕ → Option ℕ
digits_onto acc [] = some acc
digits_onto acc (c ∷ cs) =
    let rest = digits_onto (10 * acc + (c - b'0')) cs in if is_digit c then rest else none

abbrev parse_digits : List ℕ → Option ℕ
parse_digits [] = none
parse_digits (c ∷ cs) = digits_onto 0 (c ∷ cs)

abbrev signed : (ℕ → ℤ) → Option ℕ → Option ℤ
signed f none = none
signed f (some n) = some (f n)

parse_codes : List ℕ → Option ℤ
parse_codes [] = none
parse_codes (c ∷ cs) =
    if c == b'-'
    then signed neg_of_ℕ (parse_digits cs)
    else (if c == b'+' then signed pos (parse_digits cs) else signed pos (parse_digits (c ∷ cs)))

unfoldable pub big_from_string : String → Option ℤ
unfolding parse_codes digits_onto
big_from_string s = parse_codes (codes s)

-- A digit's character.
digit : ℕ → Char
digit zero = "0"
digit (suc zero) = "1"
digit (suc (suc zero)) = "2"
digit (suc (suc (suc zero))) = "3"
digit (suc (suc (suc (suc zero)))) = "4"
digit (suc (suc (suc (suc (suc zero))))) = "5"
digit (suc (suc (suc (suc (suc (suc zero)))))) = "6"
digit (suc (suc (suc (suc (suc (suc (suc zero))))))) = "7"
digit (suc (suc (suc (suc (suc (suc (suc (suc zero)))))))) = "8"
digit _ = "9"

-- The digits of n before a text, lowest first; n + 1 rounds are more than n has digits.
print_onto : ℕ → ℕ → String → String
print_onto zero n s = s
print_onto (suc f) n s =
    let rest = print_onto f (n / 10) (String.◌∷◌ (digit (n % 10)) s) in
    if ltb n 10 then String.◌∷◌ (digit n) s else rest

unfoldable pub big_string : ℤ → String
unfolding print_onto digit
big_string (pos n) = print_onto (suc n) n String.[]
big_string (negsuc n) = String.◌∷◌ "-" (print_onto (suc (suc n)) (suc n) String.[])

unfoldable pub parse_int64 : String → Option ℤ
parse_int64 s = elim (big_from_string s) [
  | none ↦ none
  | some z ↦ if in_range64 z then some z else none
]

code-digit : (d : ℕ) → d < 10 → code (digit d) ≡ b'0' + d
unfolding digit
code-digit zero _ = refl
code-digit (suc zero) _ = refl
code-digit (suc (suc zero)) _ = refl
code-digit (suc (suc (suc zero))) _ = refl
code-digit (suc (suc (suc (suc zero)))) _ = refl
code-digit (suc (suc (suc (suc (suc zero))))) _ = refl
code-digit (suc (suc (suc (suc (suc (suc zero)))))) _ = refl
code-digit (suc (suc (suc (suc (suc (suc (suc zero))))))) _ = refl
code-digit (suc (suc (suc (suc (suc (suc (suc (suc zero)))))))) _ = refl
code-digit (suc (suc (suc (suc (suc (suc (suc (suc (suc zero))))))))) _ = refl
code-digit (suc (suc (suc (suc (suc (suc (suc (suc (suc (suc n)))))))))) h = absurd (omega arith)

digits_onto-digit :
    (acc d : ℕ) (cs : List ℕ)
    → d < 10
    → digits_onto acc (code (digit d) ∷ cs) ≡ digits_onto (10 * acc + d) cs
unfolding digits_onto
digits_onto-digit acc d cs h =
    rw (code-digit d h) (let e : 48 + d - 48 ≡ d = omega arith in rw e (ground arith))

digits_onto-print_onto :
    (f n : ℕ) (s : String)
    → n < f
    → digits_onto 0 (codes (print_onto f n s)) ≡ digits_onto n (codes s)
unfolding print_onto
digits_onto-print_onto zero n s h = elim h [ ]
digits_onto-print_onto (suc f) n s h = elim (Bool-cases (ltb n 10)) [
  | inl small ↦ rw small (digits_onto-digit 0 n (codes s) (ground arith) ∙ rw add.zero)
  | inr large ↦
      let e : 10 * (n / 10) + n % 10 ≡ n = omega arith in
      rw large (
        digits_onto-print_onto f (n / 10) (String.◌∷◌ (digit (n % 10)) s) (ground arith)
        ∙ digits_onto-digit (n / 10) (n % 10) (codes s) (omega arith)
        ∙ rw e)
]

-- A printed number begins with a digit, so no sign is read before it.
abbrev StartsWithDigit : List ℕ → Type 0
StartsWithDigit [] = ⊥
StartsWithDigit (c ∷ cs) = is_digit c ≡ true

StartsWithDigit-print_onto :
    (f n : ℕ) (s : String) → n < f → StartsWithDigit (codes (print_onto f n s))
unfolding print_onto
StartsWithDigit-print_onto zero n s h = elim h [ ]
StartsWithDigit-print_onto (suc f) n s h = elim (Bool-cases (ltb n 10)) [
  | inl small ↦ rw small (rw (code-digit n (ground arith)) (ground arith))
  | inr large ↦
      rw large
        (StartsWithDigit-print_onto f (n / 10) (String.◌∷◌ (digit (n % 10)) s) (ground arith))
]

parse_codes-digit :
    (cs : List ℕ) {n : ℕ}
    → StartsWithDigit cs
    → digits_onto 0 cs ≡ some n
    → parse_codes cs ≡ some (pos n)
unfolding parse_codes
parse_codes-digit [] h e = absurd h
parse_codes-digit (c ∷ cs) h e = ground arith

parse_digits-print_onto : (n : ℕ) → digits_onto 0 (codes (print_onto (suc n) n String.[])) ≡ some n
unfolding digits_onto
parse_digits-print_onto n = digits_onto-print_onto (suc n) n String.[] (omega arith)

parse_digits-start : (cs : List ℕ) → StartsWithDigit cs → parse_digits cs ≡ digits_onto 0 cs
parse_digits-start [] h = absurd h
parse_digits-start (c ∷ cs) h = refl

-- Reading back a printed integer gives the integer.
pub big_from_string-big_string : (z : ℤ) → big_from_string (big_string z) ≡ some z
unfolding big_from_string big_string
big_from_string-big_string (pos n) =
    parse_codes-digit (codes (print_onto (suc n) n String.[]))
      (StartsWithDigit-print_onto (suc n) n String.[] (omega arith)) (parse_digits-print_onto n)
big_from_string-big_string (negsuc n) =
    let cs = codes (print_onto (suc (suc n)) (suc n) String.[]) in
    let starts = StartsWithDigit-print_onto (suc (suc n)) (suc n) String.[] (omega arith) in
    let e : parse_digits cs ≡ some (suc n) =
      parse_digits-start cs starts ∙ parse_digits-print_onto (suc n) in
    rw e (ground arith)

parse_codes-itoa : (z : ℤ) → parse_codes (codes (big_string z)) ≡ some z
parse_codes-itoa z = unfold big_from_string in big_from_string-big_string z

-- `strconv.ParseInt` of a printed integer is the integer, where it fits an int64.
pub parse_int64-big_string :
    (z : ℤ) → parse_int64 (big_string z) ≡ (if in_range64 z then some z else none)
unfolding parse_int64
parse_int64-big_string z = rw (big_from_string-big_string, parse_int64)

-- `strconv.Atoi` and `strconv.Itoa`, on the code points of a text.
unfoldable pub atoi : List ℕ → Option ℤ
unfolding parse_codes digits_onto
atoi s = elim (parse_codes s) [ none ↦ none | some z ↦ if in_range64 z then some z else none ]

abbrev pub itoa : ℤ → List ℕ
itoa z = codes (big_string z)

-- A character of a printed number.
abbrev pub is_numeral : ℕ → Bool
is_numeral c = is_digit c || c == b'-'

abbrev pub AreNumerals : List ℕ → Type 0
AreNumerals = All (λ c. is_numeral c ≡ true)

numeral-digit : (d : ℕ) → d < 10 → is_numeral (code (digit d)) ≡ true
numeral-digit d h = rw (code-digit d h) (ground arith)

print_onto-AreNumerals :
    (f n : ℕ) (s : String) → n < f → AreNumerals (codes s) → AreNumerals (codes (print_onto f n s))
unfolding print_onto
print_onto-AreNumerals zero n s h all = elim h [ ]
print_onto-AreNumerals (suc f) n s h all = elim (Bool-cases (ltb n 10)) [
  | inl small ↦ rw small (numeral-digit n (ground arith), all)
  | inr large ↦ rw large (
      print_onto-AreNumerals f (n / 10) (String.◌∷◌ (digit (n % 10)) s) (ground arith)
        (numeral-digit (n % 10) (omega arith), all))
]

pub itoa-AreNumerals : (z : ℤ) → AreNumerals (itoa z)
unfolding big_string
itoa-AreNumerals (pos n) = print_onto-AreNumerals (suc n) n String.[] (omega arith) tt
itoa-AreNumerals (negsuc n) =
    (refl, print_onto-AreNumerals (suc (suc n)) (suc n) String.[] (omega arith) tt)

pub atoi-itoa : (z : ℤ) → in_range64 z ≡ true → atoi (itoa z) ≡ some z
unfolding atoi
atoi-itoa z h = rw (parse_codes-itoa z, atoi) (rw h refl)

starts-ne-nil : (cs : List ℕ) → StartsWithDigit cs → (c : ℕ) × (ds : List ℕ) × (cs ≡ c ∷ ds)
starts-ne-nil [] h = absurd h
starts-ne-nil (c ∷ cs) h = (c, cs, refl)

-- A printed number is not empty.
pub itoa-ne-nil : (z : ℤ) → (c : ℕ) × (ds : List ℕ) × (itoa z ≡ c ∷ ds)
unfolding big_string
itoa-ne-nil (pos n) =
    starts-ne-nil (codes (print_onto (suc n) n String.[]))
      (StartsWithDigit-print_onto (suc n) n String.[] (omega arith))
itoa-ne-nil (negsuc n) = (b'-', codes (print_onto (suc (suc n)) (suc n) String.[]), refl)
