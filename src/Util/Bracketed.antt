-- ===== src/Util/Bracketed.antt =====
-- The printed form of a slice of numbers, and what util/arrayTools.go splits it into.
use lotus_tools.Prelude.{
  ℕ, ◌≡◌, refl, sym, ap, subst, ◌∙◌, ℤ, true, false, List, [], ◌∷◌, ◌++◌, map, ◌==◌, arith, All,
  All-append, append_assoc, itoa, itoa-AreNumerals, itoa-ne-nil, AreNumerals, is_numeral,
}
use lotus_tools.Util.Text.{Text, split, join, Lacks, split-join}
use lotus_tools.Util.Arrays.{fields, not_empty, sprint}

-- A closing bracket behind the last part.
pub close : List Text → List Text
close [] = []
close (p ∷ []) = (p ++ b']' ∷ []) ∷ []
close (p ∷ q ∷ ps) = p ∷ close (q ∷ ps)

append_third : (p sep t u : Text) → p ++ (sep ++ (t ++ u)) ≡ (p ++ (sep ++ t)) ++ u
append_third p sep t u = simp append_assoc

join-close :
    (p : Text) (ps : List Text) (sep : Text)
    → join (close (p ∷ ps)) sep ≡ join (p ∷ ps) sep ++ b']' ∷ []
unfolding join close
join-close p [] sep = refl
join-close p (q ∷ []) sep = append_third p sep q (b']' ∷ [])
join-close p (q ∷ r ∷ ps) sep =
    ap (λ t. p ++ (sep ++ t)) (join-close q (r ∷ ps) sep)
    ∙ append_third p sep (join (q ∷ r ∷ ps) sep) (b']' ∷ [])

join-cons :
    (c : ℕ) (p : Text) (ps : List Text) (sep : Text)
    → join ((c ∷ p) ∷ ps) sep ≡ c ∷ join (p ∷ ps) sep
unfolding join
join-cons c p [] sep = refl
join-cons c p (q ∷ ps) sep = refl

not_equal : (d c : ℕ) → is_numeral d ≡ false → is_numeral c ≡ true → (d == c) ≡ false
not_equal d c h k = ground arith

numerals-Lacks : (d : ℕ) (t : Text) → is_numeral d ≡ false → AreNumerals t → Lacks d t
numerals-Lacks d [] h all = tt
numerals-Lacks d (c ∷ t) h (k, all) = (not_equal d c h k, numerals-Lacks d t h all)

pub itoas-Lack : (d : ℕ) (arr : List ℤ) → is_numeral d ≡ false → All (Lacks d) (map itoa arr)
itoas-Lack d [] h = tt
itoas-Lack d (z ∷ arr) h = (numerals-Lacks d (itoa z) h (itoa-AreNumerals z), itoas-Lack d arr h)

Lacks-append : (d : ℕ) (s t : Text) → Lacks d s → Lacks d t → Lacks d (s ++ t)
Lacks-append d s t h k = All-append (λ c. (d == c) ≡ false) s t h k

close-Lack :
    (d : ℕ) (ps : List Text) → (d == b']') ≡ false → All (Lacks d) ps → All (Lacks d) (close ps)
unfolding close
close-Lack d [] h all = tt
close-Lack d (p ∷ []) h (k, all) = (Lacks-append d p (b']' ∷ []) k (h, tt), tt)
close-Lack d (p ∷ q ∷ ps) h (k, all) = (k, close-Lack d (q ∷ ps) h all)

not_empty-cons :
    (p : Text) (ps : List Text)
    → (c : ℕ) (s : Text) → p ≡ c ∷ s
    → not_empty (p ∷ ps) ≡ p ∷ not_empty ps
unfolding not_empty
not_empty-cons p ps c s e = rw e refl

not_empty-close :
    (z : ℤ) (arr : List ℤ) → not_empty (close (map itoa (z ∷ arr))) ≡ close (map itoa (z ∷ arr))
unfolding close not_empty
not_empty-close z [] =
    let (c, s, e) = itoa-ne-nil z in
    not_empty-cons (itoa z ++ b']' ∷ []) [] c (s ++ b']' ∷ []) (ap (λ t. t ++ b']' ∷ []) e)
not_empty-close z (y ∷ arr) =
    let (c, s, e) = itoa-ne-nil z in
    not_empty-cons (itoa z) (close (map itoa (y ∷ arr))) c s e
    ∙ ap (λ ps. itoa z ∷ ps) (not_empty-close y arr)

-- What is split at the blanks of a printed slice.
abbrev pub bracketed : ℤ → List ℤ → List Text
bracketed z arr = close ((b'[' ∷ itoa z) ∷ map itoa arr)

pub join-bracketed :
    (z : ℤ) (arr : List ℤ) (sep : Text)
    → join (bracketed z arr) sep ≡ b'[' ∷ (join (map itoa (z ∷ arr)) sep ++ b']' ∷ [])
join-bracketed z arr sep =
    join-close (b'[' ∷ itoa z) (map itoa arr) sep
    ∙ ap (λ t. t ++ b']' ∷ []) (join-cons b'[' (itoa z) (map itoa arr) sep)

not_empty-bracketed : (z : ℤ) (arr : List ℤ) → not_empty (bracketed z arr) ≡ bracketed z arr
unfolding close not_empty
not_empty-bracketed z [] = refl
not_empty-bracketed z (y ∷ arr) = ap (λ ps. (b'[' ∷ itoa z) ∷ ps) (not_empty-close y arr)

close-cons : (p : Text) (ps : List Text) → (q : Text) × (qs : List Text) × (close (p ∷ ps) ≡ q ∷ qs)
unfolding close
close-cons p [] = (p ++ b']' ∷ [], [], refl)
close-cons p (q ∷ ps) = (p, close (q ∷ ps), refl)

split-join_of :
    (c : ℕ) (qs : List Text) {p : Text} {ps : List Text}
    → qs ≡ p ∷ ps
    → All (Lacks c) qs
    → split (join qs (c ∷ [])) (c ∷ []) ≡ qs
split-join_of c qs {p} {ps} e all =
    ap (λ rs. split (join rs (c ∷ [])) (c ∷ [])) e
    ∙ split-join c [] p ps (subst (All (Lacks c)) e all)
    ∙ sym e

sprint-join :
    (z : ℤ) (arr : List ℤ)
    → sprint (z ∷ arr) ≡ b'[' ∷ (join (map itoa (z ∷ arr)) (b' ' ∷ []) ++ b']' ∷ [])
unfolding sprint
sprint-join z arr = refl

pub fields-sprint : (z : ℤ) (arr : List ℤ) → fields (sprint (z ∷ arr)) ≡ bracketed z arr
unfolding fields
fields-sprint z arr =
    let (p, ps, e) = close-cons (b'[' ∷ itoa z) (map itoa arr) in
    let lacks =
      close-Lack b' ' ((b'[' ∷ itoa z) ∷ map itoa arr) refl (
        (refl, numerals-Lacks b' ' (itoa z) refl (itoa-AreNumerals z)),
        itoas-Lack b' ' arr refl,
      ) in
    ap (λ t. not_empty (split t (b' ' ∷ [])))
      (sprint-join z arr ∙ sym (join-bracketed z arr (b' ' ∷ [])))
    ∙ ap not_empty (split-join_of b' ' (bracketed z arr) e lacks)
    ∙ not_empty-bracketed z arr
