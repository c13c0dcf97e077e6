-- ===== src/Util/Text.antt =====
-- What util takes of the package strings. A text is the list of its code points.
use lotus_tools.Prelude.{
  ℕ, zero, suc, ◌-◌, ◌≡◌, refl, sym, ap, ◌∙◌, Bool, true, false, List, [], ◌∷◌, ◌++◌, map, length,
  ◌==◌, if◌then◌else◌, arith, All, append-nil, ap₂,
}

abbrev pub Text : Type 0
Text = List ℕ

-- A character before the first part.
abbrev pub cons_first : ℕ → List Text → List Text
cons_first c [] = (c ∷ []) ∷ []
cons_first c (p ∷ ps) = (c ∷ p) ∷ ps

unfoldable pub is_prefix : Text → Text → Bool
is_prefix [] s = true
is_prefix (c ∷ p) [] = false
is_prefix (c ∷ p) (d ∷ s) = let rest = is_prefix p s in if c == d then rest else false

module _ (sep : Text) where
  -- strings.Split at a separator that is not empty. `skip` characters belong to a separator.
  unfoldable pub cut : ℕ → Text → List Text
  cut skip [] = [] ∷ []
  cut (suc skip) (c ∷ s) = cut skip s
  cut zero (c ∷ s) = elim (is_prefix sep (c ∷ s)) [
    | true ↦ [] ∷ cut (length sep - 1) s
    | false ↦ cons_first c (cut zero s)
  ]

-- An empty separator splits between the characters.
unfoldable pub split : Text → Text → List Text
unfolding cut is_prefix
split s [] = map (λ c. c ∷ []) s
split s (c ∷ sep) = cut (c ∷ sep) zero s

unfoldable pub join : List Text → Text → Text
join [] sep = []
join (p ∷ []) sep = p
join (p ∷ q ∷ ps) sep = p ++ (sep ++ join (q ∷ ps) sep)

module _ (cut : ℕ → Bool) where
  -- strings.TrimLeftFunc and strings.TrimRightFunc
  unfoldable pub trim_left : List ℕ → List ℕ
  trim_left [] = []
  trim_left (c ∷ cs) = let rest = trim_left cs in if cut c then rest else c ∷ cs

  -- A letter that is cut goes where nothing is left after it.
  abbrev pub keep_before : ℕ → List ℕ → List ℕ
  keep_before c [] = if cut c then [] else c ∷ []
  keep_before c (d ∷ ds) = c ∷ d ∷ ds

  unfoldable pub trim_right : List ℕ → List ℕ
  trim_right [] = []
  trim_right (c ∷ cs) = keep_before c (trim_right cs)

-- The character does not occur in the text.
abbrev pub Lacks : ℕ → Text → Type 0
Lacks c = All (λ d. (c == d) ≡ false)

module _ (c : ℕ) (sep : Text) where
  is_prefix_self : (p s : Text) → is_prefix p (p ++ s) ≡ true
  unfolding is_prefix
  is_prefix_self [] s = refl
  is_prefix_self (d ∷ p) s = ground (arith, is_prefix_self p s)

  cut_skip : (p s : Text) → cut (c ∷ sep) (length p) (p ++ s) ≡ cut (c ∷ sep) zero s
  unfolding cut
  cut_skip [] s = refl
  cut_skip (d ∷ p) s = cut_skip p s

  cut_other :
      (d : ℕ) (s : Text)
      → (c == d) ≡ false
      → cut (c ∷ sep) zero (d ∷ s) ≡ cons_first d (cut (c ∷ sep) zero s)
  unfolding cut is_prefix
  cut_other d s h = ground arith

  cut_sep : (s : Text) → cut (c ∷ sep) zero (c ∷ sep ++ s) ≡ [] ∷ cut (c ∷ sep) zero s
  unfolding cut
  cut_sep s =
      let e : suc (length sep) - 1 ≡ length sep = omega arith in
      rw (is_prefix_self (c ∷ sep) s, cut) (rw e (ap (λ ps. [] ∷ ps) (cut_skip sep s)))

  -- The part before the first separator is put before the first part of the rest.
  abbrev before_first : Text → List Text → List Text
  before_first [] ps = ps
  before_first (d ∷ p) ps = cons_first d (before_first p ps)

  cut-before :
      (p s : Text) → Lacks c p → cut (c ∷ sep) zero (p ++ s) ≡ before_first p (cut (c ∷ sep) zero s)
  cut-before [] s h = refl
  cut-before (d ∷ p) s (h, hs) = cut_other d (p ++ s) h ∙ ap (cons_first d) (cut-before p s hs)

  before_first-cons : (p q : Text) (ps : List Text) → before_first p (q ∷ ps) ≡ (p ++ q) ∷ ps
  before_first-cons [] q ps = refl
  before_first-cons (d ∷ p) q ps = rw (before_first-cons p q ps) refl

  -- Splitting what is joined gives the parts, where there is a part and none has the first
  -- character of the separator.
  pub split-join :
      (p : Text) (ps : List Text)
      → All (Lacks c) (p ∷ ps)
      → split (join (p ∷ ps) (c ∷ sep)) (c ∷ sep) ≡ p ∷ ps
  unfolding split join
  split-join p [] (h, hs) =
      sym (ap (cut (c ∷ sep) zero) (append-nil p))
      ∙ cut-before p [] h
      ∙ before_first-cons p [] []
      ∙ ap (λ r. r ∷ []) (append-nil p)
  split-join p (q ∷ ps) (h, hs) =
      cut-before p (c ∷ sep ++ join (q ∷ ps) (c ∷ sep)) h
      ∙ ap (before_first p) (cut_sep (join (q ∷ ps) (c ∷ sep)))
      ∙ before_first-cons p [] (cut (c ∷ sep) zero (join (q ∷ ps) (c ∷ sep)))
      ∙ ap₂ ◌∷◌ (append-nil p) (split-join q ps hs)
