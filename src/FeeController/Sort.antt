-- ===== src/FeeController/Sort.antt =====
-- `sort.Sort` on the fee queue: its result is in order, holds the same fees, and the fee at a
-- rank has at least so many fees at or below it.
use lotus_tools.Prelude.{
  ℕ, zero, suc, ℤ, Bool, List, [], ◌∷◌, some, ◌+◌, ◌≤◌, ◌≡◌, refl, length, get_elem?, All,
  All-get_elem?, arith, ◌≤ℤ◌, leb_ℤ, ltb_ℤ, if◌then◌else◌,
}
use lotus_tools.FeeController.Defs.{less, insert_sorted, sort}

-- How many fees satisfy a test.
abbrev pub count : (ℤ → Bool) → List ℤ → ℕ
count p [] = 0
count p (x ∷ xs) = (if p x then 1 else 0) + count p xs

-- Every fee is at most those behind it.
abbrev pub IsSorted : List ℤ → Type 0
IsSorted [] = Unit
IsSorted (x ∷ xs) = All (λ y. x ≤ℤ y) xs × IsSorted xs

pub count-insert_sorted :
    (p : ℤ → Bool) (x : ℤ) (xs : List ℤ)
    → count p (insert_sorted x xs) ≡ (if p x then 1 else 0) + count p xs
unfolding insert_sorted less
count-insert_sorted p x [] = refl
count-insert_sorted p x (y ∷ ys) = ground (arith, count-insert_sorted p x ys)

-- Sorting loses and invents no fee: every test is passed by as many fees as before.
pub count-sort : (p : ℤ → Bool) (xs : List ℤ) → count p (sort xs) ≡ count p xs
unfolding sort
count-sort p [] = refl
count-sort p (x ∷ xs) = omega (arith, count-insert_sorted p x (sort xs), count-sort p xs)

length-insert_sorted : (x : ℤ) (xs : List ℤ) → length (insert_sorted x xs) ≡ suc (length xs)
unfolding insert_sorted less
length-insert_sorted x [] = refl
length-insert_sorted x (y ∷ ys) = ground (arith, length-insert_sorted x ys)

pub length-sort : (xs : List ℤ) → length (sort xs) ≡ length xs
unfolding sort
length-sort [] = refl
length-sort (x ∷ xs) = omega (arith, length-insert_sorted x (sort xs), length-sort xs)

All-insert_sorted :
    (P : ℤ → Type 0) (x : ℤ) (xs : List ℤ) → P x → All P xs → All P (insert_sorted x xs)
unfolding insert_sorted less
All-insert_sorted P x [] px h = (px, tt)
All-insert_sorted P x (y ∷ ys) px h = ground (arith, All-insert_sorted P x ys px h.1)

pub All-sort : (P : ℤ → Type 0) (xs : List ℤ) → All P xs → All P (sort xs)
unfolding sort
All-sort P [] h = h
All-sort P (x ∷ xs) h = All-insert_sorted P x (sort xs) h.0 (All-sort P xs h.1)

All-le_trans : (a b : ℤ) (xs : List ℤ) → a ≤ℤ b → All (λ y. b ≤ℤ y) xs → All (λ y. a ≤ℤ y) xs
All-le_trans a b [] p h = h
All-le_trans a b (x ∷ xs) p h = (omega arith, All-le_trans a b xs p h.1)

insert_sorted-IsSorted : (x : ℤ) (xs : List ℤ) → IsSorted xs → IsSorted (insert_sorted x xs)
unfolding insert_sorted less
insert_sorted-IsSorted x [] h = (tt, tt)
insert_sorted-IsSorted x (y ∷ ys) h = ground (
  arith,
  insert_sorted-IsSorted x ys h.1,
  All-insert_sorted (λ (z : ℤ). y ≤ℤ z) x ys,
  All-le_trans x y ys,
)

pub sort-IsSorted : (xs : List ℤ) → IsSorted (sort xs)
unfolding sort
sort-IsSorted [] = tt
sort-IsSorted (x ∷ xs) = insert_sorted-IsSorted x (sort xs) (sort-IsSorted xs)

count_below : (v : ℤ) (xs : List ℤ) → All (λ y. v ≤ℤ y) xs → count (λ w. ltb_ℤ w v) xs ≡ 0
count_below v [] h = refl
count_below v (x ∷ xs) h = ground (arith, count_below v xs h.1)

-- In a sorted list the fee at index i has more than i fees at or below it, and at most i fees
-- strictly below it.
pub get_elem?-rank :
    (xs : List ℤ) (i : ℕ) {v : ℤ}
    → IsSorted xs
    → get_elem? xs i ≡ some v
    → (suc i ≤ count (λ w. leb_ℤ w v) xs) × (count (λ w. ltb_ℤ w v) xs ≤ i)
get_elem?-rank [] i s e = cc
get_elem?-rank (x ∷ xs) zero {v} s e = ground (arith, count_below v xs)
get_elem?-rank (x ∷ xs) (suc i) {v} s e =
    ground (arith, get_elem?-rank xs i s.1 e, All-get_elem? (λ (y : ℤ). x ≤ℤ y) xs i s.0 e)
