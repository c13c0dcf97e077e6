-- ===== src/FeeController/NextCap.antt =====
-- `getNextFeeCap`: which fee of the queue becomes the next cap, and when the index is out of
-- range.
use native.Mathlib.Nat.{mul-le-mul, mul-le-mul_left, le_of_lt}
use lotus_tools.Prelude.{
  ℕ, suc, ℤ, pos, List, ◌-◌, ◌*◌, ◌/◌, ◌≤◌, ◌<◌, ◌≡◌, refl, ◌↔◌, true, false, length, get_elem?,
  get_elem?-lt, ◌<ℤ◌, ◌≤ℤ◌, <ℤ_trichotomy, eq_of_parts, inl, inr, [], ◌∷◌, done, panic, index,
  arith, leb_ℤ, ltb_ℤ, bound64, mul64_pos, sub64, sub64_one, div64_pos, Bool, some, ltb,
  if◌then◌else◌, ◌∙◌, ap, dec_lt, wrap64, ◌-ℤ◌, subst,
}
use lotus_tools.FeeController.Defs.{FeeState, sort, get_next_fee_cap, cap_percent, rank}
use lotus_tools.FeeController.Sort.{count, count-sort, length-sort, sort-IsSorted, get_elem?-rank}

-- The fee `v` has rank k in the queue: at least k fees are at or below it, fewer than k below it.
abbrev pub HasRank : ℕ → ℤ → List ℤ → Type 0
HasRank k v queue = (k ≤ count (λ w. leb_ℤ w v) queue) × (count (λ w. ltb_ℤ w v) queue < k)

count_le :
    (v w : ℤ) (queue : List ℤ)
    → v <ℤ w
    → count (λ z. leb_ℤ z v) queue ≤ count (λ z. ltb_ℤ z w) queue
count_le v w [] h = omega arith
count_le v w (x ∷ xs) h = ground (arith, count_le v w xs h)

HasRank-le : (k : ℕ) (v w : ℤ) (queue : List ℤ) → HasRank k v queue → HasRank k w queue → w ≤ℤ v
HasRank-le k v w queue r t = elim (<ℤ_trichotomy v w) [
  | inl above ↦ absurd (omega (arith, count_le v w queue above, r, t))
  | inr (inl same) ↦ rw same (omega arith)
  | inr (inr below) ↦ omega arith
]

-- A queue has one number of each rank.
pub HasRank-unique :
    (k : ℕ) (v w : ℤ) (queue : List ℤ) → HasRank k v queue → HasRank k w queue → w ≡ v
HasRank-unique k v w queue r t =
    let a = HasRank-le k v w queue r t in
    let b = HasRank-le k w v queue t r in eq_of_parts w v (omega arith)

-- The only number of rank k in the queue.
abbrev pub IsRanked : ℕ → ℤ → List ℤ → Type 0
IsRanked k v queue = HasRank k v queue × ((w : ℤ) → HasRank k w queue → w ≡ v)

index-HasRank :
    (queue : List ℤ) (i : ℕ)
    → i < length queue
    → (v : ℤ) × (index (sort queue) (pos i) ≡ done v) × HasRank (suc i) v queue
index-HasRank queue i h = go (get_elem?-lt (sort queue) i (omega (arith, length-sort queue)))
  where
    go :
        (v : ℤ) × (get_elem? (sort queue) i ≡ some v)
        → (v : ℤ) × (index (sort queue) (pos i) ≡ done v) × HasRank (suc i) v queue
    go (v, e) =
        let r = get_elem?-rank (sort queue) i (sort-IsSorted queue) e in
        (
          v,
          rw e,
          (
            omega (arith, r, count-sort (λ w. leb_ℤ w v) queue),
            omega (arith, r, count-sort (λ w. ltb_ℤ w v) queue),
          ),
        )

abbrev pub min100 : ℕ → ℕ
min100 percent = if ltb 100 percent then 100 else percent

min100-le : (percent : ℕ) → min100 percent ≤ 100
min100-le percent = ground arith

cap_percent-min100 : (percent : ℕ) → cap_percent (pos percent) ≡ pos (min100 percent)
unfolding cap_percent
cap_percent-min100 percent = ground arith

-- The share of n fees that a percentage, cut off at 100, stands for.
abbrev pub share : ℕ → ℕ → ℕ
share n percent = n * min100 percent / 100

share-product : (n percent : ℕ) → n * min100 percent ≤ n * 100
share-product n percent = mul-le-mul_left n (min100-le percent)

share-le : (n percent : ℕ) → share n percent ≤ n
share-le n percent = let t = share-product n percent in omega arith

-- For ten fees or more the cut at 100 does not change whether the share is empty.
share-pos : (n percent : ℕ) → 10 ≤ n → 100 ≤ n * percent → 0 < share n percent
share-pos n percent h k = elim (dec_lt 100 percent) [ yes p ↦ ground arith | no p ↦ ground arith ]

share-zero : (n percent : ℕ) → 10 ≤ n → n * percent < 100 → share n percent ≡ 0
share-zero n percent h k =
    let small : n * 10 ≤ n * 100 = omega arith in
    elim (dec_lt 100 percent) [
      | yes p ↦ absurd (big (mul-le-mul h (le_of_lt p)))
      | no p ↦ ground arith
    ]
  where
    big : 10 * 100 ≤ n * percent → ⊥
    big t = omega arith

rank-share :
    (n percent : ℕ)
    → n * 100 < bound64
    → rank n (cap_percent (pos percent)) ≡ sub64 (pos (share n percent)) (pos 1)
unfolding rank
rank-share n percent h =
    let t = share-product n percent in
    let e = mul64_pos n (min100 percent) (omega arith) in rw (cap_percent-min100, e, div64_pos)

-- A queue that is shorter than ten fees leaves the cap as it is.
pub get_next_fee_cap_short :
    (percent : ℤ) (needmax : Bool) (p : FeeState)
    → length p.fee_queue < 10
    → get_next_fee_cap percent needmax p ≡ done p.feecap
unfolding get_next_fee_cap
get_next_fee_cap_short percent needmax p h = ground arith

-- A queue of ten fees or more, of a length that a machine integer holds a hundred times.
abbrev pub IsLong : FeeState → Type 0
IsLong p = (10 ≤ length p.fee_queue) × (length p.fee_queue * 100 < bound64)

get_next_fee_cap_percent :
    (percent : ℕ) (p : FeeState)
    → IsLong p
    → get_next_fee_cap (pos percent) false p
      ≡ index (sort p.fee_queue) (sub64 (pos (share (length p.fee_queue) percent)) (pos 1))
unfolding get_next_fee_cap
get_next_fee_cap_percent percent p h =
    ground (arith, length-sort p.fee_queue, rank-share (length p.fee_queue) percent)

get_next_fee_cap_largest :
    (percent : ℤ) (p : FeeState)
    → IsLong p
    → get_next_fee_cap percent true p ≡ index (sort p.fee_queue) (pos (length p.fee_queue - 1))
unfolding get_next_fee_cap
get_next_fee_cap_largest percent p h =
    ground (arith, length-sort p.fee_queue, sub64_one (length p.fee_queue))

-- With ten observed fees or more, the next cap for a percentage is the one number whose rank is that
-- percentage of the queue: so many fees are at or below it, and fewer are below it. The condition is
-- that the percentage of the queue is at least one fee.
pub get_next_fee_cap-HasRank :
    (percent : ℕ) (p : FeeState)
    → IsLong p
    → 100 ≤ length p.fee_queue * percent
    → (v : ℤ) × (get_next_fee_cap (pos percent) false p ≡ done v)
      × IsRanked (share (length p.fee_queue) percent) v p.fee_queue
get_next_fee_cap-HasRank percent p h k =
    let n = share (length p.fee_queue) percent in
    let some_share : 0 < n = share-pos (length p.fee_queue) percent h.0 k in
    let fits : n ≤ length p.fee_queue = share-le (length p.fee_queue) percent in
    let (v, e, r) = index-HasRank p.fee_queue (n - 1) (omega arith) in
    let back : suc (n - 1) ≡ n = omega arith in
    let ranked : HasRank n v p.fee_queue = subst (λ j. HasRank j v p.fee_queue) back r in
    (
      v,
      get_next_fee_cap_percent percent p h
          ∙ ap (index (sort p.fee_queue)) (sub64_one n (omega arith) some_share)
          ∙ e,
      (ranked, λ w. HasRank-unique n v w p.fee_queue ranked),
    )

-- With ten observed fees or more, asking for the largest gives a fee that no fee of the queue exceeds.
pub get_next_fee_cap_max :
    (percent : ℤ) (p : FeeState)
    → IsLong p
    → (v : ℤ) × (get_next_fee_cap percent true p ≡ done v)
      × HasRank (length p.fee_queue) v p.fee_queue
get_next_fee_cap_max percent p h =
    let n = length p.fee_queue in
    let (v, e, r) = index-HasRank p.fee_queue (n - 1) (omega arith) in
    let back : suc (n - 1) ≡ n = omega arith in
    (v, get_next_fee_cap_largest percent p h ∙ e, subst (λ j. HasRank j v p.fee_queue) back r)

index_before_first : (queue : List ℤ) → index queue (sub64 (pos 0) (pos 1)) ≡ panic
unfolding sub64 wrap64 ◌-ℤ◌
index_before_first queue = refl

-- With ten observed fees or more and the largest not asked for, `getNextFeeCap` panics exactly
-- when the percentage of the queue is less than one fee.
pub get_next_fee_cap-panic_iff :
    (percent : ℕ) (p : FeeState)
    → IsLong p
    → (get_next_fee_cap (pos percent) false p ≡ panic) ↔ (length p.fee_queue * percent < 100)
get_next_fee_cap-panic_iff percent p h = (
  λ e. elim (dec_lt (length p.fee_queue * percent) 100) [
    | yes small ↦ small
    | no large ↦ let (v, f, r) = get_next_fee_cap-HasRank percent p h (omega arith) in cc
  ],
  λ small.
      get_next_fee_cap_percent percent p h
      ∙ ap (λ n. index (sort p.fee_queue) (sub64 (pos n) (pos 1)))
          (share-zero (length p.fee_queue) percent h.0 small)
      ∙ index_before_first (sort p.fee_queue),
)
