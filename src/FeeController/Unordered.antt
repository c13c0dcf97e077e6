-- ===== src/FeeController/Unordered.antt =====
-- The fee queue up to its order: `sort.Sort`, `getNextFeeCap` and `ResetBaseFeeCap` on queues that
-- hold the same fees.
use mathlib.Core.List.{Perm, Permᴰ}
use mathlib.Core.Logic.{∥∥₁_elim}
use lotus_tools.Prelude.{
  inl, inr, ◌<ℤ◌, <ℤ_trichotomy, ℤ, List, [], ◌∷◌, ◌≡◌, refl, sym, ap, ◌∙◌, arith, Bool,
}
use lotus_tools.Prelude.{All, ◌≤ℤ◌, length, done, ◌>>=◌}
use lotus_tools.Config.{Setting}
use lotus_tools.FeeController.Sort.{IsSorted, length-sort}
use lotus_tools.FeeController.Defs.{
  reset_base_fee_cap, install_cap, FeeState, less, insert_sorted, sort, get_next_fee_cap,
}

insert_sorted_comm_lt :
    (a b : ℤ) (xs : List ℤ)
    → a <ℤ b
    → insert_sorted a (insert_sorted b xs) ≡ insert_sorted b (insert_sorted a xs)
unfolding insert_sorted less
insert_sorted_comm_lt a b [] h = ground arith
insert_sorted_comm_lt a b (x ∷ xs) h = ground (arith, insert_sorted_comm_lt a b xs h)

insert_sorted_comm :
    (a b : ℤ) (xs : List ℤ)
    → insert_sorted a (insert_sorted b xs) ≡ insert_sorted b (insert_sorted a xs)
insert_sorted_comm a b xs = elim (<ℤ_trichotomy a b) [
  | inl below ↦ insert_sorted_comm_lt a b xs below
  | inr (inl same) ↦ rw same
  | inr (inr above) ↦ sym (insert_sorted_comm_lt b a xs above)
]

sort-Permᴰ : {xs ys : List ℤ} → Permᴰ xs ys → sort xs ≡ sort ys
unfolding sort
sort-Permᴰ Permᴰ.nil = refl
sort-Permᴰ (Permᴰ.cons e d) = rw (e, sort-Permᴰ d)
sort-Permᴰ (Permᴰ.swap {a = a} {b = b} {l = l} e f) =
    rw (sym e, sym f, insert_sorted_comm a b (sort l))
sort-Permᴰ (Permᴰ.trans d e) = sort-Permᴰ d ∙ sort-Permᴰ e

-- Queues that hold the same fees are sorted to the same list.
pub sort-Perm : {xs ys : List ℤ} → Perm xs ys → sort xs ≡ sort ys
sort-Perm p = ∥∥₁_elim p (hlevel) sort-Permᴰ

insert_sorted_first : (x : ℤ) (xs : List ℤ) → All (λ y. x ≤ℤ y) xs → insert_sorted x xs ≡ x ∷ xs
unfolding insert_sorted less
insert_sorted_first x [] h = refl
insert_sorted_first x (y ∷ ys) h = ground arith

sort_sorted : (xs : List ℤ) → IsSorted xs → sort xs ≡ xs
unfolding sort
sort_sorted [] h = refl
sort_sorted (x ∷ xs) h = ap (insert_sorted x) (sort_sorted xs h.1) ∙ insert_sorted_first x xs h.0

-- A list in order that holds the same fees is the sorted one, whatever the algorithm.
pub sort_unique : {xs ys : List ℤ} → Perm xs ys → IsSorted ys → sort xs ≡ ys
sort_unique {ys = ys} p h = sort-Perm p ∙ sort_sorted ys h

-- The same state with its fees in another order.
abbrev pub with_queue : List ℤ → FeeState → FeeState
with_queue queue p = record p { fee_queue = queue }

-- `getNextFeeCap` does not look at the order of the queue.
pub get_next_fee_cap_unordered :
    (percent : ℤ) (needmax : Bool) (p : FeeState) {queue : List ℤ}
    → Perm p.fee_queue queue
    → get_next_fee_cap percent needmax (with_queue queue p) ≡ get_next_fee_cap percent needmax p
unfolding get_next_fee_cap
get_next_fee_cap_unordered percent needmax p {queue} same =
    let sorted : sort queue ≡ sort p.fee_queue = sym (sort-Perm same) in
    let size : length queue ≡ length p.fee_queue =
      sym (length-sort queue) ∙ ap length sorted ∙ length-sort p.fee_queue in
    rw (sorted, size)

-- `ResetBaseFeeCap` does not look at the queue.
pub reset_base_fee_cap-with_queue :
    (s : Setting) (cap : ℤ) (queue : List ℤ) (p : FeeState)
    → reset_base_fee_cap s cap (with_queue queue p)
      ≡ (reset_base_fee_cap s cap p >>= λ q. done (with_queue queue q))
unfolding reset_base_fee_cap install_cap
reset_base_fee_cap-with_queue s cap queue p = ground arith

-- `ResetBaseFeeCap` keeps the queue.
pub reset_base_fee_cap-fee_queue :
    (s : Setting) (cap : ℤ) (p q : FeeState)
    → reset_base_fee_cap s cap p ≡ done q
    → q.fee_queue ≡ p.fee_queue
unfolding reset_base_fee_cap install_cap
reset_base_fee_cap-fee_queue s cap p q h = ground arith
