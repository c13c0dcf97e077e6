-- ===== src/FeeController/Queue.antt =====
-- `queueTop` and `addFee`: once the ticker's period is positive, the queue is the window of the
-- latest observed fees.
use lotus_tools.Prelude.{
  ℕ, suc, ℤ, pos, negsuc, List, [], ◌∷◌, ◌++◌, ◌+◌, ◌-◌, ◌/◌, ◌≡◌, length, length-append,
  length-drop, drop, drop-drop, drop-append, keep_last, Run, done, ◌>>=◌, quot64, quot64_pos,
  pos_part, arith, ◌<ℤ◌, dec_lt, ap, sym, ◌∙◌, append-nil, append_assoc,
}
use lotus_tools.Config.{Setting}
use lotus_tools.FeeController.Defs.{FeeState, period, queue_top, trim, add_fee}

-- How many periods an hour has.
abbrev pub window : Setting → ℕ
window s = 3600000000000 / pos_part (period s)

-- A call of `addFee` for each observed fee, in order.
unfoldable pub add_fees : Setting → List ℤ → FeeState → Run FeeState
add_fees s [] p = done p
add_fees s (fee ∷ fees) p = do p' ← add_fee s fee p; add_fees s fees p'

queue_top-window : (s : Setting) → pos 0 <ℤ period s → queue_top s ≡ done (pos (window s))
unfolding queue_top
queue_top-window s h = go (period s) h
  where
    go :
        (z : ℤ)
        → pos 0 <ℤ z
        → quot64 (pos 3600000000000) z ≡ done (pos (3600000000000 / pos_part z))
    go (pos n) k = quot64_pos 3600000000000 n (omega arith) (omega arith)
    go (negsuc n) k = absurd (omega arith)

-- The loop leaves the newest fees that fit, and never runs off the end of the queue.
trim-keep_last : (t : ℕ) (xs : List ℤ) → trim (pos t) xs ≡ done (keep_last t xs)
unfolding trim
trim-keep_last t [] = let e : 0 - t ≡ 0 = omega arith in rw e (ground arith)
trim-keep_last t (x ∷ xs) = elim (dec_lt t (suc (length xs))) [
  | yes p ↦
      let e : suc (length xs) - t ≡ suc (length xs - t) = omega arith in
      rw e (ground (arith, trim-keep_last t xs))
  | no p ↦ let e : suc (length xs) - t ≡ 0 = omega arith in rw e (ground arith)
]

-- With a positive period `addFee` returns: it drops the oldest fees beyond a window of fees and
-- appends the new one, and changes nothing else.
pub add_fee-keep_last :
    (s : Setting) (fee : ℤ) (p : FeeState)
    → pos 0 <ℤ period s
    → add_fee s fee p ≡ done (record p { fee_queue = keep_last (window s) p.fee_queue ++ fee ∷ [] })
unfolding add_fee
add_fee-keep_last s fee p h = rw (queue_top-window s h) (rw (trim-keep_last (window s) p.fee_queue))

keep_last-keep_last : (t : ℕ) (xs : List ℤ) → keep_last t (keep_last (suc t) xs) ≡ keep_last t xs
keep_last-keep_last t xs =
    let k : ℕ = length xs - suc t in
    let n : ℕ = length (drop k xs) - t in
    let e : k + n ≡ length xs - t = omega (arith, length-drop k xs) in
    drop-drop n k xs ∙ ap (λ j. drop j xs) e

keep_last-append :
    (t : ℕ) (xs : List ℤ) (x : ℤ)
    → keep_last t (keep_last (suc t) xs) ++ x ∷ [] ≡ keep_last (suc t) (xs ++ x ∷ [])
keep_last-append t xs x =
    let e : length (xs ++ x ∷ []) - suc t ≡ length xs - t =
      omega (arith, length-append xs (x ∷ [])) in
    ap (λ ys. ys ++ x ∷ []) (keep_last-keep_last t xs)
    ∙ sym
        (ap (λ j. drop j (xs ++ x ∷ [])) e ∙ drop-append (length xs - t) xs (x ∷ []) (omega arith))

-- The queue is a window on the history: if it holds the latest fees of a history, then after any
-- further fees it holds the latest fees of the longer history, one more than an hour has periods.
pub add_fees-window :
    (s : Setting) (fees history : List ℤ) (p : FeeState)
    → pos 0 <ℤ period s
    → p.fee_queue ≡ keep_last (suc (window s)) history
    → add_fees s fees p
      ≡ done (record p { fee_queue = keep_last (suc (window s)) (history ++ fees) })
unfolding add_fees
add_fees-window s [] history p h e =
    ap (λ q. done (record p { fee_queue = q }))
      (e ∙ ap (keep_last (suc (window s))) (sym (append-nil history)))
add_fees-window s (fee ∷ fees) history p h e =
    let longer = history ++ fee ∷ [] in
    rw (add_fee-keep_last s fee p h, ← append_assoc history (fee ∷ []) fees)
      (add_fees-window s fees longer
        (record p { fee_queue = keep_last (window s) p.fee_queue ++ fee ∷ [] }) h
        (ap (λ q. keep_last (window s) q ++ fee ∷ []) e ∙ keep_last-append (window s) history fee))
