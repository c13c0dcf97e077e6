-- ===== src/Pool/Unordered.antt =====
-- The end of `syncMsg` on queues that hold the same fees in different orders.
use mathlib.Core.List.{Perm}
use lotus_tools.Prelude.{
  ℤ, List, Bool, true, false, Run, done, panic, ◌>>=◌, ◌≡◌, refl, sym, ap, ◌∙◌, subst, >>=_cong,
  >>=_assoc, Run-cases, Run->>=-eq-done, inl, inr, arith,
}
use lotus_tools.Config.{Setting}
use lotus_tools.FeeController.{
  FeeState, get_next_fee_cap, reset_base_fee_cap, check_msg_too_more, check_msg_too_low,
}
use lotus_tools.FeeController.Unordered.{
  with_queue, get_next_fee_cap_unordered, reset_base_fee_cap-with_queue,
  reset_base_fee_cap-fee_queue,
}
use lotus_tools.Pool.Sync.{raise_if_too_more, adjust_if_too_low, adjust}

-- One of the two resets, under its test.
abbrev reset_if : Setting → Bool → Bool → FeeState → Run FeeState
reset_if s needmax true f = do
  cap ← get_next_fee_cap s.base_fee_percent needmax f
  reset_base_fee_cap s cap f
reset_if s needmax false f = done f

adjust_resets :
    (s : Setting) (total : ℤ) (f : FeeState)
    → adjust s total f ≡ (
        reset_if s true (check_msg_too_more s total) f >>= λ g.
        reset_if s false (check_msg_too_low s total) g)
unfolding adjust raise_if_too_more adjust_if_too_low
adjust_resets s total f = ground arith

module _ (s : Setting) (f : FeeState) {queue : List ℤ} (same : Perm f.fee_queue queue) where
  reset_if_unordered :
      (needmax test : Bool)
      → reset_if s needmax test (with_queue queue f)
        ≡ (reset_if s needmax test f >>= λ g. done (with_queue queue g))
  reset_if_unordered needmax true =
      let next = get_next_fee_cap s.base_fee_percent needmax f in
      ap (λ (r : Run ℤ). r >>= λ cap. reset_base_fee_cap s cap (with_queue queue f))
        (get_next_fee_cap_unordered s.base_fee_percent needmax f same)
      ∙ >>=_cong next _ _ (λ cap. reset_base_fee_cap-with_queue s cap queue f)
      ∙ sym (>>=_assoc next _ _)
  reset_if_unordered needmax false = refl

reset_if-fee_queue :
    (s : Setting) (needmax test : Bool) (f g : FeeState)
    → reset_if s needmax test f ≡ done g
    → g.fee_queue ≡ f.fee_queue
reset_if-fee_queue s needmax true f g h =
    let (cap, c, e) = Run->>=-eq-done (get_next_fee_cap s.base_fee_percent needmax f) _ h in
    reset_base_fee_cap-fee_queue s cap f g e
reset_if-fee_queue s needmax false f g h = ground arith

-- The adjustment at the end of a round looks at the fees of the queue and not at their order: a
-- state with the same fees in another order is adjusted to the same cap and gauge, or ends in the
-- same panic, and keeps its own order.
pub adjust_unordered :
    (s : Setting) (total : ℤ) (f : FeeState) {queue : List ℤ}
    → Perm f.fee_queue queue
    → adjust s total (with_queue queue f) ≡ (adjust s total f >>= λ g. done (with_queue queue g))
adjust_unordered s total f {queue} same =
    let first : FeeState → Run FeeState = reset_if s true (check_msg_too_more s total) in
    let moved : Run FeeState → Run FeeState = λ r. r >>= λ g. done (with_queue queue g) in
    let start : first (with_queue queue f) ≡ moved (first f) =
      reset_if_unordered s f same true (check_msg_too_more s total) in
    elim (Run-cases (first f)) [
      | inl e ↦
          let e' : first (with_queue queue f) ≡ panic = start ∙ ap moved e in
          rw (adjust_resets s total (with_queue queue f), adjust_resets s total f, e', e)
      | inr (g, e) ↦
          let e' : first (with_queue queue f) ≡ done (with_queue queue g) = start ∙ ap moved e in
          let queue_kept = reset_if-fee_queue s true (check_msg_too_more s total) f g e in
          rw (adjust_resets s total (with_queue queue f), adjust_resets s total f, e', e)
            (reset_if_unordered s g (subst (λ xs. Perm xs queue) (sym queue_kept) same) false
              (check_msg_too_low s total))
    ]
