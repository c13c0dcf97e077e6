-- ===== src/Pool/Bounded.antt =====
-- What the adjustments of the cap and the recording of a fee keep.
use lotus_tools.Prelude.{
  suc, ◌≤◌, ℤ, pos, Bool, true, false, ◌≡◌, refl, sym, ap, ◌∙◌, subst, inl, inr, some, [], ◌∷◌,
  ◌++◌, length, Run, done, ◌>>=◌, Run->>=-eq-done, done-injective, arith, if◌then◌else◌,
  big_from_string, keep_last, length-keep_last, length-append, ◌<ℤ◌,
}
use lotus_tools.Config.{Setting, Config}
use lotus_tools.FeeController.{
  FeeState, reset_base_fee_cap, get_next_fee_cap, period, add_fee, check_msg_too_more,
  check_msg_too_low,
}
use lotus_tools.FeeController.Cap.{
  InBounds, Installs, reset_base_fee_cap-InBounds, reset_base_fee_cap-Installs,
}
use lotus_tools.FeeController.Queue.{window, add_fee-keep_last}
use lotus_tools.Pool.Sync.{raise_if_too_more, adjust_if_too_low, adjust}

-- What holds of the fees in every state: the cap is between the minimum and the maximum, and the
-- queue holds at most one fee more than an hour has periods.
pub record HoldsFees (c : Config) (lo hi : ℤ) (f : FeeState) : Type 0 where
  pub bounds : InBounds lo f
  pub max_feecap : f.max_feecap ≡ hi
  pub queue : length f.fee_queue ≤ suc (window c.setting)

-- What both adjustments do.
abbrev choose : Setting → Bool → FeeState → Run FeeState
choose s needmax f =
    get_next_fee_cap s.base_fee_percent needmax f >>= λ cap. reset_base_fee_cap s cap f

raise_on :
    (s : Setting) (total : ℤ) (f : FeeState)
    → raise_if_too_more s total f ≡ (if check_msg_too_more s total then choose s true f else done f)
unfolding raise_if_too_more
raise_on s total f = refl

adjust_on :
    (s : Setting) (total : ℤ) (f : FeeState)
    → adjust_if_too_low s total f ≡ (if check_msg_too_low s total then choose s false f else done f)
unfolding adjust_if_too_low
adjust_on s total f = refl

adjust_step :
    (s : Setting) (total : ℤ) (f : FeeState)
    → adjust s total f ≡ (raise_if_too_more s total f >>= λ f'. adjust_if_too_low s total f')
unfolding adjust
adjust_step s total f = refl

kept :
    (raised : ℤ) (f q : FeeState)
    → Installs raised f q
    → (q.max_feecap ≡ f.max_feecap) × (q.fee_queue ≡ f.fee_queue)
kept raised f q (inl (le, e)) = (ap (λ z. z.max_feecap) e, ap (λ z. z.fee_queue) e)
kept raised f q (inr (lt, e)) = (ap (λ z. z.max_feecap) e, ap (λ z. z.fee_queue) e)

module _ (c : Config) {lo hi : ℤ} (parses : big_from_string c.setting.base_fee ≡ some lo) where
  pub reset-HoldsFees :
      (cap : ℤ) (f g : FeeState)
      → reset_base_fee_cap c.setting cap f ≡ done g
      → HoldsFees c lo hi f
      → HoldsFees c lo hi g
  reset-HoldsFees cap f g h v =
      let (raised, m, found) = reset_base_fee_cap-Installs c.setting cap f parses in
      let (q, e, i) = found in
      let (q', e', b) = reset_base_fee_cap-InBounds c.setting cap f parses v.bounds in
      let same : q ≡ g = done-injective (sym e ∙ h) in
      let same' : q' ≡ g = done-injective (sym e' ∙ h) in
      let (hi_kept, queue_kept) = kept raised f q i in
      record {
        bounds = subst (InBounds lo) same' b;
        max_feecap = subst (λ z. z.max_feecap ≡ hi) same (hi_kept ∙ v.max_feecap);
        queue =
            subst (λ z. length z.fee_queue ≤ suc (window c.setting)) same
              (subst (λ xs. length xs ≤ suc (window c.setting)) (sym queue_kept) v.queue);
      }

  choose-HoldsFees :
      (test needmax : Bool) (f g : FeeState)
      → (if test then choose c.setting needmax f else done f) ≡ done g
      → HoldsFees c lo hi f
      → HoldsFees c lo hi g
  choose-HoldsFees true needmax f g h v =
      let (cap, e, last) =
        Run->>=-eq-done (get_next_fee_cap c.setting.base_fee_percent needmax f) _ h in
      reset-HoldsFees cap f g last v
  choose-HoldsFees false needmax f g h v = subst (HoldsFees c lo hi) (done-injective h) v

  pub adjust-HoldsFees :
      (total : ℤ) (f g : FeeState)
      → adjust c.setting total f ≡ done g
      → HoldsFees c lo hi f
      → HoldsFees c lo hi g
  adjust-HoldsFees total f g h v =
      let (f', e, last) =
        Run->>=-eq-done (raise_if_too_more c.setting total f) _
          (sym (adjust_step c.setting total f) ∙ h) in
      choose-HoldsFees (check_msg_too_low c.setting total) false f' g
        (sym (adjust_on c.setting total f') ∙ last)
        (choose-HoldsFees (check_msg_too_more c.setting total) true f f'
          (sym (raise_on c.setting total f) ∙ e) v)

  pub add_fee-HoldsFees :
      (fee : ℤ) (f g : FeeState)
      → pos 0 <ℤ period c.setting
      → add_fee c.setting fee f ≡ done g
      → HoldsFees c lo hi f
      → HoldsFees c lo hi g
  add_fee-HoldsFees fee f g k h v =
      let w = window c.setting in
      let longer : FeeState = record f { fee_queue = keep_last w f.fee_queue ++ fee ∷ [] } in
      let same : longer ≡ g = done-injective (sym (add_fee-keep_last c.setting fee f k) ∙ h) in
      let own : HoldsFees c lo hi longer = record {
        bounds = record { above_min = v.bounds.above_min; below_max = v.bounds.below_max };
        max_feecap = v.max_feecap;
        queue = omega (
          arith,
          length-append (keep_last w f.fee_queue) (fee ∷ []),
          length-keep_last w f.fee_queue,
        );
      } in
      subst (HoldsFees c lo hi) same own
