-- ===== src/Improve/Repeat.antt =====
-- A second round of `doImprove` leaves alone the message that the first one pushed.
use native.Mathlib.Nat.{mul-le-mul_left}
use lotus_tools.Prelude.{
  ℕ, ℤ, pos, ◌+◌, ◌-◌, ◌*◌, ◌≤◌, ◌≡◌, ◌≢◌, ◌⊎◌, none, some, true, done, Run, arith, ok, ◌≤ℤ◌,
  mul64_pos, sub64_pos, add64_pos, div64_pos, eqb_ℤ, eqb_ℤ_iff, sym, ap, ap₂, ◌∙◌, subst, inl, inr,
  Bool-cases,
}
use lotus_tools.Config.{Setting, Config}
use lotus_tools.Node.{Address, ChainMessage, SignedMessage, Node}
use lotus_tools.Improve.Defs.{
  Outcome, pushed, near_by, same_limit, next_limit, is_near, skip, raise_fees, do_improve,
  max_limit,
}
use lotus_tools.Improve.Bounds.{do_improve-submit, submit-pushed, skip-none}

-- The wallet signs the message that it is given.
abbrev pub SignsAsGiven : Node → Type 0
SignsAsGiven node =
    (a : Address) (m : ChainMessage) (smsg : SignedMessage)
    → node.wallet_sign a m ≡ ok smsg
    → smsg.message ≡ m

-- A limit is near to itself.
is_near_self :
    (s : Setting) (m : ChainMessage) (g seed : ℕ)
    → m.gas_limit ≡ pos g
    → g ≤ 1000000000
    → s.limit_adjust_seed ≡ pos seed
    → seed ≤ 100
    → is_near s m (pos g) ≡ true
unfolding is_near
is_near_self s m g seed e h f k =
    let low : g * (100 - seed) ≤ g * 100 = mul-le-mul_left g (omega arith) in
    let top : g * (100 + seed) ≤ g * 200 = mul-le-mul_left g (omega arith) in
    let up : g * 100 ≤ g * (100 + seed) = mul-le-mul_left g (omega arith) in
    let a = sub64_pos 100 seed (omega arith) k in
    let b = add64_pos 100 seed (omega arith) in
    let c = mul64_pos g (100 - seed) (omega arith) in
    let d = mul64_pos g (100 + seed) (omega arith) in
    rw (e, f, a, b, c, d, div64_pos (g * (100 - seed)), div64_pos (g * (100 + seed))) (ground arith)

next_limit-raise_fees :
    (s : Setting) (m : ChainMessage) (limit l fee : ℤ)
    → limit ≢ pos 0
    → next_limit s (raise_fees s m l fee) limit ≡ next_limit s m limit
unfolding next_limit raise_fees
next_limit-raise_fees s m limit l fee h = ground (arith, eqb_ℤ_iff limit (pos 0))

-- The two early returns for a message that carries the fee already.
abbrev pub IsSkipped : Run Outcome → Type 0
IsSkipped r = (r ≡ done near_by) ⊎ (r ≡ done same_limit)

skip-raise_fees :
    (s : Setting) (m : ChainMessage) (l fee : ℤ)
    → skip s m l fee ≡ none
    → is_near s (raise_fees s m l fee) l ≡ true
    → let r = skip s (raise_fees s m l fee) l fee in (r ≡ some near_by) ⊎ (r ≡ some same_limit)
unfolding raise_fees
skip-raise_fees s m l fee h near = elim (Bool-cases (eqb_ℤ l s.pre_break_limit)) [
  | inl b ↦ inr (unfold skip in ground (arith, skip-none s m l fee))
  | inr b ↦ inl (unfold skip in ground (arith, skip-none s m l fee))
]

do_improve-skip :
    (c : Config) (node : Node) (lm : SignedMessage) (limit fee : ℤ) {o : Outcome}
    → skip c.setting lm.message (next_limit c.setting lm.message limit) fee ≡ some o
    → do_improve c node lm limit fee ≡ done o
unfolding do_improve
do_improve-skip c node lm limit fee h = ground arith

-- After a push, another call for the pushed message with the same limit and the same fee changes
-- nothing and returns early. The conditions: the wallet signs what it is given, the call names a
-- limit (0 stands for the message's own), the pushed limit is not negative, and the configured
-- margin is a percentage between 0 and 100.
pub do_improve_twice :
    (c : Config) (node later : Node) (lm smsg : SignedMessage) (limit fee : ℤ) (g seed : ℕ)
    → SignsAsGiven node
    → do_improve c node lm limit fee ≡ done (pushed smsg)
    → limit ≢ pos 0
    → smsg.message.gas_limit ≡ pos g
    → c.setting.limit_adjust_seed ≡ pos seed
    → seed ≤ 100
    → IsSkipped (do_improve c later smsg limit fee)
unfolding raise_fees
do_improve_twice c node later lm smsg limit fee g seed wallet h nz eg es k =
    let s = c.setting in
    let m = lm.message in
    let l = next_limit s m limit in
    let n = raise_fees s m l fee in
    let (early, last) = do_improve-submit c node lm smsg limit fee h in
    let same : smsg.message ≡ n = wallet n.from n smsg (submit-pushed c node n last).1 in
    let own : l ≡ pos g = sym (ap (λ x. x.gas_limit) same) ∙ eg in
    let bounded : pos g ≤ℤ max_limit =
      subst (λ z. z ≤ℤ max_limit) own (skip-none s m l fee early).1 in
    let small : g ≤ 1000000000 = omega arith in
    let near : is_near s n l ≡ true =
      subst (λ z. is_near s n z ≡ true) (sym own) (is_near_self s n g seed own small es k) in
    let again : next_limit s smsg.message limit ≡ l =
      ap (λ x. next_limit s x limit) same ∙ next_limit-raise_fees s m limit l fee nz in
    let skipped : skip s smsg.message (next_limit s smsg.message limit) fee ≡ skip s n l fee =
      ap₂ (λ x y. skip s x y fee) same again in
    elim (skip-raise_fees s m l fee early near) [
      | inl e ↦ inl (do_improve-skip c later smsg limit fee (skipped ∙ e))
      | inr e ↦ inr (do_improve-skip c later smsg limit fee (skipped ∙ e))
    ]
