-- ===== src/Improve/Bounds.antt =====
-- What a message looks like that `doImprove` has pushed or raised the alert for.
use lotus_tools.Prelude.{ℤ, ◌≡◌, ◌≢◌, none, some, done, arith, ◌≤ℤ◌, ◌<ℤ◌, ok}
use lotus_tools.Config.{Setting, Config}
use lotus_tools.Node.{ChainMessage, SignedMessage, Node, pre_commit_sector, prove_commit_sector}
use lotus_tools.Improve.Defs.{
  pushed, estimate, next_limit, skip, raise_fees, submit, sign_and_push, robot_url, do_improve,
  ten_nano, max_limit,
}

-- What a raised message keeps of the one in the pool.
pub record SameCall (m n : ChainMessage) : Type 0 where
  pub version : n.version ≡ m.version
  pub to : n.to ≡ m.to
  pub from : n.from ≡ m.from
  pub nonce : n.nonce ≡ m.nonce
  pub value : n.value ≡ m.value
  pub method : n.method ≡ m.method
  pub params : n.params ≡ m.params

-- A message whose fees have been raised to `fee` within the configured bounds.
pub record IsRaised (s : Setting) (fee : ℤ) (m n : ChainMessage) : Type 0 where
  pub same_call : SameCall m n
  pub fee_cap : n.gas_fee_cap ≡ fee
  pub fee_cap-lt : n.gas_fee_cap <ℤ ten_nano
  pub limit-le : n.gas_limit ≤ℤ max_limit
  pub prove-le : m.method ≡ prove_commit_sector → n.gas_limit ≤ℤ s.pro_limit
  pub pre-le : m.method ≡ pre_commit_sector → n.gas_limit ≤ℤ s.pre_limit

estimate-le : (s : Setting) (cap limit : ℤ) → estimate s cap limit ≤ℤ cap
unfolding estimate
estimate-le s cap limit = ground arith

next_limit-le :
    (s : Setting) (m : ChainMessage) (limit : ℤ)
    → (m.method ≡ prove_commit_sector → next_limit s m limit ≤ℤ s.pro_limit)
      × (m.method ≡ pre_commit_sector → next_limit s m limit ≤ℤ s.pre_limit)
unfolding next_limit
next_limit-le s m limit = (
  λ e. rw (e, next_limit) (estimate-le s s.pro_limit _),
  λ e. rw (e, next_limit) (estimate-le s s.pre_limit _),
)

pub skip-none :
    (s : Setting) (m : ChainMessage) (limit fee : ℤ)
    → skip s m limit fee ≡ none
    → (fee <ℤ ten_nano) × (limit ≤ℤ max_limit)
unfolding skip
skip-none s m limit fee h = ground arith

raise_fees-IsRaised :
    (s : Setting) (m : ChainMessage) (limit fee : ℤ)
    → skip s m (next_limit s m limit) fee ≡ none
    → IsRaised s fee m (raise_fees s m (next_limit s m limit) fee)
unfolding raise_fees
raise_fees-IsRaised s m limit fee h =
    ground (arith, skip-none s m (next_limit s m limit) fee, next_limit-le s m limit)

pub submit-pushed :
    (c : Config) (node : Node) (m : ChainMessage) {smsg : SignedMessage}
    → submit c node m ≡ done (pushed smsg)
    → (m.gas_premium ≤ℤ c.setting.limit_max_premium) × (node.wallet_sign m.from m ≡ ok smsg)
unfolding submit sign_and_push robot_url
submit-pushed c node m h = ground arith

-- The early returns are none of the later outcomes.
pub skip-ne_pushed :
    (s : Setting) (m : ChainMessage) (limit fee : ℤ) (smsg : SignedMessage)
    → skip s m limit fee ≢ some (pushed smsg)
unfolding skip
skip-ne_pushed s m limit fee smsg h = ground arith

-- A push comes from the end of the function.
pub do_improve-submit :
    (c : Config) (node : Node) (lm smsg : SignedMessage) (limit fee : ℤ)
    → do_improve c node lm limit fee ≡ done (pushed smsg)
    → let l = next_limit c.setting lm.message limit in
      (skip c.setting lm.message l fee ≡ none)
      × (submit c node (raise_fees c.setting lm.message l fee) ≡ done (pushed smsg))
unfolding do_improve
do_improve-submit c node lm smsg limit fee h =
    ground
      (arith, skip-ne_pushed c.setting lm.message (next_limit c.setting lm.message limit) fee smsg)

-- Whatever `doImprove` pushes is signed by the node's wallet for the sender, from a message that
-- is the one in the pool but for its gas fields: the fee cap is the one asked for and below ten
-- nano, the limit is at most 10^9 and at most the configured limit of its method, and the premium
-- is at most the configured one.
pub do_improve-IsRaised :
    (c : Config) (node : Node) (lm smsg : SignedMessage) (limit fee : ℤ)
    → do_improve c node lm limit fee ≡ done (pushed smsg)
    → (n : ChainMessage) × IsRaised c.setting fee lm.message n
      × (n.gas_premium ≤ℤ c.setting.limit_max_premium)
      × (node.wallet_sign lm.message.from n ≡ ok smsg)
unfolding raise_fees
do_improve-IsRaised c node lm smsg limit fee h =
    let l = next_limit c.setting lm.message limit in
    let raised = raise_fees c.setting lm.message l fee in
    let (early, last) = do_improve-submit c node lm smsg limit fee h in
    let (premium, signed) = submit-pushed c node raised last in
    let r = raise_fees-IsRaised c.setting lm.message limit fee early in (raised, r, premium, signed)
