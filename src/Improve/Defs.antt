-- ===== src/Improve/Defs.antt =====
-- `doImprove`, section by section. The wallet and the pool of the node are the two calls
-- `wallet_sign` and `mpool_push`; the alert is a message to a chat robot whose answer is ignored.
use lotus_tools.Prelude.{
  ℤ, pos, Option, none, some, Bool, ◌&&◌, ok, err, Run, done, ◌>>=◌, or_panic, String, ltb_ℤ, leb_ℤ,
  eqb_ℤ, if◌then◌else◌, ◌==◌, mul64, div64, add64, sub64, div_ℕ, ◌*ℤ◌, not,
}
use lotus_tools.Config.{Setting, Config}
use lotus_tools.Node.{ChainMessage, SignedMessage, Node, pre_commit_sector, prove_commit_sector}

-- How a call ends: with one of the early returns, with the alert, with an error of the wallet or of
-- the pool, or with the signed message pushed.
pub data Outcome : Type 0 where
  fee_too_large : Outcome
  limit_too_large : Outcome
  near_by : Outcome
  same_limit : Outcome
  alerted : String → ChainMessage → Outcome
  sign_failed : Outcome
  push_failed : SignedMessage → Outcome
  pushed : SignedMessage → Outcome

-- limit * LimitEstimateSeed / 100 unless the limit is the one that breaks the message, and then
-- the cut at the configured limit of the method.
unfoldable pub estimate : Setting → ℤ → ℤ → ℤ
estimate s cap limit =
    let scaled =
      if eqb_ℤ limit s.pre_break_limit
      then limit
      else div64 (mul64 limit s.limit_estimate_seed) 100 in
    if ltb_ℤ cap scaled then cap else scaled

-- The limit from the start of the function to the second log line.
unfoldable pub next_limit : Setting → ChainMessage → ℤ → ℤ
next_limit s m limit =
    let start = if eqb_ℤ limit (pos 0) then m.gas_limit else limit in
    if m.method == prove_commit_sector
    then estimate s s.pro_limit start
    else (if m.method == pre_commit_sector then estimate s s.pre_limit start else start)

-- Whether a limit lies within LimitAdjustSeed percent of the message's own.
unfoldable pub is_near : Setting → ChainMessage → ℤ → Bool
is_near s m limit =
    leb_ℤ (div64 (mul64 m.gas_limit (sub64 (pos 100) s.limit_adjust_seed)) 100) limit
    && leb_ℤ limit (div64 (mul64 m.gas_limit (add64 (pos 100) s.limit_adjust_seed)) 100)

abbrev pub ten_nano : ℤ
ten_nano = pos 10000000000

abbrev pub max_limit : ℤ
max_limit = pos 1000000000

-- The early returns before the message is changed.
unfoldable pub skip : Setting → ChainMessage → ℤ → ℤ → Option Outcome
skip s m limit next_fee =
    if leb_ℤ ten_nano next_fee
    then some fee_too_large
    else (if ltb_ℤ max_limit limit
        then some limit_too_large
        else (if not (eqb_ℤ next_fee m.gas_fee_cap)
            then none
            else (if not (eqb_ℤ limit s.pre_break_limit)
                then (if is_near s m limit then some near_by else none)
                else (if eqb_ℤ limit m.gas_limit then some same_limit else none))))

-- The new gas fields. The division comes first, so a premium below 100 becomes 0.
unfoldable pub raise_fees : Setting → ChainMessage → ℤ → ℤ → ChainMessage
raise_fees s m limit next_fee = record m {
  gas_limit = limit;
  gas_premium = div_ℕ m.gas_premium 100 *ℤ s.premium_seed;
  gas_fee_cap = next_fee;
}

-- p.conf.Alert.DingDing.URL, through two pointers.
unfoldable pub robot_url : Config → Run String
robot_url c = do a ← or_panic c.alert; d ← or_panic a.ding_ding; done d.url

unfoldable pub sign_and_push : Node → ChainMessage → Outcome
sign_and_push node m = elim (node.wallet_sign m.from m) [
  | err _ ↦ sign_failed
  | ok smsg ↦ elim (node.mpool_push smsg) [ err _ ↦ push_failed smsg | ok _ ↦ pushed smsg ]
]

unfoldable pub submit : Config → Node → ChainMessage → Run Outcome
submit c node m =
    if ltb_ℤ c.setting.limit_max_premium m.gas_premium
    then (do url ← robot_url c; done (alerted url m))
    else done (sign_and_push node m)

unfoldable pub do_improve : Config → Node → SignedMessage → ℤ → ℤ → Run Outcome
do_improve c node localmsg limit next_fee =
    let m = localmsg.message in
    let l = next_limit c.setting m limit in
    elim (skip c.setting m l next_fee) [
      | some early ↦ done early
      | none ↦ submit c node (raise_fees c.setting m l next_fee)
    ]
