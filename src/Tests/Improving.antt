-- ===== src/Tests/Improving.antt =====
-- `doImprove` on a prove-commit and a transfer.
use lotus_tools.Prelude.{
  ◌/◌, ℕ, ◌+◌, ◌*◌, ◌≤◌, pos, ◌≡◌, ◌≢◌, refl, ap, ◌↔◌, ◌⊎◌, ok, done, panic, arith, ◌≤ℤ◌, pos_part,
  ◌*ℤ◌, div_ℕ,
}
use lotus_tools.Node.{ChainMessage, SignedMessage}
use lotus_tools.Improve.{
  pushed, estimate, next_limit, is_near, skip, raise_fees, sign_and_push, submit, do_improve,
}
use lotus_tools.Improve.Bounds.{IsRaised, do_improve-IsRaised}
use lotus_tools.Improve.Repeat.{SignsAsGiven, IsSkipped, do_improve_twice}
use lotus_tools.Improve.Errors.{IsExcessive, raise_fees-premium, do_improve-panic_iff}
use lotus_tools.Tests.Data.{config, setting, message, signed, node}

abbrev transfer : SignedMessage
transfer = signed (message "f3owner" 1)

-- The transfer with its new limit, premium and fee cap.
abbrev raised : SignedMessage
raised = signed (record (message "f3owner" 1) {
  gas_limit = pos 630000;
  gas_premium = pos 126252;
  gas_fee_cap = pos 2000000000;
})

raised-transfer :
    do_improve config node transfer (pos 630000) (pos 2000000000) ≡ done (pushed raised)
unfolding do_improve next_limit estimate skip is_near submit sign_and_push raise_fees div_ℕ ◌*ℤ◌
raised-transfer = refl

do_improve-IsRaised_example :
    (n : ChainMessage) × IsRaised config.setting (pos 2000000000) transfer.message n
    × (n.gas_premium ≤ℤ config.setting.limit_max_premium)
    × (node.wallet_sign transfer.message.from n ≡ ok raised)
do_improve-IsRaised_example =
    do_improve-IsRaised config node transfer raised (pos 630000) (pos 2000000000) raised-transfer

signs : SignsAsGiven node
signs a m smsg h = ground arith

some_limit : pos 630000 ≢ pos 0
some_limit h = ground (arith, ap pos_part h)

do_improve_twice_example : IsSkipped (do_improve config node raised (pos 630000) (pos 2000000000))
do_improve_twice_example =
    do_improve_twice config node node transfer raised (pos 630000) (pos 2000000000) 630000 30 signs
      raised-transfer some_limit refl refl (omega arith)

raise_fees-premium_example :
    ((raise_fees setting transfer.message (pos 1) (pos 2)).gas_premium ≡ pos (100250 / 100 * 126))
    × (100250 / 100 * 126 * 100 ≤ 100250 * 126)
    × (100250 * 126 ≤ 100250 / 100 * 126 * 100 + 99 * 126)
    × ((100250 / 100 * 126 * 100 ≡ 100250 * 126)
        ↔ ((◌≡◌ {A = ℕ} 126 0) ⊎ (100250 / 100 * 100 ≡ 100250)))
raise_fees-premium_example =
    raise_fees-premium setting transfer.message (pos 1) (pos 2) 100250 126 refl refl

-- A premium that grows beyond the configured 1900000.
abbrev costly : SignedMessage
costly = signed (record (message "f3owner" 1) { gas_premium = pos 1800000 })

do_improve-panic_iff_example :
    (do_improve config node costly (pos 630000) (pos 2000000000) ≡ panic)
    ↔ IsExcessive config costly (pos 630000) (pos 2000000000)
do_improve-panic_iff_example =
    do_improve-panic_iff config node costly (pos 630000) (pos 2000000000) refl
