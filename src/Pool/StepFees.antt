-- ===== src/Pool/StepFees.antt =====
-- `handleMsg` of mpoolQueue.go, which raises the fee of a message by steps of its age. Its only call
-- is commented out.
use lotus_tools.Prelude.{
  ℤ, String, Bool, true, false, ◌≡◌, refl, Option, none, some, List, [], ◌∷◌, ◌++◌, All,
  big_from_string, string_eq, if◌then◌else◌,
}
use lotus_tools.Config.{Float64, StepFee}
use lotus_tools.Node.{SignedMessage}
use lotus_tools.Pool.Clean.{Job}

module _ (gt : Float64 → Float64 → Bool) (hours : Float64) where
  -- The loop over the steps. `gt` is the comparison of floats, `hours` the age of the message.
  unfoldable pub step_fee : List StepFee → String → String
  step_fee [] current = current
  step_fee (v ∷ steps) current = step_fee steps (if gt hours v.hour then v.fee else current)

  abbrev pub job_at : SignedMessage → ℤ → Option ℤ → Option Job
  job_at msg limit none = none
  job_at msg limit (some fee) = some (record { msg = msg; limit = limit; next_fee = fee })

  unfoldable pub handle_msg : List StepFee → SignedMessage → ℤ → Option Job
  handle_msg steps msg limit =
      let fee = step_fee steps "0" in
      if string_eq.beq fee "0" then none else job_at msg limit (big_from_string fee)

  -- A step that the message has passed, or has not.
  abbrev pub IsPassed : StepFee → Type 0
  IsPassed v = gt hours v.hour ≡ true

  abbrev pub IsAhead : StepFee → Type 0
  IsAhead v = gt hours v.hour ≡ false

  step_fee_ahead :
      (after : List StepFee) (current : String)
      → All IsAhead after
      → step_fee after current ≡ current
  unfolding step_fee
  step_fee_ahead [] current h = refl
  step_fee_ahead (v ∷ after) current h = rw h.0 (step_fee_ahead after current h.1)

  step_fee_last :
      (before after : List StepFee) (v : StepFee) (current : String)
      → IsPassed v
      → All IsAhead after
      → step_fee (before ++ v ∷ after) current ≡ v.fee
  unfolding step_fee
  step_fee_last [] after v current p h = rw (p, step_fee) (step_fee_ahead after v.fee h)
  step_fee_last (u ∷ before) after v current p h =
      step_fee_last before after v (if gt hours u.hour then u.fee else current) p h

  -- The last step in the configured order that the message has passed decides: with a fee that is
  -- not 0 and parses, a job with that fee starts, whatever steps come before it.
  pub handle_msg_last :
      (before after : List StepFee) (v : StepFee) (msg : SignedMessage) (limit : ℤ) {fee : ℤ}
      → IsPassed v
      → All IsAhead after
      → string_eq.beq v.fee "0" ≡ false
      → big_from_string v.fee ≡ some fee
      → handle_msg (before ++ v ∷ after) msg limit
        ≡ some (record { msg = msg; limit = limit; next_fee = fee })
  unfolding handle_msg
  handle_msg_last before after v msg limit p h z e =
      rw (step_fee_last before after v "0" p h) (rw (z, e))
