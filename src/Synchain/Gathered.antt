-- ===== src/Synchain/Gathered.antt =====
-- Which documents the goroutines of one height gather.
use lotus_tools.Prelude.{
  ℕ, ◌+◌, ◌≤◌, ℤ, String, Bool, false, ◌≡◌, refl, ap, Option, none, some, List, [], ◌∷◌, done,
  Run->>=-eq-done, done-injective, arith, if◌then◌else◌,
}
use lotus_tools.Node.{Address, Cid, ChainTipSet}
use lotus_tools.Convert.{Environment, message_convert}
use lotus_tools.Convert.Messages.{NoPanic, message_convert-Keeps}
use lotus_tools.Convert.Traces.{ExecutionTrace, Invocation, InvocResult, invoc_result_convert}
use lotus_tools.Synchain.Jobs.{
  IsAppended, here, there, Gathers, all_done, nil_entry, recovers, gives_up, appends,
}

module _ (q : ℕ → ℤ → ℕ → Bool) where
  abbrev one : ℕ → ℤ → ℕ → ℕ
  one nonce gas_limit method = if q nonce gas_limit method then 1 else 0

  -- How many of the computed messages q selects, and how many of the documents.
  abbrev pub computed : List (Option Invocation) → ℕ
  computed [] = 0
  computed (none ∷ is) = computed is
  computed (some i ∷ is) = one i.msg.nonce i.msg.gas_limit i.msg.method + computed is

  abbrev pub gathered : List InvocResult → ℕ
  gathered [] = 0
  gathered (r ∷ rs) = one r.message.nonce r.message.gas_limit r.message.method + gathered rs

  gathered-append :
      {r : InvocResult} {rs rs' : List InvocResult}
      → IsAppended r rs rs'
      → gathered rs' ≡ one r.message.nonce r.message.gas_limit r.message.method + gathered rs
  gathered-append here = refl
  gathered-append (there i) = omega (arith, gathered-append i)

  module _ {V : Type 0} (env : Environment V) (code_of : Address → Cid → Type 0) (cancelled : Bool)
      (base_fee : String) (ts : ChainTipSet) where
    kept :
        (i : Invocation) (code : Cid) (x : ExecutionTrace) (r : InvocResult)
        → invoc_result_convert env base_fee i ts.height ts.min_timestamp code x ≡ done r
        → one r.message.nonce r.message.gas_limit r.message.method
          ≡ one i.msg.nonce i.msg.gas_limit i.msg.method
    unfolding invoc_result_convert
    kept i code x r h =
        let (lmsg, e, last) = Run->>=-eq-done (message_convert env code i.msg) _ h in
        let same : lmsg ≡ r.message = ap (λ (y : InvocResult). y.message) (done-injective last) in
        let k = message_convert-Keeps env code i.msg e in
        let (version, nonce, limit) = k.numbers in rw (← same, nonce, limit, k.method)

    Gathers-count :
        (is : List (Option Invocation)) (rs : List InvocResult)
        → Gathers env code_of cancelled base_fee ts is rs
        → (gathered rs ≤ computed is)
          × (cancelled ≡ false → NoPanic env → gathered rs ≡ computed is)
    Gathers-count [] rs all_done = (omega arith, λ on safe. refl)
    Gathers-count (none ∷ is) rs (nil_entry g) = Gathers-count is rs g
    Gathers-count (some i ∷ is) rs (recovers {code = code} c p g) =
        let (le, eq) = Gathers-count is rs g in
        (omega (arith, le), λ on safe. absurd (safe code i.msg p))
    Gathers-count (some i ∷ is) rs (gives_up w g) =
        let (le, eq) = Gathers-count is rs g in (omega (arith, le), λ on safe. cc)
    Gathers-count (some i ∷ is) rs' (appends {rs = rs} {r = r} {code = code} {x = x} c t h g a) =
        let (le, eq) = Gathers-count is rs g in
        let n = gathered-append a in
        let k = kept i code x r h in
        (omega (arith, n, k, le), λ on safe. omega (arith, n, k, eq on safe))

    -- However the goroutines of a tip set's messages end, the gathered documents are of computed
    -- messages: there are at most as many of any chosen nonce, gas limit and method as there are
    -- messages.
    pub Gathers-computed-le :
        (is : List (Option Invocation)) (rs : List InvocResult)
        → Gathers env code_of cancelled base_fee ts is rs
        → gathered rs ≤ computed is
    Gathers-computed-le is rs g = (Gathers-count is rs g).0

  -- Where the context is not cancelled and no conversion panics, every computed message has its
  -- document: there are exactly as many of any chosen nonce, gas limit and method as messages.
  pub Gathers-computed :
      {V : Type 0} (env : Environment V) (code_of : Address → Cid → Type 0) (base_fee : String)
      (ts : ChainTipSet) (is : List (Option Invocation)) (rs : List InvocResult)
      → NoPanic env
      → Gathers env code_of false base_fee ts is rs
      → gathered rs ≡ computed is
  Gathers-computed env code_of base_fee ts is rs safe g =
      (Gathers-count env code_of false base_fee ts is rs g).1 refl safe
