-- ===== src/Convert/Calls.antt =====
-- Which calls the converted execution trace of a message has.
use lotus_tools.Prelude.{
  ℕ, ◌+◌, ◌≤◌, ℤ, Bool, false, ◌≡◌, refl, inl, inr, Run-cases, done, arith, if◌then◌else◌,
}
use lotus_tools.Node.{Address, Cid, ChainMessage}
use lotus_tools.Convert.Defs.{Message, Environment, message_convert}
use lotus_tools.Convert.Messages.{NoPanic, message_convert-Keeps}
use lotus_tools.Convert.Traces.{
  Trace, Traces, trace, no_trace, next_trace, ExecutionTrace, Subcalls, execution, no_call,
  next_call, IsInserted, first, later, Converts, Collects, convert, all_ended, ended, given_up,
}

module _ (q : ℕ → ℤ → ℕ → Bool) where
  -- 1 for a message with a nonce, a gas limit and a method that q selects.
  abbrev one : ℕ → ℤ → ℕ → ℕ
  one nonce gas_limit method = if q nonce gas_limit method then 1 else 0

  -- How many calls of a trace q selects, on every level.
  mutual
    pub calls : Trace → ℕ
    calls (trace m r e d ts) = one m.nonce m.gas_limit m.method + calls_of ts

    pub calls_of : Traces → ℕ
    calls_of no_trace = 0
    calls_of (next_trace t ts) = calls t + calls_of ts

  mutual
    pub documented : ExecutionTrace → ℕ
    documented (execution m r e d xs) = one m.nonce m.gas_limit m.method + documented_of xs

    pub documented_of : Subcalls → ℕ
    documented_of no_call = 0
    documented_of (next_call x xs) = documented x + documented_of xs

  documented_of-insert :
      {x : ExecutionTrace} {xs ys : Subcalls}
      → IsInserted x xs ys
      → documented_of ys ≡ documented x + documented_of xs
  unfolding documented_of
  documented_of-insert first = refl
  documented_of-insert (later i) = omega (arith, documented_of-insert i)

  -- At most, and without a cancellation exactly.
  abbrev Matches : Bool → ℕ → ℕ → Type 0
  Matches cancelled n k = (n ≤ k) × (cancelled ≡ false → n ≡ k)

  module _ {V : Type 0} (env : Environment V) (code_of : Address → Cid → Type 0)
      (cancelled : Bool) where
    one_kept :
        (code : Cid) (m : ChainMessage) (lmsg : Message)
        → message_convert env code m ≡ done lmsg
        → one lmsg.nonce lmsg.gas_limit lmsg.method ≡ one m.nonce m.gas_limit m.method
    one_kept code m lmsg h =
        let k = message_convert-Keeps env code m h in
        let (version, nonce, limit) = k.numbers in rw (nonce, limit, k.method)

    mutual
      unfolding calls calls_of documented documented_of

      documented-Matches :
          (t : Trace) (x : ExecutionTrace)
          → Converts env code_of cancelled t x
          → Matches cancelled (documented x) (calls t)
      documented-Matches (trace m r e d ts) (execution lmsg r' e' d' xs)
            (convert {code = code} c h all) =
          let (le, eq) = documented_of-Matches ts xs all in
          let k = one_kept code m lmsg h in (omega (arith, k, le), λ on. omega (arith, k, eq on))

      documented_of-Matches :
          (ts : Traces) (xs : Subcalls)
          → Collects env code_of cancelled ts xs
          → Matches cancelled (documented_of xs) (calls_of ts)
      documented_of-Matches no_trace xs all_ended = (omega arith, λ on. refl)
      documented_of-Matches (next_trace t ts) ys (ended {x = x} {xs = xs} c all i) =
          let (le, eq) = documented-Matches t x c in
          let (les, eqs) = documented_of-Matches ts xs all in
          let n = documented_of-insert i in
          (omega (arith, n, le, les), λ on. omega (arith, n, eq on, eqs on))
      documented_of-Matches (next_trace t ts) xs (given_up w all) =
          let (les, eqs) = documented_of-Matches ts xs all in (omega (arith, les), λ on. cc)

    -- However the goroutines of a trace end and whichever are given up, the document has at most
    -- as many calls of any chosen nonce, gas limit and method as the trace, counted on all levels.
    pub Converts-calls-le :
        (t : Trace) (x : ExecutionTrace)
        → Converts env code_of cancelled t x
        → documented x ≤ calls t
    Converts-calls-le t x c = (documented-Matches t x c).0

  -- Where the context is not cancelled, no call is lost or doubled in whatever order the goroutines
  -- end: the document has exactly as many calls of any chosen nonce, gas limit and method as the
  -- trace, counted on all levels.
  pub Converts-calls :
      {V : Type 0} (env : Environment V) (code_of : Address → Cid → Type 0) (t : Trace)
      (x : ExecutionTrace)
      → Converts env code_of false t x
      → documented x ≡ calls t
  Converts-calls env code_of t x c = (documented-Matches env code_of false t x c).1 refl

-- `getCode` gives the code of a function.
abbrev pub Gives : (Address → Cid) → Address → Cid → Type 0
Gives code a c = c ≡ code a

module _ {V : Type 0} (env : Environment V) (safe : NoPanic env) (code : Address → Cid)
    (cancelled : Bool) where
  -- A trace of which no message's conversion panics has a document, and so have its sub-calls.
  mutual
    Converts-some : (t : Trace) → (x : ExecutionTrace) × Converts env (Gives code) cancelled t x
    Converts-some (trace m r e d ts) =
        let (xs, all) = Collects-some ts in
        elim (Run-cases (message_convert env (code m.to) m)) [
          | inl bad ↦ absurd (safe (code m.to) m bad)
          | inr (lmsg, h) ↦ (_, convert refl h all)
        ]

    Collects-some : (ts : Traces) → (xs : Subcalls) × Collects env (Gives code) cancelled ts xs
    Collects-some no_trace = (no_call, all_ended)
    Collects-some (next_trace t ts) =
        let (x, c) = Converts-some t in
        let (xs, all) = Collects-some ts in (next_call x xs, ended c all first)
