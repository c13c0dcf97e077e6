-- ===== src/BaseFee/Observed.antt =====
-- What the base-fee monitor shows.
use lotus_tools.Prelude.{
  ℤ, ◌≡◌, refl, sym, ap, ◌∙◌, ◌⊎◌, inl, inr, Bool-cases, Option, some, List, [], ◌∷◌, ◌++◌,
  append_assoc, append-nil, Result, Run, done, panic, ◌>>=◌, Run-cases, if◌then◌else◌, in_range64,
  parse_int64-big_string, arith,
}
use lotus_tools.Node.{ChainTipSet}
use lotus_tools.BaseFee.Defs.{
  base_of, Metrics, observe, setter, Event, timer, ctx_done, watch_rounds, watch_base_fee,
}

-- The answers that the watcher asks for: one for each value of the timer before the context ends.
abbrev pub asked : List Event → List (Result ChainTipSet)
asked [] = []
asked (ctx_done ∷ events) = []
asked (timer head ∷ events) = head ∷ asked events

-- The base fee of an answer, 0 for a failed call; no fee where the tip set has no blocks.
abbrev pub Fees : List (Result ChainTipSet) → List ℤ → Type 0
Fees [] [] = Unit
Fees (head ∷ heads) (fee ∷ fees) = (base_of head ≡ done fee) × Fees heads fees
Fees [] (fee ∷ fees) = ⊥
Fees (head ∷ heads) [] = ⊥

-- The fees that an int64 can hold, in order.
abbrev pub fitting : List ℤ → List ℤ
fitting [] = []
fitting (z ∷ zs) = let rest = fitting zs in if in_range64 z then z ∷ rest else rest

-- The last of some numbers, or what was there before.
abbrev pub last_or : Option ℤ → List ℤ → Option ℤ
last_or before [] = before
last_or before (z ∷ zs) = last_or (some z) zs

abbrev pub Shows : Metrics → List ℤ → Metrics
Shows m zs = record { gauge = last_or m.gauge zs; histogram = m.histogram ++ zs }

setter_lem : (z : ℤ) (m : Metrics) → setter z m ≡ (if in_range64 z then observe (some z) m else m)
unfolding setter
setter_lem z m = rw (parse_int64-big_string z, setter) (ground arith)

Shows-setter :
    (z : ℤ) (zs : List ℤ) (m : Metrics)
    → Shows (setter z m) (fitting zs) ≡ Shows m (fitting (z ∷ zs))
Shows-setter z zs m = elim (Bool-cases (in_range64 z)) [
  | inl h ↦ rw (setter_lem z m) (rw (h, append_assoc) refl)
  | inr h ↦ rw (setter_lem z m) (rw h refl)
]

-- Some tip set has no blocks.
abbrev pub HasEmpty : List (Result ChainTipSet) → Type 0
HasEmpty [] = ⊥
HasEmpty (head ∷ heads) = (base_of head ≡ panic) ⊎ HasEmpty heads

-- What the watcher does with the answers to its calls.
abbrev pub Watches : List (Result ChainTipSet) → Metrics → Run Metrics → Type 0
Watches heads m r =
    ((fees : List ℤ) × Fees heads fees × (r ≡ done (Shows m (fitting fees))))
    ⊎ (HasEmpty heads × (r ≡ panic))

Watches-cons :
    (head : Result ChainTipSet) (heads : List (Result ChainTipSet)) (m : Metrics)
    (rest : Metrics → Run Metrics)
    → ((m' : Metrics) → Watches heads m' (rest m'))
    → Watches (head ∷ heads) m (base_of head >>= λ base. rest (setter base m))
Watches-cons head heads m rest ih = elim (Run-cases (base_of head)) [
  | inl e ↦ inr (inl e, rw e refl)
  | inr (base, e) ↦ elim (ih (setter base m)) [
    | inl (fees, all, r) ↦
        inl (base ∷ fees, (e, all), rw e (r ∙ ap done (Shows-setter base fees m)))
    | inr (empty, r) ↦ inr (inr empty, rw e r)
  ]
]

watch_rounds-Watches :
    (events : List Event) (m : Metrics) → Watches (asked events) m (watch_rounds events m)
unfolding watch_rounds
watch_rounds-Watches [] m =
    inl ([], tt, ap (λ h. done (record m { histogram = h })) (sym (append-nil m.histogram)))
watch_rounds-Watches (ctx_done ∷ events) m =
    inl ([], tt, ap (λ h. done (record m { histogram = h })) (sym (append-nil m.histogram)))
watch_rounds-Watches (timer head ∷ events) m =
    Watches-cons head (asked events) m (watch_rounds events) (watch_rounds-Watches events)

-- The watcher of the base fee reads the fee once at its start and once for each value of the timer
-- until its context ends, as 0 where the node gives no head. Then the gauge shows the last of the
-- fees that fit an int64, and keeps what it showed where none does, and the histogram has observed
-- each of those fees, in order. It ends in a panic only where a tip set has no blocks.
pub watch_base_fee-Watches :
    (head : Result ChainTipSet) (events : List Event) (m : Metrics)
    → Watches (head ∷ asked events) m (watch_base_fee head events m)
unfolding watch_base_fee
watch_base_fee-Watches head events m =
    Watches-cons head (asked events) m (watch_rounds events) (watch_rounds-Watches events)
