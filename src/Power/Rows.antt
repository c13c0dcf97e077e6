-- ===== src/Power/Rows.antt =====
-- The rows that cli/pow/main.go prints for the days that the node answers for, and its divisions.
use lotus_tools.Prelude.{
  suc, ◌-◌, ◌/◌, ℤ, pos, negsuc, ◌≡◌, refl, sym, ap, subst, List, [], ◌∷◌, done, panic, arith, All,
  length, ◌≤ℤ◌, ◌<ℤ◌, div_ℕ, ◌-ℤ◌, wrap64, ◌⊎◌, inl, inr,
}
use lotus_tools.Power.Defs.{DayRow, big_div, mined_since, tebi}
use lotus_tools.Power.Days.{Reading}

-- The row of a reading, for the amount of its day.
abbrev pub row_of : Reading → ℤ → ℤ → DayRow
row_of r day per_t = record {
  height = r.ts.height;
  time = wrap64 (pos r.ts.min_timestamp);
  power_t = div_ℕ r.power tebi;
  supply = r.supply;
  day_mined = day;
  mined_per_t = per_t;
}

-- The power of a reading is not negative, and at least a TiB.
abbrev pub IsPower : Reading → Type 0
IsPower r = pos 0 ≤ℤ r.power

abbrev pub IsPowered : Reading → Type 0
IsPowered r = pos tebi ≤ℤ r.power

abbrev pub IsMined : Reading → Type 0
IsMined r = pos 0 <ℤ r.supply.mined

-- Some reading has less power than a TiB.
abbrev pub AnyWeak : List Reading → Type 0
AnyWeak [] = ⊥
AnyWeak (r ∷ rs) = (r.power <ℤ pos tebi) ⊎ AnyWeak rs

pub ≤ℤ_cases : (a b : ℤ) → (a ≤ℤ b) ⊎ (b <ℤ a)
≤ℤ_cases a b = omega arith

pub IsPowered-or_weak : (rs : List Reading) → All IsPowered rs ⊎ AnyWeak rs
IsPowered-or_weak [] = inl tt
IsPowered-or_weak (r ∷ rs) = elim (≤ℤ_cases (pos tebi) r.power) [
  | inl p ↦ elim (IsPowered-or_weak rs) [ inl ps ↦ inl (p, ps) | inr l ↦ inr (inr l) ]
  | inr l ↦ inr (inl l)
]

pub big_div_powered :
    (day power : ℤ) → pos tebi ≤ℤ power → (q : ℤ) × (big_div day (div_ℕ power tebi) ≡ done q)
unfolding big_div div_ℕ
big_div_powered day (pos n) h =
    let e : n / tebi ≡ suc (n / tebi - 1) = omega arith in
    subst (λ d. (q : ℤ) × (big_div day (pos d) ≡ done q)) (sym e)
      (div_ℕ day (suc (n / tebi - 1)), refl)
big_div_powered day (negsuc n) h = absurd (omega arith)

pub big_div_weak :
    (day power : ℤ) → pos 0 ≤ℤ power → power <ℤ pos tebi → big_div day (div_ℕ power tebi) ≡ panic
unfolding big_div div_ℕ
big_div_weak day (pos n) h l = let e : n / tebi ≡ 0 = omega arith in rw e refl
big_div_weak day (negsuc n) h l = absurd (omega arith)

-- A row holds what the node answered for its day.
abbrev pub IsOf : Reading → DayRow → Type 0
IsOf r w =
    (w.height ≡ r.ts.height)
    × (w.time ≡ wrap64 (pos r.ts.min_timestamp))
    × (w.power_t ≡ div_ℕ r.power tebi)
    × (w.supply ≡ r.supply)

-- Rows for some readings, of which each has the amount mined since the one before.
abbrev pub Follow : ℤ → List Reading → List DayRow → Type 0
Follow last [] [] = Unit
Follow last (r ∷ rs) (w ∷ ws) =
    IsOf r w × (w.day_mined ≡ r.supply.mined -ℤ last) × Follow r.supply.mined rs ws
Follow last [] (w ∷ ws) = ⊥
Follow last (r ∷ rs) [] = ⊥

-- The first reading has nothing before it, and counts as an amount of 0.
abbrev pub FollowFirst : List Reading → List DayRow → Type 0
FollowFirst [] [] = Unit
FollowFirst (r ∷ rs) (w ∷ ws) = IsOf r w × (w.day_mined ≡ pos 0) × Follow r.supply.mined rs ws
FollowFirst [] (w ∷ ws) = ⊥
FollowFirst (r ∷ rs) [] = ⊥

Follow-length :
    (last : ℤ) (rs : List Reading) (ws : List DayRow) → Follow last rs ws → length ws ≡ length rs
Follow-length last [] [] f = refl
Follow-length last [] (w ∷ ws) f = absurd f
Follow-length last (r ∷ rs) [] f = absurd f
Follow-length last (r ∷ rs) (w ∷ ws) (of, day, f) = ap suc (Follow-length r.supply.mined rs ws f)

pub FollowFirst-length :
    (rs : List Reading) (ws : List DayRow) → FollowFirst rs ws → length ws ≡ length rs
FollowFirst-length [] [] f = refl
FollowFirst-length [] (w ∷ ws) f = absurd f
FollowFirst-length (r ∷ rs) [] f = absurd f
FollowFirst-length (r ∷ rs) (w ∷ ws) (of, day, f) = ap suc (Follow-length r.supply.mined rs ws f)

pub mined_since_positive :
    (last day mined : ℤ) → pos 0 <ℤ last → mined_since last day mined ≡ mined -ℤ last
unfolding mined_since
mined_since_positive last day mined h = ground arith
