-- ===== src/Util/Epochs.antt =====
-- util/time2height.go. A time is its nanoseconds since 1970. How a duration's seconds are divided by
-- the length of an epoch, in float64, is an argument.
use lotus_tools.Prelude.{
  ℕ, suc, ◌+◌, ◌-◌, ◌*◌, ◌^◌, ◌<◌, ℤ, pos, negsuc, ◌≡◌, refl, if◌then◌else◌, ltb_ℤ, leb_ℤ, ◌+ℤ◌,
  ◌*ℤ◌, int_laws, eq_of_parts, wrap64_id, InRange64, ◌-ℤ◌, add64, sub64, mul64, wrap64, bound64,
  arith, pos_part, neg_part,
}

abbrev pub Time : Type 0
Time = ℤ

-- builtin.EpochDurationSeconds
abbrev pub epoch_duration_seconds : ℕ
epoch_duration_seconds = 30

-- The known height and its time, 2020-08-29 02:00:00 in UTC.
abbrev pub known_height : ℤ
known_height = pos 12000

abbrev pub height_time : Time
height_time = pos (1598666400 * 10 ^ 9)

-- t.Sub(u) stops at the ends of the int64 range.
unfoldable pub time_sub : Time → Time → ℤ
time_sub t u =
    let d = t -ℤ u in
    if leb_ℤ d (negsuc (2 ^ 63 - 1))
    then negsuc (2 ^ 63 - 1)
    else (if ltb_ℤ (pos (2 ^ 63 - 1)) d then pos (2 ^ 63 - 1) else d)

-- `epochs` is int64(d.Seconds() / float64(30)).
unfoldable pub time_2_height : (ℤ → ℤ) → Time → ℤ
time_2_height epochs next_time =
    let next_height = add64 known_height (epochs (time_sub next_time height_time)) in
    if ltb_ℤ next_height (pos 0) then pos 0 else next_height

-- `now` is what time.Now() gives, both times.
unfoldable pub height_2_time : Time → ℤ → Time
height_2_time now next_height =
    let sub_duration = mul64 (sub64 next_height known_height) (pos epoch_duration_seconds) in
    if ltb_ℤ next_height (pos 0)
    then now +ℤ wrap64 (pos 0 -ℤ wrap64 now)
    else height_time +ℤ mul64 sub_duration (pos (10 ^ 9))

-- The nanoseconds of an epoch.
abbrev pub epoch_ns : ℕ
epoch_ns = 30 * 10 ^ 9

-- A whole number of epochs, in nanoseconds.
abbrev pub whole_epochs : ℤ → ℤ
whole_epochs (pos k) = pos (k * epoch_ns)
whole_epochs (negsuc k) = negsuc (suc k * epoch_ns - 1)

sub64_id : (a b : ℤ) → InRange64 (a -ℤ b) → sub64 a b ≡ a -ℤ b
unfolding sub64
sub64_id a b h = wrap64_id (a -ℤ b) h

mul64_id : (a b : ℤ) → InRange64 (a *ℤ b) → mul64 a b ≡ a *ℤ b
unfolding mul64
mul64_id a b h = wrap64_id (a *ℤ b) h

-- A product with a natural number is n times the parts.
abbrev IsTimes : ℕ → ℤ → ℤ → Type 0
IsTimes n a b = (pos_part b ≡ pos_part a * n) × (neg_part b ≡ neg_part a * n)

IsTimes-30 : (a : ℤ) → IsTimes 30 a (a *ℤ pos 30)
unfolding ◌*ℤ◌
IsTimes-30 a = ground arith

IsTimes-giga : (a : ℤ) → IsTimes (10 ^ 9) a (a *ℤ pos (10 ^ 9))
unfolding ◌*ℤ◌
IsTimes-giga a = ground arith

whole_epochs_parts :
    (k : ℤ)
    → (pos_part (whole_epochs k) ≡ pos_part k * epoch_ns)
      × (neg_part (whole_epochs k) ≡ neg_part k * epoch_ns)
whole_epochs_parts (pos k) = (refl, refl)
whole_epochs_parts (negsuc k) = (refl, omega arith)

sub_parts :
    (h : ℕ)
    → (pos_part (pos h -ℤ pos 12000) ≡ h - 12000) × (neg_part (pos h -ℤ pos 12000) ≡ 12000 - h)
unfolding ◌-ℤ◌
sub_parts h = ground arith

abbrev after_known : ℕ → ℤ
after_known h = pos h -ℤ pos 12000

-- Height2time without wrapping: the nanoseconds after the known time.
abbrev span : ℕ → ℤ
span h = (after_known h *ℤ pos 30) *ℤ pos (10 ^ 9)

span-whole_epochs : (h : ℕ) → span h ≡ whole_epochs (after_known h)
span-whole_epochs h =
    let (a, b) = IsTimes-30 (after_known h) in
    let (c, d) = IsTimes-giga (after_known h *ℤ pos 30) in
    let (e, f) = whole_epochs_parts (after_known h) in
    eq_of_parts _ _ (omega (arith, a, b, c, d, e, f))

-- The heights of which the time is within an int64 of nanoseconds after or before the known time.
abbrev pub IsNear : ℕ → Type 0
IsNear h = (h < 12000 + 307445734) × (12000 < h + 307445734)

near_ranges :
    (h : ℕ)
    → IsNear h
    → InRange64 (after_known h)
      × InRange64 (after_known h *ℤ pos 30)
      × InRange64 (span h)
      × InRange64 (whole_epochs (after_known h))
near_ranges h near =
    let (p, q) = sub_parts h in
    let (a, b) = IsTimes-30 (after_known h) in
    let (c, d) = IsTimes-giga (after_known h *ℤ pos 30) in
    let (e, f) = whole_epochs_parts (after_known h) in
    (
      omega (arith, p, q),
      omega (arith, p, q, a, b),
      omega (arith, p, q, a, b, c, d),
      omega (arith, p, q, e, f),
    )

add64_known : (h : ℕ) → h < bound64 → add64 known_height (after_known h) ≡ pos h
unfolding add64
add64_known h small =
    let e : known_height +ℤ after_known h ≡ pos h = omega int_laws in
    rw e (wrap64_id (pos h) (omega arith))

height_2_time_near :
    (now : Time) (h : ℕ)
    → IsNear h
    → height_2_time now (pos h) ≡ height_time +ℤ whole_epochs (after_known h)
unfolding height_2_time
height_2_time_near now h near =
    let (r, r30, rs, whole) = near_ranges h near in
    let a = sub64_id (pos h) known_height r in
    let b = mul64_id (after_known h) (pos 30) r30 in
    let c = mul64_id (after_known h *ℤ pos 30) (pos (10 ^ 9)) rs in
    rw (a, b, c, span-whole_epochs h) (ground arith)

time_sub_near : (d : ℤ) → InRange64 d → time_sub (height_time +ℤ d) height_time ≡ d
unfolding time_sub
time_sub_near d h =
    let e : height_time +ℤ d -ℤ height_time ≡ d = omega int_laws in rw e (ground arith)

-- A height is found again from its time, for heights that are not negative and within 307445733
-- epochs of height 12000. The condition: the float64 division is exact on whole epochs.
pub time_2_height-height_2_time :
    (epochs : ℤ → ℤ) (now : Time) (h : ℕ)
    → ((k : ℤ) → InRange64 (whole_epochs k) → epochs (whole_epochs k) ≡ k)
    → IsNear h
    → time_2_height epochs (height_2_time now (pos h)) ≡ pos h
unfolding time_2_height
time_2_height-height_2_time epochs now h exact near =
    let (r, r30, rs, whole) = near_ranges h near in
    let d = whole_epochs (after_known h) in
    rw
      (
        height_2_time_near now h near,
        time_sub_near d whole,
        exact (after_known h) whole,
        add64_known h (omega arith),
      )
      (ground arith)
