-- ===== src/FeeController/Defs.antt =====
-- The methods of baseFeeController.go, in the order of the file, and `ResetBaseFeeCap` of
-- prometheus.go. `types.BigInt` and `big.Int` are integers; `int` and `int64` wrap at 64 bits.
use lotus_tools.Prelude.{
  ℕ, ℤ, pos, String, Bool, true, false, none, some, List, [], ◌∷◌, ◌++◌, ◌&&◌, length, Run, done,
  panic, ◌>>=◌, index, ltb, if◌then◌else◌, ltb_ℤ, mul64, sub64, div64, quot64, big_from_string,
  big_string, parse_int64,
}
use lotus_tools.Config.{Setting}

-- The fields of `MpoolQueue` that the controller reads and writes, and the gauge `baseFeeCap`
-- (the value before its conversion to a float).
pub record FeeState : Type 0 where
  pub feecap : ℤ
  pub max_feecap : ℤ
  pub fee_queue : List ℤ
  pub gauge : ℤ

-- `FeeCapQueue.Less`; `Len` and `Swap` are those of the slice.
unfoldable pub less : ℤ → ℤ → Bool
less a b = ltb_ℤ a b

-- `sort.Sort` on a `FeeCapQueue`. Equal integers cannot be told apart, so every sorting
-- algorithm returns this list.
unfoldable pub insert_sorted : ℤ → List ℤ → List ℤ
insert_sorted x [] = x ∷ []
insert_sorted x (y ∷ ys) =
    let rest = insert_sorted x ys in if less y x then y ∷ rest else x ∷ y ∷ ys

unfoldable pub sort : List ℤ → List ℤ
sort [] = []
sort (x ∷ xs) = insert_sorted x (sort xs)

-- `types.BigFromString` with its error dropped leaves a nil integer, on which every comparison
-- panics.
unfoldable pub parsed : String → Run ℤ
parsed s = elim (big_from_string s) [ none ↦ panic | some z ↦ done z ]

-- The function `ResetBaseFeeCap` of prometheus.go, on the value that the gauge shows: the cap is
-- printed and read back as an int64, and where that fails the gauge is left alone.
unfoldable pub set_gauge : ℤ → ℤ → ℤ
set_gauge value gauge = elim (parse_int64 (big_string value)) [ none ↦ gauge | some n ↦ n ]

-- The method `ResetBaseFeeCap`. `cap_min` is the configured `BaseFee`.
unfoldable pub clamp_cap : ℤ → ℤ → ℤ
clamp_cap cap cap_min = if ltb_ℤ cap cap_min then cap_min else cap

unfoldable pub install_cap : ℤ → FeeState → FeeState
install_cap cap p =
    if ltb_ℤ p.max_feecap cap then p else record p { feecap = cap; gauge = set_gauge cap p.gauge }

unfoldable pub reset_base_fee_cap : Setting → ℤ → FeeState → Run FeeState
reset_base_fee_cap s cap p = do
  feecap_min ← parsed s.base_fee
  done (install_cap (clamp_cap cap feecap_min) p)

-- time.Second and time.Hour, in nanoseconds.
abbrev pub second : ℤ
second = pos 1000000000

abbrev pub hour : ℤ
hour = pos 3600000000000

-- time.Second * time.Duration(RefreshBaseFee), the period of the ticker and of the queue.
unfoldable pub period : Setting → ℤ
period s = mul64 second s.refresh_base_fee

-- `queueTop`: an hour divided by the period; a zero period is a division by zero.
unfoldable pub queue_top : Setting → Run ℤ
queue_top s = quot64 hour (period s)

-- The loop `NEXT` of `addFee`: while the queue is longer than `top`, drop its oldest entry. Every
-- round shortens the queue, so the recursion is on the queue itself.
unfoldable pub trim : ℤ → List ℤ → Run (List ℤ)
trim top [] = if ltb_ℤ top (pos 0) then panic else done []
trim top (x ∷ xs) =
    let rest = trim top xs in if ltb_ℤ top (pos (length (x ∷ xs))) then rest else done (x ∷ xs)

unfoldable pub add_fee : Setting → ℤ → FeeState → Run FeeState
add_fee s fee p = do
  top ← queue_top s
  kept ← trim top p.fee_queue
  done (record p { fee_queue = kept ++ fee ∷ [] })

-- `if percent > 100 { percent = 100 }`
unfoldable pub cap_percent : ℤ → ℤ
cap_percent percent = if ltb_ℤ (pos 100) percent then pos 100 else percent

-- The index len(sortcap)*percent/100-1.
unfoldable pub rank : ℕ → ℤ → ℤ
rank n percent = sub64 (div64 (mul64 (pos n) percent) 100) (pos 1)

unfoldable pub get_next_fee_cap : ℤ → Bool → FeeState → Run ℤ
get_next_fee_cap percent needmax p =
    if ltb (length p.fee_queue) 10
    then done p.feecap
    else (if needmax
        then index (sort p.fee_queue) (sub64 (pos (length (sort p.fee_queue))) (pos 1))
        else index (sort p.fee_queue) (rank (length (sort p.fee_queue)) (cap_percent percent)))

-- `maxFree` and `actualFree`: the messages that an hour could take, and those it is taken to.
unfoldable pub max_free : Setting → ℤ
max_free s = mul64 s.once_max (pos 120)

unfoldable pub actual_free : Setting → ℤ
actual_free s = div64 (mul64 (max_free s) s.base_fee_percent) 100

unfoldable pub extra_free : Setting → ℤ
extra_free s = sub64 (max_free s) (actual_free s)

unfoldable pub check_msg_too_more : Setting → ℤ → Bool
check_msg_too_more s total =
    if ltb_ℤ total s.mpool_threshold_low
    then false
    else (if ltb_ℤ (pos 0) s.mpool_threshold_high && ltb_ℤ s.mpool_threshold_high total
        then true
        else ltb_ℤ (mul64 (extra_free s) s.time_keep) total)

unfoldable pub check_msg_too_low : Setting → ℤ → Bool
check_msg_too_low s total = ltb_ℤ total s.mpool_threshold_low
