-- ===== src/Prelude/Int64.antt =====
-- Go's `int64` (and `int`, `time.Duration`, `abi.ChainEpoch` on a 64-bit machine): an integer
-- that every operation wraps into [-2^63, 2^63).
use Prim.Native.Nat.{ℕ, suc, ◌+◌, ◌-◌, ◌*◌, ◌/◌, ◌%◌, ◌^◌, ◌≤◌, ◌<◌}
use mathlib.Core.Path.{◌≡◌, refl}
use native.Mathlib.Omega.{arith}
use native.Mathlib.Nat.{div-le_self}
use lotus_tools.Prelude.Tests.{ltb, if◌then◌else◌}
use lotus_tools.Prelude.Go.{Run, done, panic}
use mathlib.Core.Bool.{Bool}
use lotus_tools.Prelude.Int.{ℤ, pos, negsuc, pos_part, neg_part, eqb_ℤ, ◌+ℤ◌, ◌-ℤ◌, ◌*ℤ◌, quot_ℕ}

abbrev pub bound64 : ℕ
bound64 = 2 ^ 63

-- The two's complement bits of an integer, and the integer that 64 bits stand for.
abbrev bits64 : ℤ → ℕ
bits64 (pos n) = n % 2 ^ 64
bits64 (negsuc n) = 2 ^ 64 - 1 - n % 2 ^ 64

abbrev signed64 : ℕ → ℤ
signed64 w = if ltb w (2 ^ 63) then pos w else negsuc (2 ^ 64 - w - 1)

unfoldable pub wrap64 : ℤ → ℤ
wrap64 z = signed64 (bits64 z)

-- The values that an `int64` can have.
abbrev pub InRange64 : ℤ → Type 0
InRange64 z = (pos_part z < bound64) × (neg_part z ≤ bound64)

pub wrap64-InRange64 : (z : ℤ) → InRange64 (wrap64 z)
unfolding wrap64
wrap64-InRange64 z = ground arith

pub wrap64_id : (z : ℤ) → InRange64 z → wrap64 z ≡ z
unfolding wrap64
wrap64_id z h = ground arith

unfoldable pub add64 : ℤ → ℤ → ℤ
unfolding wrap64 ◌+ℤ◌
add64 a b = wrap64 (a +ℤ b)

unfoldable pub sub64 : ℤ → ℤ → ℤ
unfolding wrap64 ◌-ℤ◌
sub64 a b = wrap64 (a -ℤ b)

unfoldable pub mul64 : ℤ → ℤ → ℤ
unfolding wrap64 ◌*ℤ◌
mul64 a b = wrap64 (a *ℤ b)

-- x / d for a constant d > 0: the quotient is nearer to 0, so it does not wrap.
unfoldable pub div64 : ℤ → ℕ → ℤ
unfolding quot_ℕ
div64 a d = quot_ℕ a d

-- x / d for any divisor: division by zero panics, and only -2^63 / -1 wraps.
abbrev quot_ℤ : ℤ → ℤ → ℤ
quot_ℤ a (pos d) = quot_ℕ a d
quot_ℤ a (negsuc d) = pos 0 -ℤ quot_ℕ a (suc d)

unfoldable pub quot64 : ℤ → ℤ → Run ℤ
unfolding wrap64 quot_ℕ ◌-ℤ◌
quot64 a b = if eqb_ℤ b (pos 0) then panic else done (wrap64 (quot_ℤ a b))

-- Whether an integer fits an `int64`.
abbrev pub in_range64 : ℤ → Bool
in_range64 (pos n) = ltb n (2 ^ 63)
in_range64 (negsuc n) = ltb n (2 ^ 63)

-- The operations on values that stay in range, where they are those of the integers.
pub mul64_pos : (a b : ℕ) → a * b < bound64 → mul64 (pos a) (pos b) ≡ pos (a * b)
unfolding mul64 wrap64 ◌*ℤ◌
mul64_pos a b h = ground arith

pub quot64_pos : (a b : ℕ) → a < bound64 → 0 < b → quot64 (pos a) (pos b) ≡ done (pos (a / b))
unfolding quot64 wrap64 quot_ℕ
quot64_pos a b h k = ground (arith, div-le_self a b)

pub sub64_one : (a : ℕ) → a < bound64 → 0 < a → sub64 (pos a) (pos 1) ≡ pos (a - 1)
unfolding sub64 wrap64 ◌-ℤ◌
sub64_one a h k = ground arith

pub sub64_pos : (a b : ℕ) → a < bound64 → b ≤ a → sub64 (pos a) (pos b) ≡ pos (a - b)
unfolding sub64 wrap64 ◌-ℤ◌
sub64_pos a b h k = ground arith

pub div64_pos : (a d : ℕ) → div64 (pos a) d ≡ pos (a / d)
unfolding div64 quot_ℕ
div64_pos a d = refl

pub add64_pos : (a b : ℕ) → a + b < bound64 → add64 (pos a) (pos b) ≡ pos (a + b)
unfolding add64 wrap64 ◌+ℤ◌
add64_pos a b h = ground arith
