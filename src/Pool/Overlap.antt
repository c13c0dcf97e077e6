-- ===== src/Pool/Overlap.antt =====
-- The two loops of the service at the same time: `Start` runs `DoClean` in a goroutine of its own
-- without a lock, so that a base fee may be recorded while a round adjusts the cap. Each call of a
-- method of baseFeeController.go is one step.
use lotus_tools.Prelude.{
  ℤ, pos, String, Bool, true, false, ◌≡◌, some, subst, done, Run->>=-eq-done, Bool-cases, inl, inr,
  Result, ok, arith, big_from_string, ◌≤ℤ◌, ◌<ℤ◌,
}
use lotus_tools.Config.{Setting, Config}
use lotus_tools.Node.{Address}
use lotus_tools.FeeController.{
  FeeState, reset_base_fee_cap, get_next_fee_cap, period, add_fee, check_msg_too_more,
  check_msg_too_low,
}
use lotus_tools.Pool.Defs.{MpoolQueue, new_local_pool}
use lotus_tools.Pool.Sync.{adjust, raise_if_too_more, adjust_if_too_low}
use lotus_tools.Pool.Bounded.{HoldsFees, reset-HoldsFees, add_fee-HoldsFees}
use lotus_tools.Pool.Service.{start-Holds}

-- Where the end of `syncMsg` stands: not there, before one of the two tests on a number of
-- messages, or with a next cap that it has read and not yet installed.
pub data Watcher : Type 0 where
  away : Watcher
  before_more : ℤ → Watcher
  raising : ℤ → ℤ → Watcher
  before_low : ℤ → Watcher
  lowering : ℤ → Watcher

-- The fees, which both loops share, and where `syncMsg` stands.
pub record Shared : Type 0 where
  pub fees : FeeState
  pub watcher : Watcher

abbrev pub at : FeeState → Watcher → Shared
at f w = record { fees = f; watcher = w }

-- One step of either loop.
pub data Access (s : Setting) : Shared → Shared → Type 0 where
  counted : (f : FeeState) (total : ℤ) → Access s (at f away) (at f (before_more total))
  read_largest :
      (f : FeeState) (total cap : ℤ)
      → check_msg_too_more s total ≡ true
      → get_next_fee_cap s.base_fee_percent true f ≡ done cap
      → Access s (at f (before_more total)) (at f (raising total cap))
  not_more :
      (f : FeeState) (total : ℤ)
      → check_msg_too_more s total ≡ false
      → Access s (at f (before_more total)) (at f (before_low total))
  raise :
      (f g : FeeState) (total cap : ℤ)
      → reset_base_fee_cap s cap f ≡ done g
      → Access s (at f (raising total cap)) (at g (before_low total))
  read_share :
      (f : FeeState) (total cap : ℤ)
      → check_msg_too_low s total ≡ true
      → get_next_fee_cap s.base_fee_percent false f ≡ done cap
      → Access s (at f (before_low total)) (at f (lowering cap))
  not_low :
      (f : FeeState) (total : ℤ)
      → check_msg_too_low s total ≡ false
      → Access s (at f (before_low total)) (at f away)
  lower :
      (f g : FeeState) (cap : ℤ)
      → reset_base_fee_cap s cap f ≡ done g
      → Access s (at f (lowering cap)) (at g away)
  observe :
      (f g : FeeState) (w : Watcher) (fee : ℤ)
      → add_fee s fee f ≡ done g
      → Access s (at f w) (at g w)

-- Steps one after the other.
pub data Accesses (s : Setting) : Shared → Shared → Type 0 where
  none_left : (z : Shared) → Accesses s z z
  then_access : {x y z : Shared} → Accesses s x y → Access s y z → Accesses s x z

module _ (s : Setting) (total : ℤ) (x : Shared) (f g : FeeState) where
  raised :
      Accesses s x (at f (before_more total))
      → raise_if_too_more s total f ≡ done g
      → Accesses s x (at g (before_low total))
  unfolding raise_if_too_more
  raised before h = elim (Bool-cases (check_msg_too_more s total)) [
    | inl more ↦
        let (cap, e, last) =
          Run->>=-eq-done (get_next_fee_cap s.base_fee_percent true f)
            (λ cap. reset_base_fee_cap s cap f) (ground arith) in
        then_access (then_access before (read_largest f total cap more e))
          (raise f g total cap last)
    | inr few ↦
        let same : f ≡ g = ground arith in
        subst (λ z. Accesses s x (at z (before_low total))) same
          (then_access before (not_more f total few))
  ]

  adjusted :
      Accesses s x (at f (before_low total))
      → adjust_if_too_low s total f ≡ done g
      → Accesses s x (at g away)
  unfolding adjust_if_too_low
  adjusted before h = elim (Bool-cases (check_msg_too_low s total)) [
    | inl low ↦
        let (cap, e, last) =
          Run->>=-eq-done (get_next_fee_cap s.base_fee_percent false f)
            (λ cap. reset_base_fee_cap s cap f) (ground arith) in
        then_access (then_access before (read_share f total cap low e)) (lower f g cap last)
    | inr enough ↦
        let same : f ≡ g = ground arith in
        subst (λ z. Accesses s x (at z away)) same (then_access before (not_low f total enough))
  ]

-- The adjustment of a round that nothing interrupts is a sequence of steps.
pub adjust-Accesses :
    (s : Setting) (total : ℤ) (f q : FeeState)
    → adjust s total f ≡ done q
    → Accesses s (at f away) (at q away)
unfolding adjust
adjust-Accesses s total f q h =
    let (g, e, last) = Run->>=-eq-done (raise_if_too_more s total f) _ h in
    let start = then_access (none_left (at f away)) (counted f total) in
    adjusted s total (at f away) g q (raised s total (at f away) f g start e) last

module _ (c : Config) {lo hi : ℤ} (parses : big_from_string c.setting.base_fee ≡ some lo)
    (ticks : pos 0 <ℤ period c.setting) where
  Access-HoldsFees :
      {x y : Shared} → Access c.setting x y → HoldsFees c lo hi x.fees → HoldsFees c lo hi y.fees
  Access-HoldsFees (counted f total) v = v
  Access-HoldsFees (read_largest f total cap more e) v = v
  Access-HoldsFees (not_more f total few) v = v
  Access-HoldsFees (raise f g total cap e) v = reset-HoldsFees c parses cap f g e v
  Access-HoldsFees (read_share f total cap low e) v = v
  Access-HoldsFees (not_low f total enough) v = v
  Access-HoldsFees (lower f g cap e) v = reset-HoldsFees c parses cap f g e v
  Access-HoldsFees (observe f g w fee e) v = add_fee-HoldsFees c parses fee f g ticks e v

  all_HoldsFees :
      {x y : Shared} → Accesses c.setting x y → HoldsFees c lo hi x.fees → HoldsFees c lo hi y.fees
  all_HoldsFees (none_left z) v = v
  all_HoldsFees (then_access before a) v = Access-HoldsFees a (all_HoldsFees before v)

  -- Whatever the order of the steps of the two loops, where a base fee may be recorded between the
  -- reading of a next cap and its installation, the base-fee cap stays between the configured
  -- minimum and maximum, and the queue holds at most one fee more than an hour has periods. The
  -- conditions: the minimum and the maximum parse, the minimum is the smaller, and the period of the
  -- ticker is positive.
  pub Accesses-HoldsFees :
      (parse : String → Result Address) (has_storage : Bool) (gauge : ℤ) (p : MpoolQueue)
      {z : Shared}
      → big_from_string c.setting.base_fee_max ≡ some hi
      → lo ≤ℤ hi
      → new_local_pool parse c has_storage gauge ≡ ok p
      → Accesses c.setting (at p.fees away) z
      → HoldsFees c lo hi z.fees
  Accesses-HoldsFees parse has_storage gauge p m le new steps =
      all_HoldsFees steps (start-Holds parse c parses has_storage gauge p m le new).fees
