-- ===== src/Tests/Reachable.antt =====
-- The synchroniser over a database of config heights and block heights.
use lotus_tools.Prelude.{
  ◌≡◌, refl, inr, ◌||◌, ℤ, pos, Bool, true, false, List, [], ◌∷◌, ◌++◌, none, ok, err, Run, done,
  arith, eqb_ℤ, eqb_ℤ_iff, add64, sub64, wrap64, ◌+ℤ◌, ◌-ℤ◌,
}
use lotus_tools.Node.{ChainTipSet}
use lotus_tools.Convert.Traces.{InvocResult}
use lotus_tools.Synchain.{
  synced, set_sync_height, get_sync_height, sync_tick, sync_from, sync_rounds, is_past,
}
use lotus_tools.Synchain.Database.{SyncConfig, Database, Documented, replace_first}
use lotus_tools.Synchain.Jobs.{TipSet, Answer, get_epoch_trace}
use lotus_tools.Synchain.Rounds.{after_tick}
use lotus_tools.Synchain.Interleaved.{run_interleaved, run_schedule, step_at, step, finish}
use lotus_tools.Synchain.Growing.{Growing, IsRight}
use lotus_tools.Synchain.Gapless.{Meets}
use lotus_tools.Synchain.Ended.{Ended, run_interleaved-Ended}
use lotus_tools.Synchain.Reachable.{answered, Syncs, here, next, IsGapless, Syncs-IsGapless}
use lotus_tools.Tests.Heights.{first_positive, first_positive-ok, first_positive-err}

pub record Base : Type 0 where
  pub configs : List ℤ
  pub blocks : List ℤ

abbrev pub has_height : ℤ → List ℤ → Bool
has_height h [] = false
has_height h (x ∷ xs) = eqb_ℤ x h || has_height h xs

abbrev pub db : Database Base TipSet InvocResult
db = record {
  find_config = λ s. first_positive s.configs;
  insert_config = λ h s. record s { configs = s.configs ++ h ∷ [] };
  update_config = λ old new s. ok (record s { configs = replace_first old new s.configs });
  has_block = λ h s. has_height h s.blocks;
  delete_blocks = λ lo hi s. s;
  insert_block = λ b s. ok (record s { blocks = b.height ∷ s.blocks });
  insert_messages = λ ms s. (s, none);
}

documented : Documented db
documented = record {
  configs = λ s. s.configs;
  find-ok = λ s h e. first_positive-ok s.configs h e;
  find-err = λ s text e. first_positive-err s.configs text e;
  insert = λ h s. refl;
  update = λ old new s. (record s { configs = replace_first old new s.configs }, refl, refl);
  delete = λ lo hi s. refl;
  block = λ b s s' e. ground arith;
  messages = λ ms s. refl;
}

has_height_self : (h : ℤ) (xs : List ℤ) → has_height h (h ∷ xs) ≡ true
has_height_self h xs = ground (arith, eqb_ℤ_iff h h)

has_height-cons : (h x : ℤ) (xs : List ℤ) → has_height h xs ≡ true → has_height h (x ∷ xs) ≡ true
has_height-cons h x xs e = ground arith

update-blocks :
    (old new h : ℤ) (s s' : Base)
    → db.update_config old new s ≡ ok s'
    → db.has_block h s ≡ true
    → db.has_block h s' ≡ true
update-blocks old new h s s' e f = ground arith

pub growing : Growing db
growing = record {
  inserts = λ b s. (
    record s { blocks = b.height ∷ s.blocks },
    refl,
    has_height_self b.height s.blocks,
    λ h e. has_height-cons h b.height s.blocks e,
  );
  messages = λ ms s h e. e;
  insert_config = λ c s h e. e;
  update_config = λ old new s s' e h f. update-blocks old new h s s' e f;
}

abbrev conf : SyncConfig
conf = record { height = pos 120; stop_height = pos 0; max_once = pos 2; time_wait = pos 5 }

abbrev tip_set : ℤ → ChainTipSet
tip_set h = record {
  height = h;
  min_timestamp = 1600000000;
  blocks =
      record { cid = "b"; miner = "f01"; timestamp = 1600000000; parent_base_fee = pos 100 } ∷ [];
}

abbrev convert : ChainTipSet → Run TipSet
convert ts =
    done (record { height = ts.height; time = pos 0; parent_base_fee = "100"; blocks = [] })

abbrev answer : ℤ → Answer
answer h = record { tip_set = ok (tip_set h); computed = err "rpc timeout"; docs = [] }

abbrev first : Base
first = record { configs = pos 100 ∷ []; blocks = [] }

abbrev second : Base
second = record { configs = pos 103 ∷ []; blocks = pos 102 ∷ pos 101 ∷ pos 103 ∷ [] }

right : (h : ℤ) → IsRight db documented growing convert h (answer h)
right h = (
  tip_set h,
  refl,
  (
    omega arith,
    (record { height = h; time = pos 0; parent_base_fee = "100"; blocks = [] }, refl, refl),
  ),
)

-- The third job is done first, and the first one before the second.
meets : Meets db documented growing convert conf 2 first
meets = record {
  head = 103;
  has = λ h. false;
  answer = answer;
  schedule = 2 ∷ 0 ∷ 2 ∷ [];
  fits = omega arith;
  known = λ h e. cc;
  right = right;
}

tick :
    sync_tick db conf
      (ok (pos 105))
      (λ h. false)
      (run_interleaved db convert answer (2 ∷ 0 ∷ 2 ∷ []))
      first
    ≡ done (synced (pos 101 ∷ pos 102 ∷ pos 103 ∷ []) second)
unfolding sync_tick sync_from sync_rounds set_sync_height get_sync_height is_past run_interleaved
    run_schedule step_at step finish get_epoch_trace first_positive add64 sub64 wrap64 ◌+ℤ◌ ◌-ℤ◌
tick = refl

-- The loop comes from the first database to the second.
reached : Syncs db documented growing convert conf 2 first second
unfolding after_tick meets
reached = next here (answered meets (synced (pos 101 ∷ pos 102 ∷ pos 103 ∷ []) second) tick refl)

Syncs-IsGapless_example : IsGapless db documented growing convert conf 2 100 second
unfolding documented
Syncs-IsGapless_example =
    Syncs-IsGapless db documented growing convert conf 2 100 first second refl
      (inr (100, omega arith, refl, λ j lo hi. absurd (omega arith))) reached

run_interleaved-Ended_example :
    Ended db documented growing convert
      (pos 101 ∷ pos 102 ∷ [])
      first
      (run_interleaved db convert answer (1 ∷ 0 ∷ 0 ∷ []) (pos 101 ∷ pos 102 ∷ []) first)
run_interleaved-Ended_example =
    run_interleaved-Ended db documented growing convert answer (1 ∷ 0 ∷ 0 ∷ [])
      (pos 101 ∷ pos 102 ∷ []) first right
