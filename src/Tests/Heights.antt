-- ===== src/Tests/Heights.antt =====
-- The synchroniser over a database that is a list of config documents.
use lotus_tools.Prelude.{
  ℕ, ◌⊎◌, ◌≤◌, ◌<◌, ℤ, pos, String, Bool, false, ◌≡◌, refl, inl, inr, List, [], ◌∷◌, ◌++◌, none,
  Result, ok, err, Run, done, All, arith, if◌then◌else◌, ltb, ltb_ℤ, ◌≤ℤ◌, ◌<ℤ◌, Bool-cases,
}
use lotus_tools.Synchain.Database.{SyncConfig, Database, Documented, IsIn, replace_first}
use lotus_tools.Synchain.{no_height, reconnected, get_sync_height, sync_tick, start, is_past}
use lotus_tools.Synchain.Heights.{positives}
use lotus_tools.Synchain.Settings.{Settings, default_settings}
use lotus_tools.Node.{ChainTipSet}
use lotus_tools.Convert.Traces.{InvocResult}
use lotus_tools.Synchain.Jobs.{TipSet, Answer, lotus_tip_set_convert, run_jobs}
use lotus_tools.Synchain.Stored.{lotus_tip_set_convert-IsTipSet}
use lotus_tools.Synchain.Aside.{IsAnswered, run_jobs-WorksAside}
use lotus_tools.Tests.Data.{env, head}
use lotus_tools.Synchain.Progress.{Advances, WorksAside, sync_tick-Advances}
use lotus_tools.Loading.{Files, init_config}
use lotus_tools.Clients.{Connection}
use lotus_tools.Clients.Mongo.{Driver}
use lotus_tools.Synchain.Main.{HasReached, main, main-HasReached}
use lotus_tools.Synchain.Reaches.{Round, events, AllReach}
use lotus_tools.Synchain.Restart.{sync_tick-reconnected, start_height}

unfoldable pub first_positive : List ℤ → Result ℤ
first_positive [] = err "mongo: no documents in result"
first_positive (x ∷ xs) = let rest = first_positive xs in if ltb_ℤ (pos 0) x then ok x else rest

pub first_positive-ok : (xs : List ℤ) (h : ℤ) → first_positive xs ≡ ok h → (pos 0 <ℤ h) × IsIn h xs
unfolding first_positive
first_positive-ok [] h e = cc
first_positive-ok (x ∷ xs) h e = elim (Bool-cases (ltb_ℤ (pos 0) x)) [
  | inl b ↦ (ground arith, inl (ground arith))
  | inr b ↦
      let rest : first_positive xs ≡ ok h = ground arith in
      let (p, i) = first_positive-ok xs h rest in (p, inr i)
]

pub first_positive-err :
    (xs : List ℤ) (text : String) → first_positive xs ≡ err text → All (λ h. h ≤ℤ pos 0) xs
unfolding first_positive
first_positive-err [] text e = tt
first_positive-err (x ∷ xs) text e = ground (arith, first_positive-err xs text)

abbrev db : Database (List ℤ) TipSet InvocResult
db = record {
  find_config = first_positive;
  insert_config = λ h s. s ++ h ∷ [];
  update_config = λ old new s. ok (replace_first old new s);
  has_block = λ h s. false;
  delete_blocks = λ lo hi s. s;
  insert_block = λ b s. ok s;
  insert_messages = λ ms s. (s, none);
}

documented : Documented db
documented = record {
  configs = λ s. s;
  find-ok = first_positive-ok;
  find-err = first_positive-err;
  insert = λ h s. refl;
  update = λ old new s. (replace_first old new s, refl, refl);
  delete = λ lo hi s. refl;
  block = λ b s s' e. ground arith;
  messages = λ ms s. refl;
}

-- The height to start at, no height to stop at, and two heights at once.
abbrev conf : SyncConfig
conf = record { height = pos 120; stop_height = pos 0; max_once = pos 2; time_wait = pos 5 }

-- The database has the heights below 105 and none from there on.
abbrev has : ℤ → Bool
has h = ltb_ℤ h (pos 105)

-- Every height has the tip set of the test data, whose messages the node does not compute.
abbrev convert : ChainTipSet → Run TipSet
convert = lotus_tip_set_convert env.naming (λ b. "{}") (λ c. err "rpc timeout")

abbrev answer : ℤ → Answer
answer h = record { tip_set = ok head; computed = err "rpc timeout"; docs = [] }

abbrev work : List ℤ → List ℤ → Run (List ℤ)
work = run_jobs db convert answer

all-IsAnswered : (h : ℤ) → IsAnswered db documented convert (answer h)
all-IsAnswered h =
    let (doc, e, is) =
      lotus_tip_set_convert-IsTipSet env.naming (λ b. "{}") (λ c. err "rpc timeout") head
        (omega arith) in
    (head, refl, omega arith, (doc, e))

work-WorksAside : WorksAside db documented work
work-WorksAside = run_jobs-WorksAside db documented convert answer all-IsAnswered

near : is_past conf (pos 100) ≡ false
unfolding is_past
near = refl

sync_tick-Advances_example :
    Advances db documented has 2 200 100 (sync_tick db conf (ok (pos 202)) has work (pos 100 ∷ []))
unfolding documented
sync_tick-Advances_example =
    sync_tick-Advances db documented conf has work 2 200 100 (pos 100 ∷ []) (omega arith)
      (omega arith) refl work-WorksAside refl near

sync_tick-reconnected_example :
    (s' : List ℤ) × (sync_tick db conf (err "websocket closed") has work (pos 100 ∷ [])
      ≡ done (reconnected s'))
    × (positives s' ≡ (if ltb 10 100 then pos 90 ∷ [] else []))
unfolding documented
sync_tick-reconnected_example =
    sync_tick-reconnected db documented conf has work "websocket closed" 100 (pos 100 ∷ [])
      (omega arith) refl

start_height_example :
    (s' : List ℤ) × (start db conf (pos 55 ∷ []) ≡ done s')
    × (((20 < 120) × (get_sync_height db s' ≡ ok (pos 100)))
        ⊎ ((120 ≤ 20)
            × ((tip : Result ℤ) (known : ℤ → Bool) (jobs : List ℤ → List ℤ → Run (List ℤ))
                → sync_tick db conf tip known jobs s' ≡ done no_height)))
unfolding documented
start_height_example =
    start_height db documented conf (pos 55 ∷ []) refl (omega arith) (omega arith)

-- The default settings start at a height that is found again.
default_start :
    (s' : List ℤ) × (start db default_settings.sync_config [] ≡ done s')
    × (((20 < 281520) × (get_sync_height db s' ≡ ok (pos 281500)))
        ⊎ ((281520 ≤ 20)
            × ((tip : Result ℤ) (known : ℤ → Bool) (jobs : List ℤ → List ℤ → Run (List ℤ))
                → sync_tick db default_settings.sync_config tip known jobs s' ≡ done no_height)))
unfolding documented
default_start =
    start_height db documented default_settings.sync_config [] refl (omega arith) (omega arith)

-- Three ticks come from 100 to 108.
abbrev round : ℕ → Round (List ℤ)
round head = record { head = head; has = has; work = work }

abbrev rounds : List (Round (List ℤ))
rounds = round 110 ∷ round 111 ∷ round 113 ∷ []

rounds-AllReach : AllReach db documented conf 108 rounds
rounds-AllReach = (
  omega arith,
  omega arith,
  work-WorksAside,
  (omega arith, omega arith, work-WorksAside, (omega arith, omega arith, work-WorksAside, tt)),
)

abbrev files : Files Settings
files = record {
  read_file = λ file. ok "syncConfig: {height: 120, maxOnce: 2}";
  unmarshal = λ text c. (record c { sync_config = conf }, none);
}

abbrev driver : Driver ℕ
driver = record { connect = λ o. ok 1; ping = λ c. none; disconnect = λ c. none }

abbrev open_rpc : Connection → Result ℕ
open_rpc c = ok 2

main-HasReached_example :
    HasReached db driver open_rpc files documented 108
      (main db driver open_rpc files (events rounds) (pos 55 ∷ []))
unfolding documented init_config
main-HasReached_example =
    main-HasReached db driver open_rpc files documented
      (record default_settings { sync_config = conf }) 1 2 120 2 108 rounds (pos 55 ∷ []) refl refl
      refl refl refl (omega arith) (omega arith) refl (omega arith) rounds-AllReach (omega arith)
      (omega arith)
