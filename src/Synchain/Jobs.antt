-- ===== src/Synchain/Jobs.antt =====
-- The job for one height: `syncHeight` of parseMessage.go, sync.go, and `LotusTipSetConvert` of
-- types/blocks.go. The goroutines of `getEpochTrace` append the documents of the messages when they
-- end, so what they gather is a relation. The node's answers are arguments.
use lotus_tools.Prelude.{
  ℕ, ℤ, pos, String, Bool, true, Option, none, some, List, [], ◌∷◌, Result, ok, err, Run, done,
  panic, ◌>>=◌, ◌≡◌, big_string, wrap64,
}
use lotus_tools.Node.{Address, Cid, Block, ChainTipSet}
use lotus_tools.Convert.{Environment, Naming, message_convert}
use lotus_tools.Convert.Traces.{
  ExecutionTrace, Converts, Invocation, InvocResult, invoc_result_convert,
}
use lotus_tools.Synchain.Database.{Database}

pub record BlockHeader : Type 0 where
  pub miner : String
  pub timestamp : ℕ
  pub source : String
  pub cids : List String

-- `time` is in Unix seconds.
pub record TipSet : Type 0 where
  pub height : ℤ
  pub time : ℤ
  pub parent_base_fee : String
  pub blocks : List BlockHeader

-- The identifiers of a block's messages, or none where the node does not give them.
abbrev pub printed : (Cid → String) → Result (List Cid) → List String
printed print (err _) = []
printed print (ok []) = []
printed print (ok (c ∷ cs)) = print c ∷ printed print (ok cs)

-- ts.Blocks()[0].ParentBaseFee
abbrev pub first_fee : List Block → Run ℤ
first_fee [] = panic
first_fee (b ∷ bs) = done b.parent_base_fee

module _ (naming : Naming) (source : Block → String) (messages : Cid → Result (List Cid)) where
  -- `source` is the JSON of a header, `messages` what ChainGetBlockMessages answers.
  unfoldable pub convert_blocks : List Block → List BlockHeader
  convert_blocks [] = []
  convert_blocks (b ∷ bs) =
      record {
        miner = naming.address_string b.miner;
        timestamp = b.timestamp;
        source = source b;
        cids = printed naming.cid_string (messages b.cid);
      }
      ∷ convert_blocks bs

  unfoldable pub lotus_tip_set_convert : ChainTipSet → Run TipSet
  lotus_tip_set_convert ts = do
    fee ← first_fee ts.blocks
    done (record {
      height = ts.height;
      time = wrap64 (pos ts.min_timestamp);
      parent_base_fee = big_string fee;
      blocks = convert_blocks ts.blocks;
    })

-- A document put at any place among others.
pub data IsAppended {A : Type 0} : A → List A → List A → Type 0 where
  here : {x : A} {xs : List A} → IsAppended x xs (x ∷ xs)
  there : {x y : A} {xs ys : List A} → IsAppended x xs ys → IsAppended x (y ∷ xs) (y ∷ ys)

module _ {V : Type 0} (env : Environment V) (code_of : Address → Cid → Type 0) (cancelled : Bool)
    (base_fee : String) (ts : ChainTipSet) where
  -- What the goroutines of `getEpochTrace` gather of the computed messages. A nil entry, a panic in
  -- the conversion of the message itself and a cancelled context leave no document.
  pub data Gathers : List (Option Invocation) → List InvocResult → Type 0 where
    all_done : Gathers [] []
    nil_entry :
        {is : List (Option Invocation)} {rs : List InvocResult}
        → Gathers is rs
        → Gathers (none ∷ is) rs
    recovers :
        {i : Invocation} {is : List (Option Invocation)} {rs : List InvocResult} {code : Cid}
        → code_of i.msg.to code
        → message_convert env code i.msg ≡ panic
        → Gathers is rs
        → Gathers (some i ∷ is) rs
    gives_up :
        {i : Invocation} {is : List (Option Invocation)} {rs : List InvocResult}
        → cancelled ≡ true
        → Gathers is rs
        → Gathers (some i ∷ is) rs
    appends :
        {i : Invocation} {is : List (Option Invocation)} {rs rs' : List InvocResult}
        {r : InvocResult} {code : Cid} {x : ExecutionTrace}
        → code_of i.msg.to code
        → Converts env code_of cancelled i.trace x
        → invoc_result_convert env base_fee i ts.height ts.min_timestamp code x ≡ done r
        → Gathers is rs
        → IsAppended r rs rs'
        → Gathers (some i ∷ is) rs'

-- What the node answers to the job for a height, and what its goroutines gather.
pub record Answer : Type 0 where
  pub tip_set : Result ChainTipSet
  pub computed : Result (List (Option Invocation))
  pub docs : List InvocResult

module _ {S : Type 0} (db : Database S TipSet InvocResult) where
  -- `getEpochTrace`, for the documents that were gathered. `computed` is what StateCompute answers;
  -- its error is not passed on. Reading the base fee of a tip set without blocks panics.
  unfoldable pub get_epoch_trace :
      Result (List (Option Invocation))
      → List InvocResult
      → ChainTipSet
      → S
      → Run (S × Option String)
  get_epoch_trace (err _) docs ts s = done (s, none)
  get_epoch_trace (ok _) docs ts s = elim ts.blocks [
    | [] ↦ panic
    | b ∷ bs ↦ done (db.insert_messages docs s)
  ]

  abbrev pub insert_tip_set : TipSet → S → S × Option String
  insert_tip_set doc s = elim (db.insert_block doc s) [ ok s' ↦ (s', none) | err e ↦ (s, some e) ]

  -- `syncHeightBlocks`: an error of `getEpochTrace` is logged only.
  unfoldable pub sync_height_blocks :
      (ChainTipSet → Run TipSet)
      → Result (List (Option Invocation))
      → List InvocResult
      → ChainTipSet
      → S
      → Run (S × Option String)
  sync_height_blocks convert computed docs ts s = do
    (s', e) ← get_epoch_trace computed docs ts s
    doc ← convert ts
    done (insert_tip_set doc s')

  -- `syncHeight`: where the node does not give the tip set, `logrus.Panic` ends the process. The
  -- error of `syncHeightBlocks` is dropped.
  unfoldable pub sync_height :
      (ChainTipSet → Run TipSet)
      → Result ChainTipSet
      → Result (List (Option Invocation))
      → List InvocResult
      → S
      → Run S
  sync_height convert (err _) computed docs s = panic
  sync_height convert (ok ts) computed docs s = do
    (s', e) ← sync_height_blocks convert computed docs ts s
    done s'

  -- The jobs that one tick of `DoSync` starts, in the order in which they end.
  unfoldable pub run_jobs : (ChainTipSet → Run TipSet) → (ℤ → Answer) → List ℤ → S → Run S
  run_jobs convert answer [] s = done s
  run_jobs convert answer (h ∷ heights) s = do
    let a = answer h
    s' ← sync_height convert a.tip_set a.computed a.docs s
    run_jobs convert answer heights s'
