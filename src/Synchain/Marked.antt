-- ===== src/Synchain/Marked.antt =====
-- What the job for a height leaves in the database: `syncHeight` with `LotusTipSetConvert`, whatever
-- comes of the messages.
use lotus_tools.Prelude.{
  ◌<◌, String, ◌≡◌, subst, true, Option, List, length, Result, ok, err, Run, done,
}
use lotus_tools.Node.{Cid, Block, ChainTipSet}
use lotus_tools.Convert.{Naming}
use lotus_tools.Convert.Traces.{Invocation, InvocResult}
use lotus_tools.Synchain.Database.{Database}
use lotus_tools.Synchain.Jobs.{TipSet, lotus_tip_set_convert, sync_height}
use lotus_tools.Synchain.Stored.{
  IsTipSet, lotus_tip_set_convert-IsTipSet, after_messages, sync_height-stored,
}
use lotus_tools.Synchain.Growing.{Growing, Grows}

module _ {S : Type 0} (db : Database S TipSet InvocResult) (naming : Naming)
    (source : Block → String) (messages : Cid → Result (List Cid)) where
  -- The job has stored a document of the tip set, by which its height is found.
  abbrev pub Marks : ChainTipSet → S → S → Run S → Type 0
  Marks ts mid s r =
      (s' : S) × (doc : TipSet) × (r ≡ done s')
      × (db.insert_block doc mid ≡ ok s')
      × IsTipSet naming source messages ts doc
      × (db.has_block ts.height s' ≡ true)
      × Grows db s s'

  after_messages-Grows :
      Growing db
      → (computed : Result (List (Option Invocation))) (docs : List InvocResult) (s : S)
      → Grows db s
          (after_messages db (lotus_tip_set_convert naming source messages) computed docs s)
  after_messages-Grows g (err x) docs s k e = e
  after_messages-Grows g (ok is) docs s k e = g.messages docs s k e

  -- The job for a height returns, whether or not the messages of the tip set could be computed and
  -- inserted, and its last write is the document of the tip set: with the tip set's height, a base fee
  -- that reads back as that of its first block, and a header for each block in order. The height of
  -- the tip set then counts as synchronised, also where its messages could not be computed, of which
  -- none is then stored, and no height that did count is lost. The conditions: the node gives a tip
  -- set that has a block, and the database behaves as documented and can be reached.
  pub sync_height-Marks :
      Growing db
      → (ts : ChainTipSet) (computed : Result (List (Option Invocation))) (docs : List InvocResult)
        (s : S)
      → 0 < length ts.blocks
      → Marks ts
          (after_messages db (lotus_tip_set_convert naming source messages) computed docs s)
          s
          (sync_height db (lotus_tip_set_convert naming source messages) (ok ts) computed docs s)
  sync_height-Marks g ts computed docs s h =
      let convert : ChainTipSet → Run TipSet = lotus_tip_set_convert naming source messages in
      let (doc, c, is) = lotus_tip_set_convert-IsTipSet naming source messages ts h in
      let (s', i, found, kept) = g.inserts doc (after_messages db convert computed docs s) in
      (
        s',
        doc,
        sync_height-stored db convert ts computed docs doc s s' h c i,
        i,
        is,
        subst (λ z. db.has_block z s' ≡ true) is.height found,
        λ k e. kept k (after_messages-Grows g computed docs s k e),
      )
