-- ===== src/Tests/Stored.antt =====
-- The job for a tip set of one block.
use lotus_tools.Prelude.{
  pos, String, ◌≡◌, refl, List, [], ◌∷◌, Result, ok, err, done, arith, big_string, wrap64,
}
use lotus_tools.Node.{Cid, Block}
use lotus_tools.Synchain.Jobs.{TipSet, lotus_tip_set_convert, convert_blocks, sync_height}
use lotus_tools.Synchain.Marked.{Marks, sync_height-Marks}
use lotus_tools.Tests.Reachable.{Base, db, growing}
use lotus_tools.Tests.Data.{env, head}

abbrev json : Block → String
json b = "{}"

abbrev block_messages : Cid → Result (List Cid)
block_messages c = ok ("m1" ∷ "m2" ∷ [])

abbrev tip_set : TipSet
tip_set = record {
  height = pos 5000;
  time = pos 1600000000;
  parent_base_fee = "100";
  blocks =
      record { miner = "f01"; timestamp = 1600000000; source = "{}"; cids = "m1" ∷ "m2" ∷ [] } ∷ [];
}

abbrev empty : Base
empty = record { configs = []; blocks = [] }

tip_set-convert : lotus_tip_set_convert env.naming json block_messages head ≡ done tip_set
unfolding lotus_tip_set_convert convert_blocks wrap64 big_string
tip_set-convert = refl

-- The node does not compute the messages, and the height counts as synchronised.
sync_height-Marks_example : Marks db env.naming json block_messages head empty empty (
    sync_height db
      (lotus_tip_set_convert env.naming json block_messages)
      (ok head)
      (err "rpc timeout")
      []
      empty)
sync_height-Marks_example =
    sync_height-Marks db env.naming json block_messages growing head (err "rpc timeout") [] empty
      (omega arith)
