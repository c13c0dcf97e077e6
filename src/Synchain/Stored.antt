-- ===== src/Synchain/Stored.antt =====
-- What the job for one height stores: the document of its tip set, whatever comes of the messages.
use lotus_tools.Prelude.{
  ℕ, zero, suc, ◌<◌, wrap64, pos, String, ◌≡◌, refl, sym, ap, ◌∙◌, subst, Option, some,
  some-injective, List, [], ◌∷◌, length, get_elem?, Result, ok, err, Run, done, arith,
  big_from_string, big_from_string-big_string, big_string,
}
use lotus_tools.Node.{Cid, Block, ChainTipSet}
use lotus_tools.Convert.{Naming}
use lotus_tools.Convert.Traces.{Invocation, InvocResult}
use lotus_tools.Synchain.Database.{Database}
use lotus_tools.Synchain.Jobs.{
  BlockHeader, TipSet, printed, convert_blocks, lotus_tip_set_convert, get_epoch_trace,
  insert_tip_set, sync_height_blocks, sync_height,
}

module _ (naming : Naming) (source : Block → String) (messages : Cid → Result (List Cid)) where
  length-printed : (cs : List Cid) → length (printed naming.cid_string (ok cs)) ≡ length cs
  length-printed [] = refl
  length-printed (c ∷ cs) = ap suc (length-printed cs)

  -- What a stored header tells of a block.
  pub record IsHeader (b : Block) (h : BlockHeader) : Type 0 where
    pub miner : h.miner ≡ naming.address_string b.miner
    pub timestamp : h.timestamp ≡ b.timestamp
    pub cids : (cs : List Cid) → messages b.cid ≡ ok cs → length h.cids ≡ length cs

  IsHeader-at :
      (bs : List Block) (i : ℕ) {b : Block}
      → get_elem? bs i ≡ some b
      → (h : BlockHeader) × (get_elem? (convert_blocks naming source messages bs) i ≡ some h)
        × IsHeader b h
  unfolding convert_blocks
  IsHeader-at [] i e = cc
  IsHeader-at (c ∷ bs) zero {b} e =
      let h : BlockHeader = record {
        miner = naming.address_string c.miner;
        timestamp = c.timestamp;
        source = source c;
        cids = printed naming.cid_string (messages c.cid);
      } in
      let own : IsHeader c h = record {
        miner = refl;
        timestamp = refl;
        cids = λ cs m. ap (λ r. length (printed naming.cid_string r)) m ∙ length-printed cs;
      } in
      (h, refl, subst (λ z. IsHeader z h) (some-injective c b e) own)
  IsHeader-at (c ∷ bs) (suc i) e = IsHeader-at bs i e

  length-convert_blocks :
      (bs : List Block) → length (convert_blocks naming source messages bs) ≡ length bs
  unfolding convert_blocks
  length-convert_blocks [] = refl
  length-convert_blocks (b ∷ bs) = ap suc (length-convert_blocks bs)

  -- What a stored tip set tells of the node's.
  pub record IsTipSet (ts : ChainTipSet) (doc : TipSet) : Type 0 where
    pub height : doc.height ≡ ts.height
    pub base_fee :
        (b : Block)
        → get_elem? ts.blocks 0 ≡ some b
        → big_from_string doc.parent_base_fee ≡ some b.parent_base_fee
    pub count : length doc.blocks ≡ length ts.blocks
    pub headers :
        (i : ℕ) (b : Block)
        → get_elem? ts.blocks i ≡ some b
        → (h : BlockHeader) × (get_elem? doc.blocks i ≡ some h) × IsHeader b h

  -- A tip set that has a block is converted, to a document with its height, a base fee that reads
  -- back as that of its first block, and a header for each block in order, with the block's miner
  -- and time and as many message identifiers as the node gives.
  pub lotus_tip_set_convert-IsTipSet :
      (ts : ChainTipSet)
      → 0 < length ts.blocks
      → (doc : TipSet) × (lotus_tip_set_convert naming source messages ts ≡ done doc)
        × IsTipSet ts doc
  unfolding lotus_tip_set_convert
  lotus_tip_set_convert-IsTipSet ts h = go ts.blocks refl h
    where
      go :
          (bs : List Block)
          → ts.blocks ≡ bs
          → 0 < length bs
          → (doc : TipSet) × (lotus_tip_set_convert naming source messages ts ≡ done doc)
            × IsTipSet ts doc
      go [] e k = absurd (omega arith)
      go (b ∷ bs) e k =
          let doc : TipSet = record {
            height = ts.height;
            time = wrap64 (pos ts.min_timestamp);
            parent_base_fee = big_string b.parent_base_fee;
            blocks = convert_blocks naming source messages ts.blocks;
          } in
          (
            doc,
            rw e refl,
            record {
              height = refl;
              base_fee = λ c f.
                  let same : b ≡ c = some-injective b c (sym (ap (λ xs. get_elem? xs 0) e) ∙ f) in
                  subst (λ z. big_from_string doc.parent_base_fee ≡ some z.parent_base_fee) same
                    (big_from_string-big_string b.parent_base_fee);
              count = length-convert_blocks ts.blocks;
              headers = λ i c f. IsHeader-at ts.blocks i f;
            },
          )

module _ {S : Type 0} (db : Database S TipSet InvocResult)
    (convert : ChainTipSet → Run TipSet) where
  -- The database after the messages of a tip set: as it was if they could not be computed.
  abbrev pub after_messages : Result (List (Option Invocation)) → List InvocResult → S → S
  after_messages (err _) docs s = s
  after_messages (ok _) docs s = (db.insert_messages docs s).0

  pub epoch_trace_done :
      (ts : ChainTipSet) (is : List (Option Invocation)) (docs : List InvocResult) (s : S)
      → 0 < length ts.blocks
      → get_epoch_trace db (ok is) docs ts s ≡ done (db.insert_messages docs s)
  unfolding get_epoch_trace
  epoch_trace_done ts is docs s h = ground arith

  pub sync_height_done :
      (ts : ChainTipSet) (computed : Result (List (Option Invocation))) (docs : List InvocResult)
      (doc : TipSet) (s : S)
      → 0 < length ts.blocks
      → convert ts ≡ done doc
      → sync_height db convert (ok ts) computed docs s
        ≡ done (insert_tip_set db doc (after_messages computed docs s)).0
  unfolding sync_height sync_height_blocks get_epoch_trace
  sync_height_done ts (err e) docs doc s h c = rw c refl
  sync_height_done ts (ok is) docs doc s h c = rw (epoch_trace_done ts is docs s h, c) refl

  -- Where the insertion of the document succeeds, the job leaves what it gives.
  pub sync_height-stored :
      (ts : ChainTipSet) (computed : Result (List (Option Invocation))) (docs : List InvocResult)
      (doc : TipSet) (s s' : S)
      → 0 < length ts.blocks
      → convert ts ≡ done doc
      → db.insert_block doc (after_messages computed docs s) ≡ ok s'
      → sync_height db convert (ok ts) computed docs s ≡ done s'
  sync_height-stored ts computed docs doc s s' h c i =
      sync_height_done ts computed docs doc s h c ∙ ground arith
