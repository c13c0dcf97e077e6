-- ===== src/Synchain/Growing.antt =====
-- What the jobs of a tick leave in the blocks collection, for every order of their steps.
use lotus_tools.Prelude.{
  ◌<◌, ◌≡◌, refl, ◌∙◌, ap, sym, subst, ℤ, String, true, Option, none, List, [], ◌∷◌, length, Result,
  ok, err, Run, done, All, arith,
}
use lotus_tools.Node.{ChainTipSet}
use lotus_tools.Convert.Traces.{Invocation, InvocResult}
use lotus_tools.Synchain.Database.{Database, Documented}
use lotus_tools.Synchain.Jobs.{TipSet, Answer, get_epoch_trace, insert_tip_set}
use lotus_tools.Synchain.Stored.{epoch_trace_done}
use lotus_tools.Synchain.Interleaved.{Progress, begun, traced, ended, height_of, trace, step}

module _ {S : Type 0} (db : Database S TipSet InvocResult) where
  -- The second database has every height of the first.
  abbrev pub Grows : S → S → Type 0
  Grows s s' = (h : ℤ) → db.has_block h s ≡ true → db.has_block h s' ≡ true

-- The documented behaviour of a database that can be reached, on the heights of its blocks
-- collection: an insertion succeeds, after it the height is found, and no other operation of a tick
-- loses a height.
pub record Growing {S : Type 0} (db : Database S TipSet InvocResult) : Type 0 where
  pub inserts :
      (b : TipSet) (s : S)
      → (s' : S) × (db.insert_block b s ≡ ok s') × (db.has_block b.height s' ≡ true) × Grows db s s'
  pub messages : (ms : List InvocResult) (s : S) → Grows db s (db.insert_messages ms s).0
  pub insert_config : (h : ℤ) (s : S) → Grows db s (db.insert_config h s)
  pub update_config : (old new : ℤ) (s s' : S) → db.update_config old new s ≡ ok s' → Grows db s s'

module _ {S : Type 0} (db : Database S TipSet InvocResult) (d : Documented db) (g : Growing db)
    (convert : ChainTipSet → Run TipSet) where
  -- The node gives the tip set of the height, with a block in it, and its document has the height.
  abbrev pub IsConverted : ℤ → ChainTipSet → Type 0
  IsConverted h ts =
      (0 < length ts.blocks) × ((doc : TipSet) × (convert ts ≡ done doc) × (doc.height ≡ h))

  abbrev pub IsRight : ℤ → Answer → Type 0
  IsRight h a = (ts : ChainTipSet) × (a.tip_set ≡ ok ts) × IsConverted h ts

  -- A job on its way: its answers are right, and at its end its height is in the database.
  abbrev pub IsFine : S → Progress → Type 0
  IsFine s (begun h a) = IsRight h a
  IsFine s (traced h ts) = IsConverted h ts
  IsFine s (ended h) = db.has_block h s ≡ true

  pub IsFine-Grows : (w : Progress) (s s' : S) → Grows db s s' → IsFine s w → IsFine s' w
  IsFine-Grows (begun h a) s s' k f = f
  IsFine-Grows (traced h ts) s s' k f = f
  IsFine-Grows (ended h) s s' k f = k h f

  pub All-Grows :
      (ws : List Progress) (s s' : S) → Grows db s s' → All (IsFine s) ws → All (IsFine s') ws
  All-Grows [] s s' k f = tt
  All-Grows (w ∷ ws) s s' k (f, fs) = (IsFine-Grows w s s' k f, All-Grows ws s s' k fs)

  -- What a step keeps.
  abbrev pub IsKept : S → S → Type 0
  IsKept s s' = Grows db s s' × (d.configs s' ≡ d.configs s)

  pub IsKept-refl : (s : S) → IsKept s s
  IsKept-refl s = (λ h e. e, refl)

  pub IsKept-trans : (s s' s'' : S) → IsKept s s' → IsKept s' s'' → IsKept s s''
  IsKept-trans s s' s'' (k, c) (k', c') = (λ h e. k' h (k h e), c' ∙ c)

  traces :
      (computed : Result (List (Option Invocation))) (docs : List InvocResult) (ts : ChainTipSet)
      (s : S)
      → 0 < length ts.blocks
      → (s' : S) × (e : Option String) × (get_epoch_trace db computed docs ts s ≡ done (s', e))
        × IsKept s s'
  unfolding get_epoch_trace
  traces (err e) docs ts s h = (s, none, refl, IsKept-refl s)
  traces (ok is) docs ts s h = (
    (db.insert_messages docs s).0,
    (db.insert_messages docs s).1,
    epoch_trace_done db convert ts is docs s h,
    (g.messages docs s, d.messages docs s),
  )

  inserts :
      (doc : TipSet) (s : S)
      → IsKept s (insert_tip_set db doc s).0
        × (db.has_block doc.height (insert_tip_set db doc s).0 ≡ true)
  inserts doc s =
      let (s', e, found, k) = g.inserts doc s in
      let stored : (insert_tip_set db doc s).0 ≡ s' = ground arith in
      subst (λ t. IsKept s t × (db.has_block doc.height t ≡ true)) (sym stored)
        ((k, d.block doc s s' e), found)

  -- Where a job is later.
  abbrev pub Later : Progress → Progress → Type 0
  Later (begun h a) w = (ts : ChainTipSet) × (w ≡ traced h ts)
  Later (traced h ts) w = w ≡ ended h
  Later (ended h) w = w ≡ ended h

  pub step-IsFine :
      (w : Progress) (s : S)
      → IsFine s w
      → (w' : Progress) × (s' : S) × (step db convert w s ≡ done (w', s'))
        × IsFine s' w'
        × IsKept s s'
        × Later w w'
  unfolding step
  step-IsFine (begun h a) s (ts, e, fine) =
      let (s', x, t, kept) = traces a.computed a.docs ts s fine.0 in
      (traced h ts, s', ap (λ r. trace db convert h a r s) e ∙ rw t refl, fine, kept, (ts, refl))
  step-IsFine (traced h ts) s (long, (doc, e, same)) =
      let (kept, found) = inserts doc s in
      (
        ended h,
        (insert_tip_set db doc s).0,
        rw e refl,
        subst (λ z. db.has_block z (insert_tip_set db doc s).0 ≡ true) same found,
        kept,
        refl,
      )
  step-IsFine (ended h) s f = (ended h, s, refl, f, IsKept-refl s, refl)

  pub Later-height_of : (w w' : Progress) → Later w w' → height_of w' ≡ height_of w
  Later-height_of (begun h a) w' (ts, e) = ap height_of e
  Later-height_of (traced h ts) w' e = ap height_of e
  Later-height_of (ended h) w' e = ap height_of e
