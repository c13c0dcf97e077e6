-- ===== src/Pool/Labels.antt =====
-- What `syncMsg` shows on the gauge and keeps for the next round.
use lotus_tools.Prelude.{
  ℕ, suc, ◌+◌, ℤ, true, false, ◌≡◌, refl, inl, inr, none, some, Option, Option-cases, Bool, ◌⊎◌,
  if◌then◌else◌, append-nil, append_assoc, List, [], ◌∷◌, ◌++◌, length, done, ◌>>=◌,
  Run->>=-eq-done, done-injective, arith, contains, lookup, insert, lookup-insert, nat_eq,
  string_eq, Bool-cases, subst, sym, ◌∙◌, ap,
}
use lotus_tools.Node.{Address, Cid, ChainMessage, SignedMessage, Node}
use lotus_tools.Convert.{Message, Environment, message_convert}
use lotus_tools.Pool.Defs.{MessageLabels, MpoolQueue, TickerEpoch, Row, get_code, get_ticker_epoch}
use lotus_tools.Pool.Sync.{Round, fresh_labels, labels_for, row, sync_one, sync_loop}
use lotus_tools.Pool.Jobs.{selected}

-- The labels of the last entry under a sector number.
abbrev pub or_else : Option MessageLabels → Option MessageLabels → Option MessageLabels
or_else none y = y
or_else (some x) y = some x

abbrev pub find_last : ℕ → List (ℕ × MessageLabels) → Option MessageLabels
find_last k [] = none
find_last k ((j, l) ∷ es) = or_else (find_last k es) (if nat_eq.beq j k then some l else none)

or_else-none : (x : Option MessageLabels) → or_else x none ≡ x
or_else-none none = refl
or_else-none (some x) = refl

or_else_if :
    (x : Option MessageLabels) (b : Bool) (l : MessageLabels) (y : Option MessageLabels)
    → or_else (or_else x (if b then some l else none)) y ≡ or_else x (if b then some l else y)
or_else_if none true l y = refl
or_else_if none false l y = refl
or_else_if (some x) b l y = refl

module _ {V : Type 0} (env : Environment V) (answers : ℕ → Node) (p : MpoolQueue) (height : ℤ) where
  -- The labels of a message: those of the round before under its sector number, or, where there are
  -- none, fresh ones with the epochs that the node answers.
  abbrev pub IsLabels : ChainMessage → Message → MessageLabels → Type 0
  IsLabels m lmsg l =
      (lookup lmsg.sector_number p.localpools ≡ some l)
      ⊎ ((lookup lmsg.sector_number p.localpools ≡ none)
          × ((i : ℕ) × (t : TickerEpoch) × (get_ticker_epoch (answers i) p.has_storage m.method
                  lmsg.sector_number
                ≡ done t)
              × (l ≡ fresh_labels lmsg t height)))

  -- What the round makes of a message: labels l under the sector number k, and a row of the gauge.
  pub record IsShown (m : ChainMessage) (k : ℕ) (l : MessageLabels) (x : Row) : Type 0 where
    pub code : Cid
    pub lmsg : Message
    pub converted : message_convert env code m ≡ done lmsg
    pub sector : k ≡ lmsg.sector_number
    pub labels : IsLabels m lmsg l
    pub row_labels : x.labels ≡ l
    pub row_fees : (x.gas_fee_cap ≡ m.gas_fee_cap) × (x.gas_premium ≡ m.gas_premium)
    pub row_limit : x.gas_limit ≡ m.gas_limit

  -- The same for messages in their order.
  pub data Shows : List SignedMessage → List (ℕ × MessageLabels) → List Row → Type 0 where
    all_shown : Shows [] [] []
    shown :
        {sm : SignedMessage} {sms : List SignedMessage} {k : ℕ} {l : MessageLabels}
        {es : List (ℕ × MessageLabels)} {x : Row} {xs : List Row}
        → IsShown sm.message k l x
        → Shows sms es xs
        → Shows (sm ∷ sms) ((k, l) ∷ es) (x ∷ xs)

  -- What a round over messages gives: a row for each, and under every sector number the labels of the
  -- last message that has it, and none where no message has it.
  pub record Describes (sms : List SignedMessage) (r : Round) : Type 0 where
    pub entries : List (ℕ × MessageLabels)
    pub shows : Shows sms entries r.rows
    pub pools : (k : ℕ) → lookup k r.thislocalpools ≡ find_last k entries
    pub total : r.msgtotal ≡ length sms

  labels_for-IsLabels :
      (i : ℕ) (m : ChainMessage) (lmsg : Message) (last : MessageLabels)
      → labels_for (answers i) p height m lmsg ≡ done last
      → IsLabels m lmsg last
  unfolding labels_for
  labels_for-IsLabels i m lmsg last h =
      elim (Option-cases (lookup lmsg.sector_number p.localpools)) [
        | inr (v, e) ↦ inl (ground arith)
        | inl e ↦
            let (t, f, g) =
              Run->>=-eq-done
                (get_ticker_epoch (answers i) p.has_storage m.method lmsg.sector_number)
                (λ t. done (fresh_labels lmsg t height)) (ground arith) in
            inr (e, (i, t, f, sym (done-injective g)))
      ]

  -- What one message adds.
  sync_one-parts :
      (i : ℕ) (m : ChainMessage) (r r' : Round)
      → sync_one env (answers i) p height m r ≡ done r'
      → (k : ℕ) × (l : MessageLabels) × IsShown m k l (row l m)
        × (r'.thislocalpools ≡ insert k l r.thislocalpools)
        × (r'.rows ≡ r.rows ++ row l m ∷ [])
        × (r'.msgtotal ≡ r.msgtotal + 1)
  unfolding sync_one row
  sync_one-parts i m r r' h =
      let code = (get_code (answers i) m.to r.code_cache).0 in
      let (lmsg, e, more) = Run->>=-eq-done (message_convert env code m) _ h in
      let (last, f, eq) = Run->>=-eq-done (labels_for (answers i) p height m lmsg) _ more in
      let same = done-injective eq in
      (
        lmsg.sector_number,
        last,
        record {
          code = code;
          lmsg = lmsg;
          converted = e;
          sector = refl;
          labels = labels_for-IsLabels i m lmsg last f;
          row_labels = refl;
          row_fees = (refl, refl);
          row_limit = refl;
        },
        sym (ap (λ (x : Round). x.thislocalpools) same),
        sym (ap (λ (x : Round). x.rows) same),
        sym (ap (λ (x : Round). x.msgtotal) same),
      )

module _ {V : Type 0} (env : Environment V) where
  sync_loop-out :
      (answers : ℕ → Node) (p : MpoolQueue) (height : ℤ) (i : ℕ) (sm : SignedMessage)
      (msgs : List SignedMessage) (r : Round)
      → contains p.filter sm.message.from ≡ false
      → sync_loop env answers p height i (sm ∷ msgs) r
        ≡ sync_loop env answers p height (suc i) msgs r
  unfolding sync_loop
  sync_loop-out answers p height i sm msgs r c = rw c

  sync_loop-in :
      (answers : ℕ → Node) (p : MpoolQueue) (height : ℤ) (i : ℕ) (sm : SignedMessage)
      (msgs : List SignedMessage) (r : Round)
      → contains p.filter sm.message.from ≡ true
      → sync_loop env answers p height i (sm ∷ msgs) r ≡ (
          sync_one env (answers i) p height sm.message r >>= λ r'.
          sync_loop env answers p height (suc i) msgs r')
  unfolding sync_loop
  sync_loop-in answers p height i sm msgs r c = rw c

  sync_loop-nil :
      (answers : ℕ → Node) (p : MpoolQueue) (height : ℤ) (i : ℕ) (r : Round)
      → sync_loop env answers p height i [] r ≡ done r
  unfolding sync_loop
  sync_loop-nil answers p height i r = refl

  -- What the loop adds to what it starts with.
  abbrev Adds : (ℕ → Node) → MpoolQueue → ℤ → List SignedMessage → Round → Round → Type 0
  Adds answers p height sms r r' =
      (es : List (ℕ × MessageLabels)) × (xs : List Row) × Shows env answers p height sms es xs
      × (r'.rows ≡ r.rows ++ xs)
      × ((k : ℕ)
          → lookup k r'.thislocalpools ≡ or_else (find_last k es) (lookup k r.thislocalpools))
      × (r'.msgtotal ≡ r.msgtotal + length sms)

  sync_loop-Adds :
      (answers : ℕ → Node) (p : MpoolQueue) (height : ℤ) (i : ℕ) (msgs : List SignedMessage)
      (r r' : Round)
      → sync_loop env answers p height i msgs r ≡ done r'
      → Adds answers p height (selected p.filter msgs) r r'
  sync_loop-Adds answers p height i [] r r' h =
      let same = done-injective (sym (sync_loop-nil answers p height i r) ∙ h) in
      subst (Adds answers p height [] r) same
        ([], [], all_shown, sym (append-nil r.rows), λ k. refl, omega arith)
  sync_loop-Adds answers p height i (sm ∷ msgs) r r' h =
      elim (Bool-cases (contains p.filter sm.message.from)) [
        | inr out ↦ rw out (
            sync_loop-Adds answers p height (suc i) msgs r r'
              (sym (sync_loop-out answers p height i sm msgs r out) ∙ h))
        | inl chosen ↦
            let step = sym (sync_loop-in answers p height i sm msgs r chosen) ∙ h in
            let (mid, e, rest) =
              Run->>=-eq-done (sync_one env (answers i) p height sm.message r) _ step in
            let (k, l, one, pools, rows, total) =
              sync_one-parts env answers p height i sm.message r mid e in
            let (es, xs, all, rows', pools', total') =
              sync_loop-Adds answers p height (suc i) msgs mid r' rest in
            rw chosen (
              (k, l) ∷ es,
              row l sm.message ∷ xs,
              shown one all,
              rows' ∙ ap (λ ys. ys ++ xs) rows ∙ append_assoc r.rows (row l sm.message ∷ []) xs,
              λ j.
                  pools' j
                  ∙ ap (or_else (find_last j es))
                      (ap (lookup j) pools ∙ lookup-insert k j l r.thislocalpools)
                  ∙ sym
                      (or_else_if (find_last j es) (nat_eq.beq k j) l (lookup j r.thislocalpools)),
              omega (arith, total, total'),
            )
      ]

  -- A round that returns gives what `Describes` says.
  pub sync_loop-Describes :
      (answers : ℕ → Node) (p : MpoolQueue) (height : ℤ) (msgs : List SignedMessage)
      (cache : List (Address × Cid)) {r : Round}
      → sync_loop env answers p height 0 msgs
          (record { thislocalpools = []; msgtotal = 0; code_cache = cache; rows = [] })
        ≡ done r
      → Describes env answers p height (selected p.filter msgs) r
  unfolding lookup
  sync_loop-Describes answers p height msgs cache {r} h =
      let start : Round = record {
        thislocalpools = [];
        msgtotal = 0;
        code_cache = cache;
        rows = [];
      } in
      let (es, xs, all, rows, pools, total) = sync_loop-Adds answers p height 0 msgs start r h in
      record {
        entries = es;
        shows = subst (Shows env answers p height (selected p.filter msgs) es) (sym rows) all;
        pools = λ k. pools k ∙ or_else-none (find_last k es);
        total = omega (arith, total);
      }
