-- ===== src/Synchain/Window.antt =====
-- The loop of `DoSync`: which heights one tick starts, and where it stops.
use native.Mathlib.Nat.{add-zero}
use lotus_tools.Prelude.{
  ℕ, zero, suc, ◌+◌, ◌≤◌, ◌<◌, ℤ, pos, Bool, true, false, ◌≡◌, refl, sym, ap, ◌∙◌, inl, inr, List,
  [], ◌∷◌, ◌++◌, append-nil, append_assoc, length, Run, done, arith, if◌then◌else◌, ltb_ℤ, leb_ℤ,
  add64, add64_pos, bound64, ◌⊎◌, Bool-cases, dec_lt,
}
use lotus_tools.Synchain.Database.{Database, Documented}
use lotus_tools.Synchain.Defs.{Loop, set_sync_height, sync_rounds}
use lotus_tools.Synchain.Heights.{IsSingle, set_sync_height-SetsTo, set_sync_height-IsSingle}

-- The heights from i on, n of them, that the database does not have.
abbrev pub missing : (ℤ → Bool) → ℕ → ℕ → List ℤ
missing has i zero = []
missing has i (suc n) =
    let rest = missing has (suc i) n in if has (pos i) then rest else pos i ∷ rest

module _ {S B M : Type 0} (db : Database S B M) (d : Documented db) (has : ℤ → Bool) (once head : ℕ)
    (fits : suc head < bound64) where
  -- What the loop gives from the height after j on, with `todo` heights started before.
  pub record Covers (j todo : ℕ) (started : List ℤ) (l : Loop db) : Type 0 where
    pub n : ℕ
    pub last : l.last ≡ pos (j + n)
    pub starts : l.started ≡ started ++ missing has (suc j) n
    pub counts : l.todo ≡ todo + length (missing has (suc j) n)
    pub within : (n ≡ 0) ⊎ (j + n ≤ head)
    pub ends : (head ≤ j + n) ⊎ ((has (pos (suc (j + n))) ≡ false) × (once < l.todo))
    pub limit : todo ≤ suc once → l.todo ≤ suc once
    pub single : IsSingle (d.configs l.store)

  abbrev pub Ends : ℕ → ℕ → List ℤ → Run (Loop db) → Type 0
  Ends j todo started r = (l : Loop db) × (r ≡ done l) × Covers j todo started l

  stop :
      (j : ℕ) (l : Loop db)
      → l.last ≡ pos j
      → IsSingle (d.configs l.store)
      → (head ≤ j) ⊎ ((has (pos (suc j)) ≡ false) × (once < l.todo))
      → Covers j l.todo l.started l
  stop j l e single why = record {
    n = 0;
    last = rw add-zero e;
    starts = sym (append-nil l.started);
    counts = sym (add-zero l.todo);
    within = inl refl;
    ends = rw add-zero why;
    limit = λ t. t;
    single = single;
  }

  next_height : (j : ℕ) → j < head → add64 (pos (suc j)) (pos 1) ≡ pos (suc (suc j))
  next_height j h = add64_pos (suc j) 1 (omega arith) ∙ ap pos (omega arith)

  sync_rounds-out :
      (k j : ℕ) (l : Loop db)
      → head ≤ j
      → sync_rounds db k has (pos once) (pos head) (pos (suc j)) l ≡ done l
  unfolding sync_rounds
  sync_rounds-out zero j l h = refl
  sync_rounds-out (suc k) j l h =
      let t : leb_ℤ (pos (suc j)) (pos head) ≡ false = ground arith in rw t

  sync_rounds-seen :
      (k j : ℕ) (l : Loop db) {s : S}
      → j < head
      → has (pos (suc j)) ≡ true
      → set_sync_height db (pos (suc j)) l.store ≡ done s
      → sync_rounds db (suc k) has (pos once) (pos head) (pos (suc j)) l
        ≡ sync_rounds db k has
            (pos once)
            (pos head)
            (pos (suc (suc j)))
            (record l { last = pos (suc j); store = s })
  unfolding sync_rounds
  sync_rounds-seen k j l h e f =
      let t : leb_ℤ (pos (suc j)) (pos head) ≡ true = ground arith in rw (t, e, f, next_height j h)

  sync_rounds-full :
      (k j : ℕ) (l : Loop db)
      → j < head
      → has (pos (suc j)) ≡ false
      → once < l.todo
      → sync_rounds db (suc k) has (pos once) (pos head) (pos (suc j)) l ≡ done l
  unfolding sync_rounds
  sync_rounds-full k j l h e f =
      let t : leb_ℤ (pos (suc j)) (pos head) ≡ true = ground arith in
      let u : ltb_ℤ (pos once) (pos l.todo) ≡ true = ground arith in rw (t, e, u)

  sync_rounds-start :
      (k j : ℕ) (l : Loop db)
      → j < head
      → has (pos (suc j)) ≡ false
      → ¬ (once < l.todo)
      → sync_rounds db (suc k) has (pos once) (pos head) (pos (suc j)) l
        ≡ sync_rounds db k has (pos once) (pos head) (pos (suc (suc j))) (record l {
          last = pos (suc j);
          todo = l.todo + 1;
          started = l.started ++ pos (suc j) ∷ [];
        })
  unfolding sync_rounds
  sync_rounds-start k j l h e f =
      let t : leb_ℤ (pos (suc j)) (pos head) ≡ true = ground arith in
      let u : ltb_ℤ (pos once) (pos l.todo) ≡ false = ground arith in rw (t, e, u, next_height j h)

  -- A height that the database has leaves the number of started heights as it is.
  after_seen :
      (j todo : ℕ) (started : List ℤ) (l : Loop db)
      → j < head
      → has (pos (suc j)) ≡ true
      → Covers (suc j) todo started l
      → Covers j todo started l
  after_seen j todo started l h e c = record {
    n = suc c.n;
    last = c.last ∙ ap pos (omega arith);
    starts = rw e c.starts;
    counts = rw e c.counts;
    within = inr (omega (arith, c.within, h));
    ends = let t : j + suc c.n ≡ suc j + c.n = omega arith in rw t c.ends;
    limit = c.limit;
    single = c.single;
  }

  after_start :
      (j todo : ℕ) (started : List ℤ) (l : Loop db)
      → j < head
      → has (pos (suc j)) ≡ false
      → ¬ (once < todo)
      → Covers (suc j) (todo + 1) (started ++ pos (suc j) ∷ []) l
      → Covers j todo started l
  after_start j todo started l h e room c = record {
    n = suc c.n;
    last = c.last ∙ ap pos (omega arith);
    starts =
        rw e (c.starts ∙ append_assoc started (pos (suc j) ∷ []) (missing has (suc (suc j)) c.n));
    counts = rw e (c.counts ∙ omega arith);
    within = inr (omega (arith, c.within, h));
    ends = let t : j + suc c.n ≡ suc j + c.n = omega arith in rw t c.ends;
    limit = λ t. c.limit (omega arith);
    single = c.single;
  }

  Ends-out :
      (k j : ℕ) (l : Loop db)
      → head ≤ j
      → l.last ≡ pos j
      → IsSingle (d.configs l.store)
      → Ends j l.todo l.started (sync_rounds db k has (pos once) (pos head) (pos (suc j)) l)
  Ends-out k j l past e single = (l, sync_rounds-out k j l past, stop j l e single (inl past))

  -- With a round for every height up to the head, the loop ends of itself, with what `Covers`
  -- says.
  pub sync_rounds-Ends :
      (k j : ℕ) (l : Loop db)
      → head ≤ j + k
      → l.last ≡ pos j
      → IsSingle (d.configs l.store)
      → Ends j l.todo l.started (sync_rounds db k has (pos once) (pos head) (pos (suc j)) l)
  sync_rounds-Ends zero j l enough e single = Ends-out zero j l (omega arith) e single
  sync_rounds-Ends (suc k) j l enough e single = elim (dec_lt j head) [
    | no over ↦ Ends-out (suc k) j l (omega arith) e single
    | yes h ↦ elim (Bool-cases (has (pos (suc j)))) [
      | inl seen ↦
          let (s, f, c) = set_sync_height-SetsTo db d (pos (suc j)) l.store single in
          let l' = record l { last = pos (suc j); store = s } in
          let again = set_sync_height-IsSingle db d (pos (suc j)) s c in
          let (r, g, cover) = sync_rounds-Ends k (suc j) l' (omega arith) refl again in
          (r, sync_rounds-seen k j l h seen f ∙ g, after_seen j l.todo l.started r h seen cover)
      | inr absent ↦ elim (dec_lt once l.todo) [
        | yes full ↦
            (l, sync_rounds-full k j l h absent full, stop j l e single (inr (absent, full)))
        | no room ↦
            let l' = record l {
              last = pos (suc j);
              todo = l.todo + 1;
              started = l.started ++ pos (suc j) ∷ [];
            } in
            let (r, g, cover) = sync_rounds-Ends k (suc j) l' (omega arith) refl single in
            (
              r,
              sync_rounds-start k j l h absent room ∙ g,
              after_start j l.todo l.started r h absent room cover,
            )
      ]
    ]
  ]
