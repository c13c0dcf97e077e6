-- ===== src/Synchain/NoGap.antt =====
-- What a tick of `DoSync` keeps of the blocks collection, and the parts of a tick.
use lotus_tools.Prelude.{
  ℕ, zero, suc, ◌+◌, ◌<◌, ◌≡◌, refl, ◌∙◌, ap, sym, subst, ◌⊎◌, inl, inr, ℤ, pos, String, Bool, true,
  false, Bool-cases, List, [], ◌∷◌, ◌++◌, Result, Result-cases, ok, err, Run, Run->>=-eq-done,
  done-injective, done, All, arith, add64, if◌then◌else◌, leb_ℤ, ltb_ℤ,
}
use lotus_tools.Convert.Traces.{InvocResult}
use lotus_tools.Synchain.Database.{SyncConfig, Database}
use lotus_tools.Synchain.Defs.{
  Loop, Tick, synced, get_sync_height, or_panic_update, set_sync_height, sync_rounds, sync_from,
}
use lotus_tools.Synchain.Window.{missing}
use lotus_tools.Synchain.Jobs.{TipSet}
use lotus_tools.Synchain.Growing.{Grows, Growing}

had_or_started :
    (P : ℤ → Type 0) (b : Bool) (h : ℤ) (rest : List ℤ)
    → (b ≡ true → P h)
    → All P (if b then rest else h ∷ rest)
    → P h × All P rest
had_or_started P true h rest had all = (had refl, all)
had_or_started P false h rest had all = all

pub missing_or_had :
    (P : ℤ → Type 0) (has : ℤ → Bool) (i n j : ℕ)
    → ((h : ℤ) → has h ≡ true → P h)
    → All P (missing has i n)
    → j < n
    → P (pos (i + j))
missing_or_had P has i zero j had all h = absurd (omega arith)
missing_or_had P has i (suc n) zero had all h =
    subst (λ k. P (pos k)) (omega arith)
      (had_or_started P (has (pos i)) (pos i) (missing has (suc i) n) (had (pos i)) all).0
missing_or_had P has i (suc n) (suc j) had all h =
    subst (λ k. P (pos k)) (omega arith)
      (missing_or_had P has (suc i) n j had
        (had_or_started P (has (pos i)) (pos i) (missing has (suc i) n) (had (pos i)) all).1
        (omega arith))

module _ {S : Type 0} (db : Database S TipSet InvocResult) (g : Growing db) where
  set_sync_height_none :
      (next : ℤ) (s : S) {e : String}
      → get_sync_height db s ≡ err e
      → set_sync_height db next s ≡ done (db.insert_config next s)
  unfolding set_sync_height
  set_sync_height_none next s f = rw (f, set_sync_height) refl

  set_sync_height_found :
      (next current : ℤ) (s : S)
      → get_sync_height db s ≡ ok current
      → set_sync_height db next s ≡ or_panic_update db (db.update_config current next s)
  unfolding set_sync_height
  set_sync_height_found next current s f = rw (f, set_sync_height) refl

  or_panic_update-ok : (r : Result S) (s' : S) → or_panic_update db r ≡ done s' → r ≡ ok s'
  or_panic_update-ok (err e) s' h = cc
  or_panic_update-ok (ok s) s' h = ap ok (done-injective h)

  pub set_sync_height-Grows :
      (next : ℤ) (s s' : S) → set_sync_height db next s ≡ done s' → Grows db s s'
  set_sync_height-Grows next s s' e = elim (Result-cases (get_sync_height db s)) [
    | inl (text, f) ↦
        subst (Grows db s) (done-injective (sym (set_sync_height_none next s f) ∙ e))
          (g.insert_config next s)
    | inr (current, f) ↦ g.update_config current next s s' (
        or_panic_update-ok (db.update_config current next s) s'
          (sym (set_sync_height_found next current s f) ∙ e))
  ]

  Grows-refl : (s s' : S) → s ≡ s' → Grows db s s'
  Grows-refl s s' e = subst (Grows db s) e (λ h f. f)

  -- A round of the loop ends it, or goes on with a store of at least the same heights.
  abbrev GoesOn : ℕ → (ℤ → Bool) → ℤ → ℤ → ℤ → Loop db → Loop db → Type 0
  GoesOn rounds has once head i l l' =
      (l1 : Loop db) × Grows db l.store l1.store
      × (sync_rounds db rounds has once head (add64 i (pos 1)) l1 ≡ done l')

  sync_rounds_goes :
      (rounds : ℕ) (has : ℤ → Bool) (once head i : ℤ) (l l' : Loop db)
      → sync_rounds db (suc rounds) has once head i l ≡ done l'
      → (l ≡ l') ⊎ GoesOn rounds has once head i l l'
  unfolding sync_rounds
  sync_rounds_goes rounds has once head i l l' e = elim (Bool-cases (leb_ℤ i head)) [
    | inr past ↦ inl (done-injective (ground arith))
    | inl near ↦ elim (Bool-cases (has i)) [
      | inl seen ↦
          let (s1, e1, e2) =
            Run->>=-eq-done (set_sync_height db i l.store)
              (λ store.
                sync_rounds db rounds has once head (add64 i (pos 1))
                  (record l { last = i; store = store }))
              (ground arith) in
          inr (record l { last = i; store = s1 }, set_sync_height-Grows i l.store s1 e1, e2)
      | inr unseen ↦ elim (Bool-cases (ltb_ℤ once (pos l.todo))) [
        | inl full ↦ inl (done-injective (ground arith))
        | inr more ↦ inr (
          record l { last = i; todo = l.todo + 1; started = l.started ++ i ∷ [] },
          λ h f. f,
          ground arith,
        )
      ]
    ]
  ]

  sync_rounds-zero :
      (has : ℤ → Bool) (once head i : ℤ) (l : Loop db)
      → sync_rounds db zero has once head i l ≡ done l
  unfolding sync_rounds
  sync_rounds-zero has once head i l = refl

  sync_rounds-Grows :
      (rounds : ℕ) (has : ℤ → Bool) (once head i : ℤ) (l l' : Loop db)
      → sync_rounds db rounds has once head i l ≡ done l'
      → Grows db l.store l'.store
  sync_rounds-Grows zero has once head i l l' e = Grows-refl l.store l'.store (
      ap (λ (k : Loop db). k.store) (done-injective (sym (sync_rounds-zero has once head i l) ∙ e)))
  sync_rounds-Grows (suc rounds) has once head i l l' e =
      elim (sync_rounds_goes rounds has once head i l l' e) [
        | inl same ↦ Grows-refl l.store l'.store (ap (λ (k : Loop db). k.store) same)
        | inr (l1, k, f) ↦
            let rest = sync_rounds-Grows rounds has once head (add64 i (pos 1)) l1 l' f in
            λ h a. rest h (k h a)
      ]

  heights_of : Tick db → List ℤ
  heights_of t = elim t [ synced hs s ↦ hs | _ ↦ [] ]

  store_of : S → Tick db → S
  store_of d t = elim t [ synced hs s ↦ s | _ ↦ d ]

  -- The parts of a tick that comes to its end.
  pub sync_from_parts :
      (conf : SyncConfig) (has : ℤ → Bool) (work : List ℤ → S → Run S) (height head : ℤ) (s : S)
      {hs : List ℤ} {s' : S}
      → sync_from db conf has work height head s ≡ done (synced hs s')
      → (l : Loop db) × (after : S) × Grows db s l.store
        × (work hs l.store ≡ done after)
        × Grows db after s'
  unfolding sync_from heights_of store_of
  sync_from_parts conf has work height head s {hs} {s'} e =
      let (l, e1, r1) =
        Run->>=-eq-done
          (sync_rounds db _ has conf.max_once head (add64 height (pos 1))
            (record { last = height; todo = 0; started = []; store = s }))
          _ e in
      let (after, e2, r2) = Run->>=-eq-done (work l.started l.store) _ r1 in
      let (stored, e3, r3) = Run->>=-eq-done (set_sync_height db l.last after) _ r2 in
      let same : l.started ≡ hs = ap heights_of (done-injective r3) in
      let same' : stored ≡ s' = ap (store_of s) (done-injective r3) in
      (
        l,
        after,
        sync_rounds-Grows _ has conf.max_once head (add64 height (pos 1))
            (record { last = height; todo = 0; started = []; store = s }) l e1,
        ap (λ xs. work xs l.store) (sym same) ∙ e2,
        subst (Grows db after) same' (set_sync_height-Grows l.last after stored e3),
      )
