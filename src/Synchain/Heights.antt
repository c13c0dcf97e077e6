-- ===== src/Synchain/Heights.antt =====
-- `getSyncHeight` and `setSyncHeight` of height.go, on a collection with at most one positive height.
use lotus_tools.Prelude.{
  ◌≤◌, ℤ, pos, String, ◌≡◌, refl, sym, ap, subst, ◌∙◌, inl, inr, List, [], ◌∷◌, ◌++◌, length,
  Result-cases, ok, err, Run, done, All, arith, if◌then◌else◌, ltb_ℤ, eqb_ℤ_iff, ◌≤ℤ◌, ◌<ℤ◌, ◌⊎◌,
  Bool-cases,
}
use lotus_tools.Synchain.Database.{Database, Documented, replace_first, IsIn}
use lotus_tools.Synchain.Defs.{get_sync_height, set_sync_height}

-- The heights that a search can find.
abbrev pub positives : List ℤ → List ℤ
positives [] = []
positives (x ∷ xs) = let rest = positives xs in if ltb_ℤ (pos 0) x then x ∷ rest else rest

positives_none : (xs : List ℤ) → All (λ h. h ≤ℤ pos 0) xs → positives xs ≡ []
positives_none [] h = refl
positives_none (x ∷ xs) h = ground (arith, positives_none xs h.1)

positives-append : (xs ys : List ℤ) → positives (xs ++ ys) ≡ positives xs ++ positives ys
positives-append [] ys = refl
positives-append (x ∷ xs) ys = ground (arith, positives-append xs ys)

IsIn-positives : (h : ℤ) (xs : List ℤ) → pos 0 <ℤ h → IsIn h xs → IsIn h (positives xs)
IsIn-positives h [] p i = i
IsIn-positives h (x ∷ xs) p i = elim (Bool-cases (ltb_ℤ (pos 0) x)) [
  | inl b ↦ rw b (elim i [ inl e ↦ inl e | inr j ↦ inr (IsIn-positives h xs p j) ])
  | inr b ↦ rw b (elim i [ inl e ↦ absurd (ground arith) | inr j ↦ IsIn-positives h xs p j ])
]

positives-replace_first :
    (h next : ℤ) (xs : List ℤ)
    → pos 0 <ℤ h
    → positives xs ≡ h ∷ []
    → positives (replace_first h next xs) ≡ positives (next ∷ [])
positives-replace_first h next [] p e = ground arith
positives-replace_first h next (x ∷ xs) p e = elim (Bool-cases (ltb_ℤ (pos 0) x)) [
  | inl b ↦ ground (arith, eqb_ℤ_iff x h)
  | inr b ↦ ground (arith, eqb_ℤ_iff x h, positives-replace_first h next xs p)
]

-- The collection has at most one positive height.
abbrev pub IsSingle : List ℤ → Type 0
IsSingle heights = length (positives heights) ≤ 1

IsIn-one : {a h : ℤ} → IsIn a (h ∷ []) → h ≡ a
IsIn-one (inl e) = e
IsIn-one (inr i) = absurd i

-- A list of at most one entry.
at_most_one : (xs : List ℤ) → length xs ≤ 1 → (xs ≡ []) ⊎ ((h : ℤ) × (xs ≡ h ∷ []))
at_most_one [] l = inl refl
at_most_one (x ∷ []) l = inr (x, refl)
at_most_one (x ∷ y ∷ xs) l = absurd (omega arith)

length-positives_one : (h : ℤ) → length (positives (h ∷ [])) ≤ 1
length-positives_one h = ground arith

module _ {S B M : Type 0} (db : Database S B M) (d : Documented db) where
  find_config_found :
      (s : S) {h : ℤ} → positives (d.configs s) ≡ h ∷ [] → (db.find_config s ≡ ok h) × (pos 0 <ℤ h)
  find_config_found s {h} e = elim (Result-cases (db.find_config s)) [
    | inl (text, f) ↦ let none_found = positives_none (d.configs s) (d.find-err s text f) in cc
    | inr (a, f) ↦
        let (p, i) = d.find-ok s a f in
        let same : h ≡ a = IsIn-one (subst (IsIn a) e (IsIn-positives a (d.configs s) p i)) in
        (f ∙ ap ok (sym same), subst (λ z. pos 0 <ℤ z) (sym same) p)
  ]

  find_config_none :
      (s : S) → positives (d.configs s) ≡ [] → (e : String) × (db.find_config s ≡ err e)
  find_config_none s e = elim (Result-cases (db.find_config s)) [
    | inl found ↦ found
    | inr (a, f) ↦
        let (p, i) = d.find-ok s a f in
        absurd (subst (IsIn a) e (IsIn-positives a (d.configs s) p i))
  ]

  -- Where the only positive height is h, `getSyncHeight` finds it.
  pub get_sync_height_found :
      (s : S) {h : ℤ} → positives (d.configs s) ≡ h ∷ [] → get_sync_height db s ≡ ok h
  unfolding get_sync_height
  get_sync_height_found s e = (find_config_found s e).0

  -- Where no height is positive, it finds none.
  pub get_sync_height_none :
      (s : S) → positives (d.configs s) ≡ [] → (e : String) × (get_sync_height db s ≡ err e)
  unfolding get_sync_height
  get_sync_height_none s e = find_config_none s e

  -- What a call that sets the height leaves.
  abbrev pub SetsTo : ℤ → Run S → Type 0
  SetsTo next r = (s : S) × (r ≡ done s) × (positives (d.configs s) ≡ positives (next ∷ []))

  set_sync_height-update :
      (next h : ℤ) (s : S)
      → positives (d.configs s) ≡ h ∷ []
      → SetsTo next (set_sync_height db next s)
  unfolding set_sync_height get_sync_height
  set_sync_height-update next h s e =
      let (f, p) = find_config_found s e in
      let (s', u, c) = d.update h next s in
      (
        s',
        rw (get_sync_height_found s e, set_sync_height) (rw u),
        ap positives c ∙ positives-replace_first h next (d.configs s) p e,
      )

  set_sync_height-insert :
      (next : ℤ) (s : S) → positives (d.configs s) ≡ [] → SetsTo next (set_sync_height db next s)
  unfolding set_sync_height get_sync_height
  set_sync_height-insert next s e =
      let (text, f) = find_config_none s e in
      (
        db.insert_config next s,
        rw (f, set_sync_height, get_sync_height),
        ap positives (d.insert next s)
            ∙ positives-append (d.configs s) (next ∷ [])
            ∙ ap (λ xs. xs ++ positives (next ∷ [])) e,
      )

  -- With a database that behaves as documented and at most one positive height in its config
  -- collection, `setSyncHeight` returns, and afterwards the positive heights of the collection
  -- are the new height alone, or none where the new height is not positive.
  pub set_sync_height-SetsTo :
      (next : ℤ) (s : S) → IsSingle (d.configs s) → SetsTo next (set_sync_height db next s)
  set_sync_height-SetsTo next s l = elim (at_most_one (positives (d.configs s)) l) [
    | inl e ↦ set_sync_height-insert next s e
    | inr (h, e) ↦ set_sync_height-update next h s e
  ]

  -- So the collection still has at most one.
  pub set_sync_height-IsSingle :
      (next : ℤ) (s : S) → positives (d.configs s) ≡ positives (next ∷ []) → IsSingle (d.configs s)
  set_sync_height-IsSingle next s e =
      subst (λ xs. length xs ≤ 1) (sym e) (length-positives_one next)
