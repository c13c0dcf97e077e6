-- ===== src/Stmgr/Table.antt =====
-- The method table of one actor: which numbers it has, and when building it panics.
use lotus_tools.Prelude.{
  ℕ, zero, suc, ◌+◌, ◌<◌, ◌≡◌, refl, ◌⊎◌, ◌↔◌, inl, inr, false, Option, none, some, List, [], ◌∷◌,
  get_elem?, done, panic, ◌==◌, if◌then◌else◌, arith, lookup, insert, lookup-insert, nat_eq, codes,
  Bool-cases,
}
use lotus_tools.Stmgr.Defs.{
  MethodMeta, Export, Methods, method_name, bytes_eq, send_meta, meta, is_reserved, add_exports,
  actor_methods,
}

abbrev pub meta? : Option (Option Export) → Option MethodMeta
meta? (some (some e)) = some (meta e)
meta? (some none) = none
meta? none = none

-- What the table should hold: Send at number 0, and at any other number the export there.
abbrev pub exported : List (Option Export) → ℕ → Option MethodMeta
exported exports n = if n == 0 then some send_meta else meta? (get_elem? exports n)

abbrev or_else : Option MethodMeta → Option MethodMeta → Option MethodMeta
or_else none b = b
or_else (some a) _ = some a

-- The export with number n, in a list whose first has number k.
slot : ℕ → List (Option Export) → ℕ → Option MethodMeta
slot k [] n = none
slot k (e ∷ es) n = let rest = slot (suc k) es n in if n == k then meta? (some e) else rest

slot_below : (k : ℕ) (es : List (Option Export)) (n : ℕ) → n < k → slot k es n ≡ none
unfolding slot
slot_below k [] n h = refl
slot_below k (e ∷ es) n h = ground (arith, slot_below (suc k) es n)

slot-get_elem? :
    (k : ℕ) (es : List (Option Export)) (i n : ℕ) → n ≡ k + i → slot k es n ≡ meta? (get_elem? es i)
unfolding slot
slot-get_elem? k [] i n h = refl
slot-get_elem? k (e ∷ es) zero n h = ground arith
slot-get_elem? k (e ∷ es) (suc i) n h = ground (arith, slot-get_elem? (suc k) es i n)

add_exports-lookup :
    (k : ℕ) (es : List (Option Export)) (ms r : Methods) (n : ℕ)
    → add_exports k es ms ≡ done r
    → lookup n r ≡ or_else (slot k es n) (lookup n ms)
unfolding add_exports slot
add_exports-lookup k [] ms r n h = ground arith
add_exports-lookup k (none ∷ es) ms r n h =
    ground (arith, add_exports-lookup (suc k) es ms r n, slot_below (suc k) es n)
add_exports-lookup k (some e ∷ es) ms r n h = ground (
  arith,
  add_exports-lookup (suc k) es (insert k (meta e) ms) r n,
  slot_below (suc k) es n,
  lookup-insert k n (meta e) ms,
)

first_none :
    (es : List (Option Export)) (ms r : Methods) → add_exports 0 es ms ≡ done r → slot 0 es 0 ≡ none
unfolding add_exports slot is_reserved
first_none [] ms r h = refl
first_none (none ∷ es) ms r h = refl
first_none (some e ∷ es) ms r h = cc

-- Where the table of an actor is built, it holds Send under number 0, and under every other
-- number what the actor exports there: nothing for a missing export or one past the end.
pub actor_methods-lookup :
    (exports : List (Option Export)) {methods : Methods} (n : ℕ)
    → actor_methods exports ≡ done methods
    → lookup n methods ≡ exported exports n
unfolding actor_methods lookup
actor_methods-lookup exports {methods} n h = ground (
  arith,
  add_exports-lookup 0 exports (insert 0 send_meta []) methods n,
  lookup-insert 0 n send_meta [],
  first_none exports (insert 0 send_meta []) methods,
  slot-get_elem? 0 exports n n (omega arith),
)

add_exports-done :
    (k : ℕ) (es : List (Option Export)) (ms : Methods)
    → (r : Methods) × (add_exports (suc (suc k)) es ms ≡ done r)
unfolding add_exports is_reserved
add_exports-done k [] ms = (ms, refl)
add_exports-done k (none ∷ es) ms = add_exports-done (suc k) es ms
add_exports-done k (some e ∷ es) ms =
    let (r, e') = add_exports-done (suc k) es (insert (suc (suc k)) (meta e) ms) in
    (r, ground arith)

-- Building the table panics exactly when the actor exports a method with number 0, or one with
-- number 1 that is not called Constructor.
pub actor_methods-panic_iff :
    (exports : List (Option Export))
    → (actor_methods exports ≡ panic) ↔ (
        ((e : Export) × (get_elem? exports 0 ≡ some (some e)))
        ⊎ ((e : Export) × (get_elem? exports 1 ≡ some (some e))
            × (bytes_eq (method_name e.fn_name) (codes "Constructor") ≡ false)))
unfolding actor_methods add_exports is_reserved
actor_methods-panic_iff [] = (λ h. cc, λ h. ground arith)
actor_methods-panic_iff (some e ∷ es) = (λ h. inl (e, refl), λ h. ground arith)
actor_methods-panic_iff (none ∷ []) = (λ h. cc, λ h. ground arith)
actor_methods-panic_iff (none ∷ none ∷ es) =
    let (r, f) = add_exports-done 0 es (insert 0 send_meta []) in (λ h. cc, λ h. ground arith)
actor_methods-panic_iff (none ∷ some e ∷ es) =
    let (r, f) = add_exports-done 0 es (insert 1 (meta e) (insert 0 send_meta [])) in
    elim (Bool-cases (bytes_eq (method_name e.fn_name) (codes "Constructor"))) [
      | inl named ↦ (λ h. ground arith, λ h. ground arith)
      | inr other ↦ (λ h. inr (e, refl, other), λ h. rw other)
    ]
