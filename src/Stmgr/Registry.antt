-- ===== src/Stmgr/Registry.antt =====
-- The table of all actors: the last actor with a code decides its methods.
use lotus_tools.Prelude.{
  ℕ, ◌≡◌, Option, none, some, List, [], ◌∷◌, done, Run->>=-eq-done, if◌then◌else◌, arith, lookup,
  insert, lookup-insert, string_eq, nat_eq,
}
use lotus_tools.Node.{Cid}
use lotus_tools.Stmgr.Defs.{
  MethodMeta, VmActor, Methods, MethodsMap, actor_methods, register, find_method,
}
use lotus_tools.Stmgr.Table.{exported, actor_methods-lookup}

-- The last actor with a code.
unfoldable pub find_last : Cid → List VmActor → Option VmActor
find_last code [] = none
find_last code (a ∷ actors) = elim (find_last code actors) [
  | some b ↦ some b
  | none ↦ if string_eq.beq a.code code then some a else none
]

abbrev pub method_of : Option VmActor → ℕ → Option MethodMeta → Option MethodMeta
method_of none n old = old
method_of (some a) n old = exported a.exports n

find_method-insert :
    (code key : Cid) (n : ℕ) (ms : Methods) (table : MethodsMap)
    → find_method (insert key ms table) code n
      ≡ (if string_eq.beq key code then lookup n ms else find_method table code n)
unfolding find_method
find_method-insert code key n ms table = ground (arith, lookup-insert key code ms table)

register-find_method :
    (actors : List VmActor) (table result : MethodsMap) (code : Cid) (n : ℕ)
    → register actors table ≡ done result
    → find_method result code n ≡ method_of (find_last code actors) n (find_method table code n)
unfolding register find_last
register-find_method [] table result code n h = ground arith
register-find_method (a ∷ actors) table result code n h =
    let (ms, e, rest) =
      Run->>=-eq-done (actor_methods a.exports) (λ ms. register actors (insert a.code ms table))
        h in
    ground (
      arith,
      register-find_method actors (insert a.code ms table) result code n rest,
      find_method-insert code a.code n ms table,
      actor_methods-lookup a.exports n e,
    )

-- Where the start-up registration succeeds, the method found for a code and a number is what the
-- last registered actor with that code exports, Send for number 0; a code that no actor has and a
-- number that its actor does not export have no method.
pub register-exported :
    (actors : List VmActor) {table : MethodsMap} (code : Cid) (n : ℕ)
    → register actors [] ≡ done table
    → find_method table code n ≡ method_of (find_last code actors) n none
unfolding find_method lookup
register-exported actors {table} code n h = register-find_method actors [] table code n h
