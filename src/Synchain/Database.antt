-- ===== src/Synchain/Database.antt =====
-- The MongoDB collections that synchain works on, as the calls that it makes of the driver. The
-- database is not part of the program: `Database` is an argument of the model, and `Documented`
-- says what the code relies on.
use lotus_tools.Prelude.{
  ℤ, pos, String, Bool, ◌≡◌, ◌⊎◌, List, [], ◌∷◌, ◌++◌, Option, Result, ok, err, All, ◌≤ℤ◌, ◌<ℤ◌,
  eqb_ℤ, if◌then◌else◌,
}

-- The synchronisation settings of types/conf.go; a document of the config collection is one too,
-- of which the program reads and writes the height.
pub record SyncConfig : Type 0 where
  pub height : ℤ
  pub stop_height : ℤ
  pub max_once : ℤ
  pub time_wait : ℤ

-- `S` is the state of the database, B that of a stored tip set and M that of a stored message.
pub record Database (S B M : Type 0) : Type 0 where
  -- config: FindOne({height: {$gt: 0}}), InsertOne({height}), UpdateOne({height: old}, {height: new})
  pub find_config : S → Result ℤ
  pub insert_config : ℤ → S → S
  pub update_config : ℤ → ℤ → S → Result S
  -- blocks: FindOne({height}) with a result, DeleteMany({height: {$gt: lo, $lt: hi}}), InsertOne
  pub has_block : ℤ → S → Bool
  pub delete_blocks : ℤ → ℤ → S → S
  pub insert_block : B → S → Result S
  -- messages: an unordered InsertMany, which may insert some beside an error
  pub insert_messages : List M → S → S × Option String

-- The first entry that is `old`, replaced.
abbrev pub replace_first : ℤ → ℤ → List ℤ → List ℤ
replace_first old new [] = []
replace_first old new (x ∷ xs) = if eqb_ℤ x old then new ∷ xs else x ∷ replace_first old new xs

abbrev pub IsIn : ℤ → List ℤ → Type 0
IsIn a [] = ⊥
IsIn a (x ∷ xs) = (x ≡ a) ⊎ IsIn a xs

-- The documented behaviour of a database that can be reached, on the heights in its config
-- collection: a search finds a positive height if there is one, an insertion adds a document, and
-- an update changes one document and succeeds. Operations on blocks and messages leave the collection
-- alone.
pub record Documented {S B M : Type 0} (db : Database S B M) : Type 0 where
  pub configs : S → List ℤ
  pub find-ok : (s : S) (h : ℤ) → db.find_config s ≡ ok h → (pos 0 <ℤ h) × IsIn h (configs s)
  pub find-err : (s : S) (e : String) → db.find_config s ≡ err e → All (λ h. h ≤ℤ pos 0) (configs s)
  pub insert : (h : ℤ) (s : S) → configs (db.insert_config h s) ≡ configs s ++ h ∷ []
  pub update :
      (old new : ℤ) (s : S)
      → (s' : S) × (db.update_config old new s ≡ ok s')
        × (configs s' ≡ replace_first old new (configs s))
  pub delete : (lo hi : ℤ) (s : S) → configs (db.delete_blocks lo hi s) ≡ configs s
  pub block : (b : B) (s s' : S) → db.insert_block b s ≡ ok s' → configs s' ≡ configs s
  pub messages : (ms : List M) (s : S) → configs (db.insert_messages ms s).0 ≡ configs s
