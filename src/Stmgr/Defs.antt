-- ===== src/Stmgr/Defs.antt =====
-- The functions of stmgr/utils.go. Texts that are taken apart are lists of bytes. A reflected
-- type is known by its name; decoding a value of such a type from CBOR and printing it as JSON is
-- the work of the actors' generated code and is an argument, `Codec`.
use lotus_tools.Prelude.{
  ℕ, suc, String, Bool, true, false, ◌&&◌, not, Option, none, some, List, [], ◌∷◌, Result, ok, err,
  Run, done, panic, ◌>>=◌, ◌==◌, if◌then◌else◌, codes, lookup, insert, nat_eq, string_eq,
}
use lotus_tools.Node.{Cid, ChainMessage, SignedMessage}

abbrev pub Bytes : Type 0
Bytes = List ℕ

abbrev pub ReflectType : Type 0
ReflectType = String

pub record MethodMeta : Type 0 where
  pub name : Bytes
  pub params : ReflectType
  pub ret : ReflectType

-- What reflection shows of an exported method: the full name of the function, the type of its
-- second parameter and that of its result.
pub record Export : Type 0 where
  pub fn_name : Bytes
  pub in_type : ReflectType
  pub out_type : ReflectType

pub record VmActor : Type 0 where
  pub code : Cid
  pub exports : List (Option Export)

abbrev pub Methods : Type 0
Methods = List (ℕ × MethodMeta)

abbrev pub MethodsMap : Type 0
MethodsMap = List (Cid × Methods)

abbrev pub has_byte : ℕ → Bytes → Bool
has_byte b [] = false
has_byte b (x ∷ xs) = if x == b then true else has_byte b xs

-- name[strings.LastIndexByte(name, b)+1:]
unfoldable pub after_last : ℕ → Bytes → Bytes
after_last b [] = []
after_last b (x ∷ xs) =
    let rest = after_last b xs in if has_byte b xs then rest else (if x == b then xs else x ∷ xs)

abbrev pub bytes_eq : Bytes → Bytes → Bool
bytes_eq [] [] = true
bytes_eq [] (_ ∷ _) = false
bytes_eq (_ ∷ _) [] = false
bytes_eq (x ∷ xs) (y ∷ ys) = x == y && bytes_eq xs ys

-- strings.TrimSuffix
unfoldable pub trim_suffix : Bytes → Bytes → Bytes
trim_suffix suffix [] = []
trim_suffix suffix (x ∷ xs) = if bytes_eq (x ∷ xs) suffix then [] else x ∷ trim_suffix suffix xs

unfoldable pub method_name : Bytes → Bytes
method_name fn_name = trim_suffix (codes "-fm") (after_last b'.' fn_name)

abbrev pub send_meta : MethodMeta
send_meta = record { name = codes "Send"; params = "abi.EmptyValue"; ret = "abi.EmptyValue" }

unfoldable pub meta : Export → MethodMeta
meta e = record { name = method_name e.fn_name; params = e.in_type; ret = e.out_type }

-- The `switch` on the method number: 0 is reserved for Send, 1 for the constructor.
unfoldable pub is_reserved : ℕ → Export → Bool
is_reserved number e =
    if number == 0
    then true
    else (if number == 1
        then not (bytes_eq (method_name e.fn_name) (codes "Constructor"))
        else false)

-- The inner loop of `init`, from the method `number` on.
unfoldable pub add_exports : ℕ → List (Option Export) → Methods → Run Methods
add_exports number [] methods = done methods
add_exports number (none ∷ exports) methods = add_exports (suc number) exports methods
add_exports number (some e ∷ exports) methods =
    let rest = add_exports (suc number) exports (insert number (meta e) methods) in
    if is_reserved number e then panic else rest

unfoldable pub actor_methods : List (Option Export) → Run Methods
actor_methods exports = add_exports 0 exports (insert 0 send_meta [])

-- The outer loop of `init`, over the actors of all versions in order.
unfoldable pub register : List VmActor → MethodsMap → Run MethodsMap
register [] table = done table
register (a ∷ actors) table = do
  methods ← actor_methods a.exports
  register actors (insert a.code methods table)

-- MethodsMap[code][method]; an unknown code has no methods.
unfoldable pub find_method : MethodsMap → Cid → ℕ → Option MethodMeta
find_method table code method = elim (lookup code table) [
  | none ↦ none
  | some methods ↦ lookup method methods
]

-- `GetMethod`: the zero value of an unknown method has an empty name.
unfoldable pub get_method : MethodsMap → Cid → ℕ → Bytes
get_method table code method = elim (find_method table code method) [ none ↦ [] | some m ↦ m.name ]

pub record Codec (V : Type 0) : Type 0 where
  pub unmarshal_cbor : ReflectType → Bytes → Result V
  pub marshal : V → Result String
  pub marshal_indent : V → Result String

-- The dynamic type of the argument of `ParseParam`.
pub data AnyMessage : Type 0 where
  plain : ChainMessage → AnyMessage
  from_signed : SignedMessage → AnyMessage
  other : AnyMessage

-- `GetParamType` returns a fresh value of the type; here it is the type.
unfoldable pub get_param_type : MethodsMap → Cid → ℕ → Result ReflectType
get_param_type table code method = elim (find_method table code method) [
  | none ↦ err "unknown method for actor"
  | some m ↦ ok m.params
]

module _ {V : Type 0} (codec : Codec V) where
  -- The error of `json.Marshal` is dropped, and its text is then empty.
  unfoldable pub json_params : MethodsMap → Cid → ℕ → Bytes → Result String
  json_params table code method params = elim (get_param_type table code method) [
    | err e ↦ err e
    | ok t ↦ elim (codec.unmarshal_cbor t params) [
      | err e ↦ err e
      | ok v ↦ elim (codec.marshal v) [ err _ ↦ ok "" | ok text ↦ ok text ]
    ]
  ]

  unfoldable pub json_return : MethodsMap → Cid → ℕ → Bytes → Result String
  json_return table code method ret = elim (find_method table code method) [
    | none ↦ err "method not found on actor"
    | some m ↦ elim (codec.unmarshal_cbor m.ret ret) [
      | err e ↦ err e
      | ok v ↦ codec.marshal_indent v
    ]
  ]

  unfoldable pub parse_param : MethodsMap → Cid → AnyMessage → Result String
  parse_param table code (plain m) = json_params table code m.method m.params
  parse_param table code (from_signed sm) =
      json_params table code sm.message.method sm.message.params
  parse_param table code other = err "error message type"
