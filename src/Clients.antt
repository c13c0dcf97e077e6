-- ===== src/Clients.antt =====
-- The connections that the commands open, with the headers of their requests: `main` of
-- cli/baseFeeAuto/main.go and `getNode` of synchain/parseMessage.go. Opening a connection is a
-- library's work; a connection here is what is asked of it.
pub mod Redis
pub mod Mongo
pub mod Rpc
use Prim.Native.String.{◌++◌}
use lotus_tools.Prelude.{
  String, Bool, true, not, ◌&&◌, ◌≡◌, refl, Option, none, some, Result, ok, err, List, [], ◌∷◌,
  string_eq, if◌then◌else◌, arith,
}
use lotus_tools.Config.{Lotus, Config}

-- http.Header, with its entries in the order in which they were added.
abbrev pub Header : Type 0
Header = List (String × String)

pub record Connection : Type 0 where
  pub addr : String
  pub header : Header

-- Whether a text is not empty.
abbrev pub is_set : String → Bool
is_set s = not (string_eq.beq s "")

-- header.Add("Authorization", "Bearer "+token), for a token that is set.
unfoldable pub add_token : String → Header → Header
add_token token header =
    if is_set token then ("Authorization", "Bearer " ++ token) ∷ header else header

abbrev pub rpc : String → String
rpc addr = "ws://" ++ (addr ++ "/rpc/v0")

-- The variables of `main` after both headers are filled: `header` is that of the node, `header2`
-- that of the storage miner.
pub record Headers : Type 0 where
  pub header : Header
  pub header2 : Header

unfoldable pub has_storage_miner : Config → Bool
has_storage_miner c = is_set c.storage.address && is_set c.storage.token

unfoldable pub node_connection : Config → Connection
node_connection c = record { addr = rpc c.demo.address; header = add_token c.demo.token [] }

-- The second token goes to the first header, after the node's connection is open.
unfoldable pub storage_headers : Config → Headers
storage_headers c = record {
  header = add_token c.storage.token (add_token c.demo.token []);
  header2 = [];
}

-- The connection to the storage miner, where one is configured; else its interface stays nil.
unfoldable pub storage_connection : Config → Option Connection
storage_connection c =
    if has_storage_miner c
    then some (record { addr = rpc c.storage.address; header = (storage_headers c).header2 })
    else none

-- How `main` comes to start the service: logrus.Fatalf ends it without a connection. `C` is a
-- connected client, and the storage miner's interface may stay nil.
pub data Opened (C : Type 0) : Type 0 where
  fatal : Opened C
  opened : C → Option C → Opened C

module _ {C : Type 0} (open_rpc : Connection → Result C) where
  abbrev pub with_storage : C → Result C → Opened C
  with_storage node (err _) = fatal
  with_storage node (ok storage) = opened node (some storage)

  abbrev pub after_node : Config → Result C → Opened C
  after_node c (err _) = fatal
  after_node c (ok node) = elim (storage_connection c) [
    | none ↦ opened node none
    | some conn ↦ with_storage node (open_rpc conn)
  ]

  unfoldable pub open_connections : Config → Opened C
  unfolding storage_connection storage_headers node_connection add_token
  open_connections c = after_node c (open_rpc (node_connection c))

-- `getNode` builds a header too, and passes an empty one.
unfoldable pub get_node : Lotus → Connection
get_node lotus =
    let header = add_token lotus.token [] in record { addr = rpc lotus.address; header = [] }

-- A connection whose requests carry a token.
abbrev pub Carries : String → Connection → Type 0
Carries token conn = conn.header ≡ ("Authorization", "Bearer " ++ token) ∷ []

-- Whatever tokens are configured, the node of the fee service is called with its token, while
-- neither its storage miner nor the node of the synchroniser is called with any header. The
-- condition is that the node's token is not empty.
pub connections-Carries :
    (c : Config) (lotus : Lotus) (storage : Connection)
    → is_set c.demo.token ≡ true
    → storage_connection c ≡ some storage
    → Carries c.demo.token (node_connection c)
      × (storage.header ≡ [])
      × ((get_node lotus).header ≡ [])
unfolding storage_connection storage_headers get_node node_connection add_token
connections-Carries c lotus storage h e = (rw h refl, ground arith, refl)
