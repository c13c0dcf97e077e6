-- ===== src/Clients/Rpc.antt =====
-- client/client.go: what each function asks of the package jsonrpc, which is an argument. An error
-- of the package is passed on beside the client.
use lotus_tools.Prelude.{ℕ, String, Option, none, some, List, [], ◌∷◌}
use lotus_tools.Clients.{Header}

-- The interfaces that are filled, by the struct's name.
pub data Target : Type 0 where
  common_struct_internal full_node_internal storage_miner_internal wallet_internal : Target

-- A call of jsonrpc.NewMergeClient; the timeout is in seconds.
pub record MergeClient : Type 0 where
  pub addr : String
  pub namespace : String
  pub outs : List Target
  pub header : Header
  pub timeout : Option ℕ

abbrev pub merge_client : String → Header → List Target → Option ℕ → MergeClient
merge_client addr header outs timeout = record {
  addr = addr;
  namespace = "Filecoin";
  outs = outs;
  header = header;
  timeout = timeout;
}

unfoldable pub new_common_rpc : String → Header → MergeClient
new_common_rpc addr header = merge_client addr header (common_struct_internal ∷ []) none

unfoldable pub new_full_node_rpc : String → Header → MergeClient
new_full_node_rpc addr header =
    merge_client addr header (common_struct_internal ∷ full_node_internal ∷ []) (some 30)

-- The options that it is given are not passed on.
unfoldable pub new_storage_miner_rpc : {O : Type 0} → String → Header → List O → MergeClient
new_storage_miner_rpc addr header opts =
    merge_client addr header (common_struct_internal ∷ storage_miner_internal ∷ []) (some 30)

unfoldable pub new_wallet_rpc : String → Header → MergeClient
new_wallet_rpc addr header = merge_client addr header (wallet_internal ∷ []) none
