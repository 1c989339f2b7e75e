-- ===== src/Chain/Gateway.antt =====
-- common/chain/dep/registry.go, common/chain/dep/interfaces.go and common/chain/gateway.go.
use walletus.Base.{
  ℕ, String, Option, none, some, List, [], ◌∷◌, map, Result, ok, err, string_eq, ◌>>=◌,
}
use walletus.Base.Decimal.{Bytes}
use walletus.Base.Int.{ℤ}
use walletus.Chain.{ChainDef, supported_evms, supported_sol, supported_tron, Dict, lookup, insert}
use walletus.Chain.Json.{Json}

pub record Consistency : Type 0 where
  pub mode : String
  pub min_confirmations : ℕ

pub record AnchorRef : Type 0 where
  pub height : ℕ
  pub tag : String
  pub network : String
  pub provider : Bytes

pub record NativeBalance : Type 0 where
  pub symbol : String
  pub decimals : ℕ
  pub amount : ℤ

pub record TokenBalance : Type 0 where
  pub contract : String
  pub native : NativeBalance

-- The interface `Client`, of which the gateway calls these four methods. A network call may fail,
-- with the text of the error; `GetTransaction` may also give nil, which is `Json.null`.
pub record Client : Type 0 where
  pub anchor : String → Consistency → Result String AnchorRef
  pub native_balance_batch : String → List String → AnchorRef → Result String (Dict NativeBalance)
  pub token_balances_batch :
      String → Dict (List String) → AnchorRef → Result String (Dict (List TokenBalance))
  pub get_transaction : String → String → Result String Json

abbrev pub Registry : Type 0
Registry = Dict Client

-- `dep.Register`
unfoldable pub register : ChainDef → Client → Registry → Registry
register chain c r = insert chain.name c r

-- `dep.GetClient`
unfoldable pub get_client : ChainDef → Registry → Option Client
get_client chain r = lookup chain.name r

unfoldable pub register_all : (ChainDef → Client) → List ChainDef → Registry → Registry
register_all make [] r = r
register_all make (c ∷ cs) r = register_all make cs (register c (make c) r)

-- The package's `init`: the three `MustRegister`.
unfoldable pub init_registry : (ChainDef → Client) → Client → Client → Registry
unfolding register_all register
init_registry evm_client tron_client sol_client =
    register supported_sol sol_client
      (register supported_tron tron_client (register_all evm_client supported_evms []))

pub record BalanceQuery : Type 0 where
  pub chain : ChainDef
  pub network : String
  pub addresses : List String
  pub tokens : Dict (List String)
  pub consistency : Consistency

pub record TransactionQuery : Type 0 where
  pub chain : ChainDef
  pub network : String
  pub tx_hash : String

pub record BalanceResult : Type 0 where
  pub anchor : AnchorRef
  pub address : String
  pub native : Option NativeBalance
  pub tokens : List TokenBalance

pub record BatchBalanceResult : Type 0 where
  pub chain : ChainDef
  pub results : List BalanceResult

abbrev pub err_unsupported_chain : String
err_unsupported_chain = "unsupported chain code"

-- A missing key of a map of slices reads as a nil slice.
abbrev pub or_empty : {A : Type 0} → Option (List A) → List A
or_empty none = []
or_empty (some xs) = xs

-- One round of the loop over the addresses.
abbrev pub balance_result :
    AnchorRef → Dict NativeBalance → Dict (List TokenBalance) → String → BalanceResult
balance_result anchor native_map token_map addr = record {
  anchor = anchor;
  address = addr;
  native = lookup addr native_map;
  tokens = or_empty (lookup addr token_map);
}

-- The call for the tokens is made only if some are asked for.
unfoldable pub query_tokens :
    Client → BalanceQuery → AnchorRef → Result String (Dict (List TokenBalance))
query_tokens client q anchor = elim q.tokens [
  | [] ↦ ok []
  | _ ↦ client.token_balances_batch q.chain.name q.tokens anchor
]

unfoldable pub query_client : Client → BalanceQuery → Result String BatchBalanceResult
unfolding query_tokens
query_client client q = do
  anchor ← client.anchor q.chain.name q.consistency
  native_map ← client.native_balance_batch q.chain.name q.addresses anchor
  token_map ← query_tokens client q anchor
  ok (record {
    chain = q.chain;
    results = map (balance_result anchor native_map token_map) q.addresses;
  })

unfoldable pub query_found : Option Client → BalanceQuery → Result String BatchBalanceResult
unfolding query_client
query_found none q = err err_unsupported_chain
query_found (some client) q = query_client client q

-- `Gateway.GetBalances`
unfoldable pub get_balances : Registry → BalanceQuery → Result String BatchBalanceResult
unfolding query_found get_client
get_balances r q = query_found (get_client q.chain r) q

-- `Gateway.GetTransaction`
unfoldable pub get_transaction : Registry → TransactionQuery → Result String Json
unfolding get_client
get_transaction r q = elim (get_client q.chain r) [
  | none ↦ err err_unsupported_chain
  | some client ↦ client.get_transaction q.chain.name q.tx_hash
]
