-- ===== src/Tests/Chain.antt =====
-- The gateway and the derivation paths at concrete inputs.
use walletus.Base.{String, ◌+◌, [], ◌∷◌, ok, ◌≡◌, refl, arith, some, none}
use walletus.Base.Decimal.{codes}
use walletus.Base.Int.{pos}
use walletus.Bip.{check_valid_chain_code, find_chain}
use walletus.Bip.Path.{parse_bip44_path, address_path, hardened_start}
use walletus.Bip.Printed.{parse_bip44_path-address_path}
use walletus.Chain.{chain_def}
use walletus.Chain.Gateway.{
  Client, Registry, AnchorRef, NativeBalance, BalanceQuery, BatchBalanceResult, init_registry,
  get_balances, query_found, query_client, query_tokens, get_client, register, register_all,
}
use walletus.Chain.Json.{null}
use walletus.Chain.Lookup.{
  HasClient, IsAnswered, check_valid_chain_code-HasClient, get_balances-IsAnswered,
}

abbrev anchor : AnchorRef
anchor = record { height = 5; tag = "safe"; network = "ETH"; provider = codes "evm" }

abbrev balance : NativeBalance
balance = record { symbol = "ETH"; decimals = 18; amount = pos 3 }

abbrev one_client : Client
one_client = record {
  anchor = λ chain c. ok anchor;
  native_balance_batch = λ chain xs a. ok (("0xa", balance) ∷ []);
  token_balances_batch = λ chain xs a. ok [];
  get_transaction = λ chain hash. ok null;
}

abbrev registry : Registry
registry = init_registry (λ c. one_client) one_client one_client

abbrev query : BalanceQuery
query = record {
  chain = chain_def "ETH" 60;
  network = "mainnet";
  addresses = "0xa" ∷ "0xb" ∷ [];
  tokens = [];
  consistency = record { mode = "safe"; min_confirmations = 0 };
}

abbrev answered : BatchBalanceResult
answered = record {
  chain = chain_def "ETH" 60;
  results =
      record { anchor = anchor; address = "0xa"; native = some balance; tokens = [] }
      ∷ record { anchor = anchor; address = "0xb"; native = none; tokens = [] }
      ∷ [];
}

get_balances-run : get_balances registry query ≡ ok answered
unfolding get_balances query_found query_client query_tokens get_client init_registry register
    register_all
get_balances-run = refl

get_balances-IsAnswered_example :
    (client : Client) × (get_client (chain_def "ETH" 60) registry ≡ some client)
    × IsAnswered client query answered
get_balances-IsAnswered_example = get_balances-IsAnswered registry query answered get_balances-run

arbitrum : check_valid_chain_code "arbitrum" ≡ ok (chain_def "ARB" 60)
unfolding check_valid_chain_code find_chain
arbitrum = refl

check_valid_chain_code-HasClient_example :
    HasClient (λ c. one_client) one_client one_client (chain_def "ARB" 60)
    × (◌≡◌ {A = String} "ARB" "ARB")
check_valid_chain_code-HasClient_example =
    check_valid_chain_code-HasClient (λ c. one_client) one_client one_client "arbitrum"
      (chain_def "ARB" 60) arbitrum

parse_bip44_path-address_path_example :
    parse_bip44_path (address_path 60 12 3)
    ≡ ok (0 ∷ (44 + hardened_start) ∷ (60 + hardened_start) ∷ (12 + hardened_start) ∷ 0 ∷ 3 ∷ [])
parse_bip44_path-address_path_example =
    parse_bip44_path-address_path 60 12 3 (omega arith) (omega arith) (omega arith)
