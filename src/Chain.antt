-- ===== src/Chain.antt =====
-- The chains, the registry of their clients and the gateway in front of them
-- (common/chain/dep, common/chain/gateway.go). A client is an implementation of the interface
-- `Client`; contexts and the clock of `QueriedAtUTC` are not modelled.
pub mod Json
pub mod Gateway
pub mod Lookup
use walletus.Base.{
  ℕ, String, Bool, Option, none, some, List, [], ◌∷◌, ◌++◌, ◌==◌, string_eq, if◌then◌else◌, find?,
}

pub record ChainDef : Type 0 where
  pub name : String
  pub coin_type : ℕ  -- uint32

abbrev pub chain_def : String → ℕ → ChainDef
chain_def name coin_type = record { name = name; coin_type = coin_type }

abbrev pub chains : List ChainDef
chains =
    chain_def "ETH" 60
    ∷ chain_def "BSC" 60
    ∷ chain_def "OP" 60
    ∷ chain_def "ARB" 60
    ∷ chain_def "POLYGON" 60
    ∷ chain_def "TRON" 195
    ∷ chain_def "SOLANA" 501
    ∷ chain_def "BSC_TESTNET" 60
    ∷ []

abbrev pub supported_evms : List ChainDef
supported_evms =
    chain_def "ETH" 60
    ∷ chain_def "BSC" 60
    ∷ chain_def "OP" 60
    ∷ chain_def "ARB" 60
    ∷ chain_def "POLYGON" 60
    ∷ chain_def "BSC_TESTNET" 60
    ∷ []

abbrev pub supported_sol : ChainDef
supported_sol = chain_def "SOLANA" 501

abbrev pub supported_tron : ChainDef
supported_tron = chain_def "TRON" 195

-- A Go map from strings: the first entry of a key counts.
abbrev pub Dict {ℓ} : Type ℓ → Type ℓ
Dict V = List (String × V)

module _ {ℓ} {V : Type ℓ} where
  abbrev pub lookup : String → Dict V → Option V
  lookup k [] = none
  lookup k ((j, v) ∷ d) = let rest = lookup k d in if j == k then some v else rest

  abbrev pub insert : String → V → Dict V → Dict V
  insert k v d = (k, v) ∷ d
