-- ===== src/Bip.antt =====
-- common/bip: derivation paths and addresses of the supported chains. The key derivation itself
-- (hdkeychain, slip10, AES-GCM and Argon2id) is not part of the repository.
pub mod Path
pub mod Printed
pub mod Derive
pub mod Spendable
use walletus.Base.{String, List, [], ◌∷◌, Result, ok, err, ◌==◌, string_eq, if◌then◌else◌}
use walletus.Chain.{ChainDef, chains}
use Prim.Native.String.{◌++◌}

-- The loop of `CheckValidChainCode` over the chains.
unfoldable pub find_chain : String → List ChainDef → Result String ChainDef
find_chain code [] = err ("unsupport chain " ++ code)
find_chain code (v ∷ vs) = let rest = find_chain code vs in if code == v.name then ok v else rest

-- `CheckValidChainCode`: the code "arbitrum" stands for "ARB".
unfoldable pub check_valid_chain_code : String → Result String ChainDef
unfolding find_chain
check_valid_chain_code code = find_chain (if code == "arbitrum" then "ARB" else code) chains
