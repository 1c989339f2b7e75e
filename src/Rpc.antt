-- ===== src/Rpc.antt =====
-- The clients of the chains' nodes: common/chain/evm, common/chain/tron and common/chain/solana.
pub mod Chunks
pub mod Nodes
pub mod Evm
pub mod Session
pub mod Solana
pub mod Loops
pub mod Tron
