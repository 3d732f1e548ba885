-- ===== src/Chain.antt =====
-- chainservice/events.go: what the service does on an event of the chain, and the contract calls.
pub mod Execute
pub mod Secrets
pub mod BalanceProof
pub mod Unlocks
pub mod Punishes
pub mod Events
pub mod Blocks
pub mod Messages
pub mod Signatures
pub mod Verifier
