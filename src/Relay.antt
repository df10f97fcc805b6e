-- ===== src/Relay.antt =====
-- relay: the relayer's prover, which turns headers into messages that the enclave signed.
pub mod Aggregation
pub mod ActiveKey
pub mod Config
pub mod Action
pub mod Prover
pub mod KeySelection
pub mod Registering
pub mod KeyUpdate
pub mod Elc
pub mod Headers
