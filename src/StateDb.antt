-- ===== src/StateDb.antt =====
-- eth/core/state/statedb.go: the state database, which keeps the journals and the host chain's state
-- plugin in step by one snapshot controller.
pub mod Host
pub mod Objects
pub mod Laws
pub mod Operations
pub mod Invariant
pub mod Stable
pub mod Frames
pub mod Prepare
pub mod Detached
pub mod Warm
