-- ===== src/Tests.antt =====
-- The theorems at concrete inputs, so that their hypotheses are seen to hold together.
pub mod Stacks
pub mod Journals
pub mod Hosts
pub mod Controllers
pub mod Plugins
pub mod Chains
pub mod Transactions
pub mod Logs
