-- ===== src/Journal.antt =====
-- eth/core/state/journal: the journals of the state database, each on a stack of lib/ds/stack.
pub mod Marks
pub mod Refund
pub mod Logs
pub mod Transient
pub mod Suicides
pub mod AccessList
use molaris.Prelude.{ℕ, ◌^◌}

abbrev pub init_capacity : ℕ
init_capacity = 32

-- `common.Address` and `common.Hash`, as the numbers that their bytes spell.
abbrev pub Address : Type 0
Address = ℕ

abbrev pub Hash : Type 0
Hash = ℕ

abbrev pub zero_hash : Hash
zero_hash = 0

abbrev pub u64_mod : ℕ
u64_mod = 2 ^ 64
