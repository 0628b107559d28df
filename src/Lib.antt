-- ===== src/Lib.antt =====
-- A verification of the state machinery of Polaris, the EVM framework in this repository: the data
-- structures of lib, the journals and the state database of eth/core/state, and what the Cosmos
-- host gives them.
--
-- How the parts work together. The EVM changes the state through one state database
-- (eth/core/state/statedb.go). It holds five journals (eth/core/state/journal: logs, refund, access
-- list, suicides, transient storage) and the state plugin of the host, all registered under a key
-- each with one snapshot controller (lib/snapshot/controller.go), whose registry is a map
-- (lib/registry/map.go). A snapshot takes the snapshot of every registered object and pushes the map
-- of their ids on a stack (lib/ds/stack/stack.go); a revert pops it and reverts each object by its id.
--
-- Where things are.
--   Prelude: Boolean tests, lists, integers and maps; `Exec` is a run of Go code, which returns or
--     panics. Integers are natural numbers or `ℤ`; `uint64` is written out modulo 2 ^ 64.
--   Stack, Stack.Resize, Stack.Items, Stack.Clone: lib/ds/stack/stack.go and cloneable_stack.go.
--     Each function of the source is one definition of the same name; `Holds s xs` says that the
--     buffer `s` represents the list `xs`, oldest entry first.
--   Appendable: lib/ds/stack/appendable_stack.go.
--   Registry: lib/registry/map.go, a map as an association list.
--   Snapshot: lib/snapshot/controller.go; Snapshot.Interface: what a `Controllable` promises (`Guards`
--     lists the restore points that an object still guards); Snapshot.Guards and Snapshot.Change: the
--     controller keeps that contract itself, whatever is registered with it.
--   Journal and its modules: eth/core/state/journal, one module for each file. Journal.Marks: the
--     restore points of a journal that takes the size of its stack for a snapshot's id.
--   StateDb and its modules: eth/core/state/statedb.go. Host: what comes from outside, as parameters
--     with their laws. Objects and Laws: the registered objects. Operations: the functions of the
--     source. Invariant, Stable, Frames, Prepare, Detached, Warm: what is proved of them.
--   Gas: cosmos/x/evm/plugins/gas/plugin.go. Precompile: eth/core/precompile/default_plugin.go.
--     Events, Events.Guards: cosmos/x/evm/plugins/state/events/manager.go. Bank, Bank.Balances:
--     cosmos/x/evm/plugins/state/bank/manager.go; Bank.Guards: its restore points. Keys:
--     cosmos/x/evm/plugins/state/keys.go. Mempool, Mempool.Reader (with Contiguous): mempool_policy.go and mempool_reader.go of cosmos/x/evm/plugins/txpool/mempool. The
--     SDK's gas meters, the log factory, the bank keeper, the precompile containers and the pool's
--     selection are parameters.
--   Stack.Layers: the restore points of a journal whose entries are whole layers, as those of the
--     multi-store and of the bank manager. Snapshot.Kinds: restore points of one kind of object.
--   Store: cosmos/x/evm/store/snapmulti/store.go, with the read-only store of store/cachekv. The
--     SDK's cached stores are the record `CacheKv`, where a store stands for itself with all that it
--     is cached over; Store.Views says what a multi-store shows, by its laws (`CacheKvLaw`).
--     Store.Maps, Store.Guards, Store.Finalize: its restore points and its loops. Store.Levels, Store.Columns,
--     Store.Writes, Store.Committed, Store.Layered: the maps one over the other (`IsLayered`), from a
--     new store on, and what `Finalize` writes down, by the laws of `Write` (`CacheKvWriteLaw`).
--   Plugin: cosmos/x/evm/plugins/state/plugin.go. `Plugin` is the state of the plugin from its `Reset`
--     on; the keepers, iterators and conversions that it is given are the record `Chain`. Plugin.Accounts,
--     Plugin.Codes, Plugin.Storage, Plugin.Controlled (the controller that it embeds), Plugin.Copies
--     (`Clone`, `StateAtBlockNumber`) and Plugin.Genesis (genesis.go) are the source's functions.
--     Plugin.Guards, Entries, Values, Slots, Hashes, Nonces, Contracts: what reads return after
--     writes. Plugin.Objects, Restore, Sound, Safe, Calls, Undo, Start: the invariant and what a revert
--     brings back. Plugin.Hosted: the plugin as the host of a state database.
--   Abi, Abi.Names: eth/accounts/abi/abi.go, names as ASCII strings. LogFactory, LogFactory.Built:
--     cosmos/x/evm/plugins/precompile/log, the factory that the event manager is given.
--   Tests: each theorem at concrete inputs.
--
-- Bounds and fuel. The loops of the source count up to the size of a stack, so they are recursion on
-- the number of rounds that are left, which the caller computes from the size. `Finalize` of the
-- multi-store pops until the journal is empty; it has one round of fuel more than the journal's size.
-- A Go map is iterated in the order of its association list.
--
-- Not modelled. go-ethereum's access list and log payload and the hash of no code are parameters, and so
-- is the state plugin that the state database is given: StateDb uses it through the laws of
-- `PluginLaw`, and Plugin is the one of the Cosmos host. The EVM itself is represented by sequences
-- of journal operations, changes of the plugin and nested calls. Of the state database, `Copy` and the reads that only
-- pass on to the plugin are left out. Of the plugin, `Prepare` and the lock of the nonce are left
-- out, since it is modelled from its first `Reset` on and in a single thread, and the bank keeper's
-- reads count as reads of the multi-store that change nothing.
pub mod Prelude
pub mod Stack
pub mod Appendable
pub mod Registry
pub mod Snapshot
pub mod Journal
pub mod StateDb
pub mod Gas
pub mod Precompile
pub mod Events
pub mod Bank
pub mod Mempool
pub mod Keys
pub mod Store
pub mod Plugin
pub mod Abi
pub mod LogFactory
pub mod Tests
