-- ===== src/Tests/Transactions.antt =====
-- The state plugin and its multi-store on a concrete chain.
use molaris.Prelude.{
  ℕ, ◌≡◌, refl, ◌≢◌, true, false, ◌&&◌, ◌||◌, Option, none, some, List, [], ◌∷◌, arith, ◌==◌,
  if◌then◌else◌, ℤ, pos, ok, eqb, lookup, bytes_eq, nat_eq,
}
use molaris.Stack
use molaris.Store
use molaris.Store.{Bytes, StoreKey, CacheKv, Store, change}
use molaris.Store.Views.{reads_of}
use molaris.Store.Maps.{StoreGuards, store_view}
use molaris.Store.Guards.{change-StoreGuards}
use molaris.Plugin.{Context, Plugin, reset, set_gas_config}
use molaris.Plugin.Accounts.{nonce_of, get_nonce, set_nonce}
use molaris.Plugin.Codes.{empty_code_hash, get_code_hash, get_code, set_code}
use molaris.Plugin.Storage.{slot_key, get_state, set_state, get_committed_state}
use molaris.Plugin.Controlled.{snapshot, revert_to_snapshot}
use molaris.Plugin.Copies.{Contexts, clone}
use molaris.Plugin.Guards.{PluginGuards, shown}
use molaris.Plugin.Entries.{HasEntry}
use molaris.Plugin.Slots.{get_state-set_state}
use molaris.Plugin.Nonces.{get_nonce-set_nonce}
use molaris.Plugin.Contracts.{get_code-set_code}
use molaris.Plugin.Restore.{plugin_view}
use molaris.Plugin.Sound.{IsSound}
use molaris.Plugin.Undo.{
  Call, creates, deletes, sets_state, sets_code, sets_nonce, adds_balance, perform_all,
  revert-perform_all-snapshot,
}
use molaris.Plugin.Start.{reset-PluginGuards, reset-IsSound, ContextsLaw, get_state-clone}
use molaris.Plugin.Genesis.{GenesisAlloc, empty_account, init_genesis, init_genesis-terminates}
use molaris.Plugin.Hosted.{GethTypes, host_of, plugin_law, failed_call-reset}
use molaris.StateDb.Host.{Host}
use molaris.StateDb.Operations.{StateDb, new_state_db}
use molaris.StateDb.Invariant.{Invariant, shown as shown_in}
use molaris.StateDb.Frames.{Actions, nil, cons, call, changes, destroys, refunds, perform}
use molaris.Tests.Hosts.{address_lists}
use molaris.Journal.{Address, Hash}
use molaris.Tests.Chains.{Kv, kv, kv_law, encoding, encoding_law, chain, chain_law}

-- An account 7 with nonce 4 and one slot, both committed.
abbrev account_store : Kv
account_store j = if eqb (7 ∷ []) j then some (4 ∷ []) else none

abbrev evm_store : Kv
evm_store j = if eqb (slot_key chain 7 9) j then some (encoding.hash_bytes 5) else none

abbrev context : Context chain
context = record {
  multi_store = (1, evm_store) ∷ (2, account_store) ∷ [];
  event_manager = 6 ∷ [];
  block_height = pos 10;
}

evm_mounted : lookup 1 context.multi_store ≡ some evm_store
unfolding lookup
evm_mounted = refl

accounts_mounted : lookup 2 context.multi_store ≡ some account_store
unfolding lookup
accounts_mounted = refl

abbrev start : Plugin chain
start = reset chain context

reset-IsSound_example :
    IsSound chain kv_law start []
    × (start.cms.read_only ≡ false)
    × (start.saved_err ≡ none)
    × ((key : StoreKey)
        → shown chain kv_law start key ≡ reads_of kv (lookup key context.multi_store))
reset-IsSound_example =
    reset-IsSound chain kv_law context evm_store account_store evm_mounted accounts_mounted

-- A branch of the stores is the stores.
abbrev contexts : Contexts chain
contexts = record { cache_context = λ ctx. ctx; get_query_context = none }

contexts_law : ContextsLaw chain contexts
contexts_law = record { branched = λ ctx key s e. (s, e, λ k. refl) }

start_evm : lookup 1 start.cms.committed ≡ some evm_store
unfolding reset set_gas_config Store.new_store_from lookup
start_evm = refl

start_accounts : lookup 2 start.cms.committed ≡ some account_store
unfolding reset set_gas_config Store.new_store_from lookup
start_accounts = refl

start-PluginGuards : PluginGuards chain start []
start-PluginGuards =
    reset-PluginGuards chain kv_law encoding_law contexts contexts_law context evm_store
      account_store evm_mounted accounts_mounted

start-IsSound : IsSound chain kv_law start []
start-IsSound =
    (reset-IsSound chain kv_law context evm_store account_store evm_mounted accounts_mounted).0

start_writable : start.cms.read_only ≡ false
start_writable =
    (reset-IsSound chain kv_law context evm_store account_store evm_mounted accounts_mounted).1

abbrev calls : List Call
calls =
    creates 8
    ∷ sets_code 8 (1 ∷ 2 ∷ [])
    ∷ sets_state 8 1 2
    ∷ sets_nonce 7 5
    ∷ adds_balance 8 (pos 3)
    ∷ deletes 7
    ∷ []

revert-perform_all-snapshot_example :
    (p1 : Plugin chain) × (p2 : Plugin chain) × (p3 : Plugin chain) × (id : ℤ) × (snapshot chain
        start
      ≡ ok (p1, id))
    × (perform_all chain calls p1 ≡ ok p2)
    × (revert_to_snapshot chain p2 id ≡ ok p3)
    × (plugin_view chain kv_law p3 ≡ plugin_view chain kv_law start)
    × IsSound chain kv_law p3 []
revert-perform_all-snapshot_example =
    revert-perform_all-snapshot chain kv_law start calls [] start_writable start-IsSound

get_state-set_state_example :
    (p : Plugin chain) × (set_state chain 7 9 0 start ≡ ok p)
    × PluginGuards chain p []
    × ((a : Address) (b : Hash)
        → (q : Plugin chain) × (r : Plugin chain) × (old : Hash) × (get_state chain a b start
            ≡ ok (q, old))
          × (get_state chain a b p ≡ ok (r, if 7 == a && 9 == b then 0 else old)))
get_state-set_state_example =
    get_state-set_state chain kv_law encoding_law start 7 9 0 [] start_writable start-PluginGuards

-- The account is there, and account 8 is not.
account_7 : HasEntry chain chain_law start 7 (some (7, 4))
unfolding reset set_gas_config Store.new_store_from Stack.new lookup
account_7 = (account_store, refl, refl)

account_8 : HasEntry chain chain_law start 8 none
unfolding reset set_gas_config Store.new_store_from Stack.new lookup
account_8 = (account_store, refl, refl)

get_nonce-set_nonce_example :
    (p : Plugin chain) × (set_nonce chain 8 3 start ≡ ok p)
    × PluginGuards chain p []
    × ((a : Address) (x : Option (ℕ × ℕ))
        → HasEntry chain chain_law start a x
        → (q : Plugin chain) × (r : Plugin chain) × (get_nonce chain a start
            ≡ ok (q, nonce_of chain x))
          × (get_nonce chain a p ≡ ok (r, if 8 == a then 3 else nonce_of chain x)))
get_nonce-set_nonce_example =
    get_nonce-set_nonce chain chain_law start 8 3 none [] start_writable account_8
      start-PluginGuards

abbrev two_bytes : Bytes
two_bytes = 1 ∷ 2 ∷ []

no_clash :
    (((encoding.keccak256_hash two_bytes == 0)
        || (encoding.keccak256_hash two_bytes == empty_code_hash chain))
      ≡ true)
    → two_bytes ≡ []
no_clash e = cc

get_code-set_code_example :
    (p : Plugin chain) × (set_code chain 7 two_bytes start ≡ ok p)
    × PluginGuards chain p []
    × ((q : Plugin chain) × (get_code_hash chain 7 p ≡ ok (q, 3)))
    × ((r : Plugin chain) × (get_code chain 7 p ≡ ok (r, two_bytes)))
    × ((a : Address) (x : Option (ℕ × ℕ))
        → 7 ≢ a
        → HasEntry chain chain_law start a x
        → (q : Plugin chain) × (r : Plugin chain) × (old : Hash) × (get_code_hash chain a start
            ≡ ok (q, old))
          × (get_code_hash chain a p ≡ ok (r, old)))
get_code-set_code_example =
    get_code-set_code chain chain_law start 7 two_bytes (7, 4) [] no_clash start_writable account_7
      start-PluginGuards

get_state-clone_example :
    (q : Plugin chain) × (value : Hash) × (get_state chain 7 9 (clone chain contexts start)
      ≡ ok (q, value))
    × (get_committed_state chain 7 9 start ≡ ok value)
get_state-clone_example =
    get_state-clone chain kv_law encoding_law contexts contexts_law start evm_store account_store 7
      9 start_evm start_accounts

-- A multi-store with a cached store in its root and one in a layer above it.
abbrev layered : Store Kv
layered = record {
  committed = (1, evm_store) ∷ (2, account_store) ∷ [];
  root = (1, evm_store) ∷ [];
  journal = record {
    size = 1;
    capacity = 1;
    buf = some ((1, kv.put (1 ∷ []) (2 ∷ []) evm_store) ∷ (2, account_store) ∷ []) ∷ [];
  };
  read_only = false;
}

abbrev layered-StoreGuards : StoreGuards kv layered []
layered-StoreGuards = record {
  maps = some ((1, kv.put (1 ∷ []) (2 ∷ []) evm_store) ∷ (2, account_store) ∷ []) ∷ [];
  are_maps = tt;
  layers = record {
    held = record {
      valid = record { within = omega arith; filled = refl; grows = omega arith };
      entries = refl;
    };
    marks = tt;
  };
}

abbrev changed_evm : Kv
changed_evm = kv.put (1 ∷ []) (2 ∷ []) evm_store

change-StoreGuards_example :
    (s : Store Kv) × (c : Kv) × (change kv (kv.put (3 ∷ []) (4 ∷ [])) 2 layered ≡ ok s)
    × (reads_of kv (some c) ≡ store_view kv layered 2)
    × ((j : StoreKey)
        → store_view kv s j ≡ (
            if 2 == j
            then reads_of kv (some (kv.put (3 ∷ []) (4 ∷ []) c))
            else store_view kv layered j))
    × (s.committed ≡ layered.committed)
    × (s.read_only ≡ layered.read_only)
    × StoreGuards kv s []
change-StoreGuards_example =
    change-StoreGuards kv kv_law (kv.put (3 ∷ []) (4 ∷ [])) layered 2 account_store []
      accounts_mounted refl layered-StoreGuards

-- A contract with code, a slot and a nonce, and an account without anything.
abbrev genesis : GenesisAlloc
genesis =
    (8, record { code = some two_bytes; storage = some ((1, 2) ∷ []); balance = none; nonce = 1 })
    ∷ (9, empty_account)
    ∷ []

init_genesis-terminates_example :
    (p : Plugin chain) × (init_genesis chain 1 context genesis ≡ ok p)
    × (p.cms.journal.size ≡ 0)
    × (p.cms.root ≡ [])
init_genesis-terminates_example =
    init_genesis-terminates chain kv_law context evm_store account_store 1 genesis evm_mounted
      accounts_mounted

abbrev geth : GethTypes
geth = record {
  Payload = ℕ;
  AccessSet = List ℕ;
  lists = address_lists;
  zero_log = record { payload = 0; block_number = 0; block_hash = 0; tx_hash = 0; tx_index = 0 };
}

abbrev host : Host
host = host_of chain geth

-- A call that stores and pays, and destroys the account in a call that fails within it.
abbrev body : Actions host
body = cons (changes (sets_state 7 1 2)) (
    cons (call false (cons (destroys 7) (cons (refunds 5) nil)))
      (cons (changes (adds_balance 8 (pos 3))) nil))

failed_call-reset_example :
    (sdb : StateDb host) × (sdb' : StateDb host) × (new_state_db host start ≡ ok sdb)
    × (perform host (call false body) sdb ≡ ok sdb')
    × (shown_in host (plugin_law chain geth kv_law) sdb'
        ≡ shown_in host (plugin_law chain geth kv_law) sdb)
    × Invariant host (plugin_law chain geth kv_law) sdb' []
failed_call-reset_example =
    failed_call-reset chain geth kv_law context evm_store account_store body evm_mounted
      accounts_mounted
