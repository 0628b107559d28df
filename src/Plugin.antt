-- ===== src/Plugin.antt =====
-- cosmos/x/evm/plugins/state/plugin.go: the state plugin, which gives the state database the accounts,
-- code, storage and balances of the Cosmos chain. A plugin is modelled from its `Reset` on, when it has
-- a multi-store, an event manager and a bank manager; `NewPlugin` only stores the keepers, which are
-- parameters here. The lock of the nonce is left out, since the code asks for a single thread.
pub mod Accounts
pub mod Storage
pub mod Codes
pub mod Controlled
pub mod Copies
pub mod Guards
pub mod Slots
pub mod Entries
pub mod Nonces
pub mod Values
pub mod Hashes
pub mod Contracts
pub mod Objects
pub mod Restore
pub mod Sound
pub mod Safe
pub mod Calls
pub mod Undo
pub mod Start
pub mod Genesis
pub mod Hosted
use molaris.Prelude.{
  ℕ, ◌≡◌, Bool, Option, none, some, List, [], if◌then◌else◌, length, ℤ, ◌+ℤ◌, ◌-ℤ◌, eqb_ℤ, pos,
  Exec, ◌>>=◌, ok,
}
use molaris.Stack
use molaris.Stack.{Stack}
use molaris.Store
use molaris.Store.{Bytes, StoreKey, CacheKv, Store, get_kv_store, change}
use molaris.Keys.{Conversions, address_length, hash_length}
use molaris.Bank
use molaris.Bank.{BankKeeper}
use molaris.Events
use molaris.Journal.{Address, Hash}

-- go-ethereum's conversions between bytes and addresses and hashes, and its hash function. `hash_of` is
-- `BytesToHash`.
pub record Encoding : Type 0 where
  pub conversions : Conversions
  pub address_bytes : Address → Bytes
  pub address_of : Bytes → Address
  pub hash_bytes : Hash → Bytes
  pub hash_of : Bytes → Hash
  pub keccak256_hash : Bytes → Hash

pub record EncodingLaw (enc : Encoding) : Type 0 where
  pub length-address_bytes : (a : Address) → length (enc.address_bytes a) ≡ address_length
  pub length-hash_bytes : (h : Hash) → length (enc.hash_bytes h) ≡ hash_length
  pub address_of-address_bytes : (a : Address) → enc.address_of (enc.address_bytes a) ≡ a
  pub hash_of-hash_bytes : (h : Hash) → enc.hash_of (enc.hash_bytes h) ≡ h

-- `AccountKeeper` of cosmos/x/evm/plugins/state/interfaces.go and the accounts that it hands out; it
-- keeps them in the store of its own key.
pub record AccountKeeper (S Account Error : Type 0) : Type 0 where
  pub store_key : StoreKey
  pub has_account : S → Address → Bool
  pub get_account : S → Address → Option Account
  pub new_account_with_address : S → Address → S × Account
  pub set_account : Account → S → S
  pub remove_account : Account → S → S
  pub get_sequence : Account → ℕ
  pub set_sequence : Account → ℕ → Account × Option Error

-- What the SDK's iterators over a prefix yield, what they still yield once they are closed, and the
-- error of `Close`.
pub record Iterators (S Error : Type 0) : Type 0 where
  pub entries : S → Bytes → List (Bytes × Bytes)
  pub entries_closed : S → Bytes → List (Bytes × Bytes)
  pub close : S → Bytes → Option Error

-- All that the plugin is given from outside.
pub record Chain : Type 1 where
  pub S : Type 0
  pub Account : Type 0
  pub Error : Type 0
  pub Event : Type 0
  pub EventLog : Type 0
  pub LogsDb : Type 0
  pub GasConfig : Type 0
  pub kv : CacheKv S
  pub enc : Encoding
  pub ak : AccountKeeper S Account Error
  pub bk : BankKeeper (Store S) Error
  pub plf : Events.Factory Event EventLog LogsDb
  pub iterators : Iterators S Error
  pub store_key : StoreKey
  pub no_gas : GasConfig

-- The part of `sdk.Context` that the plugin is reset from.
pub record Context (c : Chain) : Type 0 where
  pub multi_store : List (StoreKey × c.S)
  pub event_manager : List c.Event
  pub block_height : ℤ

module _ (c : Chain) where
  -- The three registered objects, the journal of the controller, and what else the context holds.
  pub record Plugin : Type 0 where
    pub cms : Store c.S
    pub cem : Events.Manager c.Event c.LogsDb
    pub bm : Bank.Manager
    pub journal : Stack (List (ℕ × ℤ))
    pub block_height : ℤ
    pub kv_gas_config : c.GasConfig
    pub transient_kv_gas_config : c.GasConfig
    pub saved_err : Option c.Error

  abbrev controller_capacity : ℕ
  controller_capacity = 32

  unfoldable pub set_gas_config : c.GasConfig → c.GasConfig → Plugin → Plugin
  set_gas_config kv_gas transient_gas p = record p {
    kv_gas_config = kv_gas;
    transient_kv_gas_config = transient_gas;
  }

  unfoldable pub reset : Context c → Plugin
  reset ctx = set_gas_config c.no_gas c.no_gas (record {
    cms = Store.new_store_from c.kv ctx.multi_store;
    cem = Events.new_manager_from c.plf ctx.event_manager;
    bm = Bank.new_manager;
    journal = Stack.new [] controller_capacity;
    block_height = ctx.block_height;
    kv_gas_config = c.no_gas;
    transient_kv_gas_config = c.no_gas;
    saved_err = none;
  })

  unfoldable pub error : Plugin → Option c.Error
  error p = p.saved_err

  -- `p.cms.GetKVStore(key)`, then a read of it.
  unfoldable pub kv_read : {A : Type 0} → StoreKey → (c.S → A) → Plugin → Exec (Plugin × A)
  kv_read key f p = get_kv_store c.kv p.cms key >>= λ r. ok (record p { cms = r.0 }, f r.1)

  -- `p.cms.GetKVStore(key)`, then a write to it.
  unfoldable pub kv_write : StoreKey → (c.S → c.S) → Plugin → Exec Plugin
  kv_write key f p = change c.kv f key p.cms >>= λ cms. ok (record p { cms = cms })

  -- The error of the commit is logged and saved.
  unfoldable pub commit_to_bank : Plugin → Exec Plugin
  commit_to_bank p = Bank.commit c.bk p.bm p.cms >>= λ r.
      let (bm, cms, err) = r in
      let p' : Plugin = record p { bm = bm; cms = cms } in
      elim err [ some e ↦ ok (record p' { saved_err = some e }) | none ↦ ok p' ]

  unfoldable pub get_balance : Address → Plugin → Exec (Plugin × ℤ)
  get_balance addr p =
      Bank.get_balance c.bk p.bm p.cms addr >>= λ r. ok (record p { bm = r.0 }, r.1)

  unfoldable pub set_balance : Address → ℤ → Plugin → Exec Plugin
  set_balance addr amount p =
      Bank.set_balance c.bk p.bm p.cms addr amount >>= λ bm. ok (record p { bm = bm })

  unfoldable pub add_balance : Address → ℤ → Plugin → Exec Plugin
  add_balance addr amount p =
      if eqb_ℤ amount (pos 0)
      then ok p
      else (get_balance addr p >>= λ r. set_balance addr (r.1 +ℤ amount) r.0)

  unfoldable pub sub_balance : Address → ℤ → Plugin → Exec Plugin
  sub_balance addr amount p =
      if eqb_ℤ amount (pos 0)
      then ok p
      else (get_balance addr p >>= λ r. set_balance addr (r.1 -ℤ amount) r.0)
