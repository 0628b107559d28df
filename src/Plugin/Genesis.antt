-- ===== src/Plugin/Genesis.antt =====
-- cosmos/x/evm/plugins/state/genesis.go: the plugin's state from a genesis file and back.
use molaris.Prelude.{
  ℕ, zero, suc, ◌≡◌, refl, Bool, false, Option, none, some, List, [], ◌∷◌, ℤ, pos, Exec, ◌>>=◌, ok,
  lookup, insert, nat_eq,
}
use molaris.Store
use molaris.Store.{Bytes, StoreKey, Store}
use molaris.Store.Views.{CacheKvLaw}
use molaris.Store.Finalize.{finalize-terminates}
use molaris.Snapshot
use molaris.Events
use molaris.Bank
use molaris.Plugin.{Chain, Context, Plugin, reset, get_balance}
use molaris.Plugin.Accounts.{create_account, set_nonce, get_nonce}
use molaris.Plugin.Codes.{set_code, get_code, iterate_code}
use molaris.Plugin.Storage.{set_storage, iterate_state}
use molaris.Plugin.Controlled.{finalize, finalize_object}
use molaris.Plugin.Restore.{registered-entries}
use molaris.Plugin.Sound.{IsSound-StoreGuards}
use molaris.Plugin.Safe.{IsSafeStep}
use molaris.Plugin.Calls.{
  set_state-IsSafe, set_code-IsSafe, create_account-IsSafe, set_nonce-IsSafe, step-IsSafeStep,
}
use molaris.Plugin.Start.{reset-IsSound}
use molaris.Journal.{Address, Hash}

-- `core.GenesisAccount`; `none` is nil.
pub record GenesisAccount : Type 0 where
  pub code : Option Bytes
  pub storage : Option (List (Hash × Hash))
  pub balance : Option ℤ
  pub nonce : ℕ

abbrev pub GenesisAlloc : Type 0
GenesisAlloc = List (Address × GenesisAccount)

abbrev pub empty_account : GenesisAccount
empty_account = record { code = none; storage = none; balance = none; nonce = 0 }

abbrev pub or_else_account : Option GenesisAccount → GenesisAccount → GenesisAccount
or_else_account none d = d
or_else_account (some account) d = account

abbrev pub or_empty : Option (List (Hash × Hash)) → List (Hash × Hash)
or_empty none = []
or_empty (some m) = m

-- `GetCode` returns nil where there is no code.
abbrev pub nil_if_empty : Bytes → Option Bytes
nil_if_empty [] = none
nil_if_empty (b ∷ code) = some (b ∷ code)

abbrev pub or_zero : Option ℤ → Option ℤ
or_zero none = some (pos 0)
or_zero (some b) = some b

module _ (c : Chain) where
  abbrev pub init_code : Address → Option Bytes → Plugin c → Exec (Plugin c)
  init_code address none p = ok p
  init_code address (some code) p = set_code c address code p

  abbrev pub init_storage : Address → Option (List (Hash × Hash)) → Plugin c → Exec (Plugin c)
  init_storage address none p = ok p
  init_storage address (some storage) p = set_storage c address storage p

  abbrev pub init_nonce : Address → ℕ → Plugin c → Exec (Plugin c)
  init_nonce address zero p = ok p
  init_nonce address (suc n) p = set_nonce c address (suc n) p

  -- One round of the loop over the accounts; balances are the bank module's.
  unfoldable pub init_account : Address → GenesisAccount → Plugin c → Exec (Plugin c)
  init_account address account p = do
    p1 ← create_account c address p
    p2 ← init_code address account.code p1
    p3 ← init_storage address account.storage p2
    init_nonce address account.nonce p3

  unfoldable pub init_accounts : GenesisAlloc → Plugin c → Exec (Plugin c)
  init_accounts [] p = ok p
  init_accounts ((address, account) ∷ rest) p =
      init_account address account p >>= init_accounts rest

  unfoldable pub init_genesis : Address → Context c → GenesisAlloc → Exec (Plugin c)
  init_genesis reserved_address ctx alloc = do
    p ← create_account c reserved_address (reset c ctx)
    q ← init_accounts alloc p
    finalize c q

  -- The callback over the storage.
  unfoldable pub export_slot :
      Address → Hash → Hash → GenesisAlloc → Plugin c → Exec (Plugin c × GenesisAlloc × Bool)
  export_slot address key value alloc p = do
    let account = or_else_account (lookup address alloc) empty_account
    code ← get_code c address p
    balance ← get_balance c address code.0
    nonce ← get_nonce c address balance.0
    ok (
      nonce.0,
      insert address
          (record {
            code = nil_if_empty code.1;
            storage = some (insert key value (or_empty account.storage));
            balance = some balance.1;
            nonce = nonce.1;
          })
          alloc,
      false,
    )

  -- The callback over the code.
  unfoldable pub export_code :
      Address → Hash → GenesisAlloc → Plugin c → Exec (Plugin c × GenesisAlloc × Bool)
  export_code address code_hash alloc p = do
    let account = or_else_account (lookup address alloc) empty_account
    code ← get_code c address p
    nonce ← get_nonce c address code.0
    ok (
      nonce.0,
      insert address
          (record account {
            code = nil_if_empty code.1;
            balance = or_zero account.balance;
            nonce = nonce.1;
          })
          alloc,
      false,
    )

  unfoldable pub export_genesis : Context c → Exec (Plugin c × GenesisAlloc)
  export_genesis ctx = do
    r ← iterate_state c export_slot [] (reset c ctx)
    iterate_code c export_code r.1 r.0

module _ (c : Chain) (law : CacheKvLaw c.kv) where
  set_storage-IsSafe :
      (addr : Address) (storage : List (Hash × Hash))
      → IsSafeStep c law (set_storage c addr storage)
  unfolding set_storage
  set_storage-IsSafe addr [] p ps writable s = (p, refl, writable, s)
  set_storage-IsSafe addr ((key, value) ∷ rest) p ps writable s =
      step-IsSafeStep c law _ _ (set_state-IsSafe c law addr key value)
        (set_storage-IsSafe addr rest) p ps writable s

  init_code-IsSafe :
      (address : Address) (code : Option Bytes) → IsSafeStep c law (init_code c address code)
  init_code-IsSafe address none p ps writable s = (p, refl, writable, s)
  init_code-IsSafe address (some code) p ps writable s =
      set_code-IsSafe c law address code p ps writable s

  init_storage-IsSafe :
      (address : Address) (storage : Option (List (Hash × Hash)))
      → IsSafeStep c law (init_storage c address storage)
  init_storage-IsSafe address none p ps writable s = (p, refl, writable, s)
  init_storage-IsSafe address (some storage) p ps writable s =
      set_storage-IsSafe address storage p ps writable s

  init_nonce-IsSafe : (address : Address) (n : ℕ) → IsSafeStep c law (init_nonce c address n)
  init_nonce-IsSafe address zero p ps writable s = (p, refl, writable, s)
  init_nonce-IsSafe address (suc n) p ps writable s =
      set_nonce-IsSafe c law address (suc n) p ps writable s

  init_account-IsSafe :
      (address : Address) (account : GenesisAccount)
      → IsSafeStep c law (init_account c address account)
  unfolding init_account
  init_account-IsSafe address account =
      step-IsSafeStep c law _ _ (create_account-IsSafe c law address) (
        step-IsSafeStep c law _ _ (init_code-IsSafe address account.code) (
          step-IsSafeStep c law _ _ (init_storage-IsSafe address account.storage)
            (init_nonce-IsSafe address account.nonce)))

  init_accounts-IsSafe : (alloc : GenesisAlloc) → IsSafeStep c law (init_accounts c alloc)
  unfolding init_accounts
  init_accounts-IsSafe [] p ps writable s = (p, refl, writable, s)
  init_accounts-IsSafe ((address, account) ∷ rest) p ps writable s =
      step-IsSafeStep c law _ _ (init_account-IsSafe address account) (init_accounts-IsSafe rest) p
        ps writable s

  -- `Finalize` of the plugin finalizes the multi-store; the other two keep nothing back.
  finalize-lem :
      (p : Plugin c) (cms : Store c.S)
      → Store.finalize c.kv p.cms ≡ ok cms
      → finalize c p ≡ ok (record p { cms = cms })
  unfolding finalize Snapshot.finalize Snapshot.finalize_items finalize_object Events.finalize
      Bank.finalize
  finalize-lem p cms e = rw (registered-entries c law p, e) refl

  -- On a context with the two stores mounted, `InitGenesis` comes to an end without a panic, whatever
  -- the accounts of the genesis are, and leaves nothing cached: the journal and the root of the
  -- multi-store are empty.
  pub init_genesis-terminates :
      (ctx : Context c) (base account_base : c.S) (reserved_address : Address)
      (alloc : GenesisAlloc)
      → lookup c.store_key ctx.multi_store ≡ some base
      → lookup c.ak.store_key ctx.multi_store ≡ some account_base
      → (p : Plugin c) × (init_genesis c reserved_address ctx alloc ≡ ok p)
        × (p.cms.journal.size ≡ 0)
        × (p.cms.root ≡ [])
  unfolding init_genesis
  init_genesis-terminates ctx base account_base reserved_address alloc m1 m2 =
      let (sound, writable, _, _) = reset-IsSound c law ctx base account_base m1 m2 in
      let (p1, e1, w1, s1) =
        create_account-IsSafe c law reserved_address (reset c ctx) [] writable sound in
      let (p2, e2, w2, s2) = init_accounts-IsSafe alloc p1 [] w1 s1 in
      let (cms, e3, size, root, _, _) =
        finalize-terminates c.kv p2.cms (IsSound-StoreGuards c law p2 [] s2) in
      (record p2 { cms = cms }, rw (e1, e2) (finalize-lem p2 cms e3), size, root)
