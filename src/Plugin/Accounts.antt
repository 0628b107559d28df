-- ===== src/Plugin/Accounts.antt =====
-- Accounts and nonces in the plugin.
use molaris.Prelude.{
  ℕ, Bool, true, false, ◌||◌, not, Option, none, some, List, [], ◌∷◌, ◌==◌, if◌then◌else◌, eqb_ℤ,
  pos, Exec, ◌>>=◌, ok, nat_eq,
}
use molaris.Keys.{code_hash_key_for}
use molaris.Plugin.{Chain, Plugin, kv_read, kv_write, get_balance}
use molaris.Plugin.Codes.{empty_code_hash, get_code_hash}
use molaris.Plugin.Storage.{set_state, for_each_storage}
use molaris.Journal.{Address}

module _ (c : Chain) where
  -- `NewAccountWithAddress`, which takes a number for the account.
  unfoldable pub new_account_with_address : Address → Plugin c → Exec (Plugin c × c.Account)
  new_account_with_address addr p = do
    r ← kv_read c c.ak.store_key (λ s. (c.ak.new_account_with_address s addr).1) p
    q ← kv_write c c.ak.store_key (λ s. (c.ak.new_account_with_address s addr).0) r.0
    ok (q, r.1)

  unfoldable pub set_account : c.Account → Plugin c → Exec (Plugin c)
  set_account acc = kv_write c c.ak.store_key (c.ak.set_account acc)

  unfoldable pub create_account : Address → Plugin c → Exec (Plugin c)
  create_account addr p = do
    r ← new_account_with_address addr p
    q ← set_account r.1 r.0
    kv_write c c.store_key
        (c.kv.put (code_hash_key_for (c.enc.address_bytes addr))
          (c.enc.hash_bytes (empty_code_hash c)))
        q

  unfoldable pub exist : Address → Plugin c → Exec (Plugin c × Bool)
  exist addr = kv_read c c.ak.store_key (λ s. c.ak.has_account s addr)

  -- The sequence of an account, and 0 where there is none.
  abbrev pub nonce_of : Option c.Account → ℕ
  nonce_of none = 0
  nonce_of (some acc) = c.ak.get_sequence acc

  unfoldable pub get_nonce : Address → Plugin c → Exec (Plugin c × ℕ)
  get_nonce addr = kv_read c c.ak.store_key (λ s. nonce_of (c.ak.get_account s addr))

  -- `if acc == nil { acc = p.ak.NewAccountWithAddress(p.ctx, addr[:]) }`
  abbrev pub or_new : Address → Plugin c → Option c.Account → Exec (Plugin c × c.Account)
  or_new addr p (some acc) = ok (p, acc)
  or_new addr p none = new_account_with_address addr p

  abbrev pub or_saved : Option c.Error → Option c.Error → Option c.Error
  or_saved none saved = saved
  or_saved (some err) saved = some err

  -- The account is set also where `SetSequence` fails.
  unfoldable pub set_nonce : Address → ℕ → Plugin c → Exec (Plugin c)
  set_nonce addr nonce p = do
    r ← kv_read c c.ak.store_key (λ s. c.ak.get_account s addr) p
    q ← or_new addr r.0 r.1
    let acc = c.ak.set_sequence q.1 nonce
    set_account acc.0 (record (q.0) { saved_err = or_saved acc.1 (q.0).saved_err })

  -- `&&` stops at the first operand that is false.
  unfoldable pub empty : Address → Plugin c → Exec (Plugin c × Bool)
  empty addr p = do
    ch ← get_code_hash c addr p
    n ← get_nonce addr ch.0
    if not (n.1 == 0)
        then ok (n.0, false)
        else if not ((ch.1 == empty_code_hash c) || (ch.1 == 0))
        then ok (n.0, false)
        else (get_balance c addr n.0 >>= λ b. ok (b.0, eqb_ℤ b.1 (pos 0)))

  -- One round of `DeleteAccounts`; the error of `ForEachStorage` is dropped.
  unfoldable pub delete_account : Address → Plugin c → Exec (Plugin c)
  delete_account account p = do
    r ← kv_read c c.ak.store_key (λ s. c.ak.get_account s account) p
    elim r.1 [
      | none ↦ ok r.0
      | some acct ↦ do
        cleared ←
            for_each_storage c account
              (λ key _ x. set_state c account key 0 x >>= λ y. ok (y, true)) r.0
        q ←
            kv_write c c.store_key (c.kv.delete (code_hash_key_for (c.enc.address_bytes account)))
              cleared.0
        kv_write c c.ak.store_key (c.ak.remove_account acct) q
    ]

  unfoldable pub delete_accounts : List Address → Plugin c → Exec (Plugin c)
  delete_accounts [] p = ok p
  delete_accounts (account ∷ accounts) p = delete_account account p >>= delete_accounts accounts
