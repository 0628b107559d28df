-- ===== src/Plugin/Calls.antt =====
-- Every call by which the state database changes the plugin succeeds and keeps the invariant.
use molaris.Prelude.{
  ℕ, ◌≡◌, refl, inl, inr, Bool, true, false, Option, none, some, List, [], ◌∷◌, ◌==◌, if◌then◌else◌,
  Bool-cases, ℤ, ◌+ℤ◌, ◌-ℤ◌, eqb_ℤ, pos, Exec, ◌>>=◌, ok, nat_eq,
}
use molaris.Store.{Bytes}
use molaris.Store.Views.{CacheKvLaw}
use molaris.Keys.{storage_key_for, code_hash_key_for}
use molaris.Plugin.{Chain, Plugin, kv_read, kv_write, add_balance, sub_balance}
use molaris.Plugin.Accounts.{
  create_account, new_account_with_address, set_account, set_nonce, or_new, or_saved,
  delete_account,
}
use molaris.Plugin.Codes.{set_code}
use molaris.Plugin.Storage.{set_state, for_each_entry, for_each_storage}
use molaris.Plugin.Guards.{evm, accounts}
use molaris.Plugin.Sound.{IsSound, IsSound-saved_err}
use molaris.Plugin.Safe.{
  IsSafe, IsSafeStep, kv_read-IsSafe, kv_write-IsSafe, get_balance-IsSafe, set_balance-IsSafe,
}
use molaris.Journal.{Address, Hash}

module _ (c : Chain) (law : CacheKvLaw c.kv) where
  -- One call after another, with the first one's answer.
  then-IsSafeStep :
      {A : Type 0} (first : Plugin c → Exec (Plugin c × A))
      (second : A → Plugin c → Exec (Plugin c))
      → IsSafe c law first
      → ((a : A) → IsSafeStep c law (second a))
      → IsSafeStep c law (λ p. first p >>= λ r. second r.1 r.0)
  then-IsSafeStep first second s1 s2 p ps writable s =
      let (q, a, e, w, s') = s1 p ps writable s in
      let (r, e', w', s'') = s2 a q ps w s' in (r, rw e e', w', s'')

  pub step-IsSafeStep :
      (first second : Plugin c → Exec (Plugin c))
      → IsSafeStep c law first
      → IsSafeStep c law second
      → IsSafeStep c law (λ p. first p >>= second)
  step-IsSafeStep first second s1 s2 p ps writable s =
      let (q, e, w, s') = s1 p ps writable s in
      let (r, e', w', s'') = s2 q ps w s' in (r, rw e e', w', s'')

  pub set_state-IsSafe :
      (addr : Address) (key value : Hash) → IsSafeStep c law (set_state c addr key value)
  unfolding set_state
  set_state-IsSafe addr key value p ps writable s = elim (Bool-cases (value == 0)) [
    | inl e ↦ rw e (kv_write-IsSafe c law evm _ p ps writable s)
    | inr e ↦ rw e (kv_write-IsSafe c law evm _ p ps writable s)
  ]

  pub set_code-IsSafe : (addr : Address) (code : Bytes) → IsSafeStep c law (set_code c addr code)
  unfolding set_code
  set_code-IsSafe addr code =
      step-IsSafeStep _ _ (kv_write-IsSafe c law evm _) (kv_write-IsSafe c law evm _)

  new_account-IsSafe : (addr : Address) → IsSafe c law (new_account_with_address c addr)
  unfolding new_account_with_address
  new_account-IsSafe addr p ps writable s =
      let (q, acc, e, w, s') =
        kv_read-IsSafe c law accounts (λ t. (c.ak.new_account_with_address t addr).1) p ps writable
          s in
      let (r, e', w', s'') =
        kv_write-IsSafe c law accounts (λ t. (c.ak.new_account_with_address t addr).0) q ps w s' in
      (r, acc, rw (e, e') refl, w', s'')

  set_account-IsSafe : (acc : c.Account) → IsSafeStep c law (set_account c acc)
  unfolding set_account
  set_account-IsSafe acc = kv_write-IsSafe c law accounts _

  pub create_account-IsSafe : (addr : Address) → IsSafeStep c law (create_account c addr)
  unfolding create_account
  create_account-IsSafe addr =
      then-IsSafeStep _ _ (new_account-IsSafe addr)
        (λ acc. step-IsSafeStep _ _ (set_account-IsSafe acc) (kv_write-IsSafe c law evm _))

  or_new-IsSafe : (addr : Address) (o : Option c.Account) → IsSafe c law (λ p. or_new c addr p o)
  or_new-IsSafe addr (some acc) p ps writable s = (p, acc, refl, writable, s)
  or_new-IsSafe addr none p ps writable s = new_account-IsSafe addr p ps writable s

  pub set_nonce-IsSafe : (addr : Address) (nonce : ℕ) → IsSafeStep c law (set_nonce c addr nonce)
  unfolding set_nonce
  set_nonce-IsSafe addr nonce =
      then-IsSafeStep _ _ (kv_read-IsSafe c law accounts (λ s. c.ak.get_account s addr)) (λ o.
        then-IsSafeStep _ _ (or_new-IsSafe addr o) (λ acc p ps writable s.
          set_account-IsSafe ((c.ak.set_sequence acc nonce).0)
            (record p { saved_err = or_saved c ((c.ak.set_sequence acc nonce).1) p.saved_err }) ps
            writable
            (IsSound-saved_err c law p (or_saved c ((c.ak.set_sequence acc nonce).1) p.saved_err) ps
              s)))

  pub add_balance-IsSafe :
      (addr : Address) (amount : ℤ) → IsSafeStep c law (add_balance c addr amount)
  unfolding add_balance
  add_balance-IsSafe addr amount p ps writable s = elim (Bool-cases (eqb_ℤ amount (pos 0))) [
    | inl e ↦ rw e (p, refl, writable, s)
    | inr e ↦ rw e (
        then-IsSafeStep _ _ (get_balance-IsSafe c law addr)
          (λ b. set_balance-IsSafe c law addr (b +ℤ amount)) p ps writable s)
  ]

  pub sub_balance-IsSafe :
      (addr : Address) (amount : ℤ) → IsSafeStep c law (sub_balance c addr amount)
  unfolding sub_balance
  sub_balance-IsSafe addr amount p ps writable s = elim (Bool-cases (eqb_ℤ amount (pos 0))) [
    | inl e ↦ rw e (p, refl, writable, s)
    | inr e ↦ rw e (
        then-IsSafeStep _ _ (get_balance-IsSafe c law addr)
          (λ b. set_balance-IsSafe c law addr (b -ℤ amount)) p ps writable s)
  ]

  -- A loop over storage of which every round is safe, and goes on.
  for_each_entry-IsSafe :
      (cb : Hash → Hash → Plugin c → Exec (Plugin c × Bool))
      → ((k v : Hash) → IsSafe c law (cb k v))
      → (es : List (Bytes × Bytes)) → IsSafeStep c law (for_each_entry c cb es)
  unfolding for_each_entry
  for_each_entry-IsSafe cb safe [] p ps writable s = (p, refl, writable, s)
  for_each_entry-IsSafe cb safe ((k, []) ∷ es) p ps writable s =
      for_each_entry-IsSafe cb safe es p ps writable s
  for_each_entry-IsSafe cb safe ((k, b ∷ v) ∷ es) p ps writable s =
      let rest = for_each_entry-IsSafe cb safe es in
      then-IsSafeStep _ (λ go q. if go then for_each_entry c cb es q else ok q)
        (safe (c.enc.hash_of k) (c.enc.hash_of (b ∷ v))) (λ go. goes_on es rest go) p ps writable s
    where
      goes_on :
          (es : List (Bytes × Bytes))
          → IsSafeStep c law (for_each_entry c cb es)
          → (go : Bool) → IsSafeStep c law (λ q. if go then for_each_entry c cb es q else ok q)
      goes_on es rest true q qs w t = rest q qs w t
      goes_on es rest false q qs w t = (q, refl, w, t)

  for_each_storage-IsSafe :
      (addr : Address) (cb : Hash → Hash → Plugin c → Exec (Plugin c × Bool))
      → ((k v : Hash) → IsSafe c law (cb k v))
      → IsSafe c law (for_each_storage c addr cb)
  unfolding for_each_storage
  for_each_storage-IsSafe addr cb safe p ps writable s =
      let prefix = storage_key_for (c.enc.address_bytes addr) in
      let f : c.S → List (Bytes × Bytes) × Option c.Error =
        λ t. (c.iterators.entries_closed t prefix, c.iterators.close t prefix) in
      let (q, r, e, w, s') = kv_read-IsSafe c law evm f p ps writable s in ended r q e w s'
    where
      ended :
          (r : List (Bytes × Bytes) × Option c.Error) (q : Plugin c)
          → kv_read c c.store_key
              (λ t. (
                c.iterators.entries_closed t (storage_key_for (c.enc.address_bytes addr)),
                c.iterators.close t (storage_key_for (c.enc.address_bytes addr)),
              ))
              p
            ≡ ok (q, r)
          → q.cms.read_only ≡ false
          → IsSound c law q ps
          → (x : Plugin c) × (a : Option c.Error) × (for_each_storage c addr cb p ≡ ok (x, a))
            × (x.cms.read_only ≡ false)
            × IsSound c law x ps
      ended (es, some err) q e w t = (q, some err, rw e refl, w, t)
      ended (es, none) q e w t =
          let (x, e', w', t') = for_each_entry-IsSafe cb safe es q ps w t in
          (x, none, rw (e, e') refl, w', t')

  pub delete_account-IsSafe : (account : Address) → IsSafeStep c law (delete_account c account)
  unfolding delete_account
  delete_account-IsSafe account =
      then-IsSafeStep _ _ (kv_read-IsSafe c law accounts (λ s. c.ak.get_account s account)) deletes
    where
      clears : (k v : Hash) → IsSafe c law (λ x. set_state c account k 0 x >>= λ y. ok (y, true))
      clears k v p ps writable s =
          let (q, e, w, s') = set_state-IsSafe account k 0 p ps writable s in
          (q, true, rw e refl, w, s')

      deletes :
          (o : Option c.Account)
          → IsSafeStep c law (λ p. elim o [
            | none ↦ ok p
            | some acct ↦ do
              cleared ←
                  for_each_storage c account
                    (λ key _ x. set_state c account key 0 x >>= λ y. ok (y, true))
                    p
              q ←
                  kv_write c c.store_key
                    (c.kv.delete (code_hash_key_for (c.enc.address_bytes account)))
                    cleared.0
              kv_write c c.ak.store_key (c.ak.remove_account acct) q
          ])
      deletes none p ps writable s = (p, refl, writable, s)
      deletes (some acct) p ps writable s =
          then-IsSafeStep _ _ (for_each_storage-IsSafe account _ clears)
            (λ _.
              step-IsSafeStep _ _ (kv_write-IsSafe c law evm _) (kv_write-IsSafe c law accounts _))
            p ps writable s
