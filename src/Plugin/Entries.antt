-- ===== src/Plugin/Entries.antt =====
-- The accounts that the plugin's multi-store holds, and what the account keeper's calls do to them.
use molaris.Prelude.{
  ℕ, ◌≡◌, refl, sym, ap, ◌∙◌, ◌≢◌, Bool, true, false, Option, none, some, List, ◌==◌, if◌then◌else◌,
  ℤ, ok,
}
use molaris.Store.{Bytes, Store}
use molaris.Store.Views.{CacheKvLaw, StoreView, reads_of}
use molaris.Plugin.{Chain, EncodingLaw, Plugin, kv_read, kv_write}
use molaris.Plugin.Guards.{
  PluginGuards, accounts, shown, with_cms, kv_read-PluginGuards, kv_write-PluginGuards, if_same,
  if_other,
}
use molaris.Plugin.Accounts.{new_account_with_address, set_account}
use molaris.Journal.{Address}

abbrev pub is_some : {A : Type 0} → Option A → Bool
is_some none = false
is_some (some a) = true

-- The SDK's account keeper: it reads nothing but its store, and keeps one account for an address.
pub record AccountKeeperLaw (c : Chain) : Type 0 where
  pub address : c.Account → Address
  pub get_account-reads :
      (s t : c.S) (a : Address)
      → ((k : Bytes) → c.kv.get s k ≡ c.kv.get t k)
      → c.ak.get_account s a ≡ c.ak.get_account t a
  pub has_account-get_account :
      (s : c.S) (a : Address) → c.ak.has_account s a ≡ is_some (c.ak.get_account s a)
  pub get_account-set_account :
      (acc : c.Account) (s : c.S) (a : Address)
      → c.ak.get_account (c.ak.set_account acc s) a
        ≡ (if address acc == a then some acc else c.ak.get_account s a)
  pub get_account-remove_account :
      (acc : c.Account) (s : c.S) (a : Address)
      → c.ak.get_account (c.ak.remove_account acc s) a
        ≡ (if address acc == a then none else c.ak.get_account s a)
  pub get_account-new_account :
      (s : c.S) (addr a : Address)
      → c.ak.get_account ((c.ak.new_account_with_address s addr).0) a ≡ c.ak.get_account s a
  pub address-new_account :
      (s : c.S) (addr : Address) → address ((c.ak.new_account_with_address s addr).1) ≡ addr
  pub address-get_account :
      (s : c.S) (a : Address) (acc : c.Account) → c.ak.get_account s a ≡ some acc → address acc ≡ a
  pub set_sequence_ok : (acc : c.Account) (n : ℕ) → (c.ak.set_sequence acc n).1 ≡ none
  pub get_sequence-set_sequence :
      (acc : c.Account) (n : ℕ) → c.ak.get_sequence ((c.ak.set_sequence acc n).0) ≡ n
  pub address-set_sequence :
      (acc : c.Account) (n : ℕ) → address ((c.ak.set_sequence acc n).0) ≡ address acc

pub record ChainLaw (c : Chain) : Type 0 where
  pub kv_law : CacheKvLaw c.kv
  pub enc_law : EncodingLaw c.enc
  pub ak_law : AccountKeeperLaw c
  pub stores_apart : c.ak.store_key ≢ c.store_key

module _ (c : Chain) (laws : ChainLaw c) where
  abbrev view : Plugin c → StoreView c.kv
  view = shown c laws.kv_law

  -- `s` reads as the account store of the plugin does, and holds `o` for the address.
  abbrev pub HasEntry : Plugin c → Address → Option c.Account → Type 0
  HasEntry p a o =
      (s : c.S) × (reads_of c.kv (some s) ≡ view p c.ak.store_key) × (c.ak.get_account s a ≡ o)

  same_account :
      (s t : c.S) (a : Address)
      → reads_of c.kv (some s) ≡ reads_of c.kv (some t)
      → c.ak.get_account s a ≡ c.ak.get_account t a
  same_account s t a e =
      laws.ak_law.get_account-reads s t a
        (λ k. let h : some (c.kv.get s k) ≡ some (c.kv.get t k) = ap (λ r. r k) e in cc)

  -- There is one entry for an address, and it is kept where the plugin shows the same.
  pub HasEntry-same :
      (p q : Plugin c) (a : Address) (o : Option c.Account)
      → view q c.ak.store_key ≡ view p c.ak.store_key
      → HasEntry p a o
      → HasEntry q a o
  HasEntry-same p q a o e (s, reads, is) = (s, reads ∙ sym e, is)

  abbrev pub Kept : Plugin c → Plugin c → List (ℤ × StoreView c.kv) → Type 0
  Kept p q ps = (view q ≡ view p) × (q.cms.read_only ≡ p.cms.read_only) × PluginGuards c q ps

  -- A read of the account store sees the entry.
  pub read_entry :
      {A : Type 0} (f : c.S → A) (g : Option c.Account → A) (a : Address) (o : Option c.Account)
      (p : Plugin c) (ps : List (ℤ × StoreView c.kv))
      → ((s : c.S) → f s ≡ g (c.ak.get_account s a))
      → HasEntry p a o
      → PluginGuards c p ps
      → (cms : Store c.S) × (kv_read c c.ak.store_key f p ≡ ok (with_cms c laws.kv_law p cms, g o))
        × Kept p (with_cms c laws.kv_law p cms) ps
  read_entry f g a o p ps is (t, reads_t, entry) guards =
      let (cms, s, e, reads, same, ro, guards') =
        kv_read-PluginGuards c laws.kv_law accounts f p ps guards in
      (
        cms,
        e
            ∙ ap (λ v. ok (with_cms c laws.kv_law p cms, v))
                (is s ∙ ap g (same_account s t a (reads ∙ sym reads_t) ∙ entry)),
        (same, ro, guards'),
      )

  -- What a write to the account store leaves, with `change` for what it does to the entries.
  abbrev pub Changed :
      Plugin c
      → Plugin c
      → (Address → Option c.Account → Option c.Account)
      → List (ℤ × StoreView c.kv)
      → Type 0
  Changed p q change ps =
      ((a : Address) (o : Option c.Account) → HasEntry p a o → HasEntry q a (change a o))
      × (view q c.store_key ≡ view p c.store_key)
      × (q.cms.read_only ≡ p.cms.read_only)
      × PluginGuards c q ps

  pub write_entry :
      (f : c.S → c.S) (change : Address → Option c.Account → Option c.Account) (p : Plugin c)
      (ps : List (ℤ × StoreView c.kv))
      → ((s : c.S) (a : Address) → c.ak.get_account (f s) a ≡ change a (c.ak.get_account s a))
      → p.cms.read_only ≡ false
      → PluginGuards c p ps
      → (cms : Store c.S) × (kv_write c c.ak.store_key f p ≡ ok (with_cms c laws.kv_law p cms))
        × Changed p (with_cms c laws.kv_law p cms) change ps
  write_entry f change p ps is writable guards =
      let (cms, s, e, reads, put, ro, guards') =
        kv_write-PluginGuards c laws.kv_law accounts f p ps writable guards in
      (
        cms,
        e,
        (
          λ a o (t, reads_t, entry). (
            f s,
            sym (put c.ak.store_key ∙ if_same c.ak.store_key _ _),
            is s a ∙ ap (change a) (same_account s t a (reads ∙ sym reads_t) ∙ entry),
          ),
          put c.store_key ∙ if_other c.ak.store_key c.store_key _ _ laws.stores_apart,
          ro,
          guards',
        ),
      )

  abbrev pub put_entry : c.Account → Address → Option c.Account → Option c.Account
  put_entry acc a o = if laws.ak_law.address acc == a then some acc else o

  pub set_account-Changed :
      (acc : c.Account) (p : Plugin c) (ps : List (ℤ × StoreView c.kv))
      → p.cms.read_only ≡ false
      → PluginGuards c p ps
      → (cms : Store c.S) × (set_account c acc p ≡ ok (with_cms c laws.kv_law p cms))
        × Changed p (with_cms c laws.kv_law p cms) (put_entry acc) ps
  unfolding set_account
  set_account-Changed acc p ps writable guards =
      write_entry (c.ak.set_account acc) (put_entry acc) p ps
        (λ s a. laws.ak_law.get_account-set_account acc s a) writable guards

  -- A new account takes its number from the keeper and is not in the store yet.
  pub new_account-Changed :
      (addr : Address) (p : Plugin c) (ps : List (ℤ × StoreView c.kv))
      → p.cms.read_only ≡ false
      → PluginGuards c p ps
      → (cms : Store c.S) × (acc : c.Account) × (new_account_with_address c addr p
          ≡ ok (with_cms c laws.kv_law p cms, acc))
        × (laws.ak_law.address acc ≡ addr)
        × Changed p (with_cms c laws.kv_law p cms) (λ _ o. o) ps
  unfolding new_account_with_address
  new_account-Changed addr p ps writable guards =
      let (cms1, s1, e1, _, same1, ro1, guards1) =
        kv_read-PluginGuards c laws.kv_law accounts (λ s. (c.ak.new_account_with_address s addr).1)
          p ps guards in
      let p1 = with_cms c laws.kv_law p cms1 in
      let (cms2, e2, (entries, store, ro2, guards2)) =
        write_entry (λ s. (c.ak.new_account_with_address s addr).0) (λ _ o. o) p1 ps
          (λ s a. laws.ak_law.get_account-new_account s addr a) (ro1 ∙ writable) guards1 in
      (
        cms2,
        (c.ak.new_account_with_address s1 addr).1,
        rw (e1, e2) refl,
        laws.ak_law.address-new_account s1 addr,
        (
          λ a o entry.
              entries a o (HasEntry-same p p1 a o (ap (λ v. v c.ak.store_key) same1) entry),
          store ∙ ap (λ v. v c.store_key) same1,
          ro2 ∙ ro1,
          guards2,
        ),
      )
