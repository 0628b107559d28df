-- ===== src/Plugin/Safe.antt =====
-- Calls that succeed and keep the plugin's invariant: those that reach its stores and balances.
use molaris.Prelude.{
  ◌≡◌, refl, sym, ◌∙◌, subst, false, none, some, List, [], ◌∷◌, ◌++◌, ℤ, Exec, ok, lookup, nat_eq,
}
use molaris.Store.{Store}
use molaris.Store.Views.{CacheKvLaw}
use molaris.Store.Maps.{StoreGuards}
use molaris.Store.Guards.{get_kv_store-StoreGuards, change-StoreGuards}
use molaris.Bank
use molaris.Bank.Guards.{BankGuards, get_cur_state-BankGuards, set_balance-BankGuards}
use molaris.Journal.{Address}
use molaris.Plugin.{Chain, Plugin, kv_read, kv_write, get_balance, set_balance}
use molaris.Plugin.Guards.{Part, key_of}
use molaris.Plugin.Sound.{
  IsSound, IsSound-store, IsSound-bank, store_column, bank_column, mounted_part,
}
use molaris.Plugin.Restore.{PluginView}

module _ (c : Chain) (law : CacheKvLaw c.kv) where
  -- A call that succeeds and keeps the invariant wherever the multi-store may be written.
  abbrev pub IsSafe : {A : Type 0} → (Plugin c → Exec (Plugin c × A)) → Type 0
  IsSafe {A} call =
      (p : Plugin c) (ps : List (ℤ × PluginView c))
      → p.cms.read_only ≡ false
      → IsSound c law p ps
      → (q : Plugin c) × (a : A) × (call p ≡ ok (q, a))
        × (q.cms.read_only ≡ false)
        × IsSound c law q ps

  abbrev pub IsSafeStep : (Plugin c → Exec (Plugin c)) → Type 0
  IsSafeStep call =
      (p : Plugin c) (ps : List (ℤ × PluginView c))
      → p.cms.read_only ≡ false
      → IsSound c law p ps
      → (q : Plugin c) × (call p ≡ ok q) × (q.cms.read_only ≡ false) × IsSound c law q ps

  same_store :
      {A : Type 0} (x y : Store c.S) (a b : A)
      → ◌≡◌ {A = Exec (Store c.S × A)} (ok (x, a)) (ok (y, b))
      → x ≡ y
  same_store x y a b e = cc

  pub kv_read-IsSafe :
      {A : Type 0} (part : Part) (f : c.S → A) → IsSafe (kv_read c (key_of c law part) f)
  unfolding kv_read
  kv_read-IsSafe part f p ps writable s =
      let (b, mount) = mounted_part c law part p ps s in
      let (qs, g) = store_column c law p ps s.guarded in
      let (cms, t, e, _, _, same, ro, _) =
        get_kv_store-StoreGuards c.kv law p.cms (key_of c law part) b qs mount g in
      (
        record p { cms = cms },
        f t,
        rw e refl,
        ro ∙ writable,
        IsSound-store c law p cms ps same ro
            (λ rs k.
              let (cms', t', e', _, _, _, _, k') =
                get_kv_store-StoreGuards c.kv law p.cms (key_of c law part) b rs mount k in
              subst (λ x. StoreGuards c.kv x rs) (same_store cms' cms t' t (sym e' ∙ e)) k')
            s,
      )

  pub kv_write-IsSafe :
      (part : Part) (f : c.S → c.S) → IsSafeStep (kv_write c (key_of c law part) f)
  unfolding kv_write
  kv_write-IsSafe part f p ps writable s =
      let (b, mount) = mounted_part c law part p ps s in
      let (qs, g) = store_column c law p ps s.guarded in
      let (cms, t, e, _, _, same, ro, _) =
        change-StoreGuards c.kv law f p.cms (key_of c law part) b qs mount writable g in
      (
        record p { cms = cms },
        rw e refl,
        ro ∙ writable,
        IsSound-store c law p cms ps same ro
            (λ rs k.
              let (cms', t', e', _, _, _, _, k') =
                change-StoreGuards c.kv law f p.cms (key_of c law part) b rs mount writable k in
              let is : cms' ≡ cms = cc (e, e') in subst (λ x. StoreGuards c.kv x rs) is k')
            s,
      )

  pub get_balance-IsSafe : (addr : Address) → IsSafe (get_balance c addr)
  unfolding get_balance Bank.get_balance
  get_balance-IsSafe addr p ps writable s =
      let (qs, g) = bank_column c law p ps s.guarded in
      let (bm, below, top, e, _, _, _) = get_cur_state-BankGuards p.bm qs g in
      (
        record p { bm = bm },
        elim (lookup addr top.dirty_balances) [ some b ↦ b | none ↦ c.bk.balance p.cms addr ],
        rw e refl,
        writable,
        IsSound-bank c law p bm ps
            (λ rs k.
              let (bm', below', top', e', _, _, layers) = get_cur_state-BankGuards p.bm rs k in
              let is : bm' ≡ bm = cc (e, e') in
              subst (λ m. BankGuards m rs) is
                (record { states = below' ++ top' ∷ []; layers = layers }))
            s,
      )

  pub set_balance-IsSafe : (addr : Address) (amount : ℤ) → IsSafeStep (set_balance c addr amount)
  unfolding set_balance
  set_balance-IsSafe addr amount p ps writable s =
      let (qs, g) = bank_column c law p ps s.guarded in
      let (bm, e, _) = set_balance-BankGuards c.bk p.bm p.cms addr amount qs g in
      (
        record p { bm = bm },
        rw e refl,
        writable,
        IsSound-bank c law p bm ps
            (λ rs k.
              let (bm', e', k') = set_balance-BankGuards c.bk p.bm p.cms addr amount rs k in
              let is : bm' ≡ bm = cc (e, e') in subst (λ m. BankGuards m rs) is k')
            s,
      )
