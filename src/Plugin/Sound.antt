-- ===== src/Plugin/Sound.antt =====
-- The invariant of the plugin, that its stores are mounted and its controller guards its restore
-- points.
use molaris.Prelude.{
  ◌≡◌, refl, sym, ap, ◌∙◌, subst, Option, some, List, [], map, ℤ, ok, lookup, insert, nat_eq,
}
use mathlib.Core.Path.{ap₂}
use molaris.Snapshot.Guards.{ControllerGuards}
use molaris.Snapshot.Change.{object-Guards, change_object-ControllerGuards}
use molaris.Store.{Store}
use molaris.Store.Views.{CacheKvLaw, StoreView}
use molaris.Store.Maps.{StoreGuards}
use molaris.Bank
use molaris.Bank.Guards.{BankView, BankGuards}
use molaris.Registry
use molaris.Plugin.{Chain, Plugin}
use molaris.Plugin.Guards.{Part, evm, accounts, key_of}
use molaris.Plugin.Controlled.{
  multi_store, bank_manager, methods, store_registry_key, bank_registry_key,
}
use molaris.Plugin.Objects.{of_store, objects_law}
use molaris.Plugin.Restore.{PluginView, listed, entries, IsGuarded}

module _ (c : Chain) (law : CacheKvLaw c.kv) where
  pub record IsSound (p : Plugin c) (ps : List (ℤ × PluginView c)) : Type 0 where
    pub base : c.S
    pub mounted : lookup c.store_key p.cms.committed ≡ some base
    pub account_base : c.S
    pub account_mounted : lookup c.ak.store_key p.cms.committed ≡ some account_base
    pub guarded : IsGuarded c law p ps

  -- Another multi-store in the place of the plugin's, which has all its restore points.
  IsGuarded-store :
      (p : Plugin c) (cms : Store c.S) (ps : List (ℤ × PluginView c))
      → cms.committed ≡ p.cms.committed
      → cms.read_only ≡ p.cms.read_only
      → ((qs : List (ℤ × StoreView c.kv)) → StoreGuards c.kv p.cms qs → StoreGuards c.kv cms qs)
      → IsGuarded c law p ps
      → IsGuarded c law (record p { cms = cms }) ps
  unfolding insert lookup Registry.get
  IsGuarded-store p cms ps same ro keeps g =
      let (t', e, _, g') =
        change_object-ControllerGuards (methods c) (objects_law c law) store_registry_key
          (λ _. ok (multi_store cms)) (multi_store p.cms) _ _ refl
          (λ ws (qs, ew, k). (
            multi_store cms,
            refl,
            (
              qs,
              ew ∙ ap₂ (λ m r. map (λ q. (q.0, of_store m r q.1)) qs) (sym same) (sym ro),
              keeps qs k,
            ),
          ))
          g in
      let is : t' ≡ multi_store cms = cc in
      subst
        (λ o.
          ControllerGuards (methods c) (objects_law c law)
            (record { items = insert store_registry_key o (entries c law p); journal = p.journal })
            (map (λ q. (q.0, listed c law q.1)) ps))
        is g'

  IsGuarded-bank :
      (p : Plugin c) (bm : Bank.Manager) (ps : List (ℤ × PluginView c))
      → ((qs : List (ℤ × BankView)) → BankGuards p.bm qs → BankGuards bm qs)
      → IsGuarded c law p ps
      → IsGuarded c law (record p { bm = bm }) ps
  unfolding insert lookup Registry.get
  IsGuarded-bank p bm ps keeps g =
      let (t', e, _, g') =
        change_object-ControllerGuards (methods c) (objects_law c law) bank_registry_key
          (λ _. ok (bank_manager bm)) (bank_manager p.bm) _ _ refl
          (λ ws (qs, ew, k). (bank_manager bm, refl, (qs, ew, keeps qs k))) g in
      let is : t' ≡ bank_manager bm = cc in
      subst
        (λ o.
          ControllerGuards (methods c) (objects_law c law)
            (record { items = insert bank_registry_key o (entries c law p); journal = p.journal })
            (map (λ q. (q.0, listed c law q.1)) ps))
        is g'

  -- The restore points of the multi-store alone, and of the bank manager alone.
  pub store_column :
      (p : Plugin c) (ps : List (ℤ × PluginView c))
      → IsGuarded c law p ps
      → (qs : List (ℤ × StoreView c.kv)) × StoreGuards c.kv p.cms qs
  unfolding lookup Registry.get
  store_column p ps g =
      let (ws, (qs, _, k)) =
        object-Guards (methods c) (objects_law c law) store_registry_key (multi_store p.cms) _ _
          refl g in
      (qs, k)

  pub bank_column :
      (p : Plugin c) (ps : List (ℤ × PluginView c))
      → IsGuarded c law p ps
      → (qs : List (ℤ × BankView)) × BankGuards p.bm qs
  unfolding lookup Registry.get
  bank_column p ps g =
      let (ws, (qs, _, k)) =
        object-Guards (methods c) (objects_law c law) bank_registry_key (bank_manager p.bm) _ _ refl
          g in
      (qs, k)

  pub mounted_part :
      (part : Part) (p : Plugin c) (ps : List (ℤ × PluginView c))
      → IsSound p ps
      → (b : c.S) × (lookup (key_of c law part) p.cms.committed ≡ some b)
  mounted_part evm p ps s = (s.base, s.mounted)
  mounted_part accounts p ps s = (s.account_base, s.account_mounted)

  pub IsSound-store :
      (p : Plugin c) (cms : Store c.S) (ps : List (ℤ × PluginView c))
      → cms.committed ≡ p.cms.committed
      → cms.read_only ≡ p.cms.read_only
      → ((qs : List (ℤ × StoreView c.kv)) → StoreGuards c.kv p.cms qs → StoreGuards c.kv cms qs)
      → IsSound p ps
      → IsSound (record p { cms = cms }) ps
  IsSound-store p cms ps same ro keeps s = record {
    base = s.base;
    mounted = ap (lookup c.store_key) same ∙ s.mounted;
    account_base = s.account_base;
    account_mounted = ap (lookup c.ak.store_key) same ∙ s.account_mounted;
    guarded = IsGuarded-store p cms ps same ro keeps s.guarded;
  }

  pub IsSound-bank :
      (p : Plugin c) (bm : Bank.Manager) (ps : List (ℤ × PluginView c))
      → ((qs : List (ℤ × BankView)) → BankGuards p.bm qs → BankGuards bm qs)
      → IsSound p ps
      → IsSound (record p { bm = bm }) ps
  IsSound-bank p bm ps keeps s = record {
    base = s.base;
    mounted = s.mounted;
    account_base = s.account_base;
    account_mounted = s.account_mounted;
    guarded = IsGuarded-bank p bm ps keeps s.guarded;
  }

  pub IsSound-saved_err :
      (p : Plugin c) (err : Option c.Error) (ps : List (ℤ × PluginView c))
      → IsSound p ps
      → IsSound (record p { saved_err = err }) ps
  IsSound-saved_err p err ps s = record {
    base = s.base;
    mounted = s.mounted;
    account_base = s.account_base;
    account_mounted = s.account_mounted;
    guarded = s.guarded;
  }

  -- The multi-store of a sound plugin, without its restore points.
  pub IsSound-StoreGuards :
      (p : Plugin c) (ps : List (ℤ × PluginView c)) → IsSound p ps → StoreGuards c.kv p.cms []
  IsSound-StoreGuards p ps s =
      let (qs, g) = store_column p ps s.guarded in
      record {
        maps = g.maps;
        are_maps = g.are_maps;
        layers = record { held = g.layers.held; marks = tt };
      }

  -- A plugin that stands on the same stores is as sound as what its controller guards.
  pub IsSound-restored :
      (p q : Plugin c) (ps qs : List (ℤ × PluginView c))
      → q.cms.committed ≡ p.cms.committed
      → IsGuarded c law q qs
      → IsSound p ps
      → IsSound q qs
  IsSound-restored p q ps qs same g s = record {
    base = s.base;
    mounted = ap (lookup c.store_key) same ∙ s.mounted;
    account_base = s.account_base;
    account_mounted = ap (lookup c.ak.store_key) same ∙ s.account_mounted;
    guarded = g;
  }
