-- ===== src/Plugin/Guards.antt =====
-- How the plugin's reads and writes stand to what its multi-store shows.
use molaris.Prelude.{
  ℕ, ◌≡◌, refl, ap, ◌∙◌, ◌≢◌, false, some, List, ◌==◌, if◌then◌else◌, ne→==, ==_iff, ℤ, ok, lookup,
  nat_eq,
}
use molaris.Store.{StoreKey, Store}
use molaris.Store.Views.{CacheKvLaw, StoreView, reads_of}
use molaris.Store.Maps.{StoreGuards, store_view}
use molaris.Store.Guards.{get_kv_store-StoreGuards, change-StoreGuards}
use molaris.Plugin.{Chain, Plugin, kv_read, kv_write}

-- The stores that the plugin and the account keeper use are mounted, and the multi-store guards the
-- restore points `ps`.
pub record PluginGuards (c : Chain) (p : Plugin c) (ps : List (ℤ × StoreView c.kv)) : Type 0 where
  pub base : c.S
  pub mounted : lookup c.store_key p.cms.committed ≡ some base
  pub account_base : c.S
  pub account_mounted : lookup c.ak.store_key p.cms.committed ≡ some account_base
  pub guarded : StoreGuards c.kv p.cms ps

-- The two stores of the plugin.
pub data Part : Type 0 where
  evm accounts : Part

-- A case on a key's own comparison, and on the comparison with another key.
pub if_same : {A : Type 0} (k : ℕ) (a b : A) → (if k == k then a else b) ≡ a
if_same k a b = rw ((==_iff k k).1 refl) refl

pub if_other : {A : Type 0} (k j : ℕ) (a b : A) → k ≢ j → (if k == j then a else b) ≡ b
if_other k j a b n = rw (ne→== k j n) refl

module _ (c : Chain) (law : CacheKvLaw c.kv) where
  abbrev pub key_of : Part → StoreKey
  key_of evm = c.store_key
  key_of accounts = c.ak.store_key

  -- What the plugin's multi-store shows.
  abbrev pub shown : Plugin c → StoreView c.kv
  shown p = store_view c.kv p.cms

  base_of :
      (part : Part) (p : Plugin c) (ps : List (ℤ × StoreView c.kv))
      → PluginGuards c p ps
      → (b : c.S) × (lookup (key_of part) p.cms.committed ≡ some b)
  base_of evm p ps g = (g.base, g.mounted)
  base_of accounts p ps g = (g.account_base, g.account_mounted)

  -- A plugin that differs only in its multi-store.
  abbrev pub with_cms : Plugin c → Store c.S → Plugin c
  with_cms p cms = record p { cms = cms }

  moved :
      (p : Plugin c) (ps qs : List (ℤ × StoreView c.kv)) (cms : Store c.S)
      → PluginGuards c p ps
      → cms.committed ≡ p.cms.committed
      → StoreGuards c.kv cms qs
      → PluginGuards c (with_cms p cms) qs
  moved p ps qs cms g e guarded = record {
    base = g.base;
    mounted = ap (lookup c.store_key) e ∙ g.mounted;
    account_base = g.account_base;
    account_mounted = ap (lookup c.ak.store_key) e ∙ g.account_mounted;
    guarded = guarded;
  }

  -- What is known of the plugin after a read of a store: it shows what it showed.
  abbrev pub Viewed :
      {A : Type 0} → Part → (c.S → A) → Plugin c → List (ℤ × StoreView c.kv) → Type 0
  Viewed part f p ps =
      (cms : Store c.S) × (s : c.S) × (kv_read c (key_of part) f p ≡ ok (with_cms p cms, f s))
      × (reads_of c.kv (some s) ≡ shown p (key_of part))
      × (store_view c.kv cms ≡ shown p)
      × (cms.read_only ≡ p.cms.read_only)
      × PluginGuards c (with_cms p cms) ps

  pub kv_read-PluginGuards :
      {A : Type 0} (part : Part) (f : c.S → A) (p : Plugin c) (ps : List (ℤ × StoreView c.kv))
      → PluginGuards c p ps
      → Viewed part f p ps
  unfolding kv_read
  kv_read-PluginGuards part f p ps g =
      let (b, mount) = base_of part p ps g in
      let (cms, s, e, reads, same, kept, ro, guarded) =
        get_kv_store-StoreGuards c.kv law p.cms (key_of part) b ps mount g.guarded in
      (cms, s, rw e refl, reads, same, ro, moved p ps ps cms g kept guarded)

  -- After a write, the store that is written shows what the write made of it, and the others what
  -- they showed.
  abbrev pub Altered : Part → (c.S → c.S) → Plugin c → List (ℤ × StoreView c.kv) → Type 0
  Altered part f p ps =
      (cms : Store c.S) × (s : c.S) × (kv_write c (key_of part) f p ≡ ok (with_cms p cms))
      × (reads_of c.kv (some s) ≡ shown p (key_of part))
      × ((j : StoreKey)
          → store_view c.kv cms j
            ≡ (if key_of part == j then reads_of c.kv (some (f s)) else shown p j))
      × (cms.read_only ≡ p.cms.read_only)
      × PluginGuards c (with_cms p cms) ps

  pub kv_write-PluginGuards :
      (part : Part) (f : c.S → c.S) (p : Plugin c) (ps : List (ℤ × StoreView c.kv))
      → p.cms.read_only ≡ false
      → PluginGuards c p ps
      → Altered part f p ps
  unfolding kv_write
  kv_write-PluginGuards part f p ps writable g =
      let (b, mount) = base_of part p ps g in
      let (cms, s, e, reads, put, kept, ro, guarded) =
        change-StoreGuards c.kv law f p.cms (key_of part) b ps mount writable g.guarded in
      (cms, s, rw e refl, reads, put, ro, moved p ps ps cms g kept guarded)
