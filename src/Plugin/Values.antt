-- ===== src/Plugin/Values.antt =====
-- The values in the plugin's own store, and what reads and writes of the store make of them.
use molaris.Prelude.{
  ◌≡◌, refl, sym, ap, ◌∙◌, ◌≢◌, inl, inr, false, Option, none, some, List, if◌then◌else◌,
  Bool-cases, ℤ, ok, eqb, bytes_eq, nat_eq,
}
use molaris.Store.{Bytes, Store}
use molaris.Store.Views.{StoreView}
use molaris.Plugin.{Chain, Plugin, kv_read, kv_write}
use molaris.Plugin.Guards.{
  PluginGuards, evm, shown, with_cms, kv_read-PluginGuards, kv_write-PluginGuards, if_same,
  if_other,
}
use molaris.Plugin.Entries.{ChainLaw, Kept}

module _ (c : Chain) (laws : ChainLaw c) where
  abbrev view : Plugin c → StoreView c.kv
  view = shown c laws.kv_law

  -- What the plugin's store holds under a key.
  abbrev pub HasValue : Plugin c → Bytes → Option Bytes → Type 0
  HasValue p k o = view p c.store_key k ≡ some o

  pub HasValue-PluginGuards :
      (p : Plugin c) (k : Bytes) (ps : List (ℤ × StoreView c.kv))
      → PluginGuards c p ps
      → (o : Option Bytes) × HasValue p k o
  HasValue-PluginGuards p k ps guards =
      let (cms, s, _, reads, _, _, _) =
        kv_read-PluginGuards c laws.kv_law evm (λ s. s) p ps guards in
      (c.kv.get s k, ap (λ r. r k) (sym reads))

  -- A read of the store sees the value.
  pub read_value :
      {A : Type 0} (g : Option Bytes → A) (k : Bytes) (o : Option Bytes) (p : Plugin c)
      (ps : List (ℤ × StoreView c.kv))
      → HasValue p k o
      → PluginGuards c p ps
      → (cms : Store c.S) × (kv_read c c.store_key (λ s. g (c.kv.get s k)) p
          ≡ ok (with_cms c laws.kv_law p cms, g o))
        × Kept c laws p (with_cms c laws.kv_law p cms) ps
  read_value g k o p ps value guards =
      let (cms, s, e, reads, same, ro, guards') =
        kv_read-PluginGuards c laws.kv_law evm (λ s. g (c.kv.get s k)) p ps guards in
      let found : some (c.kv.get s k) ≡ some o = ap (λ r. r k) reads ∙ value in
      let is : c.kv.get s k ≡ o = cc in
      (cms, e ∙ ap (λ x. ok (with_cms c laws.kv_law p cms, g x)) is, (same, ro, guards'))

  -- What a write to the store leaves, with `change` for what it does to the values.
  abbrev pub Rewritten :
      Plugin c
      → Plugin c
      → (Bytes → Option Bytes → Option Bytes)
      → List (ℤ × StoreView c.kv)
      → Type 0
  Rewritten p q change ps =
      ((k : Bytes) (o : Option Bytes) → HasValue p k o → HasValue q k (change k o))
      × (view q c.ak.store_key ≡ view p c.ak.store_key)
      × (q.cms.read_only ≡ p.cms.read_only)
      × PluginGuards c q ps

  pub write_value :
      (f : c.S → c.S) (change : Bytes → Option Bytes → Option Bytes) (p : Plugin c)
      (ps : List (ℤ × StoreView c.kv))
      → ((s : c.S) (k : Bytes) → c.kv.get (f s) k ≡ change k (c.kv.get s k))
      → p.cms.read_only ≡ false
      → PluginGuards c p ps
      → (cms : Store c.S) × (kv_write c c.store_key f p ≡ ok (with_cms c laws.kv_law p cms))
        × Rewritten p (with_cms c laws.kv_law p cms) change ps
  write_value f change p ps is writable guards =
      let (cms, s, e, reads, put, ro, guards') =
        kv_write-PluginGuards c laws.kv_law evm f p ps writable guards in
      (
        cms,
        e,
        (
          λ k o value.
              let found : some (c.kv.get s k) ≡ some o = ap (λ r. r k) reads ∙ value in
              let old : c.kv.get s k ≡ o = cc in
              ap (λ r. r k) (put c.store_key ∙ if_same c.store_key _ _)
              ∙ ap some (is s k ∙ ap (change k) old),
          put c.ak.store_key
              ∙ if_other c.store_key c.ak.store_key _ _ (λ same. laws.stores_apart (sym same)),
          ro,
          guards',
        ),
      )

  -- The writes that the plugin makes of single keys.
  abbrev pub put_at : Bytes → Option Bytes → Bytes → Option Bytes → Option Bytes
  put_at key v k o = if eqb key k then v else o

  pub put-Rewritten :
      (key v : Bytes) (p : Plugin c) (ps : List (ℤ × StoreView c.kv))
      → p.cms.read_only ≡ false
      → PluginGuards c p ps
      → (cms : Store c.S) × (kv_write c c.store_key (c.kv.put key v) p
          ≡ ok (with_cms c laws.kv_law p cms))
        × Rewritten p (with_cms c laws.kv_law p cms) (put_at key (some v)) ps
  put-Rewritten key v p ps writable guards =
      write_value (c.kv.put key v) (put_at key (some v)) p ps (λ s k. laws.kv_law.get-put key k v s)
        writable guards

  pub delete-Rewritten :
      (key : Bytes) (p : Plugin c) (ps : List (ℤ × StoreView c.kv))
      → p.cms.read_only ≡ false
      → PluginGuards c p ps
      → (cms : Store c.S) × (kv_write c c.store_key (c.kv.delete key) p
          ≡ ok (with_cms c laws.kv_law p cms))
        × Rewritten p (with_cms c laws.kv_law p cms) (put_at key none) ps
  delete-Rewritten key p ps writable guards =
      write_value (c.kv.delete key) (put_at key none) p ps (λ s k. laws.kv_law.get-delete key k s)
        writable guards

  -- Under the key that is written stands what was put there, and under any other what stood there.
  pub put_at-same : (key : Bytes) (v o : Option Bytes) → put_at key v key o ≡ v
  put_at-same key v o = rw ((bytes_eq.beq_iff key key).1 refl) refl

  pub put_at-other : (key k : Bytes) (v o : Option Bytes) → key ≢ k → put_at key v k o ≡ o
  put_at-other key k v o n = elim (Bool-cases (eqb key k)) [
    | inl e ↦ absurd (n ((bytes_eq.beq_iff key k).0 e))
    | inr e ↦ rw e refl
  ]
