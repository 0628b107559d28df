-- ===== src/Plugin/Start.antt =====
-- A plugin that is reset is sound, and what a clone of a plugin reads.
use molaris.Prelude.{◌≡◌, refl, ap, ◌∙◌, false, none, some, [], arith, ok, lookup, nat_eq}
use molaris.Stack
use molaris.Stack.Items.{new-Holds}
use molaris.Store
use molaris.Store.{Bytes, StoreKey, Store, get_committed_kv_store}
use molaris.Store.Views.{CacheKvLaw, reads_of}
use molaris.Store.Maps.{StoreGuards}
use molaris.Bank
use molaris.Bank.Guards.{BankGuards}
use molaris.Plugin.{Chain, Context, EncodingLaw, Plugin, reset, set_gas_config}
use molaris.Plugin.Copies.{Contexts, clone, context_of}
use molaris.Plugin.Guards.{PluginGuards, shown, with_cms}
use molaris.Plugin.Storage.{
  get_state, get_committed_state, get_state_from_store, slot_key, state_of,
}
use molaris.Plugin.Slots.{get_state-PluginGuards, slot_shown, slot_of}
use molaris.Plugin.Restore.{IsGuarded}
use molaris.Plugin.Sound.{IsSound}
use molaris.Journal.{Address, Hash}

module _ (c : Chain) (law : CacheKvLaw c.kv) where
  reset-StoreGuards : (ctx : Context c) → StoreGuards c.kv ((reset c ctx).cms) []
  unfolding reset set_gas_config Store.new_store_from
  reset-StoreGuards ctx = record {
    maps = [];
    are_maps = tt;
    layers = record { held = new-Holds none 16 (omega arith); marks = tt };
  }

  reset-BankGuards : (ctx : Context c) → BankGuards ((reset c ctx).bm) []
  unfolding reset set_gas_config Bank.new_manager
  reset-BankGuards ctx = record {
    states = [];
    layers = record { held = new-Holds Bank.empty_state 16 (omega arith); marks = tt };
  }

  reset-IsGuarded : (ctx : Context c) → IsGuarded c law (reset c ctx) []
  unfolding reset set_gas_config
  reset-IsGuarded ctx = record {
    distinct = ((refl, (refl, tt)), ((refl, tt), (tt, tt)));
    revisions = [];
    journaled = new-Holds [] 32 (omega arith);
    history = [];
    marked = tt;
    guarded = (
      [],
      [],
      refl,
      ([], refl, reset-StoreGuards ctx),
      ([], [], refl, ([], refl, tt), ([], [], refl, ([], refl, reset-BankGuards ctx), tt)),
    );
  }

  -- A reset of the plugin, on a context in which its two stores are mounted, establishes the
  -- invariant: no restore point yet, writable, no error saved, and each store shows what is committed.
  pub reset-IsSound :
      (ctx : Context c) (base account_base : c.S)
      → lookup c.store_key ctx.multi_store ≡ some base
      → lookup c.ak.store_key ctx.multi_store ≡ some account_base
      → IsSound c law (reset c ctx) []
        × ((reset c ctx).cms.read_only ≡ false)
        × ((reset c ctx).saved_err ≡ none)
        × ((key : StoreKey)
            → shown c law (reset c ctx) key ≡ reads_of c.kv (lookup key ctx.multi_store))
  unfolding reset set_gas_config Store.new_store_from Stack.new lookup
  reset-IsSound ctx base account_base m1 m2 = (
    record {
      base = base;
      mounted = m1;
      account_base = account_base;
      account_mounted = m2;
      guarded = reset-IsGuarded ctx;
    },
    refl,
    refl,
    λ key. refl,
  )

-- The SDK's `CacheContext`: the stores of the new context are those of the old one, and read the same.
pub record ContextsLaw (c : Chain) (contexts : Contexts c) : Type 0 where
  pub branched :
      (ctx : Context c) (key : StoreKey) (s : c.S)
      → lookup key ctx.multi_store ≡ some s
      → (t : c.S) × (lookup key (contexts.cache_context ctx).multi_store ≡ some t)
        × ((k : Bytes) → c.kv.get t k ≡ c.kv.get s k)

module _ (c : Chain) (law : CacheKvLaw c.kv) (enc : EncodingLaw c.enc) (contexts : Contexts c)
    (branches : ContextsLaw c contexts) where
  pub reset-PluginGuards :
      (ctx : Context c) (base account_base : c.S)
      → lookup c.store_key ctx.multi_store ≡ some base
      → lookup c.ak.store_key ctx.multi_store ≡ some account_base
      → PluginGuards c (reset c ctx) []
  unfolding reset set_gas_config Store.new_store_from
  reset-PluginGuards ctx base account_base m1 m2 = record {
    base = base;
    mounted = m1;
    account_base = account_base;
    account_mounted = m2;
    guarded = reset-StoreGuards c law ctx;
  }

  shown_in_clone :
      (ctx : Context c) (t t' : c.S) (addr : Address) (slot : Hash)
      → lookup c.store_key ctx.multi_store ≡ some t
      → lookup c.ak.store_key ctx.multi_store ≡ some t'
      → slot_shown c law enc (shown c law (reset c ctx)) addr slot
        ≡ state_of c (c.kv.get t (slot_key c addr slot))
  shown_in_clone ctx t t' addr slot e e' =
      let (_, _, _, shows) = reset-IsSound c law ctx t t' e e' in
      ap (λ r. slot_of c law enc (r (slot_key c addr slot)))
        (shows c.store_key ∙ ap (reads_of c.kv) e)

  -- A clone reads the committed value of every slot, whatever has been written to the plugin since its
  -- reset: `Clone` branches the stores that the plugin's multi-store stands on.
  pub get_state-clone :
      (p : Plugin c) (base account_base : c.S) (addr : Address) (slot : Hash)
      → lookup c.store_key p.cms.committed ≡ some base
      → lookup c.ak.store_key p.cms.committed ≡ some account_base
      → (q : Plugin c) × (value : Hash) × (get_state c addr slot (clone c contexts p)
          ≡ ok (q, value))
        × (get_committed_state c addr slot p ≡ ok value)
  unfolding clone get_committed_state get_state_from_store get_committed_kv_store
  get_state-clone p base account_base addr slot m1 m2 =
      let ctx = contexts.cache_context (context_of c contexts p) in
      let (t, e1, reads) = branches.branched (context_of c contexts p) c.store_key base m1 in
      let (t', e2, _) =
        branches.branched (context_of c contexts p) c.ak.store_key account_base m2 in
      let (cms, e, _, _, _) =
        get_state-PluginGuards c law enc (reset c ctx) addr slot []
          (reset-PluginGuards ctx t t' e1 e2) in
      (
        with_cms c law (reset c ctx) cms,
        state_of c (c.kv.get base (slot_key c addr slot)),
        e
            ∙ ap (λ v. ok (with_cms c law (reset c ctx) cms, v))
                (shown_in_clone ctx t t' addr slot e1 e2
                  ∙ ap (state_of c) (reads (slot_key c addr slot))),
        rw m1 refl,
      )
