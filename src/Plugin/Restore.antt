-- ===== src/Plugin/Restore.antt =====
-- A snapshot of the plugin and its revert: the controller brings all three objects back together.
use molaris.Prelude.{ℕ, ◌≡◌, refl, sym, subst, Bool, List, [], ◌∷◌, map, ℤ, ok, insert, nat_eq}
use mathlib.Core.Path.{ap₂}
use molaris.Registry
use molaris.Snapshot.Guards.{
  ControllerGuards, views, snapshot-ControllerGuards, revert-ControllerGuards,
  forget-ControllerGuards,
}
use molaris.Store.{StoreKey}
use molaris.Store.Views.{CacheKvLaw, StoreView}
use molaris.Store.Maps.{store_view}
use molaris.Bank.Guards.{BankView, bank_view}
use molaris.Plugin.{Chain, Plugin}
use molaris.Plugin.Controlled.{
  Object, multi_store, event_manager, bank_manager, methods, registered, with_items, snapshot,
  revert_to_snapshot, store_registry_key, manager_registry_key, bank_registry_key, object_key,
}
use molaris.Plugin.Objects.{ObjectView, of_store, of_events, of_bank, objects_law}

-- What the plugin shows: the stores it stands on, whether it may write to them, the values in its multi-store, the events and the
-- balance changes.
pub record PluginView (c : Chain) : Type 0 where
  pub committed : List (StoreKey × c.S)
  pub read_only : Bool
  pub values : StoreView c.kv
  pub events : List c.Event
  pub changes : BankView

module _ (c : Chain) (law : CacheKvLaw c.kv) where
  abbrev pub plugin_view : Plugin c → PluginView c
  plugin_view p = record {
    committed = p.cms.committed;
    read_only = p.cms.read_only;
    values = store_view c.kv p.cms;
    events = p.cem.events;
    changes = bank_view p.bm;
  }

  -- The same as the views of the controller's objects.
  abbrev pub listed : PluginView c → List (ℕ × ObjectView c law)
  listed v =
      (store_registry_key, of_store v.committed v.read_only v.values)
      ∷ (manager_registry_key, of_events v.events)
      ∷ (bank_registry_key, of_bank v.changes)
      ∷ []

  abbrev pub entries : Plugin c → List (ℕ × Object c)
  entries p =
      (store_registry_key, multi_store p.cms)
      ∷ (manager_registry_key, event_manager p.cem)
      ∷ (bank_registry_key, bank_manager p.bm)
      ∷ []

  pub registered-entries : (p : Plugin c) → registered c p ≡ entries p
  unfolding Registry.register insert object_key
  registered-entries p = refl

  -- The restore points that the controller guards, each with what the plugin showed.
  abbrev pub IsGuarded : Plugin c → List (ℤ × PluginView c) → Type 0
  IsGuarded p ps =
      ControllerGuards (methods c) (objects_law c law)
        (record { items = entries p; journal = p.journal }) (map (λ q. (q.0, listed q.1)) ps)

  -- Objects that show a plugin's view are those of a plugin.
  with_items-listed :
      (p : Plugin c) (items : List (ℕ × Object c)) (v : PluginView c)
      → views (methods c) (objects_law c law) items ≡ listed v
      → (q : Plugin c) × (with_items c p items ≡ ok q)
        × (entries q ≡ items)
        × (q.journal ≡ p.journal)
        × (plugin_view q ≡ v)
  with_items-listed p [] v e = absurd (cc)
  with_items-listed p ((k, event_manager m) ∷ items) v e = absurd (cc)
  with_items-listed p ((k, bank_manager m) ∷ items) v e = absurd (cc)
  with_items-listed p ((k, multi_store s) ∷ []) v e = absurd (cc)
  with_items-listed p ((k, multi_store s) ∷ (l, multi_store t) ∷ items) v e = absurd (cc)
  with_items-listed p ((k, multi_store s) ∷ (l, bank_manager t) ∷ items) v e = absurd (cc)
  with_items-listed p ((k, multi_store s) ∷ (l, event_manager m) ∷ []) v e = absurd (cc)
  with_items-listed p ((k, multi_store s) ∷ (l, event_manager m) ∷ (j, multi_store t) ∷ items) v e =
      absurd (cc)
  with_items-listed p ((k, multi_store s) ∷ (l, event_manager m) ∷ (j, event_manager t) ∷ items) v
        e =
      absurd (cc)
  with_items-listed p ((k, multi_store s) ∷ (l, event_manager m) ∷ (j, bank_manager b) ∷ x ∷ items)
        v e =
      absurd (cc)
  with_items-listed p ((k, multi_store s) ∷ (l, event_manager m) ∷ (j, bank_manager b) ∷ []) v e =
      let ek : k ≡ store_registry_key = cc in
      let el : l ≡ manager_registry_key = cc in
      let ej : j ≡ bank_registry_key = cc in
      let ec : s.committed ≡ v.committed = cc in
      let er : s.read_only ≡ v.read_only = cc in
      let es : store_view c.kv s ≡ v.values = cc in
      let em : m.events ≡ v.events = cc in
      let eb : bank_view b ≡ v.changes = cc in
      (
        record p { cms = s; cem = m; bm = b },
        refl,
        rw (ek, el, ej) refl,
        refl,
        same_view (record p { cms = s; cem = m; bm = b }) v ec er es em eb,
      )
    where
      same_view :
          (q : Plugin c) (w : PluginView c)
          → q.cms.committed ≡ w.committed
          → q.cms.read_only ≡ w.read_only
          → store_view c.kv q.cms ≡ w.values
          → q.cem.events ≡ w.events
          → bank_view q.bm ≡ w.changes
          → plugin_view q ≡ w
      same_view q w e1 r e2 e3 e4 =
          ap₂
            (λ (x : List (StoreKey × c.S) × Bool × StoreView c.kv) (y : List c.Event × BankView).
              record {
                committed = x.0;
                read_only = x.1;
                values = x.2;
                events = y.0;
                changes = y.1;
              })
            (ap₂ (λ a (b : Bool × StoreView c.kv). (a, b.0, b.1)) e1 (ap₂ (λ a b. (a, b)) r e2))
            (ap₂ (λ a b. (a, b)) e3 e4)

  -- A snapshot of the plugin changes nothing that is shown, and can be returned to.
  pub snapshot-IsGuarded :
      (p : Plugin c) (ps : List (ℤ × PluginView c))
      → IsGuarded p ps
      → (p' : Plugin c) × (id : ℤ) × (snapshot c p ≡ ok (p', id))
        × (plugin_view p' ≡ plugin_view p)
        × IsGuarded p' ((id, plugin_view p) ∷ ps)
  unfolding snapshot
  snapshot-IsGuarded p ps g =
      let (ctrl, id, e, shows, g') =
        snapshot-ControllerGuards (methods c) (objects_law c law) _ _ g in
      let (q, eq, is, j, v) =
        with_items-listed (record p { journal = ctrl.journal }) ctrl.items (plugin_view p) shows in
      (
        q,
        id,
        rw (registered-entries p, e, eq) refl,
        v,
        subst
            (λ x.
              ControllerGuards (methods c) (objects_law c law) x
                (map (λ r. (r.0, listed r.1)) ((id, plugin_view p) ∷ ps)))
            (ap₂ (λ a b. record { items = a; journal = b }) (sym is) (sym j)) g',
      )

  -- A revert to the newest snapshot brings back all that the plugin showed there: the values of every
  -- store, the events, and the balance changes that are to be committed.
  pub revert-IsGuarded :
      (p : Plugin c) (id : ℤ) (v : PluginView c) (ps : List (ℤ × PluginView c))
      → IsGuarded p ((id, v) ∷ ps)
      → (p' : Plugin c) × (revert_to_snapshot c p id ≡ ok p')
        × (plugin_view p' ≡ v)
        × IsGuarded p' ps
  unfolding revert_to_snapshot
  revert-IsGuarded p id v ps g =
      let (ctrl, e, shows, g') =
        revert-ControllerGuards (methods c) (objects_law c law) _ id (listed v) _ g in
      let (q, eq, is, j, w) =
        with_items-listed (record p { journal = ctrl.journal }) ctrl.items v shows in
      (
        q,
        rw (registered-entries p, e) eq,
        w,
        subst
            (λ x.
              ControllerGuards (methods c) (objects_law c law) x (map (λ r. (r.0, listed r.1)) ps))
            (ap₂ (λ a b. record { items = a; journal = b }) (sym is) (sym j)) g',
      )

  pub forget-IsGuarded :
      (p : Plugin c) (q : ℤ × PluginView c) (ps : List (ℤ × PluginView c))
      → IsGuarded p (q ∷ ps)
      → IsGuarded p ps
  forget-IsGuarded p q ps g = forget-ControllerGuards (methods c) (objects_law c law) _ _ _ g
