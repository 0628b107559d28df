-- ===== src/Plugin/Controlled.antt =====
-- The plugin as a `Controllable`: its methods are those of the snapshot controller that it embeds, in
-- which `Reset` registers the multi-store, the event manager and the bank manager.
use molaris.Prelude.{ℕ, List, [], ◌∷◌, ℤ, Exec, ◌>>=◌, nil_access, ok, panics, nat_eq}
use molaris.Snapshot
use molaris.Snapshot.{Controllable, Controller}
use molaris.Store
use molaris.Store.{Store}
use molaris.Bank
use molaris.Events
use molaris.Registry
use molaris.Plugin.{Chain, Plugin}

-- The registry keys of the three objects, by number.
abbrev pub store_registry_key : ℕ
store_registry_key = 0

abbrev pub manager_registry_key : ℕ
manager_registry_key = 1

abbrev pub bank_registry_key : ℕ
bank_registry_key = 2

module _ (c : Chain) where
  pub data Object : Type 0 where
    multi_store : Store c.S → Object
    event_manager : Events.Manager c.Event c.LogsDb → Object
    bank_manager : Bank.Manager → Object

  unfoldable pub object_key : Object → ℕ
  object_key (multi_store s) = store_registry_key
  object_key (event_manager m) = manager_registry_key
  object_key (bank_manager m) = bank_registry_key

  unfoldable pub snapshot_object : Object → Exec (Object × ℤ)
  snapshot_object (multi_store s) = Store.snapshot c.kv s >>= λ r. ok (multi_store r.0, r.1)
  snapshot_object (event_manager m) = Events.snapshot c.plf m >>= λ r. ok (event_manager r.0, r.1)
  snapshot_object (bank_manager m) = Bank.snapshot m >>= λ r. ok (bank_manager r.0, r.1)

  unfoldable pub revert_object : Object → ℤ → Exec Object
  revert_object (multi_store s) id = Store.revert_to_snapshot c.kv s id >>= λ r. ok (multi_store r)
  revert_object (event_manager m) id =
      Events.revert_to_snapshot c.plf m id >>= λ r. ok (event_manager r)
  revert_object (bank_manager m) id = Bank.revert_to_snapshot m id >>= λ r. ok (bank_manager r)

  unfoldable pub finalize_object : Object → Exec Object
  finalize_object (multi_store s) = Store.finalize c.kv s >>= λ r. ok (multi_store r)
  finalize_object (event_manager m) = ok (event_manager (Events.finalize c.plf m))
  finalize_object (bank_manager m) = ok (bank_manager (Bank.finalize m))

  abbrev pub methods : Controllable ℕ Object
  methods = record {
    registry_key = object_key;
    snapshot = snapshot_object;
    revert_to_snapshot = revert_object;
    finalize = finalize_object;
  }

  -- The three `Register` calls of `Reset`.
  abbrev pub registered : Plugin c → List (ℕ × Object)
  registered p =
      Registry.register object_key
        (Registry.register object_key (Registry.register object_key [] (multi_store p.cms))
          (event_manager p.cem))
        (bank_manager p.bm)

  -- The embedded controller: it holds pointers to the plugin's own objects.
  abbrev pub controller : Plugin c → Controller ℕ Object
  controller p = record { items = registered p; journal = p.journal }

  -- The plugin once the controller has called its objects.
  abbrev pub with_items : Plugin c → List (ℕ × Object) → Exec (Plugin c)
  with_items p ((_, multi_store s) ∷ (_, event_manager e) ∷ (_, bank_manager b) ∷ []) =
      ok (record p { cms = s; cem = e; bm = b })
  with_items p _ = panics nil_access

  abbrev pub with_controller : Plugin c → Controller ℕ Object → Exec (Plugin c)
  with_controller p ctrl = with_items (record p { journal = ctrl.journal }) ctrl.items

  unfoldable pub snapshot : Plugin c → Exec (Plugin c × ℤ)
  snapshot p = do
    r ← Snapshot.snapshot methods (controller p)
    q ← with_controller p r.0
    ok (q, r.1)

  unfoldable pub revert_to_snapshot : Plugin c → ℤ → Exec (Plugin c)
  revert_to_snapshot p id =
      Snapshot.revert_to_snapshot methods (controller p) id >>= with_controller p

  unfoldable pub finalize : Plugin c → Exec (Plugin c)
  finalize p = Snapshot.finalize methods (controller p) >>= with_controller p
