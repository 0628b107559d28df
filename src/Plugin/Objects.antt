-- ===== src/Plugin/Objects.antt =====
-- The three objects of the plugin's controller keep the contract of a `Controllable`.
use molaris.Prelude.{
  ◌≡◌, refl, sym, ap, ◌∙◌, Bool, List, ◌∷◌, map, arith, length, take_all, ℤ, pos, ok,
}
use mathlib.Core.Path.{ap₂}
use molaris.Snapshot.Interface.{Restorable}
use molaris.Snapshot.Kinds.{Lifted, forget-Lifted, newest-Lifted}
use molaris.Journal.Marks.{Marks-weaken}
use molaris.Store
use molaris.Store.{StoreKey}
use molaris.Store.Views.{CacheKvLaw, StoreView}
use molaris.Store.Maps.{StoreGuards, store_view, forget-StoreGuards}
use molaris.Store.Guards.{snapshot-StoreGuards, revert-StoreGuards}
use molaris.Events
use molaris.Events.Guards.{EventGuards, revert-EventGuards}
use molaris.Bank.Guards.{
  BankView, BankGuards, bank_view, forget-BankGuards, snapshot-BankGuards, revert-BankGuards,
}
use molaris.Plugin.{Chain}
use molaris.Plugin.Controlled.{
  Object, multi_store, event_manager, bank_manager, methods, snapshot_object, revert_object,
}

module _ (c : Chain) (law : CacheKvLaw c.kv) where
  -- What an object shows; for the multi-store also the stores that it stands on and whether it is
  -- read-only, which no revert changes.
  pub data ObjectView : Type 0 where
    of_store : List (StoreKey × c.S) → Bool → StoreView c.kv → ObjectView
    of_events : List c.Event → ObjectView
    of_bank : BankView → ObjectView

  abbrev pub object_view : Object c → ObjectView
  object_view (multi_store s) = of_store s.committed s.read_only (store_view c.kv s)
  object_view (event_manager m) = of_events m.events
  object_view (bank_manager m) = of_bank (bank_view m)

  abbrev pub ObjectGuards : Object c → List (ℤ × ObjectView) → Type 0
  ObjectGuards (multi_store s) = Lifted (of_store s.committed s.read_only) (StoreGuards c.kv s)
  ObjectGuards (event_manager m) = Lifted of_events (EventGuards c.plf m)
  ObjectGuards (bank_manager m) = Lifted of_bank (BankGuards m)

  forget_event :
      (m : Events.Manager c.Event c.LogsDb) (q : ℤ × List c.Event) (qs : List (ℤ × List c.Event))
      → EventGuards c.plf m (q ∷ qs)
      → EventGuards c.plf m qs
  forget_event m (id, v) qs (n, e, le, t, rest) =
      Marks-weaken n (length m.events) m.events qs le rest

  pub forget-ObjectGuards :
      (o : Object c) (p : ℤ × ObjectView) (ps : List (ℤ × ObjectView))
      → ObjectGuards o (p ∷ ps)
      → ObjectGuards o ps
  forget-ObjectGuards (multi_store s) p ps =
      forget-Lifted (of_store s.committed s.read_only) (StoreGuards c.kv s) p ps
        (forget-StoreGuards c.kv s)
  forget-ObjectGuards (event_manager m) p ps =
      forget-Lifted of_events (EventGuards c.plf m) p ps (forget_event m)
  forget-ObjectGuards (bank_manager m) p ps =
      forget-Lifted of_bank (BankGuards m) p ps (forget-BankGuards m)

  -- A store that stands on the same has the restore points of the same kind.
  of_store-Lifted :
      (s s' : Store.Store c.S) (ps : List (ℤ × ObjectView)) (qs : List (ℤ × StoreView c.kv))
      → s'.committed ≡ s.committed
      → s'.read_only ≡ s.read_only
      → ps ≡ map (λ q. (q.0, of_store s.committed s.read_only q.1)) qs
      → StoreGuards c.kv s' qs
      → ObjectGuards (multi_store s') ps
  of_store-Lifted s s' ps qs same ro e g =
      (qs, e ∙ ap₂ (λ m r. map (λ q. (q.0, of_store m r q.1)) qs) (sym same) (sym ro), g)

  pub snapshot-ObjectGuards :
      (o : Object c) (ps : List (ℤ × ObjectView))
      → ObjectGuards o ps
      → (o' : Object c) × (id : ℤ) × (snapshot_object c o ≡ ok (o', id))
        × (object_view o' ≡ object_view o)
        × ObjectGuards o' ((id, object_view o) ∷ ps)
  unfolding snapshot_object Events.snapshot
  snapshot-ObjectGuards (multi_store s) ps (qs, e, g) =
      let (s', id, eq, v, same, ro, g') = snapshot-StoreGuards c.kv law s qs g in
      (
        multi_store s',
        id,
        rw eq refl,
        ap₂ (λ m r. of_store m r (store_view c.kv s')) same ro
            ∙ ap (of_store s.committed s.read_only) v,
        of_store-Lifted s s' ((id, of_store s.committed s.read_only (store_view c.kv s)) ∷ ps)
            ((id, store_view c.kv s) ∷ qs) same ro
            (ap ((id, of_store s.committed s.read_only (store_view c.kv s)) ∷◌) e) g',
      )
  snapshot-ObjectGuards (event_manager m) ps (qs, e, g) = (
    event_manager m,
    pos (length m.events),
    refl,
    refl,
    (
      (pos (length m.events), m.events) ∷ qs,
      ap ((pos (length m.events), of_events m.events) ∷◌) e,
      (length m.events, refl, omega arith, take_all (length m.events) m.events (omega arith), g),
    ),
  )
  snapshot-ObjectGuards (bank_manager m) ps (qs, e, g) =
      let (m', id, eq, v, g') = snapshot-BankGuards m qs g in
      (
        bank_manager m',
        id,
        rw eq refl,
        ap of_bank v,
        ((id, bank_view m) ∷ qs, ap ((id, of_bank (bank_view m)) ∷◌) e, g'),
      )

  pub revert-ObjectGuards :
      (o : Object c) (id : ℤ) (w : ObjectView) (ps : List (ℤ × ObjectView))
      → ObjectGuards o ((id, w) ∷ ps)
      → (o' : Object c) × (revert_object c o id ≡ ok o') × (object_view o' ≡ w) × ObjectGuards o' ps
  unfolding revert_object
  revert-ObjectGuards (multi_store s) id w ps k =
      let (v, qs, ew, e, g) =
        newest-Lifted (of_store s.committed s.read_only) (StoreGuards c.kv s) id w ps k in
      let (s', eq, ev, same, ro, g') = revert-StoreGuards c.kv law s id v qs g in
      (
        multi_store s',
        rw eq refl,
        ap₂ (λ m r. of_store m r (store_view c.kv s')) same ro
            ∙ ap (of_store s.committed s.read_only) ev
            ∙ sym ew,
        of_store-Lifted s s' ps qs same ro e g',
      )
  revert-ObjectGuards (event_manager m) id w ps k =
      let (v, qs, ew, e, g) = newest-Lifted of_events (EventGuards c.plf m) id w ps k in
      let (m', eq, ev, g') = revert-EventGuards c.plf m id v qs g in
      (event_manager m', rw eq refl, ap of_events ev ∙ sym ew, (qs, e, g'))
  revert-ObjectGuards (bank_manager m) id w ps k =
      let (v, qs, ew, e, g) = newest-Lifted of_bank (BankGuards m) id w ps k in
      let (m', eq, ev, g') = revert-BankGuards m id v qs g in
      (bank_manager m', rw eq refl, ap of_bank ev ∙ sym ew, (qs, e, g'))

  abbrev pub objects_law : Restorable (methods c)
  objects_law = record {
    View = ObjectView;
    view = object_view;
    Guards = ObjectGuards;
    forget = forget-ObjectGuards;
    snapshot-Guards = snapshot-ObjectGuards;
    revert-Guards = revert-ObjectGuards;
  }
