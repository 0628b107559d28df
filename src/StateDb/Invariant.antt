-- ===== src/StateDb/Invariant.antt =====
-- The invariant of the state database: the controller guards its restore points, every key has an
-- object of its kind, and an access list that is not registered is sound by itself.
use mathlib.Core.Option
use molaris.Prelude.{
  ◌≡◌, refl, sym, ap, ◌∙◌, subst, inl, inr, some, List, [], ◌∷◌, if◌then◌else◌, Bool-cases,
  Option-cases, ℤ, Exec, ok, eqb, lookup, insert, lookup-insert, nat_eq,
}
use molaris.Registry
use molaris.Snapshot.Guards.{
  ControllerGuards, views, snapshot-ControllerGuards, revert-ControllerGuards,
  forget-ControllerGuards,
}
use molaris.Snapshot.Change.{Keeps, change_object, change_object-ControllerGuards}
use molaris.Journal.Marks.{StackGuards}
use molaris.Journal.Transient.{TransientStorage}
use molaris.Journal.AccessList.{AccessJournal}
use molaris.Journal.AccessList.Guards.{AccessGuards}
use molaris.StateDb.Host.{Host, PluginLaw}
use molaris.StateDb.Objects.{
  Key, plugin_key, logs_key, refund_key, access_list_key, suicides_key, transient_key, key_eq,
  Object, methods,
}
use molaris.StateDb.Laws.{
  View, of_plugin, of_logs, of_refund, of_access_list, of_suicides, of_transient, view, Guards,
  objects_law,
}
use molaris.StateDb.Operations.{
  StateDb, Field, registered, detached, in_controller, snapshot, revert_to_snapshot,
}

module _ (h : Host) (law : PluginLaw h) where
  abbrev pub Views : Type 0
  Views = List (Key × View h law)

  abbrev pub shown : StateDb h → List (Key × View h law)
  shown sdb = views (methods h) (objects_law h law) sdb.ctrl.items

  abbrev pub view_key : View h law → Key
  view_key (of_plugin v) = plugin_key
  view_key (of_logs v) = logs_key
  view_key (of_refund v) = refund_key
  view_key (of_access_list v) = access_list_key
  view_key (of_suicides v) = suicides_key
  view_key (of_transient v) = transient_key

  -- Under each key stands an object of that kind.
  abbrev pub HasKinds : List (Key × View h law) → Type 0
  HasKinds w = (k : Key) → (v : View h law) × (lookup k w ≡ some v) × (view_key v ≡ k)

  abbrev pub AccessField : Field (AccessJournal h.AccessSet) → Type 0
  AccessField registered = Unit {0}
  AccessField (detached al) = AccessGuards al []

  abbrev pub TransientField : Field TransientStorage → Type 0
  TransientField registered = Unit {0}
  TransientField (detached t) = StackGuards t []

  pub record Invariant (sdb : StateDb h) (ps : List (ℤ × List (Key × View h law))) : Type 0 where
    pub guards : ControllerGuards (methods h) (objects_law h law) sdb.ctrl ps
    pub kinds : HasKinds (shown sdb)
    pub access_sound : AccessField sdb.access_list_field
    pub transient_sound : TransientField sdb.transient_field

  pub lookup-views :
      (k : Key) (os : List (Key × Object h))
      → lookup k (views (methods h) (objects_law h law) os) ≡ Option.map (view h law) (lookup k os)
  unfolding lookup
  lookup-views k [] = refl
  lookup-views k ((j, o) ∷ os) = elim (Bool-cases (eqb j k)) [
    | inl same ↦ rw same refl
    | inr other ↦ rw other (lookup-views k os)
  ]

  pub object_under :
      (k : Key) (os : List (Key × Object h))
      → HasKinds (views (methods h) (objects_law h law) os)
      → (o : Object h) × (Registry.get os k ≡ some o) × (view_key (view h law o) ≡ k)
  unfolding Registry.get
  object_under k os kinds =
      let (v, found, kind) = kinds k in
      elim (Option-cases (lookup k os)) [
        | inl missing ↦ absurd (cc (lookup-views k os, ap (Option.map (view h law)) missing))
        | inr (o, e) ↦
            let here : v ≡ view h law o = cc (lookup-views k os, ap (Option.map (view h law)) e) in
            (o, e, rw here at kind)
      ]

  -- What an operation on the object under `key` has to do: succeed on an object of that kind, keep
  -- its restore points, and leave an object of that kind.
  pub record IsStable (key : Key) (f : Object h → Exec (Object h)) : Type 0 where
    pub steps :
        (o : Object h)
        → view_key (view h law o) ≡ key
        → (ps : List (ℤ × View h law)) → Guards h law o ps
        → (o' : Object h) × (f o ≡ ok o') × Guards h law o' ps
    pub same_kind :
        (o o' : Object h)
        → view_key (view h law o) ≡ key
        → f o ≡ ok o'
        → view_key (view h law o') ≡ key

  HasKinds-insert :
      (key : Key) (o' : Object h) (os : List (Key × Object h))
      → view_key (view h law o') ≡ key
      → HasKinds (views (methods h) (objects_law h law) os)
      → HasKinds (views (methods h) (objects_law h law) (insert key o' os))
  HasKinds-insert key o' os kind kinds j = elim (Bool-cases (eqb key j)) [
    | inl same ↦
        let here : key ≡ j = (key_eq.beq_iff key j).0 same in
        (
          view h law o',
          lookup-views j (insert key o' os)
              ∙ ap (Option.map (view h law))
                  (lookup-insert key j o' os ∙ ap (λ b. if b then some o' else lookup j os) same),
          kind ∙ here,
        )
    | inr other ↦
        let (v, found, k) = kinds j in
        (
          v,
          lookup-views j (insert key o' os)
              ∙ ap (Option.map (view h law))
                  (lookup-insert key j o' os ∙ ap (λ b. if b then some o' else lookup j os) other)
              ∙ sym (lookup-views j os)
              ∙ found,
          k,
        )
  ]

  -- A change of the object `o` under `key` that keeps its restore points and its kind.
  pub change_object-Invariant :
      (key : Key) (f : Object h → Exec (Object h)) (o : Object h) (sdb : StateDb h)
      (ps : List (ℤ × List (Key × View h law)))
      → Registry.get sdb.ctrl.items key ≡ some o
      → Keeps (methods h) (objects_law h law) f o
      → ((o' : Object h) → f o ≡ ok o' → view_key (view h law o') ≡ key)
      → Invariant sdb ps
      → (o' : Object h) × (f o ≡ ok o')
        × (change_object key f sdb.ctrl
            ≡ ok (record (sdb.ctrl) { items = insert key o' sdb.ctrl.items }))
        × Invariant
            (record sdb { ctrl = record (sdb.ctrl) { items = insert key o' sdb.ctrl.items } })
            ps
  change_object-Invariant key f o sdb ps found keeps kind inv =
      let (o', e, step, g) =
        change_object-ControllerGuards (methods h) (objects_law h law) key f o sdb.ctrl ps found
          keeps inv.guards in
      (
        o',
        e,
        step,
        record {
          guards = g;
          kinds = HasKinds-insert key o' sdb.ctrl.items (kind o' e) inv.kinds;
          access_sound = inv.access_sound;
          transient_sound = inv.transient_sound;
        },
      )

  -- A stable operation on a registered object succeeds and keeps the invariant.
  pub in_controller-Invariant :
      (key : Key) (f : Object h → Exec (Object h)) (sdb : StateDb h)
      (ps : List (ℤ × List (Key × View h law)))
      → IsStable key f
      → Invariant sdb ps
      → (sdb' : StateDb h) × (in_controller h key f sdb ≡ ok sdb') × Invariant sdb' ps
  in_controller-Invariant key f sdb ps stable inv =
      let (o, found, kind) = object_under key sdb.ctrl.items inv.kinds in
      let (o', e, step, i) =
        change_object-Invariant key f o sdb ps found (stable.steps o kind)
          (λ x ex. stable.same_kind o x kind ex) inv in
      (
        record sdb { ctrl = record (sdb.ctrl) { items = insert key o' sdb.ctrl.items } },
        rw step refl,
        i,
      )

  -- A snapshot succeeds and can be returned to.
  pub snapshot-Invariant :
      (sdb : StateDb h) (ps : List (ℤ × List (Key × View h law)))
      → Invariant sdb ps
      → (sdb' : StateDb h) × (id : ℤ) × (snapshot h sdb ≡ ok (sdb', id))
        × (shown sdb' ≡ shown sdb)
        × Invariant sdb' ((id, shown sdb) ∷ ps)
  unfolding snapshot
  snapshot-Invariant sdb ps inv =
      let (c, id, e, v, g) =
        snapshot-ControllerGuards (methods h) (objects_law h law) sdb.ctrl ps inv.guards in
      (
        record sdb { ctrl = c },
        id,
        rw e refl,
        v,
        record {
          guards = g;
          kinds = subst HasKinds (sym v) inv.kinds;
          access_sound = inv.access_sound;
          transient_sound = inv.transient_sound;
        },
      )

  -- A revert to the newest restore point succeeds and shows what stood there.
  pub revert-Invariant :
      (sdb : StateDb h) (id : ℤ) (w : List (Key × View h law))
      (ps : List (ℤ × List (Key × View h law)))
      → HasKinds w
      → Invariant sdb ((id, w) ∷ ps)
      → (sdb' : StateDb h) × (revert_to_snapshot h sdb id ≡ ok sdb')
        × (shown sdb' ≡ w)
        × (sdb'.access_list_field ≡ sdb.access_list_field)
        × (sdb'.transient_field ≡ sdb.transient_field)
        × Invariant sdb' ps
  unfolding revert_to_snapshot
  revert-Invariant sdb id w ps kinds inv =
      let (c, e, v, g) =
        revert-ControllerGuards (methods h) (objects_law h law) sdb.ctrl id w ps inv.guards in
      (
        record sdb { ctrl = c },
        rw e refl,
        v,
        refl,
        refl,
        record {
          guards = g;
          kinds = subst HasKinds (sym v) kinds;
          access_sound = inv.access_sound;
          transient_sound = inv.transient_sound;
        },
      )

  pub forget-Invariant :
      (sdb : StateDb h) (p : ℤ × List (Key × View h law)) (ps : List (ℤ × List (Key × View h law)))
      → Invariant sdb (p ∷ ps)
      → Invariant sdb ps
  forget-Invariant sdb p ps inv = record {
    guards = forget-ControllerGuards (methods h) (objects_law h law) sdb.ctrl p ps inv.guards;
    kinds = inv.kinds;
    access_sound = inv.access_sound;
    transient_sound = inv.transient_sound;
  }
