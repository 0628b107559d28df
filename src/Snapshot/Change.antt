-- ===== src/Snapshot/Change.antt =====
-- What happens to a registered object between snapshots, and the controller as an object itself.
use molaris.Prelude.{
  ◌≡◌, refl, sym, ap, subst, inl, inr, none, some, List, [], ◌∷◌, Bool-cases, ℤ, Exec, ◌>>=◌,
  nil_access, ok, panics, Eq, eqb, AreDistinct, lookup, insert, keys, nat_eq,
}
use molaris.Registry
use molaris.Snapshot.{Controllable, Controller, snapshot, revert_to_snapshot, finalize}
use molaris.Snapshot.Interface.{Restorable}
use molaris.Snapshot.Guards.{
  ItemGuards, ControllerGuards, views, zip_cons, snapshot-ControllerGuards, revert-ControllerGuards,
  forget-ControllerGuards,
}

module _ {K T : Type 0} ⦃e : Eq K⦄ where
  -- A change of the object under a key, through the registry.
  unfoldable pub change_object : K → (T → Exec T) → Controller K T → Exec (Controller K T)
  change_object key f c = elim (Registry.get c.items key) [
    | none ↦ panics nil_access
    | some t ↦ f t >>= λ t'. ok (record c { items = insert key t' c.items })
  ]

module _ {K T : Type 0} ⦃e : Eq K⦄ (methods : Controllable K T) (law : Restorable methods) where
  -- A change of one object that keeps whatever restore points the object has.
  abbrev pub Keeps : (T → Exec T) → T → Type 0
  Keeps f t =
      (ps : List (ℤ × law.View)) → law.Guards t ps → (t' : T) × (f t ≡ ok t') × law.Guards t' ps

  change_items :
      (f : T → Exec T) (k : K) (t : T) (items : List (K × T))
      (hs : List (List (K × ℤ) × List (K × law.View)))
      → lookup k items ≡ some t
      → Keeps f t
      → ItemGuards methods law items hs
      → (t' : T) × (f t ≡ ok t')
        × (keys (insert k t' items) ≡ keys items)
        × ItemGuards methods law (insert k t' items) hs
  unfolding lookup insert
  change_items f k t [] hs l keeps g = absurd (cc)
  change_items f k t ((j, u) ∷ items) hs l keeps (column, rest, eq, g, gs) =
      elim (Bool-cases (eqb j k)) [
        | inl same ↦
            let found : some u ≡ some t = rw same at l in
            let u_is_t : u ≡ t = cc in
            let (t', ft, g') = keeps column (subst (λ x. law.Guards x column) u_is_t g) in
            let jk : j ≡ k = (e.beq_iff j k).0 same in
            (
              t',
              ft,
              rw same (ap (λ x. x ∷ keys items) (sym jk)),
              rw same (
                column,
                rest,
                subst (λ x. hs ≡ zip_cons methods law x column rest) jk eq,
                g',
                gs,
              ),
            )
        | inr other ↦
            let (t', ft, ks, gs') = change_items f k t items rest (rw other at l) keeps gs in
            (t', ft, rw other (ap (j ∷◌) ks), rw other (column, rest, eq, g, gs'))
      ]

  column_of :
      (k : K) (t : T) (items : List (K × T)) (hs : List (List (K × ℤ) × List (K × law.View)))
      → lookup k items ≡ some t
      → ItemGuards methods law items hs
      → (column : List (ℤ × law.View)) × law.Guards t column
  unfolding lookup
  column_of k t [] hs l g = absurd (cc)
  column_of k t ((j, u) ∷ items) hs l (column, rest, eq, g, gs) = elim (Bool-cases (eqb j k)) [
    | inl same ↦
        let found : some u ≡ some t = rw same at l in
        let u_is_t : u ≡ t = cc in (column, subst (λ x. law.Guards x column) u_is_t g)
    | inr other ↦ column_of k t items rest (rw other at l) gs
  ]

  -- Every registered object guards some restore points of its own.
  pub object-Guards :
      (k : K) (t : T) (c : Controller K T) (ps : List (ℤ × List (K × law.View)))
      → Registry.get c.items k ≡ some t
      → ControllerGuards methods law c ps
      → (column : List (ℤ × law.View)) × law.Guards t column
  unfolding Registry.get
  object-Guards k t c ps l g = column_of k t c.items g.history l g.guarded

  -- A change of a registered object succeeds, and keeps the controller's restore points, if it does so
  -- with the object's own.
  pub change_object-ControllerGuards :
      (k : K) (f : T → Exec T) (t : T) (c : Controller K T) (ps : List (ℤ × List (K × law.View)))
      → Registry.get c.items k ≡ some t
      → Keeps f t
      → ControllerGuards methods law c ps
      → (t' : T) × (f t ≡ ok t')
        × (change_object k f c ≡ ok (record c { items = insert k t' c.items }))
        × ControllerGuards methods law (record c { items = insert k t' c.items }) ps
  unfolding change_object Registry.get
  change_object-ControllerGuards k f t c ps l keeps g =
      let (t', ft, ks, gs) = change_items f k t c.items g.history l keeps g.guarded in
      (
        t',
        ft,
        rw (l, change_object, ft) refl,
        record {
          distinct = subst AreDistinct (sym ks) g.distinct;
          revisions = g.revisions;
          journaled = g.journaled;
          history = g.history;
          marked = g.marked;
          guarded = gs;
        },
      )

  -- A controller is itself an object that can be registered.
  abbrev pub as_controllable : K → Controllable K (Controller K T)
  as_controllable key = record {
    registry_key = λ _. key;
    snapshot = snapshot methods;
    revert_to_snapshot = revert_to_snapshot methods;
    finalize = finalize methods;
  }

  -- It keeps the contract that it asks of its objects.
  abbrev pub as_controllable-Restorable : (key : K) → Restorable (as_controllable key)
  as_controllable-Restorable key = record {
    View = List (K × law.View);
    view = λ c. views methods law c.items;
    Guards = ControllerGuards methods law;
    forget = forget-ControllerGuards methods law;
    snapshot-Guards = snapshot-ControllerGuards methods law;
    revert-Guards = revert-ControllerGuards methods law;
  }
