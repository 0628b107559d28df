-- ===== src/StateDb/Laws.antt =====
-- Every object of the state database keeps the contract of a `Controllable`.
use molaris.Prelude.{
  ℕ, ◌≡◌, refl, sym, ap, ◌∙◌, Option, some, List, ◌∷◌, get_elem?-some, ℤ, pos, ok,
}
use mathlib.Core.Path.{ap₂}
use molaris.Stack.{items}
use molaris.Snapshot.Interface.{Restorable}
use molaris.Snapshot.Kinds.{Lifted, forget-Lifted, newest-Lifted}
use molaris.Journal.Marks.{StackGuards, forget-StackGuards, snapshot-StackGuards}
use molaris.Journal.Refund
use molaris.Journal.Logs
use molaris.Journal.Logs.{Log}
use molaris.Journal.Suicides
use molaris.Journal.Transient
use molaris.Journal.Transient.{TransientState}
use molaris.Journal.AccessList.{AccessJournal}
use molaris.Journal.AccessList.Guards.{
  AccessGuards, present, present-eq, forget-AccessGuards, snapshot-AccessGuards,
  revert-AccessGuards,
}
use molaris.Journal.{Address}
use molaris.StateDb.Host.{Host, PluginLaw}
use molaris.StateDb.Objects.{
  Object, plugin, logs, refund, access_list, suicides, transient, methods, snapshot_object,
  revert_object,
}

module _ (h : Host) (law : PluginLaw h) where
  open law use {PluginView, plugin_view, PluginGuards}

  -- What an object shows: for a journal its entries, for the access list the present list.
  pub data View : Type 0 where
    of_plugin : PluginView → View
    of_logs : List (Log h.Payload) → View
    of_refund : List ℕ → View
    of_access_list : Option h.AccessSet → View
    of_suicides : List Address → View
    of_transient : List TransientState → View

  abbrev pub view : Object h → View
  view (plugin p) = of_plugin (plugin_view p)
  view (logs l) = of_logs (items l.stack)
  view (refund r) = of_refund (items r)
  view (access_list al) = of_access_list (present al)
  view (suicides s) = of_suicides (items s.journal)
  view (transient t) = of_transient (items t)

  abbrev pub Guards : Object h → List (ℤ × View) → Type 0
  Guards (plugin p) = Lifted of_plugin (PluginGuards p)
  Guards (logs l) = Lifted of_logs (StackGuards l.stack)
  Guards (refund r) = Lifted of_refund (StackGuards r)
  Guards (access_list al) = Lifted of_access_list (AccessGuards al)
  Guards (suicides s) = Lifted of_suicides (StackGuards s.journal)
  Guards (transient t) = Lifted of_transient (StackGuards t)

  pub forget-Guards :
      (o : Object h) (p : ℤ × View) (ps : List (ℤ × View)) → Guards o (p ∷ ps) → Guards o ps
  forget-Guards (plugin x) p ps =
      forget-Lifted of_plugin (PluginGuards x) p ps (law.forget_plugin x)
  forget-Guards (logs l) p ps =
      forget-Lifted of_logs (StackGuards l.stack) p ps (forget-StackGuards l.stack)
  forget-Guards (refund r) p ps =
      forget-Lifted of_refund (StackGuards r) p ps (forget-StackGuards r)
  forget-Guards (access_list al) p ps =
      forget-Lifted of_access_list (AccessGuards al) p ps (forget-AccessGuards al)
  forget-Guards (suicides s) p ps =
      forget-Lifted of_suicides (StackGuards s.journal) p ps (forget-StackGuards s.journal)
  forget-Guards (transient t) p ps =
      forget-Lifted of_transient (StackGuards t) p ps (forget-StackGuards t)

  pub snapshot-Guards :
      (o : Object h) (ps : List (ℤ × View))
      → Guards o ps
      → (o' : Object h) × (id : ℤ) × (snapshot_object h o ≡ ok (o', id))
        × (view o' ≡ view o)
        × Guards o' ((id, view o) ∷ ps)
  unfolding snapshot_object Logs.snapshot Refund.snapshot Suicides.snapshot Transient.snapshot
  snapshot-Guards (plugin p) ps (qs, e, g) =
      let (p', id, eq, v, g') = law.snapshot_plugin p qs g in
      (
        plugin p',
        id,
        rw eq refl,
        ap of_plugin v,
        ((id, plugin_view p) ∷ qs, ap ((id, of_plugin (plugin_view p)) ∷◌) e, g'),
      )
  snapshot-Guards (logs l) ps (qs, e, g) = (
    logs l,
    pos l.stack.size,
    refl,
    refl,
    (
      (pos l.stack.size, items l.stack) ∷ qs,
      ap ((pos l.stack.size, of_logs (items l.stack)) ∷◌) e,
      snapshot-StackGuards l.stack qs g,
    ),
  )
  snapshot-Guards (refund r) ps (qs, e, g) = (
    refund r,
    pos r.size,
    refl,
    refl,
    (
      (pos r.size, items r) ∷ qs,
      ap ((pos r.size, of_refund (items r)) ∷◌) e,
      snapshot-StackGuards r qs g,
    ),
  )
  snapshot-Guards (access_list al) ps (qs, e, g) =
      let (l, el) = present_some al qs g in
      let (al', id, eq, v, g') = snapshot-AccessGuards h.lists al l qs g el in
      (
        access_list al',
        id,
        rw eq refl,
        ap of_access_list (v ∙ sym el),
        ((id, some l) ∷ qs, ap₂ (λ x y. (id, of_access_list x) ∷ y) el e, g'),
      )
    where
      present_some :
          (a : AccessJournal h.AccessSet) (xs : List (ℤ × Option h.AccessSet))
          → AccessGuards a xs
          → (l : h.AccessSet) × (present a ≡ some l)
      present_some a xs k =
          let (l, el) = get_elem?-some a.objects k.top k.allocated in
          (l, present-eq a k.top k.pointed ∙ el)
  snapshot-Guards (suicides s) ps (qs, e, g) = (
    suicides (record s { last_snapshot = pos s.journal.size }),
    pos s.journal.size,
    refl,
    refl,
    (
      (pos s.journal.size, items s.journal) ∷ qs,
      ap ((pos s.journal.size, of_suicides (items s.journal)) ∷◌) e,
      snapshot-StackGuards s.journal qs g,
    ),
  )
  snapshot-Guards (transient t) ps (qs, e, g) = (
    transient t,
    pos t.size,
    refl,
    refl,
    (
      (pos t.size, items t) ∷ qs,
      ap ((pos t.size, of_transient (items t)) ∷◌) e,
      snapshot-StackGuards t qs g,
    ),
  )

  pub revert-Guards :
      (o : Object h) (id : ℤ) (w : View) (ps : List (ℤ × View))
      → Guards o ((id, w) ∷ ps)
      → (o' : Object h) × (revert_object h o id ≡ ok o') × (view o' ≡ w) × Guards o' ps
  unfolding revert_object
  revert-Guards (plugin p) id w ps k =
      let (v, qs, ew, e, g) = newest-Lifted of_plugin (PluginGuards p) id w ps k in
      let (p', eq, ev, g') = law.revert_plugin p id v qs g in
      (plugin p', rw eq refl, ap of_plugin ev ∙ sym ew, (qs, e, g'))
  revert-Guards (logs l) id w ps k =
      let (v, qs, ew, e, g) = newest-Lifted of_logs (StackGuards l.stack) id w ps k in
      let (l', eq, ev, g') = Logs.revert-Guards h.zero_log l id v qs g in
      (logs l', rw eq refl, ap of_logs ev ∙ sym ew, (qs, e, g'))
  revert-Guards (refund r) id w ps k =
      let (v, qs, ew, e, g) = newest-Lifted of_refund (StackGuards r) id w ps k in
      let (r', eq, ev, g') = Refund.revert-Guards r id v qs g in
      (refund r', rw eq refl, ap of_refund ev ∙ sym ew, (qs, e, g'))
  revert-Guards (access_list al) id w ps k =
      let (v, qs, ew, e, g) = newest-Lifted of_access_list (AccessGuards al) id w ps k in
      let (al', eq, ev, g') = revert-AccessGuards h.lists al id v qs g in
      (access_list al', rw eq refl, ap of_access_list ev ∙ sym ew, (qs, e, g'))
  revert-Guards (suicides s) id w ps k =
      let (v, qs, ew, e, g) = newest-Lifted of_suicides (StackGuards s.journal) id w ps k in
      let (s', eq, ev, g') = Suicides.revert-Guards s id v qs g in
      (suicides s', rw eq refl, ap of_suicides ev ∙ sym ew, (qs, e, g'))
  revert-Guards (transient t) id w ps k =
      let (v, qs, ew, e, g) = newest-Lifted of_transient (StackGuards t) id w ps k in
      let (t', eq, ev, g') = Transient.revert-Guards t id v qs g in
      (transient t', rw eq refl, ap of_transient ev ∙ sym ew, (qs, e, g'))

  abbrev pub objects_law : Restorable (methods h)
  objects_law = record {
    View = View;
    view = view;
    Guards = Guards;
    forget = forget-Guards;
    snapshot-Guards = snapshot-Guards;
    revert-Guards = revert-Guards;
  }
