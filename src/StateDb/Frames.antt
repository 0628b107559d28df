-- ===== src/StateDb/Frames.antt =====
-- Nested calls, as the EVM makes them: each takes a snapshot, and reverts to it if it fails. Whatever
-- the calls do to the journals and the plugin, none panics, and a failed one leaves no trace.
use molaris.Prelude.{
  ℕ, ◌≡◌, refl, ◌∙◌, ◌⊎◌, inl, inr, Bool, true, false, Option, some, List, ◌∷◌, if◌then◌else◌,
  get_elem?-some, ℤ, Exec, ◌>>=◌, ok, insert, nat_eq,
}
use molaris.Registry
use molaris.Registry.{get-insert_ne}
use molaris.Snapshot.Change.{object-Guards}
use molaris.Journal.Refund
use molaris.Journal.Logs
use molaris.Journal.Logs.{Log}
use molaris.Journal.Suicides
use molaris.Journal.Transient
use molaris.Journal.AccessList
use molaris.Journal.AccessList.{AccessJournal, change}
use molaris.Journal.AccessList.Guards.{AccessGuards, present-eq, change-AccessGuards}
use molaris.Journal.{Address, Hash}
use molaris.StateDb.Host.{Host, PluginLaw}
use molaris.StateDb.Objects.{
  Key, plugin_key, logs_key, refund_key, suicides_key, key_eq, Object, plugin, suicides, methods,
}
use molaris.StateDb.Laws.{View, view, objects_law}
use molaris.StateDb.Invariant.{
  Invariant, view_key, object_under, change_object-Invariant, in_controller-Invariant,
  snapshot-Invariant, revert-Invariant, forget-Invariant, shown,
}
use molaris.StateDb.Stable.{
  on_plugin-IsStable, on_logs-IsStable, on_refund-IsStable, on_access_list_field-Invariant,
  on_transient_field-Invariant,
}
use molaris.StateDb.Operations.{
  StateDb, change_plugin, add_log, add_refund, sub_refund, add_address_to_access_list,
  add_slot_to_access_list, set_transient_state, suicide, snapshot, revert_to_snapshot,
}

module _ (h : Host) where
  -- What the EVM does to the state database within one transaction.
  mutual
    pub data Action : Type 0 where
      log : Log h.Payload → Action
      changes : h.PluginCall → Action
      refunds : ℕ → Action
      spends : ℕ → Action
      warms_address : Address → Action
      warms_slot : Address → Hash → Action
      stores : Address → Hash → Hash → Action
      destroys : Address → Action
      call : Bool → Actions → Action

    pub data Actions : Type 0 where
      nil : Actions
      cons : Action → Actions → Actions

  unfoldable mutual
    pub perform : Action → StateDb h → Exec (StateDb h)
    perform (log l) sdb = add_log h l sdb
    perform (changes c) sdb = change_plugin h c sdb
    perform (refunds gas) sdb = add_refund h gas sdb
    perform (spends gas) sdb = sub_refund h gas sdb
    perform (warms_address a) sdb = add_address_to_access_list h a sdb
    perform (warms_slot a s) sdb = add_slot_to_access_list h a s sdb
    perform (stores a k v) sdb = set_transient_state h a k v sdb
    perform (destroys a) sdb = suicide h a sdb >>= λ r. ok r.0
    perform (call success body) sdb = snapshot h sdb >>= λ r.
        perform_all body r.0 >>= λ s. if success then ok s else revert_to_snapshot h s r.1

    pub perform_all : Actions → StateDb h → Exec (StateDb h)
    perform_all nil sdb = ok sdb
    perform_all (cons a rest) sdb = perform a sdb >>= λ s. perform_all rest s

module _ (h : Host) (law : PluginLaw h) where
  -- What a destruction does to the plugin keeps the plugin's restore points.
  plugin_keeps :
      (p p' : h.Plugin) (addr : Address)
      → (p' ≡ p) ⊎ (p' ≡ h.ssp.sub_balance p addr (h.ssp.get_balance p addr))
      → (qs : List (ℤ × law.PluginView)) → law.PluginGuards p qs
      → law.PluginGuards p' qs
  plugin_keeps p p' addr (inl same) qs g = rw same g
  plugin_keeps p p' addr (inr less) qs g =
      rw less (law.sub_balance_keeps p addr (h.ssp.get_balance p addr) qs g)

  suicide-Invariant :
      (addr : Address) (sdb : StateDb h) (ps : List (ℤ × List (Key × View h law)))
      → Invariant h law sdb ps
      → (sdb' : StateDb h) × (b : Bool) × (suicide h addr sdb ≡ ok (sdb', b))
        × Invariant h law sdb' ps
  unfolding suicide
  suicide-Invariant addr sdb ps inv =
      let (o, op, kp) = object_under h law plugin_key sdb.ctrl.items inv.kinds in
      let (q, os, ks) = object_under h law suicides_key sdb.ctrl.items inv.kinds in
      go o q op kp os ks
    where
      go :
          (o q : Object h)
          → Registry.get sdb.ctrl.items plugin_key ≡ some o
          → view_key h law (view h law o) ≡ plugin_key
          → Registry.get sdb.ctrl.items suicides_key ≡ some q
          → view_key h law (view h law q) ≡ suicides_key
          → (sdb' : StateDb h) × (b : Bool) × (suicide h addr sdb ≡ ok (sdb', b))
            × Invariant h law sdb' ps
      go (plugin p) (suicides s) op kp os ks =
          let (column, (xs, ex, gx)) =
            object-Guards (methods h) (objects_law h law) suicides_key (suicides s) sdb.ctrl ps os
              inv.guards in
          let (s', p', b, e, moved, kept) =
            Suicides.suicide_total h.ssp h.empty_code_hash s p addr gx.sound in
          let (x, ex', step, i) =
            change_object-Invariant h law plugin_key (λ _. ok (plugin p')) (plugin p) sdb ps op
              (λ ws k.
                let (qs, eq, g) = k in
                (plugin p', refl, (qs, eq, plugin_keeps p p' addr moved qs g)))
              (λ y ey. let is : y ≡ plugin p' = cc in rw is refl) inv in
          let is : x ≡ plugin p' = cc in
          let there : Registry.get (insert plugin_key x sdb.ctrl.items) suicides_key
              ≡ some (suicides s) =
            get-insert_ne plugin_key suicides_key x sdb.ctrl.items refl ∙ os in
          let (y, ey, step', i') =
            change_object-Invariant h law suicides_key (λ _. ok (suicides s')) (suicides s)
              (record sdb {
                ctrl = record (sdb.ctrl) { items = insert plugin_key x sdb.ctrl.items };
              })
              ps there (λ ws k. let (qs, eq, g) = k in (suicides s', refl, (qs, eq, kept qs g)))
              (λ z ez. let iz : z ≡ suicides s' = cc in rw iz refl) i in
          (
            record sdb {
              ctrl = record (sdb.ctrl) {
                items = insert suicides_key y (insert plugin_key x sdb.ctrl.items);
              };
            },
            b,
            rw (op, suicide, os, e, step, step') refl,
            i',
          )
      go (plugin p) _ op kp os ks = absurd (cc)
      go _ q op kp os ks = absurd (cc)

  pub changed :
      (f : h.AccessSet → h.AccessSet) (al : AccessJournal h.AccessSet)
      (qs : List (ℤ × Option h.AccessSet))
      → AccessGuards al qs
      → (y : AccessJournal h.AccessSet) × (change h.lists f al ≡ ok y) × AccessGuards y qs
  changed f al qs g =
      let (l, el) = get_elem?-some al.objects g.top g.allocated in
      let (y, e, ep, g') =
        change-AccessGuards h.lists f al l qs g (present-eq al g.top g.pointed ∙ el) in
      (y, e, g')

  add_log-Invariant :
      (l : Log h.Payload) (sdb : StateDb h) (ps : List (ℤ × List (Key × View h law)))
      → Invariant h law sdb ps
      → (sdb' : StateDb h) × (add_log h l sdb ≡ ok sdb') × Invariant h law sdb' ps
  unfolding add_log
  add_log-Invariant l sdb ps inv =
      in_controller-Invariant h law logs_key _ sdb ps
        (on_logs-IsStable h law (λ x. Logs.add_log h.zero_log x l)
          (λ x qs g.
            let (y, e, ei, eh, et, g') = Logs.add_log-Guards h.zero_log x l qs g in (y, e, g')))
        inv

  change_plugin-Invariant :
      (c : h.PluginCall) (sdb : StateDb h) (ps : List (ℤ × List (Key × View h law)))
      → Invariant h law sdb ps
      → (sdb' : StateDb h) × (change_plugin h c sdb ≡ ok sdb') × Invariant h law sdb' ps
  unfolding change_plugin
  change_plugin-Invariant c sdb ps inv =
      in_controller-Invariant h law plugin_key _ sdb ps
        (on_plugin-IsStable h law (h.call_plugin c) (λ p qs g. law.call_keeps c p qs g)) inv

  add_refund-Invariant :
      (gas : ℕ) (sdb : StateDb h) (ps : List (ℤ × List (Key × View h law)))
      → Invariant h law sdb ps
      → (sdb' : StateDb h) × (add_refund h gas sdb ≡ ok sdb') × Invariant h law sdb' ps
  unfolding add_refund
  add_refund-Invariant gas sdb ps inv =
      in_controller-Invariant h law refund_key _ sdb ps
        (on_refund-IsStable h law (λ r. Refund.add_refund r gas)
          (λ r qs g. let (y, e, ec, g') = Refund.add_refund-Guards r gas qs g in (y, e, g')))
        inv

  sub_refund-Invariant :
      (gas : ℕ) (sdb : StateDb h) (ps : List (ℤ × List (Key × View h law)))
      → Invariant h law sdb ps
      → (sdb' : StateDb h) × (sub_refund h gas sdb ≡ ok sdb') × Invariant h law sdb' ps
  unfolding sub_refund
  sub_refund-Invariant gas sdb ps inv =
      in_controller-Invariant h law refund_key _ sdb ps
        (on_refund-IsStable h law (λ r. Refund.sub_refund r gas)
          (λ r qs g. let (y, e, ec, g') = Refund.sub_refund-Guards r gas qs g in (y, e, g')))
        inv

  add_address-Invariant :
      (a : Address) (sdb : StateDb h) (ps : List (ℤ × List (Key × View h law)))
      → Invariant h law sdb ps
      → (sdb' : StateDb h) × (add_address_to_access_list h a sdb ≡ ok sdb')
        × Invariant h law sdb' ps
  unfolding add_address_to_access_list AccessList.add_address_to_access_list
  add_address-Invariant a sdb ps inv =
      on_access_list_field-Invariant h law _ sdb ps
        (λ al qs g. changed (h.lists.add_address a) al qs g) inv

  add_slot-Invariant :
      (a : Address) (s : Hash) (sdb : StateDb h) (ps : List (ℤ × List (Key × View h law)))
      → Invariant h law sdb ps
      → (sdb' : StateDb h) × (add_slot_to_access_list h a s sdb ≡ ok sdb') × Invariant h law sdb' ps
  unfolding add_slot_to_access_list AccessList.add_slot_to_access_list
  add_slot-Invariant a s sdb ps inv =
      on_access_list_field-Invariant h law _ sdb ps
        (λ al qs g. changed (h.lists.add_slot a s) al qs g) inv

  set_transient-Invariant :
      (a : Address) (k v : Hash) (sdb : StateDb h) (ps : List (ℤ × List (Key × View h law)))
      → Invariant h law sdb ps
      → (sdb' : StateDb h) × (set_transient_state h a k v sdb ≡ ok sdb') × Invariant h law sdb' ps
  unfolding set_transient_state
  set_transient-Invariant a k v sdb ps inv =
      on_transient_field-Invariant h law _ sdb ps
        (λ t qs g.
          let (y, e, ev, g') = Transient.set_transient_state-Guards t a k v qs g in (y, e, g'))
        inv

  mutual
    unfolding perform

    perform-Invariant :
        (a : Action h) (sdb : StateDb h) (ps : List (ℤ × List (Key × View h law)))
        → Invariant h law sdb ps
        → (sdb' : StateDb h) × (perform h a sdb ≡ ok sdb') × Invariant h law sdb' ps
    perform-Invariant (log l) sdb ps inv = add_log-Invariant l sdb ps inv
    perform-Invariant (changes c) sdb ps inv = change_plugin-Invariant c sdb ps inv
    perform-Invariant (refunds gas) sdb ps inv = add_refund-Invariant gas sdb ps inv
    perform-Invariant (spends gas) sdb ps inv = sub_refund-Invariant gas sdb ps inv
    perform-Invariant (warms_address a) sdb ps inv = add_address-Invariant a sdb ps inv
    perform-Invariant (warms_slot a s) sdb ps inv = add_slot-Invariant a s sdb ps inv
    perform-Invariant (stores a k v) sdb ps inv = set_transient-Invariant a k v sdb ps inv
    perform-Invariant (destroys a) sdb ps inv =
        let (sdb', b, e, i) = suicide-Invariant a sdb ps inv in (sdb', rw e refl, i)
    perform-Invariant (call true body) sdb ps inv =
        let (s1, id, e1, v1, i1) = snapshot-Invariant h law sdb ps inv in
        let (s2, e2, i2) = perform_all-Invariant body s1 ((id, shown h law sdb) ∷ ps) i1 in
        (s2, rw (e1, e2) refl, forget-Invariant h law s2 (id, shown h law sdb) ps i2)
    perform-Invariant (call false body) sdb ps inv =
        let (s1, id, e1, v1, i1) = snapshot-Invariant h law sdb ps inv in
        let (s2, e2, i2) = perform_all-Invariant body s1 ((id, shown h law sdb) ∷ ps) i1 in
        let (s3, e3, v3, al, tr, i3) =
          revert-Invariant h law s2 id (shown h law sdb) ps inv.kinds i2 in
        (s3, rw (e1, e2) e3, i3)

    perform_all-Invariant :
        (acts : Actions h) (sdb : StateDb h) (ps : List (ℤ × List (Key × View h law)))
        → Invariant h law sdb ps
        → (sdb' : StateDb h) × (perform_all h acts sdb ≡ ok sdb') × Invariant h law sdb' ps
    perform_all-Invariant nil sdb ps inv = (sdb, refl, inv)
    perform_all-Invariant (cons a rest) sdb ps inv =
        let (s1, e1, i1) = perform-Invariant a sdb ps inv in
        let (s2, e2, i2) = perform_all-Invariant rest s1 ps i1 in (s2, rw e1 e2, i2)

  -- A failed call, whatever it did inside and however its inner calls ended, returns without a panic,
  -- and every object registered with the controller shows again what it showed before the call.
  pub failed_call_leaves_no_trace :
      (body : Actions h) (sdb : StateDb h) (ps : List (ℤ × List (Key × View h law)))
      → Invariant h law sdb ps
      → (sdb' : StateDb h) × (perform h (call false body) sdb ≡ ok sdb')
        × (shown h law sdb' ≡ shown h law sdb)
        × Invariant h law sdb' ps
  unfolding perform
  failed_call_leaves_no_trace body sdb ps inv =
      let (s1, id, e1, v1, i1) = snapshot-Invariant h law sdb ps inv in
      let (s2, e2, i2) = perform_all-Invariant body s1 ((id, shown h law sdb) ∷ ps) i1 in
      let (s3, e3, v3, al, tr, i3) =
        revert-Invariant h law s2 id (shown h law sdb) ps inv.kinds i2 in
      (s3, rw (e1, e2) e3, v3, i3)

  -- No sequence of actions panics, and the restore points of the calls around it are kept.
  pub performs_without_panic :
      (acts : Actions h) (sdb : StateDb h) (ps : List (ℤ × List (Key × View h law)))
      → Invariant h law sdb ps
      → (sdb' : StateDb h) × (perform_all h acts sdb ≡ ok sdb') × Invariant h law sdb' ps
  performs_without_panic acts sdb ps inv = perform_all-Invariant acts sdb ps inv
