-- ===== src/StateDb/Warm.antt =====
-- `Prepare` of a Berlin transaction: it fills a fresh access list that the controller does not know,
-- so what a failed call warmed up stays warm.
use molaris.Prelude.{
  ◌≡◌, refl, ap, ◌∙◌, subst, true, false, Option, List, [], ◌∷◌, arith, ==_refl, get_elem?-some, ℤ,
  >>=-eq-ok, ok,
}
use molaris.Journal.Marks.{StackGuards-new}
use molaris.Journal.Transient
use molaris.Journal.Transient.{TransientStorage}
use molaris.Journal.AccessList
use molaris.Journal.AccessList.{AccessJournal, change}
use molaris.Journal.AccessList.Guards.{
  AccessGuards, present-eq, change-AccessGuards, address_in_present,
}
use molaris.Journal.{Address, Hash}
use molaris.StateDb.Host.{Host, PluginLaw}
use molaris.StateDb.Laws.{View}
use molaris.Snapshot
use molaris.StateDb.Objects.{Key, key_eq, methods}
use molaris.StateDb.Operations.{
  StateDb, detached, Rules, prepare, on_access_list_field, add_address_to_access_list,
  address_in_access_list, access_list_of, snapshot,
}
use molaris.StateDb.Invariant.{Invariant, shown, snapshot-Invariant, revert-Invariant, AccessField}
use molaris.StateDb.Frames.{call, warms_address, nil, cons, perform}
use molaris.StateDb.Prepare.{new_accesslist-AccessGuards}
use molaris.StateDb.Detached.{Detached, warm_up-Detached}

module _ (h : Host) (law : PluginLaw h) where
  -- `Prepare` of a Berlin transaction returns without a panic, whatever it has to warm up. It keeps
  -- the invariant and every registered object, and leaves in the fields an access list and an empty
  -- transient storage that the controller does not know.
  pub prepare-detached :
      (rules : Rules) (sender coinbase : Address) (dest : Option Address)
      (precompiles : List Address) (tx_accesses : List (Address × List Hash)) (sdb : StateDb h)
      (ps : List (ℤ × List (Key × View h law)))
      → rules.is_berlin ≡ true
      → Invariant h law sdb ps
      → (sdb' : StateDb h) × (prepare h rules sender coinbase dest precompiles tx_accesses sdb
          ≡ ok sdb')
        × (sdb'.ctrl ≡ sdb.ctrl)
        × (sdb'.transient_field ≡ detached Transient.new_transient_storage)
        × ((al : AccessJournal h.AccessSet) × (sdb'.access_list_field ≡ detached al))
        × Invariant h law sdb' ps
  unfolding prepare Transient.new_transient_storage
  prepare-detached rules sender coinbase dest precompiles tx_accesses sdb ps berlin inv =
      let (al, e, g) = new_accesslist-AccessGuards h in
      let s0 : StateDb h = record sdb { access_list_field = detached al } in
      let d0 : Detached h law s0 s0 ps = record {
        same_ctrl = refl;
        same_transient = refl;
        list = al;
        points = refl;
        invariant = record {
          guards = inv.guards;
          kinds = inv.kinds;
          access_sound = g;
          transient_sound = inv.transient_sound;
        };
      } in
      let (s, es, d) =
        warm_up-Detached h law rules sender coinbase dest precompiles tx_accesses s0 s0 ps d0 in
      (
        record s { transient_field = detached Transient.new_transient_storage },
        simp (berlin, e, es),
        d.same_ctrl,
        refl,
        (d.list, d.points),
        record {
          guards = d.invariant.guards;
          kinds = d.invariant.kinds;
          access_sound = d.invariant.access_sound;
          transient_sound = StackGuards-new [] 32 (omega arith);
        },
      )

  -- Before Berlin, `Prepare` only replaces the transient storage.
  pub prepare-legacy :
      (rules : Rules) (sender coinbase : Address) (dest : Option Address)
      (precompiles : List Address) (tx_accesses : List (Address × List Hash)) (sdb : StateDb h)
      → rules.is_berlin ≡ false
      → prepare h rules sender coinbase dest precompiles tx_accesses sdb
        ≡ ok (record sdb { transient_field = detached Transient.new_transient_storage })
  unfolding prepare
  prepare-legacy rules sender coinbase dest precompiles tx_accesses sdb legacy = rw legacy refl

  snapshot-fields :
      (sdb s : StateDb h) (id : ℤ)
      → snapshot h sdb ≡ ok (s, id)
      → (s.access_list_field ≡ sdb.access_list_field)
  unfolding snapshot
  snapshot-fields sdb s id e =
      let (r, er, eo) =
        >>=-eq-ok (Snapshot.snapshot (methods h) sdb.ctrl)
          (λ r. ok (record sdb { ctrl = r.0 }, r.1)) e in
      let is : s ≡ record sdb { ctrl = r.0 } = cc in rw is refl

  add_address-detached :
      (addr : Address) (s : StateDb h) (al y : AccessJournal h.AccessSet)
      → s.access_list_field ≡ detached al
      → change h.lists (h.lists.add_address addr) al ≡ ok y
      → add_address_to_access_list h addr s ≡ ok (record s { access_list_field = detached y })
  unfolding add_address_to_access_list AccessList.add_address_to_access_list on_access_list_field
  add_address-detached addr s al y points e = rw (points, on_access_list_field, e) refl

  address_in-detached :
      (addr : Address) (s : StateDb h) (al : AccessJournal h.AccessSet)
      → s.access_list_field ≡ detached al
      → address_in_access_list h s addr ≡ AccessList.address_in_access_list h.lists al addr
  unfolding address_in_access_list access_list_of
  address_in-detached addr s al points = rw (points, access_list_of) refl

  -- Once the access list is one that the controller does not know, as after `Prepare`, an address that
  -- a call warms up is still in the access list after the call has failed and its changes are
  -- reverted.
  pub failed_call_stays_warm :
      (addr : Address) (sdb : StateDb h) (al : AccessJournal h.AccessSet)
      (ps : List (ℤ × List (Key × View h law)))
      → sdb.access_list_field ≡ detached al
      → Invariant h law sdb ps
      → (sdb' : StateDb h) × (perform h (call false (cons (warms_address addr) nil)) sdb ≡ ok sdb')
        × (address_in_access_list h sdb' addr ≡ ok true)
  unfolding perform
  failed_call_stays_warm addr sdb al ps points inv =
      let (s1, id, e1, v1, i1) = snapshot-Invariant h law sdb ps inv in
      let points1 : s1.access_list_field ≡ detached al = snapshot-fields sdb s1 id e1 ∙ points in
      let g : AccessGuards al [] = subst (AccessField h law) points1 i1.access_sound in
      let (l, el) = get_elem?-some al.objects g.top g.allocated in
      let (y, e, ep, g') =
        change-AccessGuards h.lists (h.lists.add_address addr) al l [] g
          (present-eq al g.top g.pointed ∙ el) in
      let s2 : StateDb h = record s1 { access_list_field = detached y } in
      let i2 : Invariant h law s2 ((id, shown h law sdb) ∷ ps) = record {
        guards = i1.guards;
        kinds = i1.kinds;
        access_sound = g';
        transient_sound = i1.transient_sound;
      } in
      let (s3, e3, v3, same, tr, i3) =
        revert-Invariant h law s2 id (shown h law sdb) ps inv.kinds i2 in
      (
        s3,
        rw (e1, add_address-detached addr s1 al y points1 e) e3,
        address_in-detached addr s3 y same
            ∙ address_in_present h.lists y _ [] addr g' ep
            ∙ ap ok (rw (h.lists.contains_address-add_address addr addr l, ==_refl addr) refl),
      )
