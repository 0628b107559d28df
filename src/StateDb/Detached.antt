-- ===== src/StateDb/Detached.antt =====
-- What `Prepare` warms up goes into an access list that the controller does not know, and changes
-- nothing else.
use molaris.Prelude.{
  ◌≡◌, refl, subst, Bool, true, false, Option, none, some, List, [], ◌∷◌, if◌then◌else◌, ℤ, Exec,
  ◌>>=◌, ok,
}
use molaris.Journal.AccessList
use molaris.Journal.AccessList.{AccessJournal, change}
use molaris.Journal.{Address, Hash}
use molaris.StateDb.Host.{Host, PluginLaw}
use molaris.StateDb.Laws.{View}
use molaris.StateDb.Objects.{Key, key_eq}
use molaris.StateDb.Operations.{
  StateDb, detached, Rules, warm_up, each, on_access_list_field, add_address_to_access_list,
  add_slot_to_access_list,
}
use molaris.StateDb.Invariant.{Invariant, AccessField}
use molaris.StateDb.Frames.{changed}

module _ (h : Host) (law : PluginLaw h) where
  -- A state database like `start`, but for the access list, which the controller does not know.
  pub record Detached (start s : StateDb h) (ps : List (ℤ × List (Key × View h law))) : Type 0 where
    pub same_ctrl : s.ctrl ≡ start.ctrl
    pub same_transient : s.transient_field ≡ start.transient_field
    pub list : AccessJournal h.AccessSet
    pub points : s.access_list_field ≡ detached list
    pub invariant : Invariant h law s ps

  change-Detached :
      (f : h.AccessSet → h.AccessSet) (start s : StateDb h)
      (ps : List (ℤ × List (Key × View h law)))
      → Detached start s ps
      → (s' : StateDb h) × (on_access_list_field h (change h.lists f) s ≡ ok s')
        × Detached start s' ps
  unfolding on_access_list_field
  change-Detached f start s ps d =
      let (y, e, g) =
        changed h law f d.list [] (subst (AccessField h law) d.points d.invariant.access_sound) in
      (
        record s { access_list_field = detached y },
        rw (d.points, on_access_list_field, e) refl,
        record {
          same_ctrl = d.same_ctrl;
          same_transient = d.same_transient;
          list = y;
          points = refl;
          invariant = record {
            guards = d.invariant.guards;
            kinds = d.invariant.kinds;
            access_sound = g;
            transient_sound = d.invariant.transient_sound;
          };
        },
      )

  address-Detached :
      (a : Address) (start s : StateDb h) (ps : List (ℤ × List (Key × View h law)))
      → Detached start s ps
      → (s' : StateDb h) × (add_address_to_access_list h a s ≡ ok s') × Detached start s' ps
  unfolding add_address_to_access_list AccessList.add_address_to_access_list
  address-Detached a start s ps d = change-Detached (h.lists.add_address a) start s ps d

  slot-Detached :
      (a : Address) (k : Hash) (start s : StateDb h) (ps : List (ℤ × List (Key × View h law)))
      → Detached start s ps
      → (s' : StateDb h) × (add_slot_to_access_list h a k s ≡ ok s') × Detached start s' ps
  unfolding add_slot_to_access_list AccessList.add_slot_to_access_list
  slot-Detached a k start s ps d = change-Detached (h.lists.add_slot a k) start s ps d

  each-Detached :
      {A : Type 0} (f : A → StateDb h → Exec (StateDb h)) (xs : List A) (start s : StateDb h)
      (ps : List (ℤ × List (Key × View h law)))
      → ((x : A) (t : StateDb h)
          → Detached start t ps
          → (t' : StateDb h) × (f x t ≡ ok t') × Detached start t' ps)
      → Detached start s ps
      → (s' : StateDb h) × (each h f xs s ≡ ok s') × Detached start s' ps
  unfolding each
  each-Detached f [] start s ps step d = (s, refl, d)
  each-Detached f (x ∷ xs) start s ps step d =
      let (t, e, dt) = step x s d in
      let (u, eu, du) = each-Detached f xs start t ps step dt in (u, rw e eu, du)

  destination-Detached :
      (dest : Option Address) (start s : StateDb h) (ps : List (ℤ × List (Key × View h law)))
      → Detached start s ps
      → (s' : StateDb h) × ((elim dest [ none ↦ ok s | some a ↦ add_address_to_access_list h a s ])
          ≡ ok s')
        × Detached start s' ps
  destination-Detached none start s ps d = (s, refl, d)
  destination-Detached (some a) start s ps d = address-Detached a start s ps d

  coinbase-Detached :
      (b : Bool) (coinbase : Address) (start s : StateDb h)
      (ps : List (ℤ × List (Key × View h law)))
      → Detached start s ps
      → (s' : StateDb h) × ((if b then add_address_to_access_list h coinbase s else ok s) ≡ ok s')
        × Detached start s' ps
  coinbase-Detached true coinbase start s ps d = address-Detached coinbase start s ps d
  coinbase-Detached false coinbase start s ps d = (s, refl, d)

  entry-Detached :
      (el : Address × List Hash) (start s : StateDb h) (ps : List (ℤ × List (Key × View h law)))
      → Detached start s ps
      → (s' : StateDb h) × ((add_address_to_access_list h el.0 s
            >>= each h (add_slot_to_access_list h el.0) el.1)
          ≡ ok s')
        × Detached start s' ps
  entry-Detached (a, slots) start s ps d =
      let (t, e, dt) = address-Detached a start s ps d in
      let (u, eu, du) =
        each-Detached (add_slot_to_access_list h a) slots start t ps
          (λ k x dx. slot-Detached a k start x ps dx) dt in
      (u, rw e eu, du)

  pub warm_up-Detached :
      (rules : Rules) (sender coinbase : Address) (dest : Option Address)
      (precompiles : List Address) (tx_accesses : List (Address × List Hash)) (start s : StateDb h)
      (ps : List (ℤ × List (Key × View h law)))
      → Detached start s ps
      → (s' : StateDb h) × (warm_up h rules sender coinbase dest precompiles tx_accesses s ≡ ok s')
        × Detached start s' ps
  unfolding warm_up
  warm_up-Detached rules sender coinbase dest precompiles tx_accesses start s ps d =
      let (s1, e1, d1) = address-Detached sender start s ps d in
      let (s2, e2, d2) = destination-Detached dest start s1 ps d1 in
      let (s3, e3, d3) =
        each-Detached (add_address_to_access_list h) precompiles start s2 ps
          (λ a x dx. address-Detached a start x ps dx) d2 in
      let (s4, e4, d4) =
        each-Detached _ tx_accesses start s3 ps (λ el x dx. entry-Detached el start x ps dx) d3 in
      let (s5, e5, d5) = coinbase-Detached rules.is_shanghai coinbase start s4 ps d4 in
      (s5, rw (e1, e2, e3, e4) e5, d5)
