-- ===== src/Tests/Hosts.antt =====
-- The state database on a concrete host.
use molaris.Prelude.{
  ℕ, ◌≡◌, refl, Bool, true, false, ◌||◌, none, some, List, [], ◌∷◌, arith, ◌==◌, ℤ, pos, ok,
}
use molaris.Stack.{Stack, items}
use molaris.Journal.Marks.{StackGuards, forget-StackGuards, snapshot-StackGuards}
use molaris.Journal.Refund
use molaris.Journal.Refund.{Refund, add_refund-Guards}
use molaris.Journal.Transient
use molaris.Journal.AccessList.{AccessLists, AccessJournal}
use molaris.StateDb.Host.{Host, PluginLaw}
use molaris.StateDb.Objects.{key_eq}
use molaris.StateDb.Operations.{
  StateDb, Rules, detached, new_state_db, prepare, address_in_access_list,
}
use molaris.StateDb.Invariant.{Invariant, shown}
use molaris.StateDb.Frames.{
  Actions, nil, cons, call, refunds, stores, warms_address, destroys, perform, perform_all,
  failed_call_leaves_no_trace, performs_without_panic,
}
use molaris.StateDb.Prepare.{new_state_db-Invariant}
use molaris.StateDb.Warm.{prepare-detached, failed_call_stays_warm}

abbrev pub holds_address : List ℕ → ℕ → Bool
holds_address [] a = false
holds_address (b ∷ bs) a = (b == a) || holds_address bs a

abbrev pub address_lists : AccessLists (List ℕ)
address_lists = record {
  new_list = [];
  add_address = λ a l. a ∷ l;
  add_slot = λ a s l. a ∷ l;
  contains_address = holds_address;
  contains = λ l a s. (holds_address l a, false);
  copy = λ l. l;
  copy_lem = λ l. refl;
  contains_address-add_address = λ a b l. refl;
}

-- A plugin whose state is a journal of numbers.
abbrev host : Host
host = record {
  Plugin = Stack ℕ;
  Error = ℕ;
  PluginCall = ℕ;
  Payload = ℕ;
  AccessSet = List ℕ;
  plugin_snapshot = Refund.snapshot;
  plugin_revert = Refund.revert_to_snapshot;
  plugin_finalize = λ p. ok (Refund.finalize p);
  commit_to_bank = λ p. ok p;
  delete_accounts = λ addrs p. ok p;
  error = λ p. none;
  get_code = λ p a. ok (p, 1 ∷ []);
  call_plugin = λ n p. Refund.add_refund p n;
  ssp = record { get_code_hash = λ p a. 7; get_balance = λ p a. pos 5; sub_balance = λ p a v. p };
  lists = address_lists;
  zero_log = record { payload = 0; block_number = 0; block_hash = 0; tx_hash = 0; tx_index = 0 };
  empty_code_hash = 3;
}

pub snapshot_numbers :
    (p : Stack ℕ) (qs : List (ℤ × List ℕ))
    → StackGuards p qs
    → (p' : Stack ℕ) × (id : ℤ) × (Refund.snapshot p ≡ ok (p', id))
      × (items p' ≡ items p)
      × StackGuards p' ((id, items p) ∷ qs)
unfolding Refund.snapshot
snapshot_numbers p qs g = (p, pos p.size, refl, refl, snapshot-StackGuards p qs g)

abbrev law : PluginLaw host
law = record {
  PluginView = List ℕ;
  plugin_view = items;
  PluginGuards = StackGuards;
  forget_plugin = forget-StackGuards;
  snapshot_plugin = snapshot_numbers;
  revert_plugin = λ p id v qs g. Refund.revert-Guards p id v qs g;
  call_keeps = λ n p qs g. let (y, e, ec, g') = add_refund-Guards p n qs g in (y, e, g');
  sub_balance_keeps = λ p a v qs g. g;
}

abbrev numbers : Stack ℕ
numbers = record { size = 0; capacity = 1; buf = 0 ∷ [] }

numbers-Guards : StackGuards numbers []
numbers-Guards = record {
  sound = record { within = omega arith; filled = refl; grows = omega arith };
  marks = tt;
}

new_database :
    (sdb : StateDb host) × (new_state_db host numbers ≡ ok sdb) × Invariant host law sdb []
new_database = new_state_db-Invariant host law numbers numbers-Guards

new_state_db-Invariant_example :
    (sdb : StateDb host) × (new_state_db host numbers ≡ ok sdb) × Invariant host law sdb []
new_state_db-Invariant_example = new_state_db-Invariant host law numbers numbers-Guards

abbrev berlin : Rules
berlin = record { is_berlin = true; is_shanghai = true }

prepare-detached_example :
    (sdb : StateDb host) × (prepare host berlin 1 2
        (some 3)
        (4 ∷ 5 ∷ [])
        ((6, 7 ∷ []) ∷ [])
        new_database.0
      ≡ ok sdb)
    × (sdb.ctrl ≡ (new_database.0).ctrl)
    × (sdb.transient_field ≡ detached Transient.new_transient_storage)
    × ((al : AccessJournal (List ℕ)) × (sdb.access_list_field ≡ detached al))
    × Invariant host law sdb []
prepare-detached_example =
    prepare-detached host law berlin 1 2 (some 3) (4 ∷ 5 ∷ []) ((6, 7 ∷ []) ∷ []) new_database.0 []
      refl new_database.2

prepared :
    (sdb : StateDb host) × (prepare host berlin 1 2
        (some 3)
        (4 ∷ 5 ∷ [])
        ((6, 7 ∷ []) ∷ [])
        new_database.0
      ≡ ok sdb)
    × (sdb.ctrl ≡ (new_database.0).ctrl)
    × (sdb.transient_field ≡ detached Transient.new_transient_storage)
    × ((al : AccessJournal (List ℕ)) × (sdb.access_list_field ≡ detached al))
    × Invariant host law sdb []
prepared =
    prepare-detached host law berlin 1 2 (some 3) (4 ∷ 5 ∷ []) ((6, 7 ∷ []) ∷ []) new_database.0 []
      refl new_database.2

failed_call_stays_warm_example :
    (sdb : StateDb host) × (perform host (call false (cons (warms_address 9) nil)) prepared.0
      ≡ ok sdb)
    × (address_in_access_list host sdb 9 ≡ ok true)
failed_call_stays_warm_example =
    failed_call_stays_warm host law 9 prepared.0 prepared.4.0 [] prepared.4.1 prepared.5

-- A call that destroys an account, and makes a call that fails within it.
abbrev acts : Actions host
acts =
    cons (refunds 100)
      (cons (call false (cons (stores 1 2 3) (cons (destroys 4) nil))) (cons (warms_address 5) nil))

failed_call_leaves_no_trace_example :
    (sdb : StateDb host) × (perform host (call false acts) new_database.0 ≡ ok sdb)
    × (shown host law sdb ≡ shown host law new_database.0)
    × Invariant host law sdb []
failed_call_leaves_no_trace_example =
    failed_call_leaves_no_trace host law acts new_database.0 [] new_database.2

performs_without_panic_example :
    (sdb : StateDb host) × (perform_all host acts new_database.0 ≡ ok sdb)
    × Invariant host law sdb []
performs_without_panic_example =
    performs_without_panic host law acts new_database.0 [] new_database.2
