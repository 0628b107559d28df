-- ===== src/StateDb/Operations.antt =====
-- The operations of the state database. Its journal fields are the objects that are registered with
-- the controller, until `Prepare` puts fresh journals in two of them without registering these.
use molaris.Prelude.{
  ℕ, Bool, Option, none, some, List, [], ◌∷◌, if◌then◌else◌, length, ℤ, Exec, ◌>>=◌, nil_access, ok,
  panics,
}
use molaris.Registry
use molaris.Snapshot
use molaris.Snapshot.{Controller}
use molaris.Snapshot.Change.{change_object}
use molaris.Journal.Refund
use molaris.Journal.Logs
use molaris.Journal.Logs.{Log}
use molaris.Journal.Suicides
use molaris.Journal.Transient
use molaris.Journal.Transient.{TransientStorage}
use molaris.Journal.AccessList
use molaris.Journal.AccessList.{AccessJournal}
use molaris.Journal.{Address, Hash}
use molaris.StateDb.Host.{Host}
use molaris.StateDb.Objects.{
  Key, plugin_key, logs_key, refund_key, access_list_key, suicides_key, transient_key, key_eq,
  Object, plugin, logs, refund, access_list, suicides, transient, methods, object_key,
}

-- A field that points to the registered object, or to one that the controller does not know.
pub data Field (A : Type 0) : Type 0 where
  registered : Field A
  detached : A → Field A

pub record Rules : Type 0 where
  pub is_berlin : Bool
  pub is_shanghai : Bool

module _ (h : Host) where
  pub record StateDb : Type 0 where
    pub ctrl : Controller Key (Object h)
    pub access_list_field : Field (AccessJournal h.AccessSet)
    pub transient_field : Field TransientStorage

  unfoldable pub new_state_db : h.Plugin → Exec StateDb
  new_state_db sp = do
    al ← AccessList.new_accesslist h.lists
    let c0 = Snapshot.new_controller
    let i1 = Registry.register (object_key h) c0.items (plugin sp)
    let i2 = Registry.register (object_key h) i1 (logs (Logs.new_logs h.zero_log))
    let i3 = Registry.register (object_key h) i2 (refund Refund.new_refund)
    let i4 = Registry.register (object_key h) i3 (access_list al)
    let i5 = Registry.register (object_key h) i4 (suicides Suicides.new_suicides)
    let i6 = Registry.register (object_key h) i5 (transient Transient.new_transient_storage)
    ok (record {
      ctrl = record c0 { items = i6 };
      access_list_field = registered;
      transient_field = registered;
    })

  -- A method of a registered object; the type of the object under a key never changes.
  abbrev pub on_plugin : (h.Plugin → Exec h.Plugin) → Object h → Exec (Object h)
  on_plugin f (plugin p) = f p >>= λ q. ok (plugin q)
  on_plugin f o = panics nil_access

  abbrev pub on_logs :
      (Logs.Logs h.Payload → Exec (Logs.Logs h.Payload)) → Object h → Exec (Object h)
  on_logs f (logs l) = f l >>= λ q. ok (logs q)
  on_logs f o = panics nil_access

  abbrev pub on_refund : (Refund.Refund → Exec Refund.Refund) → Object h → Exec (Object h)
  on_refund f (refund r) = f r >>= λ q. ok (refund q)
  on_refund f o = panics nil_access

  abbrev pub on_access_list :
      (AccessJournal h.AccessSet → Exec (AccessJournal h.AccessSet)) → Object h → Exec (Object h)
  on_access_list f (access_list al) = f al >>= λ q. ok (access_list q)
  on_access_list f o = panics nil_access

  abbrev pub on_transient : (TransientStorage → Exec TransientStorage) → Object h → Exec (Object h)
  on_transient f (transient t) = f t >>= λ q. ok (transient q)
  on_transient f o = panics nil_access

  abbrev pub in_controller : Key → (Object h → Exec (Object h)) → StateDb → Exec StateDb
  in_controller key f sdb = change_object key f sdb.ctrl >>= λ c. ok (record sdb { ctrl = c })

  unfoldable pub on_access_list_field :
      (AccessJournal h.AccessSet → Exec (AccessJournal h.AccessSet)) → StateDb → Exec StateDb
  on_access_list_field f sdb = elim sdb.access_list_field [
    | registered ↦ in_controller access_list_key (on_access_list f) sdb
    | detached al ↦ f al >>= λ q. ok (record sdb { access_list_field = detached q })
  ]

  unfoldable pub on_transient_field :
      (TransientStorage → Exec TransientStorage) → StateDb → Exec StateDb
  on_transient_field f sdb = elim sdb.transient_field [
    | registered ↦ in_controller transient_key (on_transient f) sdb
    | detached t ↦ f t >>= λ q. ok (record sdb { transient_field = detached q })
  ]

  -- A method of the plugin that the state database embeds, such as `SetState`.
  unfoldable pub change_plugin : h.PluginCall → StateDb → Exec StateDb
  change_plugin call = in_controller plugin_key (on_plugin (h.call_plugin call))

  unfoldable pub add_log : Log h.Payload → StateDb → Exec StateDb
  add_log log = in_controller logs_key (on_logs (λ l. Logs.add_log h.zero_log l log))

  unfoldable pub add_refund : ℕ → StateDb → Exec StateDb
  add_refund gas = in_controller refund_key (on_refund (λ r. Refund.add_refund r gas))

  unfoldable pub sub_refund : ℕ → StateDb → Exec StateDb
  sub_refund gas = in_controller refund_key (on_refund (λ r. Refund.sub_refund r gas))

  unfoldable pub add_address_to_access_list : Address → StateDb → Exec StateDb
  add_address_to_access_list addr =
      on_access_list_field (λ al. AccessList.add_address_to_access_list h.lists al addr)

  unfoldable pub add_slot_to_access_list : Address → Hash → StateDb → Exec StateDb
  add_slot_to_access_list addr slot =
      on_access_list_field (λ al. AccessList.add_slot_to_access_list h.lists al addr slot)

  -- The access list that the field points to.
  unfoldable pub access_list_of : StateDb → Exec (AccessJournal h.AccessSet)
  access_list_of sdb = elim sdb.access_list_field [
    | registered ↦ elim (Registry.get sdb.ctrl.items access_list_key) [
      | some (access_list al) ↦ ok al
      | _ ↦ panics nil_access
    ]
    | detached al ↦ ok al
  ]

  unfoldable pub address_in_access_list : StateDb → Address → Exec Bool
  address_in_access_list sdb addr = do
    al ← access_list_of sdb
    AccessList.address_in_access_list h.lists al addr

  unfoldable pub set_transient_state : Address → Hash → Hash → StateDb → Exec StateDb
  set_transient_state addr key value =
      on_transient_field (λ t. Transient.set_transient_state t addr key value)

  unfoldable pub snapshot : StateDb → Exec (StateDb × ℤ)
  snapshot sdb = Snapshot.snapshot (methods h) sdb.ctrl >>= λ r. ok (record sdb { ctrl = r.0 }, r.1)

  unfoldable pub revert_to_snapshot : StateDb → ℤ → Exec StateDb
  revert_to_snapshot sdb id =
      Snapshot.revert_to_snapshot (methods h) sdb.ctrl id >>= λ c. ok (record sdb { ctrl = c })

  unfoldable pub each {ℓ} :
      {A : Type ℓ} → (A → StateDb → Exec StateDb) → List A → StateDb → Exec StateDb
  each f [] sdb = ok sdb
  each f (x ∷ xs) sdb = f x sdb >>= each f xs

  -- The accounts and slots that EIP-2929 and EIP-2930 warm up, in the source's order.
  unfoldable pub warm_up :
      Rules
      → Address
      → Address
      → Option Address
      → List Address
      → List (Address × List Hash)
      → StateDb
      → Exec StateDb
  warm_up rules sender coinbase dest precompiles tx_accesses sdb = do
    s1 ← add_address_to_access_list sender sdb
    s2 ← elim dest [ none ↦ ok s1 | some d ↦ add_address_to_access_list d s1 ]
    s3 ← each add_address_to_access_list precompiles s2
    s4 ←
        each
          (λ el s. add_address_to_access_list el.0 s >>= each (add_slot_to_access_list el.0) el.1)
          tx_accesses s3
    if rules.is_shanghai then add_address_to_access_list coinbase s4 else ok s4

  unfoldable pub prepare :
      Rules
      → Address
      → Address
      → Option Address
      → List Address
      → List (Address × List Hash)
      → StateDb
      → Exec StateDb
  prepare rules sender coinbase dest precompiles tx_accesses sdb = do
    s ←
        if rules.is_berlin
        then (AccessList.new_accesslist h.lists >>= λ al.
            warm_up rules sender coinbase dest precompiles tx_accesses
              (record sdb { access_list_field = detached al }))
        else ok sdb
    ok (record s { transient_field = detached Transient.new_transient_storage })

  -- `Suicide` reads and changes the plugin, and journals the account.
  unfoldable pub suicide : Address → StateDb → Exec (StateDb × Bool)
  suicide addr sdb = elim (Registry.get sdb.ctrl.items plugin_key) [
    | some (plugin p) ↦ elim (Registry.get sdb.ctrl.items suicides_key) [
      | some (suicides s) ↦ do
        r ← Suicides.suicide h.ssp h.empty_code_hash s p addr
        c ← change_object plugin_key (λ o. ok (plugin r.1)) sdb.ctrl
        d ← change_object suicides_key (λ o. ok (suicides r.0)) c
        ok (record sdb { ctrl = d }, r.2)
      | _ ↦ panics nil_access
    ]
    | _ ↦ panics nil_access
  ]

  -- The bank commit comes first, then the deletion of the journaled accounts.
  unfoldable pub finalise : StateDb → Exec StateDb
  finalise sdb = do
    s ← in_controller plugin_key (on_plugin h.commit_to_bank) sdb
    addrs ← elim (Registry.get s.ctrl.items suicides_key) [
      | some (suicides x) ↦ Suicides.get_suicides x
      | _ ↦ panics nil_access
    ]
    t ← in_controller plugin_key (on_plugin (h.delete_accounts addrs)) s
    c ← Snapshot.finalize (methods h) t.ctrl
    ok (record t { ctrl = c })

  unfoldable pub intermediate_root : StateDb → Exec StateDb
  intermediate_root sdb = finalise sdb

  -- An earlier error of the plugin aborts the commit.
  unfoldable pub commit : StateDb → Exec (StateDb × Option h.Error)
  commit sdb = elim (Registry.get sdb.ctrl.items plugin_key) [
    | some (plugin p) ↦ elim (h.error p) [
      | some err ↦ ok (sdb, some err)
      | none ↦ intermediate_root sdb >>= λ s. ok (s, none)
    ]
    | _ ↦ panics nil_access
  ]

  unfoldable pub get_code_size : StateDb → Address → Exec (StateDb × ℕ)
  get_code_size sdb addr = elim (Registry.get sdb.ctrl.items plugin_key) [
    | some (plugin p) ↦ do
      r ← h.get_code p addr
      s ← in_controller plugin_key (λ o. ok (plugin r.0)) sdb
      ok (s, length r.1)
    | _ ↦ panics nil_access
  ]
