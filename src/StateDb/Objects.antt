-- ===== src/StateDb/Objects.antt =====
-- The objects that the state database registers with its controller, one kind for each key.
use molaris.Prelude.{ℕ, ◌≡◌, ap, ◌↔◌, true, arith, ◌==◌, ==_iff, ℤ, Exec, ◌>>=◌, ok, Eq}
use molaris.Snapshot.{Controllable}
use molaris.Journal.Refund
use molaris.Journal.Refund.{Refund}
use molaris.Journal.Logs
use molaris.Journal.Logs.{Logs, Log}
use molaris.Journal.Suicides
use molaris.Journal.Suicides.{Suicides}
use molaris.Journal.Transient
use molaris.Journal.Transient.{TransientStorage, TransientState}
use molaris.Journal.AccessList
use molaris.Journal.AccessList.{AccessJournal}
use molaris.StateDb.Host.{Host}

-- The registry keys, `statePlugin` and those of eth/core/state/journal/constants.go.
pub data Key : Type 0 where
  plugin_key logs_key refund_key access_list_key suicides_key transient_key : Key

abbrev pub key_number : Key → ℕ
key_number plugin_key = 0
key_number logs_key = 1
key_number refund_key = 2
key_number access_list_key = 3
key_number suicides_key = 4
key_number transient_key = 5

key_number_injective : (a b : Key) → key_number a ≡ key_number b → a ≡ b
key_number_injective a b h = ground arith

pub key_eq_iff : (a b : Key) → ((key_number a == key_number b) ≡ true) ↔ (a ≡ b)
key_eq_iff a b = (
  λ h. key_number_injective a b ((==_iff (key_number a) (key_number b)).0 h),
  λ h. (==_iff (key_number a) (key_number b)).1 (ap key_number h),
)

instance abbrev pub key_eq : Eq Key
key_eq = record { beq = λ a b. key_number a == key_number b; beq_iff = key_eq_iff }

module _ (h : Host) where
  pub data Object : Type 0 where
    plugin : h.Plugin → Object
    logs : Logs h.Payload → Object
    refund : Refund → Object
    access_list : AccessJournal h.AccessSet → Object
    suicides : Suicides → Object
    transient : TransientStorage → Object

  unfoldable pub object_key : Object → Key
  object_key (plugin p) = plugin_key
  object_key (logs l) = logs_key
  object_key (refund r) = refund_key
  object_key (access_list al) = access_list_key
  object_key (suicides s) = suicides_key
  object_key (transient t) = transient_key

  unfoldable pub snapshot_object : Object → Exec (Object × ℤ)
  snapshot_object (plugin p) = h.plugin_snapshot p >>= λ r. ok (plugin r.0, r.1)
  snapshot_object (logs l) = Logs.snapshot h.zero_log l >>= λ r. ok (logs r.0, r.1)
  snapshot_object (refund r) = Refund.snapshot r >>= λ q. ok (refund q.0, q.1)
  snapshot_object (access_list al) =
      AccessList.snapshot h.lists al >>= λ r. ok (access_list r.0, r.1)
  snapshot_object (suicides s) = Suicides.snapshot s >>= λ r. ok (suicides r.0, r.1)
  snapshot_object (transient t) = Transient.snapshot t >>= λ r. ok (transient r.0, r.1)

  unfoldable pub revert_object : Object → ℤ → Exec Object
  revert_object (plugin p) id = h.plugin_revert p id >>= λ r. ok (plugin r)
  revert_object (logs l) id = Logs.revert_to_snapshot h.zero_log l id >>= λ r. ok (logs r)
  revert_object (refund r) id = Refund.revert_to_snapshot r id >>= λ q. ok (refund q)
  revert_object (access_list al) id =
      AccessList.revert_to_snapshot h.lists al id >>= λ r. ok (access_list r)
  revert_object (suicides s) id = Suicides.revert_to_snapshot s id >>= λ r. ok (suicides r)
  revert_object (transient t) id = Transient.revert_to_snapshot t id >>= λ r. ok (transient r)

  unfoldable pub finalize_object : Object → Exec Object
  finalize_object (plugin p) = h.plugin_finalize p >>= λ r. ok (plugin r)
  finalize_object (logs l) = ok (logs (Logs.finalize h.zero_log l))
  finalize_object (refund r) = ok (refund (Refund.finalize r))
  finalize_object (access_list al) = AccessList.finalize h.lists al >>= λ r. ok (access_list r)
  finalize_object (suicides s) = ok (suicides (Suicides.finalize s))
  finalize_object (transient t) = ok (transient (Transient.finalize t))

  -- The methods that the controller calls.
  abbrev pub methods : Controllable Key Object
  methods = record {
    registry_key = object_key;
    snapshot = snapshot_object;
    revert_to_snapshot = revert_object;
    finalize = finalize_object;
  }
